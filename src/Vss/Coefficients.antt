-- ===== src/Vss/Coefficients.antt =====
-- lagrangeCoefficient of packages/crypto/src/vss.ts computes the weights of the interpolation at 0.
use fairproof_bcolbd.Prelude.{
  ℕ, ◌+◌, ◌-◌, ◌*◌, ◌%◌, ◌≤◌, ◌≡◌, refl, sym, arith, true, false, List, [], ◌∷◌, ◌==◌, All,
  All-weaken, ◌⊎◌, inl, inr, Bool-cases, contains, Result, ok, err,
}
use fairproof_bcolbd.Babyjub.{sub_order, inv_mod_sub_order}
use fairproof_bcolbd.Babyjub.Invertible.{inv_mod_sub_order-ok_iff}
use fairproof_bcolbd.Vss.{lagrange_loop, lagrange_coefficient, has_duplicate}
use fairproof_bcolbd.Vss.Modular.{◌≅◌, of_eq, symm, ◌≫◌, mul_cong, mul_cong_left, mod_cong, diff}
use fairproof_bcolbd.Vss.Products.{product_but, product_but-mul}
use fairproof_bcolbd.Vss.Interpolation.{Apart, Nodes, weight, inverses, All-zip}

-- the inverse, or zero for a value without one
or_zero : Result ℕ → ℕ
or_zero (ok b) = b
or_zero (err e) = 0

unfoldable pub inverse_diff : ℕ → ℕ → ℕ
unfolding or_zero
inverse_diff i j = or_zero (inv_mod_sub_order (diff i j % sub_order))

one_cong : (a : ℕ) → a ≅ 1 → a % sub_order ≡ 1
one_cong a h = omega (arith, h.residues)

cong_one : (a : ℕ) → a % sub_order ≡ 1 → a ≅ 1
cong_one a h = record { residues = omega (arith, h) }

-- Inversion succeeds on what has an inverse.
pub inv_mod_sub_order-unit :
    (a b : ℕ) → a * b ≅ 1 → (c : ℕ) × (inv_mod_sub_order a ≡ ok c) × (a * c ≅ 1)
inv_mod_sub_order-unit a b h =
    let c = b % sub_order in
    let product : a * c ≅ 1 = mul_cong_left a (mod_cong b) ≫ h in
    (c, (inv_mod_sub_order-ok_iff a c).0.1 (omega arith, one_cong (a * c) product), product)

pub inverse_diff-unit : (i j b : ℕ) → diff i j * b ≅ 1 → diff i j * inverse_diff i j ≅ 1
unfolding inverse_diff or_zero
inverse_diff-unit i j b h =
    let d = diff i j in
    let reduced : d % sub_order * b ≅ 1 = mul_cong (mod_cong d) (of_eq {b = b} refl) ≫ h in
    let (c, found, product) = inv_mod_sub_order-unit (d % sub_order) b reduced in
    rw found (mul_cong (symm (mod_cong d)) (of_eq {b = c} refl) ≫ product)

-- The two products of the loop.
lagrange_loop-product_but :
    (index : ℕ) (js : List ℕ) (n d : ℕ)
    → index ≤ sub_order
    → ((lagrange_loop index js n d).0 ≅ n * product_but index (λ j. diff j 0) js)
      × ((lagrange_loop index js n d).1 ≅ d * product_but index (λ j. diff j index) js)
unfolding lagrange_loop diff
lagrange_loop-product_but index [] n d h = (of_eq (omega arith), of_eq (omega arith))
lagrange_loop-product_but index (j ∷ js) n d h = elim (Bool-cases (j == index)) [
  | inl e ↦ rw (lagrange_loop, e) (lagrange_loop-product_but index js n d h)
  | inr e ↦
      let gap = (j + sub_order - index) % sub_order in
      let (top, bottom) =
        lagrange_loop-product_but index js (n * j % sub_order) (d * gap % sub_order) h in
      let at_zero : j ≅ diff j 0 = record { residues = omega arith } in
      let at_index : gap ≅ diff j index = record { residues = omega arith } in
      rw (lagrange_loop, e)
        (
          top
              ≫ mul_cong (mod_cong (n * j) ≫ mul_cong_left n at_zero)
                  (of_eq {b = product_but index (λ k. diff k 0) js} refl)
              ≫ of_eq (grind arith),
          bottom
              ≫ mul_cong (mod_cong (d * gap) ≫ mul_cong_left d at_index)
                  (of_eq {b = product_but index (λ k. diff k index) js} refl)
              ≫ of_eq (grind arith),
        )
]

module _ (w : ℕ → ℕ → ℕ) where
  -- The member `j` is `i`, or its difference from `i` is inverted.
  abbrev pub Inverted : ℕ → ℕ → Type 0
  Inverted i j = ((j == i) ≡ true) ⊎ (diff j i * w j i ≅ 1)

  pub Nodes-Inverted : (is : List ℕ) → Nodes w is → All (λ i. All (Inverted i) is) is
  Nodes-Inverted [] v = tt
  Nodes-Inverted (a ∷ is) (v, vs) =
      let self : (a == a) ≡ true = ground arith in
      (
        (inl self, All-weaken {P = Apart w a} {Q = Inverted a} (λ j p. inr p.inverse') is v),
        All-weaken {P = λ i. Apart w a i × All (Inverted i) is} {Q = λ i. All (Inverted i) (a ∷ is)}
            (λ i h. (inr h.0.inverse, h.1)) is
            (All-zip (Apart w a) (λ i. All (Inverted i) is) is v (Nodes-Inverted is vs)),
      )

  product_but-Inverted :
      (i : ℕ) (js : List ℕ) → All (Inverted i) js → product_but i (λ j. diff j i * w j i) js ≅ 1
  product_but-Inverted i [] v = of_eq refl
  product_but-Inverted i (j ∷ js) (p, v) = elim (Bool-cases (j == i)) [
    | inl e ↦ rw e (product_but-Inverted i js v)
    | inr e ↦ elim p [
      | inl same ↦ absurd (ground arith)
      | inr unit ↦ rw e (mul_cong unit (product_but-Inverted i js v))
    ]
  ]

  -- For distinct members the call succeeds, with the weight of the interpolation at 0.
  pub lagrange_coefficient-weight :
      (is : List ℕ) (index : ℕ)
      → contains index is ≡ true
      → has_duplicate is ≡ false
      → index ≤ sub_order
      → All (Inverted index) is
      → (k : ℕ) × (lagrange_coefficient is index ≡ ok k) × (k ≅ weight w 0 is index)
  unfolding lagrange_coefficient
  lagrange_coefficient-weight is index member distinct bounded v =
      let n = (lagrange_loop index is 1 1).0 in
      let d = (lagrange_loop index is 1 1).1 in
      let tops = product_but index (λ j. diff j 0) is in
      let bottoms = product_but index (λ j. diff j index) is in
      let all = inverses w is index in
      let (top, bottom) = lagrange_loop-product_but index is 1 1 bounded in
      let inverse : d * all ≅ 1 =
        mul_cong bottom (of_eq {b = all} refl)
        ≫ of_eq {b = bottoms * all} (omega arith)
        ≫ of_eq (sym (product_but-mul index (λ j. diff j index) (λ j. w j index) is))
        ≫ product_but-Inverted index is v in
      let (c, found, product) = inv_mod_sub_order-unit d all inverse in
      let same : c ≅ all =
        of_eq {b = c * 1} (omega arith)
        ≫ symm (mul_cong_left c inverse)
        ≫ of_eq {b = all * (d * c)} (grind arith)
        ≫ mul_cong_left all product
        ≫ of_eq (omega arith) in
      (
        n * c % sub_order,
        rw (member, distinct, found) refl,
        mod_cong (n * c)
            ≫ mul_cong top same
            ≫ of_eq {b = tops * all} (omega arith)
            ≫ of_eq (sym (product_but-mul index (λ j. diff j 0) (λ j. w j index) is)),
      )
