-- ===== src/Vss/Interpolation/Unity.antt =====
-- The weights by which packages/crypto/src/vss.ts interpolates sum up to 1.
use fairproof_bcolbd.Prelude.{
  ℕ, ◌+◌, ◌*◌, ◌≡◌, refl, sym, ap, ◌∙◌, arith, true, List, [], ◌∷◌, ◌==◌, All,
}
use fairproof_bcolbd.Vss.Modular.{
  ◌≅◌, of_eq, symm, ◌≫◌, add_cong, mul_cong, mul_cong_left, diff, diff_split,
}
use fairproof_bcolbd.Vss.Products.{
  sum, product, sum-cong, sum-add, sum-mul, product-mul, product-cong_one,
}
use fairproof_bcolbd.Vss.Interpolation.{
  Apart, Nodes, weight, inverses, All-zip, product_but_self, inverse_neg, weight-inverses,
}

module _ (w : ℕ → ℕ → ℕ) where
  abbrev numerators : ℕ → List ℕ → ℕ
  numerators z is = product (λ j. diff j z) is

  weight-cons :
      (z a i : ℕ) (is : List ℕ)
      → Apart w a i
      → diff i z * weight w z is i ≡ numerators z is * inverses w is i
      → weight w z (a ∷ is) i ≅ weight w z is i + numerators z is * (inverses w is i * w a i)
  weight-cons z a i is p h =
      let l = weight w z is i in
      let first : weight w z (a ∷ is) i ≡ diff a z * w a i * l = rw p.other refl in
      let e = ap (λ (t : ℕ). w a i * t) h in
      of_eq first
      ≫ mul_cong (mul_cong (diff_split a i z) (of_eq {b = w a i} refl)) (of_eq {b = l} refl)
      ≫ of_eq {b = l * (diff a i * w a i) + w a i * (diff i z * l)} (grind arith)
      ≫ add_cong (mul_cong_left l p.inverse) (of_eq e)
      ≫ of_eq (grind arith)

  weight-at :
      (a i : ℕ) (is : List ℕ)
      → Apart w a i
      → diff i a * weight w a is i ≡ numerators a is * inverses w is i
      → weight w a is i ≅ numerators a is * (inverses w is i * w i a)
  weight-at a i is p h =
      let l = weight w a is i in
      let e = ap (λ (t : ℕ). w i a * t) h in
      of_eq {b = l * 1} (omega arith)
      ≫ symm (mul_cong_left l p.inverse')
      ≫ of_eq {b = w i a * (diff i a * l)} (grind arith)
      ≫ of_eq e
      ≫ of_eq (grind arith)

  -- The two sums over the inverses of the differences from a new member are opposite.
  opposite_sums :
      (a : ℕ) (is : List ℕ)
      → All (Apart w a) is
      → sum (λ i. inverses w is i * w a i) is + sum (λ i. inverses w is i * w i a) is ≅ 0
  opposite_sums a is v =
      of_eq (sym (sum-add (λ i. inverses w is i * w a i) (λ i. inverses w is i * w i a) is))
      ≫ sum-cong {P = Apart w a} (λ i. inverses w is i * w a i + inverses w is i * w i a)
          (λ i. 0 * i) is
          (λ i p.
            of_eq {b = inverses w is i * (w a i + w i a)} (grind arith)
            ≫ mul_cong_left (inverses w is i) (inverse_neg w a i p)
            ≫ of_eq (omega arith))
          v
      ≫ of_eq (sum-mul 0 (λ i. i) is ∙ omega arith)

  inverses-numerators :
      (a : ℕ) (is : List ℕ) → All (Apart w a) is → product (λ j. w j a) is * numerators a is ≅ 1
  inverses-numerators a is v =
      of_eq (sym (product-mul (λ j. w j a) (λ j. diff j a) is))
      ≫ product-cong_one {P = Apart w a} (λ j. w j a * diff j a) is
          (λ j p. of_eq (grind arith) ≫ p.inverse') v

  sum-weight-cons :
      (z a : ℕ) (is : List ℕ)
      → All (Apart w a) is
      → Nodes w is
      → sum (weight w z (a ∷ is)) is
        ≅ sum (weight w z is) is + numerators z is * sum (λ i. inverses w is i * w a i) is
  sum-weight-cons z a is v vs =
      let n = numerators z is in
      sum-cong {P = λ i. Apart w a i × (diff i z * weight w z is i ≡ n * inverses w is i)}
        (weight w z (a ∷ is)) (λ i. weight w z is i + n * (inverses w is i * w a i)) is
        (λ i h. weight-cons z a i is h.0 h.1)
        (All-zip (Apart w a) (λ i. diff i z * weight w z is i ≡ n * inverses w is i) is v
          (weight-inverses w z is vs))
      ≫ of_eq (
          sum-add (weight w z is) (λ i. n * (inverses w is i * w a i)) is
          ∙ ap (λ (t : ℕ). sum (weight w z is) is + t)
              (sum-mul n (λ i. inverses w is i * w a i) is))

  sum-weight-at :
      (a : ℕ) (is : List ℕ)
      → All (Apart w a) is
      → Nodes w is
      → sum (weight w a is) is ≅ numerators a is * sum (λ i. inverses w is i * w i a) is
  sum-weight-at a is v vs =
      let n = numerators a is in
      sum-cong {P = λ i. Apart w a i × (diff i a * weight w a is i ≡ n * inverses w is i)}
        (weight w a is) (λ i. n * (inverses w is i * w i a)) is (λ i h. weight-at a i is h.0 h.1)
        (All-zip (Apart w a) (λ i. diff i a * weight w a is i ≡ n * inverses w is i) is v
          (weight-inverses w a is vs))
      ≫ of_eq (sum-mul n (λ i. inverses w is i * w i a) is)

  -- The weights of at least one member, in the value at any place, sum up to 1.
  pub sum-weight :
      (z a : ℕ) (is : List ℕ) → Nodes w (a ∷ is) → sum (weight w z (a ∷ is)) (a ∷ is) ≅ 1
  sum-weight z a [] v = let e : (a == a) ≡ true = ground arith in rw e (of_eq refl)
  sum-weight z a (b ∷ bs) (v, vs) =
      let is = b ∷ bs in
      let n = numerators z is in
      let outer = product (λ j. w j a) is in
      let sum_to = sum (λ i. inverses w is i * w a i) is in
      let sum_from = sum (λ i. inverses w is i * w i a) is in
      let head : weight w z (a ∷ is) a ≡ n * outer =
        product_but_self w a (λ j. diff j z * w j a) is v
        ∙ product-mul (λ j. diff j z) (λ j. w j a) is in
      let total : numerators a is * sum_from ≅ 1 =
        symm (sum-weight-at a is v vs) ≫ sum-weight a b bs vs in
      let same : outer ≅ sum_from =
        of_eq {b = outer * 1} (omega arith)
        ≫ symm (mul_cong_left outer total)
        ≫ of_eq {b = sum_from * (outer * numerators a is)} (grind arith)
        ≫ mul_cong_left sum_from (inverses-numerators a is v)
        ≫ of_eq (omega arith) in
      add_cong (of_eq head ≫ mul_cong_left n same) (
        sum-weight-cons z a is v vs ≫ add_cong (sum-weight z b bs vs) (of_eq {b = n * sum_to} refl))
      ≫ of_eq {b = 1 + n * (sum_to + sum_from)} (grind arith)
      ≫ add_cong (of_eq {b = 1} refl) (mul_cong_left n (opposite_sums a is v))
      ≫ of_eq (omega arith)
