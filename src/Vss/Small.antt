-- ===== src/Vss/Small.antt =====
-- The differences of member indices of packages/crypto/src/vss.ts, which are small, have inverses.
use fairproof_bcolbd.Prelude.{
  ℕ, zero, suc, ◌-◌, ◌*◌, ◌≤◌, ◌<◌, ◌≡◌, refl, ap, arith, Bool, true, false, ◌&&◌, List, [], ◌∷◌,
  ◌==◌, ltb, All, inl, inr, Bool-cases, contains, Result, ok, err,
}
use fairproof_bcolbd.Prelude.Int.{sub_scaled}
use fairproof_bcolbd.Babyjub.{sub_order, inv_mod_sub_order, euclid}
use fairproof_bcolbd.Babyjub.Invertible.{inv_mod_sub_order-ok_iff}
use fairproof_bcolbd.Vss.{has_duplicate}
use fairproof_bcolbd.Vss.Modular.{◌≅◌, of_eq, ◌≫◌, mul_cong, diff}
use fairproof_bcolbd.Vss.Interpolation.{Apart, Nodes}
use fairproof_bcolbd.Vss.Coefficients.{inverse_diff, inverse_diff-unit}

inverts : Result ℕ → Bool
inverts (ok b) = true
inverts (err e) = false

-- Every number from 1 on up to the given one is inverted.
all_inverted : ℕ → Bool
unfolding inverts
all_inverted zero = true
all_inverted (suc n) = inverts (inv_mod_sub_order (suc n)) && all_inverted n

all_inverted_255 : all_inverted 255 ≡ true
unfolding all_inverted inverts inv_mod_sub_order euclid sub_scaled
all_inverted_255 = refl

inverts-ok : (a : ℕ) → inverts (inv_mod_sub_order a) ≡ true → (b : ℕ) × (a * b ≅ 1)
unfolding inverts
inverts-ok a h = go (inv_mod_sub_order a) refl h
  where
    go : (r : Result ℕ) → inv_mod_sub_order a ≡ r → inverts r ≡ true → (b : ℕ) × (a * b ≅ 1)
    go (ok b) e h =
        let (_, product) = (inv_mod_sub_order-ok_iff a b).0.0 e in
        (b, record { residues = omega (arith, product) })
    go (err reason) e h = cc

all_inverted-unit : (n d : ℕ) → all_inverted n ≡ true → 1 ≤ d → d ≤ n → (b : ℕ) × (d * b ≅ 1)
unfolding all_inverted
all_inverted-unit zero d h lo hi = absurd (omega arith)
all_inverted-unit (suc n) d h lo hi = elim (Bool-cases (inverts (inv_mod_sub_order (suc n)))) [
  | inl e ↦ elim (Bool-cases (d == suc n)) [
    | inl same ↦
        let d' : d ≡ suc n = ground arith in
        let (b, product) = inverts-ok (suc n) e in (b, of_eq (ap (λ (t : ℕ). t * b) d') ≫ product)
    | inr other ↦ let hi' : d ≤ n = ground arith in all_inverted-unit n d (rw e at h) lo hi'
  ]
  | inr e ↦ let bad = rw e at h in absurd (cc)
]

abbrev minus_one : ℕ
minus_one = sub_order - 1

-- The difference of two different numbers of one byte has an inverse.
diff-unit : (i j : ℕ) → i ≤ 255 → j ≤ 255 → (i == j) ≡ false → (b : ℕ) × (diff i j * b ≅ 1)
unfolding diff
diff-unit i j hi hj e = elim (Bool-cases (ltb j i)) [
  | inl above ↦
      let lt : j < i = ground arith in
      let (b, product) =
        all_inverted-unit 255 (i - j) all_inverted_255 (omega arith) (omega arith) in
      let same : diff i j ≅ i - j = record { residues = omega arith } in
      (b, mul_cong same (of_eq {b = b} refl) ≫ product)
  | inr below ↦
      let lt : i < j = ground arith in
      let (b, product) =
        all_inverted-unit 255 (j - i) all_inverted_255 (omega arith) (omega arith) in
      let same : diff i j ≅ (j - i) * minus_one = record { residues = omega arith } in
      let square : minus_one * minus_one ≅ 1 = record { residues = refl } in
      (
        b * minus_one,
        mul_cong same (of_eq {b = b * minus_one} refl)
            ≫ of_eq {b = (minus_one * minus_one) * ((j - i) * b)} (grind arith)
            ≫ mul_cong square product
            ≫ of_eq refl,
      )
]

Apart-small : (i j : ℕ) → i ≤ 255 → j ≤ 255 → (i == j) ≡ false → Apart inverse_diff i j
Apart-small i j hi hj e =
    let e' : (j == i) ≡ false = ground arith in
    let (b, product) = diff-unit i j hi hj e in
    let (b', product') = diff-unit j i hj hi e' in
    record {
      other = e;
      other' = e';
      inverse = inverse_diff-unit i j b product;
      inverse' = inverse_diff-unit j i b' product';
    }

contains-Apart :
    (i : ℕ) (js : List ℕ)
    → i ≤ 255
    → All (λ j. j ≤ 255) js
    → contains i js ≡ false
    → All (Apart inverse_diff i) js
contains-Apart i [] hi v h = tt
contains-Apart i (j ∷ js) hi (p, v) h = elim (Bool-cases (i == j)) [
  | inl same ↦ let bad = rw same at h in absurd (cc)
  | inr other ↦ (Apart-small i j hi p other, contains-Apart i js hi v (rw other at h))
]

-- Distinct members with one-byte indices are apart.
pub has_duplicate-Nodes :
    (is : List ℕ) → All (λ i. i ≤ 255) is → has_duplicate is ≡ false → Nodes inverse_diff is
has_duplicate-Nodes [] v h = tt
has_duplicate-Nodes (i ∷ is) (p, v) h = elim (Bool-cases (contains i is)) [
  | inl again ↦ let bad = rw again at h in absurd (cc)
  | inr fresh ↦ (contains-Apart i is p v fresh, has_duplicate-Nodes is v (rw fresh at h))
]
