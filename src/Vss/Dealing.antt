-- ===== src/Vss/Dealing.antt =====
-- Every dealt share passes the verification of packages/crypto/src/vss.ts.
use fairproof_bcolbd.Prelude.{
  ℕ, zero, suc, ◌+◌, ◌-◌, ◌*◌, ◌/◌, ◌%◌, ◌≤◌, ◌<◌, ◌≡◌, refl, sym, ap, ◌∙◌, arith, true, false,
  ◌||◌, not, List, [], ◌∷◌, map, ltb, leb, ◌==◌, length, ok, All, All-weaken, length-map, subst,
  or_default, Bool-cases, inl, inr, throw_if-eq-ok, ok-injective,
}
use fairproof_bcolbd.Babyjub.{Point, Curve, sub_order, points_equal, add_point, mul_base}
use fairproof_bcolbd.Babyjub.Group.{CurveLaws, mul_base-zero, mul_base-mod, mul_base-mod_factor}
use fairproof_bcolbd.Domains.{committee_threshold, committee_size}
use fairproof_bcolbd.Vss.{
  CommitteeShare, DealtCommitteeKey, DealParams, evaluate_polynomial, deal_shares, key_of,
  deal_committee_key, draw_all, sum_commitments, expected_public_share, verify_share,
}

-- The polynomial with the given coefficients, not reduced.
unfoldable pub polynomial : List ℕ → ℕ → ℕ
polynomial [] z = 0
polynomial (a ∷ coefficients) z = polynomial coefficients z * z + a

mod_wrap : (k a : ℕ) → (a + k * sub_order) % sub_order ≡ a % sub_order
mod_wrap k a = omega arith

-- Horner's rule with a reduction in each round computes the residue of the polynomial.
pub evaluate_polynomial-polynomial :
    (coefficients : List ℕ) (z : ℕ)
    → evaluate_polynomial coefficients z ≡ polynomial coefficients z % sub_order
unfolding evaluate_polynomial polynomial
evaluate_polynomial-polynomial [] z = refl
evaluate_polynomial-polynomial (a ∷ coefficients) z =
    let p = polynomial coefficients z in
    let whole : p ≡ p % sub_order + p / sub_order * sub_order = omega arith in
    let product : p * z ≡ p % sub_order * z + p / sub_order * sub_order * z =
      ap (λ (t : ℕ). t * z) whole ∙ omega arith in
    let e : p % sub_order * z + a + p / sub_order * z * sub_order ≡ p * z + a = omega arith in
    rw (evaluate_polynomial-polynomial coefficients z)
      (sym (mod_wrap (p / sub_order * z) (p % sub_order * z + a)) ∙ ap (λ (t : ℕ). t % sub_order) e)

evaluate_polynomial-lt :
    (coefficients : List ℕ) (z : ℕ) → evaluate_polynomial coefficients z < sub_order
unfolding evaluate_polynomial
evaluate_polynomial-lt [] z = omega arith
evaluate_polynomial-lt (a ∷ coefficients) z = omega arith

points_equal_refl : (p : Point) → points_equal p p ≡ true
points_equal_refl p = ground arith

module _ {c : Curve} (laws : CurveLaws c) where
  -- The loop over the commitments computes the polynomial in the exponent.
  sum_commitments-mul_base :
      (index : ℕ) (coefficients : List ℕ) (a power : ℕ)
      → sum_commitments c index (map (mul_base c) coefficients) (mul_base c a) power
        ≡ mul_base c (a + power * polynomial coefficients index)
  unfolding sum_commitments polynomial
  sum_commitments-mul_base index [] a power =
      let e : a ≡ a + power * 0 = omega arith in ap (mul_base c) e
  sum_commitments-mul_base index (k ∷ coefficients) a power =
      let p = polynomial coefficients index in
      let e : a + k * power + power * index * p ≡ a + power * (p * index + k) = omega arith in
      ap
        (λ acc.
          sum_commitments c index (map (mul_base c) coefficients) acc (power * index % sub_order))
        (ap (add_point c (mul_base c a)) (laws.mul_mul k power) ∙ laws.add_mul a (k * power))
      ∙ sum_commitments-mul_base index coefficients (a + k * power) (power * index % sub_order)
      ∙ mul_base-mod_factor laws (a + k * power) (power * index) p
      ∙ ap (mul_base c) e

  expected_public_share-mul_base :
      (index : ℕ) (coefficients : List ℕ)
      → 1 ≤ index
      → expected_public_share c index (map (mul_base c) coefficients)
        ≡ ok (mul_base c (evaluate_polynomial coefficients index))
  unfolding expected_public_share
  expected_public_share-mul_base index coefficients h =
      let large : ltb index 1 ≡ false = ground arith in
      let e : 0 + 1 * polynomial coefficients index ≡ polynomial coefficients index = omega arith in
      rw large (
        ap ok (
          ap (λ acc. sum_commitments c index (map (mul_base c) coefficients) acc 1)
            (sym (mul_base-zero laws))
          ∙ sum_commitments-mul_base index coefficients 0 1
          ∙ ap (mul_base c) e
          ∙ sym (mul_base-mod laws (polynomial coefficients index))
          ∙ ap (mul_base c) (sym (evaluate_polynomial-polynomial coefficients index))))

  -- What the verification says of the share that the dealer computes for an index.
  abbrev Verifies : List ℕ → CommitteeShare → Type 0
  Verifies coefficients s =
      (verify_share c s (map (mul_base c) coefficients) ≡ ok (not (s.share == 0)))
      × (s.share ≡ evaluate_polynomial coefficients s.index)
      × (1 ≤ s.index)

  verify_share-dealt :
      (coefficients : List ℕ) (i : ℕ)
      → 1 ≤ i
      → Verifies coefficients (record {
        index = i;
        share = evaluate_polynomial coefficients i;
        public_share = mul_base c (evaluate_polynomial coefficients i);
      })
  unfolding verify_share
  verify_share-dealt coefficients i h =
      let v = evaluate_polynomial coefficients i in
      let small : v < sub_order = evaluate_polynomial-lt coefficients i in
      let same : points_equal (mul_base c v) (mul_base c v) ≡ true =
        points_equal_refl (mul_base c v) in
      (
        elim (Bool-cases (v == 0)) [
          | inl z ↦ let zero_share : leb v 0 ≡ true = ground arith in rw (z, zero_share) refl
          | inr z ↦
              let positive : leb v 0 ≡ false = ground arith in
              let bounded : leb sub_order v ≡ false = ground arith in
              rw (z, positive, bounded, same, expected_public_share-mul_base i coefficients h, same)
                refl
        ],
        refl,
        h,
      )

  deal_shares-Verifies :
      (coefficients : List ℕ) (i n : ℕ)
      → 1 ≤ i
      → All (Verifies coefficients) (deal_shares c coefficients i n)
        × (length (deal_shares c coefficients i n) ≡ n)
  unfolding deal_shares
  deal_shares-Verifies coefficients i zero h = (tt, refl)
  deal_shares-Verifies coefficients i (suc n) h =
      let (rest, len) = deal_shares-Verifies coefficients (suc i) n (omega arith) in
      ((verify_share-dealt coefficients i h, rest), ap suc len)

  -- The guards that a successful call has passed, and what it returns.
  pub deal-key_of :
      (draw : ℕ → ℕ) (params : DealParams) (k : DealtCommitteeKey)
      → deal_committee_key c draw params ≡ ok k
      → (extra : List ℕ) × (k ≡ key_of c k.threshold k.size k.secret extra)
        × (2 ≤ k.threshold)
        × (k.threshold ≤ k.size)
        × (1 ≤ k.secret)
        × (k.secret < sub_order)
        × (suc (length extra) ≡ k.threshold)
  unfolding deal_committee_key
  deal-key_of draw params k h =
      let threshold = or_default params.threshold committee_threshold in
      let size = or_default params.size committee_size in
      let secret = or_default params.secret (draw 0) in
      let extra = or_default params.coefficients (draw_all draw 1 (threshold - 1)) in
      let (large, h₁) = throw_if-eq-ok (ltb threshold 2) _ _ h in
      let (within, h₂) = throw_if-eq-ok (ltb size threshold) _ _ h₁ in
      let (range, h₃) = throw_if-eq-ok (leb secret 0 || leb sub_order secret) _ _ h₂ in
      let (count, h₄) = throw_if-eq-ok (not (suc (length extra) == threshold)) _ _ h₃ in
      let e : key_of c threshold size secret extra ≡ k = ok-injective h₄ in
      let guards : (2 ≤ threshold)
          × (threshold ≤ size)
          × (1 ≤ secret)
          × (secret < sub_order)
          × (suc (length extra) ≡ threshold) =
        ground arith in
      rw (← e) (extra, refl, guards.0, guards.1, guards.2, guards.3, guards.4)

  -- The key that a successful call of `dealCommitteeKey` returns has one share for each member and
  -- one commitment for each coefficient; the secret lies in [1, SUB_ORDER) and the public key is
  -- its multiple of the generator. Every share has an index of at least 1, and `verifyShare`
  -- returns without an error on it, with true exactly if the share is not zero.
  pub deal-verify_share :
      (draw : ℕ → ℕ) (params : DealParams) (k : DealtCommitteeKey)
      → deal_committee_key c draw params ≡ ok k
      → (length k.shares ≡ k.size)
        × (length k.commitments ≡ k.threshold)
        × (2 ≤ k.threshold)
        × (k.threshold ≤ k.size)
        × (1 ≤ k.secret)
        × (k.secret < sub_order)
        × (k.public_key ≡ mul_base c k.secret)
        × All
            (λ s. (1 ≤ s.index) × (verify_share c s k.commitments ≡ ok (not (s.share == 0))))
            k.shares
  deal-verify_share draw params k h =
      let (extra, e, t, n, lo, hi, count) = deal-key_of draw params k h in
      let (verified, len) = deal_shares-Verifies (k.secret ∷ extra) 1 k.size (omega arith) in
      (
        ap (λ k. length k.shares) e ∙ len,
        ap (λ k. length k.commitments) e ∙ length-map (k.secret ∷ extra) (mul_base c) ∙ count,
        t,
        n,
        lo,
        hi,
        ap (λ k. k.public_key) e,
        subst
            (λ (kk : DealtCommitteeKey).
              All (λ s. (1 ≤ s.index) × (verify_share c s kk.commitments ≡ ok (not (s.share == 0))))
                kk.shares)
            (sym e)
            (All-weaken (λ s v. (v.2, v.0)) (deal_shares c (k.secret ∷ extra) 1 k.size) verified),
      )
