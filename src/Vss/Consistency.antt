-- ===== src/Vss/Consistency.antt =====
-- verifyDealing of packages/crypto/src/vss.ts finds nothing wrong in what dealCommitteeKey returns.
use fairproof_bcolbd.Prelude.{
  ℕ, zero, suc, ◌%◌, ◌≤◌, ◌<◌, ◌≡◌, ◌≢◌, refl, ap, ◌∙◌, arith, true, false, not, List, [], ◌∷◌, map,
  take, length, length-map, ◌==◌, leb, All, All-weaken, contains, ok, subst,
}
use fairproof_bcolbd.Babyjub.{Point, Curve, sub_order, mul_base, points_equal}
use fairproof_bcolbd.Babyjub.Group.{CurveLaws, mul_base-in_subgroup, points_equal_refl}
use fairproof_bcolbd.Vss.{
  CommitteeShare, DealParams, DealtCommitteeKey, deal_shares, key_of, deal_committee_key,
  verify_share, reconstruct_secret, has_duplicate, off_curve_problems, share_problems, key_problems,
  reconstruction_problems, verify_dealing, evaluate_polynomial,
}
use fairproof_bcolbd.Vss.Dealing.{deal-key_of, deal-verify_share}
use fairproof_bcolbd.Vss.Reconstruction.{indices_of, reconstruct_secret-evaluate_polynomial}
use fairproof_bcolbd.Vss.Threshold.{deal_shares-IsShareOf, evaluate_polynomial_zero}

contains-above : (i : ℕ) (js : List ℕ) → All (λ j. j < i) js → contains i js ≡ false
contains-above i [] v = refl
contains-above i (j ∷ js) (p, v) =
    let e : (i == j) ≡ false = ground arith in rw e (contains-above i js v)

module _ (c : Curve) where
  contains-deal_shares :
      (coefficients : List ℕ) (a i n : ℕ)
      → a < i
      → contains a (indices_of (deal_shares c coefficients i n)) ≡ false
  unfolding deal_shares
  contains-deal_shares coefficients a i zero h = refl
  contains-deal_shares coefficients a i (suc n) h =
      let e : (a == i) ≡ false = ground arith in
      rw e (contains-deal_shares coefficients a (suc i) n (omega arith))

  has_duplicate-deal_shares :
      (coefficients : List ℕ) (i n : ℕ)
      → has_duplicate (indices_of (deal_shares c coefficients i n)) ≡ false
  unfolding deal_shares
  has_duplicate-deal_shares coefficients i zero = refl
  has_duplicate-deal_shares coefficients i (suc n) =
      rw (contains-deal_shares coefficients i (suc i) n (omega arith))
        (has_duplicate-deal_shares coefficients (suc i) n)

  take-deal_shares :
      (coefficients : List ℕ) (i t n : ℕ)
      → t ≤ n
      → take t (deal_shares c coefficients i n) ≡ deal_shares c coefficients i t
  unfolding deal_shares
  take-deal_shares coefficients i zero n h = refl
  take-deal_shares coefficients i (suc t) zero h = absurd (omega arith)
  take-deal_shares coefficients i (suc t) (suc n) h =
      ap
        (λ (ss : List CommitteeShare).
          record {
            index = i;
            share = evaluate_polynomial coefficients i;
            public_share = mul_base c (evaluate_polynomial coefficients i);
          }
          ∷ ss)
        (take-deal_shares coefficients (suc i) t n (omega arith))

  length-deal_shares :
      (coefficients : List ℕ) (i n : ℕ) → length (deal_shares c coefficients i n) ≡ n
  unfolding deal_shares
  length-deal_shares coefficients i zero = refl
  length-deal_shares coefficients i (suc n) = ap suc (length-deal_shares coefficients (suc i) n)

  share_problems-deal_shares :
      (commitments : List Point) (coefficients seen : List ℕ) (i n : ℕ)
      → All (λ j. j < i) seen
      → All (λ s. verify_share c s commitments ≡ ok true) (deal_shares c coefficients i n)
      → share_problems c commitments seen (deal_shares c coefficients i n) ≡ ok ([], true)
  unfolding share_problems deal_shares
  share_problems-deal_shares commitments coefficients seen i zero below v = refl
  share_problems-deal_shares commitments coefficients seen i (suc n) below (p, v) =
      let fresh = contains-above i seen below in
      let below' : All (λ j. j < suc i) (i ∷ seen) = (
        omega arith,
        All-weaken {P = λ j. j < i} {Q = λ j. j < suc i} (λ j h. omega arith) seen below,
      ) in
      rw
        (
          p,
          share_problems-deal_shares commitments coefficients (i ∷ seen) (suc i) n below' v,
          fresh,
        )
        refl

module _ {c : Curve} (laws : CurveLaws c) where
  off_curve_problems-mul_base :
      (j : ℕ) (coefficients : List ℕ) → off_curve_problems c j (map (mul_base c) coefficients) ≡ []
  unfolding off_curve_problems
  off_curve_problems-mul_base j [] = refl
  off_curve_problems-mul_base j (a ∷ coefficients) =
      rw (laws.on_curve a) (off_curve_problems-mul_base (suc j) coefficients)

  reconstruct_secret-take :
      (secret threshold size : ℕ) (extra : List ℕ)
      → threshold ≤ size
      → size ≤ 255
      → secret < sub_order
      → suc (length extra) ≡ threshold
      → reconstruct_secret (take threshold (deal_shares c (secret ∷ extra) 1 size)) ≡ ok secret
  reconstruct_secret-take secret threshold size extra within bounded range count =
      let coefficients = secret ∷ extra in
      let len = length-deal_shares c coefficients 1 threshold in
      ap reconstruct_secret (take-deal_shares c coefficients 1 threshold size within)
      ∙ reconstruct_secret-evaluate_polynomial coefficients (deal_shares c coefficients 1 threshold)
          (deal_shares-IsShareOf c coefficients 1 threshold (omega arith))
          (has_duplicate-deal_shares c coefficients 1 threshold) (omega arith)
      ∙ ap (λ (t : ℕ). ok t) (evaluate_polynomial_zero secret extra range)

  verify_dealing-key_of :
      (threshold size secret : ℕ) (extra : List ℕ)
      → threshold ≤ size
      → size ≤ 255
      → secret < sub_order
      → suc (length extra) ≡ threshold
      → All
          (λ s. verify_share c s (map (mul_base c) (secret ∷ extra)) ≡ ok true)
          (deal_shares c (secret ∷ extra) 1 size)
      → verify_dealing c (key_of c threshold size secret extra) ≡ ok []
  unfolding verify_dealing key_problems reconstruction_problems
  verify_dealing-key_of threshold size secret extra within bounded range count verified =
      let coefficients = secret ∷ extra in
      let shares = deal_shares c coefficients 1 size in
      let found =
        share_problems-deal_shares c (map (mul_base c) coefficients) coefficients [] 1 size tt
          verified in
      let len = length-deal_shares c coefficients 1 size in
      let all : (length shares == size) ≡ true = ground arith in
      let enough : leb threshold (length shares) ≡ true = ground arith in
      let counted : (length (map (mul_base c) coefficients) == threshold) ≡ true =
        let e = length-map extra (mul_base c) in
        let e' : suc (length (map (mul_base c) extra)) ≡ threshold = omega (arith, e) in
        rw e' (ground arith) in
      let same : points_equal (mul_base c secret) (mul_base c secret) ≡ true =
        points_equal_refl (mul_base c secret) in
      let reduced : (secret == secret % sub_order) ≡ true =
        let e : secret % sub_order ≡ secret = omega arith in rw e (ground arith) in
      let secret_back =
        reconstruct_secret-take secret threshold size extra within bounded range count in
      let curve = off_curve_problems-mul_base 0 coefficients in
      let subgroup = mul_base-in_subgroup laws secret in
      rw (same, found, enough, secret_back, reduced, counted, curve, subgroup, all) refl

  verified_shares :
      (commitments : List Point) (shares : List CommitteeShare)
      → All (λ s. (1 ≤ s.index) × (verify_share c s commitments ≡ ok (not (s.share == 0)))) shares
      → All (λ s. s.share ≢ 0) shares
      → All (λ s. verify_share c s commitments ≡ ok true) shares
  verified_shares commitments [] v w = tt
  verified_shares commitments (s ∷ shares) ((_, p), v) (n, w) =
      let e : (s.share == 0) ≡ false = ground arith in
      (p ∙ rw e refl, verified_shares commitments shares v w)

  -- `verifyDealing` finds no problem in a key that `dealCommitteeKey` returns for at most 255 members
  -- unless a share is zero.
  pub verify_dealing-deal :
      (draw : ℕ → ℕ) (params : DealParams) (k : DealtCommitteeKey)
      → deal_committee_key c draw params ≡ ok k
      → k.size ≤ 255
      → All (λ s. s.share ≢ 0) k.shares
      → verify_dealing c k ≡ ok []
  verify_dealing-deal draw params k h bounded nonzero =
      let (extra, dealt, _, within, _, range, count) = deal-key_of laws draw params k h in
      let (_, _, _, _, _, _, _, checked) = deal-verify_share laws draw params k h in
      let verified = verified_shares k.commitments k.shares checked nonzero in
      ap (verify_dealing c) dealt
      ∙ verify_dealing-key_of k.threshold k.size k.secret extra within bounded range count (
          subst
            (λ (d : DealtCommitteeKey).
              All (λ s. verify_share c s d.commitments ≡ ok true) d.shares)
            dealt verified)
