-- ===== src/Vss.antt =====
-- packages/crypto/src/vss.ts: Feldman secret sharing for the opening committee. The values that
-- `randomScalar` returns enter as a function from the number of the call.
pub mod Dealing
pub mod Checking
pub mod Defaults
pub mod Exponent
pub mod Opening
pub mod Modular
pub mod Products
pub mod Interpolation
pub mod Coefficients
pub mod Small
pub mod Reconstruction
pub mod Threshold
pub mod Consistency
use fairproof_bcolbd.Prelude.{
  ℕ, zero, suc, ◌+◌, ◌-◌, ◌*◌, ◌%◌, Bool, true, false, ◌&&◌, ◌||◌, not, List, [], ◌∷◌, ◌++◌, map,
  ltb, leb, ◌==◌, if◌then◌else◌, length, take, Option, none, some, or_default, contains, Result, ok,
  err, Error, ◌>>=◌, ◌>>◌, throw_if, map_ok,
}
use fairproof_bcolbd.Field.{Bytes, of_bytes}
use fairproof_bcolbd.Babyjub.{
  Point, Curve, sub_order, identity, points_equal, add_point, mul_point, mul_base, in_curve,
  is_in_prime_subgroup, inv_mod_sub_order,
}
use fairproof_bcolbd.Domains.{committee_threshold, committee_size}

pub record CommitteeShare : Type 0 where
  pub index : ℕ
  pub share : ℕ
  pub public_share : Point

pub record DealtCommitteeKey : Type 0 where
  pub threshold : ℕ
  pub size : ℕ
  pub secret : ℕ
  pub public_key : Point
  pub commitments : List Point
  pub shares : List CommitteeShare

-- The rejection loop over the blocks of 32 random bytes; `none` when no block so far will do.
unfoldable pub random_scalar : List Bytes → Option ℕ
random_scalar [] = none
random_scalar (block ∷ blocks) =
    let v = of_bytes 0 block in if ltb 0 v && ltb v sub_order then some v else random_scalar blocks

-- Horner's rule from the last coefficient down
unfoldable pub evaluate_polynomial : List ℕ → ℕ → ℕ
evaluate_polynomial [] z = 0
evaluate_polynomial (a ∷ coefficients) z = (evaluate_polynomial coefficients z * z + a) % sub_order

-- `dealCommitteeKey`'s optional parameters
pub record DealParams : Type 0 where
  pub threshold : Option ℕ
  pub size : Option ℕ
  pub secret : Option ℕ
  pub coefficients : Option (List ℕ)

-- `Array.from({ length: n }, randomScalar)`, from the given call on
unfoldable pub draw_all : (ℕ → ℕ) → ℕ → ℕ → List ℕ
draw_all draw call zero = []
draw_all draw call (suc n) = draw call ∷ draw_all draw (suc call) n

-- `new Set(xs).size !== xs.length`
abbrev pub has_duplicate : List ℕ → Bool
has_duplicate [] = false
has_duplicate (x ∷ xs) = contains x xs || has_duplicate xs

module _ (c : Curve) where
  -- the loop over the member indices
  unfoldable pub deal_shares : List ℕ → ℕ → ℕ → List CommitteeShare
  deal_shares coefficients i zero = []
  deal_shares coefficients i (suc n) =
      let share = evaluate_polynomial coefficients i in
      record { index = i; share = share; public_share = mul_base c share }
      ∷ deal_shares coefficients (suc i) n

  abbrev pub key_of : ℕ → ℕ → ℕ → List ℕ → DealtCommitteeKey
  key_of threshold size secret extra = record {
    threshold = threshold;
    size = size;
    secret = secret;
    public_key = mul_base c secret;
    commitments = map (mul_base c) (secret ∷ extra);
    shares = deal_shares (secret ∷ extra) 1 size;
  }

  unfoldable pub deal_committee_key : (ℕ → ℕ) → DealParams → Result DealtCommitteeKey
  deal_committee_key draw params = do
    let threshold = or_default params.threshold committee_threshold
    let size = or_default params.size committee_size
    throw_if (ltb threshold 2) Error.threshold_too_small
    throw_if (ltb size threshold) Error.threshold_exceeds_size
    let secret = or_default params.secret (draw 0)
    throw_if (leb secret 0 || leb sub_order secret) Error.secret_range
    let extra = or_default params.coefficients (draw_all draw 1 (threshold - 1))
    throw_if (not (suc (length extra) == threshold)) Error.coefficient_count
    ok (key_of threshold size secret extra)

  -- the loop of `expectedPublicShare`
  unfoldable pub sum_commitments : ℕ → List Point → Point → ℕ → Point
  sum_commitments index [] acc power = acc
  sum_commitments index (p ∷ commitments) acc power =
      sum_commitments index commitments (add_point c acc (mul_point c p power))
        (power * index % sub_order)

  unfoldable pub expected_public_share : ℕ → List Point → Result Point
  expected_public_share index commitments = do
    throw_if (ltb index 1) Error.index_zero
    ok (sum_commitments index commitments identity 1)

  unfoldable pub verify_share : CommitteeShare → List Point → Result Bool
  verify_share s commitments =
      if leb s.share 0 || leb sub_order s.share
      then ok false
      else if not (points_equal (mul_base c s.share) s.public_share)
      then ok false
      else expected_public_share s.index commitments >>= λ expected.
          ok (points_equal s.public_share expected)

-- the two products of `lagrangeCoefficient`; an index is at most `SUB_ORDER`
unfoldable pub lagrange_loop : ℕ → List ℕ → ℕ → ℕ → ℕ × ℕ
lagrange_loop index [] numerator denominator = (numerator, denominator)
lagrange_loop index (j ∷ indices) numerator denominator =
    lagrange_loop index indices (if j == index then numerator else numerator * j % sub_order) (
      if j == index
      then denominator
      else denominator * ((j + sub_order - index) % sub_order) % sub_order)

unfoldable pub lagrange_coefficient : List ℕ → ℕ → Result ℕ
lagrange_coefficient indices index = do
  throw_if (not (contains index indices)) Error.not_in_index_set
  throw_if (has_duplicate indices) Error.duplicate_indices
  let (numerator, denominator) = lagrange_loop index indices 1 1
  inverse ← inv_mod_sub_order denominator
  ok (numerator * inverse % sub_order)

unfoldable pub reconstruct_loop : List ℕ → List CommitteeShare → ℕ → Result ℕ
reconstruct_loop indices [] acc = ok acc
reconstruct_loop indices (s ∷ shares) acc = do
  coefficient ← lagrange_coefficient indices s.index
  reconstruct_loop indices shares ((acc + s.share * coefficient) % sub_order)

unfoldable pub reconstruct_secret : List CommitteeShare → Result ℕ
reconstruct_secret shares = reconstruct_loop (map (λ s. s.index) shares) shares 0

-- one of the `parts` of `combineInExponent`
pub record DecryptionPart : Type 0 where
  pub index : ℕ
  pub point : Point

module _ (c : Curve) where
  unfoldable pub combine_loop : List ℕ → List DecryptionPart → Point → Result Point
  combine_loop indices [] acc = ok acc
  combine_loop indices (p ∷ parts) acc = do
    coefficient ← lagrange_coefficient indices p.index
    combine_loop indices parts (add_point c acc (mul_point c p.point coefficient))

  unfoldable pub combine_in_exponent : List DecryptionPart → Result Point
  combine_in_exponent parts = combine_loop (map (λ p. p.index) parts) parts identity

-- the problems that `verifyDealing` reports, without the text of the messages
pub data DealingProblem : Type 0 where
  commitment_count : DealingProblem
  off_curve : ℕ → DealingProblem
  key_mismatch key_not_in_subgroup share_count : DealingProblem
  duplicate_index : ℕ → DealingProblem
  share_mismatch : ℕ → DealingProblem
  not_reconstructed : DealingProblem

module _ (c : Curve) where
  -- `if (test) problems.push(problem)`
  abbrev pub note_if : Bool → DealingProblem → List DealingProblem
  note_if test problem = if test then problem ∷ [] else []

  unfoldable pub off_curve_problems : ℕ → List Point → List DealingProblem
  off_curve_problems j [] = []
  off_curve_problems j (p ∷ commitments) =
      note_if (not (in_curve c p)) (off_curve j) ++ off_curve_problems (suc j) commitments

  -- the loop over the shares: the problems, and whether no index came twice
  unfoldable pub share_problems :
      List Point → List ℕ → List CommitteeShare → Result (List DealingProblem × Bool)
  share_problems commitments seen [] = ok ([], true)
  share_problems commitments seen (s ∷ shares) = do
    fits ← verify_share c s commitments
    (problems, usable) ← share_problems commitments (s.index ∷ seen) shares
    let again = contains s.index seen
    ok (
      note_if again (duplicate_index s.index)
          ++ note_if (not fits) (share_mismatch s.index)
          ++ problems,
      not again && usable,
    )

  -- The comparison with `dealt.commitments[0]`, which reads a field of `undefined` if there is none.
  unfoldable pub key_problems : Point → List Point → Result (List DealingProblem)
  key_problems public_key [] = err Error.no_commitment
  key_problems public_key (p ∷ commitments) =
      ok (note_if (not (points_equal public_key p)) key_mismatch)

  unfoldable pub reconstruction_problems : DealtCommitteeKey → Bool → Result (List DealingProblem)
  reconstruction_problems dealt false = ok []
  reconstruction_problems dealt true = do
    secret ← reconstruct_secret (take dealt.threshold dealt.shares)
    ok (note_if (not (secret == dealt.secret % sub_order)) not_reconstructed)

  -- The list of problems; `ok` is that there are none.
  unfoldable pub verify_dealing : DealtCommitteeKey → Result (List DealingProblem)
  verify_dealing dealt = do
    key ← key_problems dealt.public_key dealt.commitments
    (found, unique) ← share_problems dealt.commitments [] dealt.shares
    last ← reconstruction_problems dealt (leb dealt.threshold (length dealt.shares) && unique)
    ok (
        note_if (not (length dealt.commitments == dealt.threshold)) commitment_count
        ++ off_curve_problems 0 dealt.commitments
        ++ key
        ++ note_if (not (is_in_prime_subgroup c dealt.public_key)) key_not_in_subgroup
        ++ note_if (not (length dealt.shares == dealt.size)) share_count
        ++ found
        ++ last)
