-- ===== src/Award.antt =====
-- packages/crypto/src/award.ts: the award witness over the opened bids.
pub mod Inputs
pub mod Winner
pub mod Columns
pub mod Slots
use fairproof_bcolbd.Prelude.{
  ℕ, zero, suc, ◌+◌, Bool, true, false, not, ◌&&◌, ◌||◌, List, [], ◌∷◌, map, ltb, ◌==◌,
  if◌then◌else◌, length, get_elem?, Option, none, some, or_default, Result, ok, err, Error, ◌>>=◌,
  ◌>>◌, throw_if,
}
use fairproof_bcolbd.Prelude.Int.{ℤ, pos, ltb_ℤ, eq_ℤ}
use fairproof_bcolbd.Prelude.Sort.{sort_by}
use fairproof_bcolbd.Field.{Text, hex, to_limbs}
use fairproof_bcolbd.Platform.{Poseidon}
use fairproof_bcolbd.Domains.{Domains, max_bids, bid_tree_depth}
use fairproof_bcolbd.Poseidon.{bid_commitment, bid_leaf}
use fairproof_bcolbd.Merkle
use fairproof_bcolbd.Merkle.{Tree, insert_all, root}

abbrev pub disclose_winning_price : ℕ
disclose_winning_price = 1

abbrev pub conceal_winning_price : ℕ
conceal_winning_price = 2

pub record OpenedBid : Type 0 where
  pub submission_index : ℕ
  pub nullifier : ℤ
  pub bid_amount : ℤ
  pub bid_nonce : ℤ
  pub ciphertext_hash_field : ℤ

pub record AwardWitness : Type 0 where
  pub tender_id_field : ℤ
  pub rules_hash_hi : ℤ
  pub rules_hash_lo : ℤ
  pub bid_set_root : ℤ
  pub submission_count : ℕ
  pub winner_commitment : ℤ
  pub winning_price : ℤ
  pub disclosure_policy : ℕ
  pub nullifier : List ℤ
  pub bid_amount : List ℤ
  pub bid_nonce : List ℤ
  pub ciphertext_hash_field : List ℤ
  pub winner_index : ℕ

-- the function that `selectWinner` reduces by
unfoldable pub better : OpenedBid → OpenedBid → OpenedBid
better best b =
    if ltb_ℤ b.bid_amount best.bid_amount
    then b
    else if eq_ℤ b.bid_amount best.bid_amount && ltb b.submission_index best.submission_index
    then b
    else best

-- `bids.reduce(…)` from a first element
unfoldable pub reduce_better : OpenedBid → List OpenedBid → OpenedBid
reduce_better best [] = best
reduce_better best (b ∷ bids) = reduce_better (better best b) bids

unfoldable pub select_winner : List OpenedBid → Result OpenedBid
select_winner [] = err Error.no_bids
select_winner (b ∷ bids) = ok (reduce_better b bids)

-- `ordered.forEach`: slot `i` carries index `i`
unfoldable pub check_indices : ℕ → List OpenedBid → Result (Unit {0})
check_indices i [] = ok tt
check_indices i (b ∷ bids) = do
  throw_if (not (b.submission_index == i)) Error.index_gap
  check_indices (suc i) bids

-- one round of the loop over the slots: what it pushes
pub record Slot : Type 0 where
  pub nullifier : ℤ
  pub bid_amount : ℤ
  pub bid_nonce : ℤ
  pub ciphertext_hash_field : ℤ
  pub leaf : ℤ

pub record AwardParams : Type 0 where
  pub bids : List OpenedBid
  pub tender_id_field : ℤ
  pub rules_hash : Text
  pub disclosure_policy : ℕ
  pub winner_index_override : Option ℕ

module _ (hash : Poseidon) (domains : Domains) where
  -- the commitment to an opened bid
  abbrev pub commitment_of : ℤ → OpenedBid → Result ℤ
  commitment_of tender b = bid_commitment hash domains b.bid_amount b.bid_nonce tender b.nullifier

  unfoldable pub slot_of : ℤ → ℕ → OpenedBid → Result Slot
  slot_of tender i b = do
    commitment ← commitment_of tender b
    leaf ← bid_leaf hash domains b.nullifier commitment b.ciphertext_hash_field i
    ok (record {
      nullifier = b.nullifier;
      bid_amount = b.bid_amount;
      bid_nonce = b.bid_nonce;
      ciphertext_hash_field = b.ciphertext_hash_field;
      leaf = leaf;
    })

  abbrev pub empty_slot : Slot
  empty_slot = record {
    nullifier = pos 0;
    bid_amount = pos 0;
    bid_nonce = pos 0;
    ciphertext_hash_field = pos 0;
    leaf = domains.padding;
  }

  -- the loop over the slots, from slot `i` on for the rounds that are left
  unfoldable pub fill_slots : ℤ → ℕ → ℕ → List OpenedBid → Result (List Slot)
  fill_slots tender zero i bids = ok []
  fill_slots tender (suc n) i [] = do
    slots ← fill_slots tender n (suc i) []
    ok (empty_slot ∷ slots)
  fill_slots tender (suc n) i (b ∷ bids) = do
    slot ← slot_of tender i b
    slots ← fill_slots tender n (suc i) bids
    ok (slot ∷ slots)

  -- `params.winnerIndexOverride ?? selectWinner(ordered).submissionIndex`
  unfoldable pub winner_index_of : Option ℕ → List OpenedBid → Result ℕ
  winner_index_of (some i) ordered = ok i
  winner_index_of none ordered = do winner ← select_winner ordered; ok winner.submission_index

  -- `ordered[winnerIndex]`
  unfoldable pub active_bid : List OpenedBid → ℕ → Result OpenedBid
  active_bid ordered i = elim (get_elem? ordered i) [
    | none ↦ err Error.inactive_slot
    | some b ↦ ok b
  ]

  -- what `buildAwardWitness` does once the bids are in submission order
  unfoldable pub assemble : AwardParams → List OpenedBid → Result AwardWitness
  assemble params ordered = do
    check_indices 0 ordered
    slots ← fill_slots params.tender_id_field max_bids 0 ordered
    tree ← insert_all (Merkle.new hash domains bid_tree_depth) (map (λ s. s.leaf) slots)
    winner_index ← winner_index_of params.winner_index_override ordered
    winner ← active_bid ordered winner_index
    winner_commitment ← commitment_of params.tender_id_field winner
    limbs ← to_limbs (hex params.rules_hash)
    ok (record {
      tender_id_field = params.tender_id_field;
      rules_hash_hi = limbs.0;
      rules_hash_lo = limbs.1;
      bid_set_root = root hash domains tree;
      submission_count = length ordered;
      winner_commitment = winner_commitment;
      winning_price =
          if params.disclosure_policy == disclose_winning_price then winner.bid_amount else pos 0;
      disclosure_policy = params.disclosure_policy;
      nullifier = map (λ s. s.nullifier) slots;
      bid_amount = map (λ s. s.bid_amount) slots;
      bid_nonce = map (λ s. s.bid_nonce) slots;
      ciphertext_hash_field = map (λ s. s.ciphertext_hash_field) slots;
      winner_index = winner_index;
    })

  unfoldable pub build_award_witness : AwardParams → Result AwardWitness
  build_award_witness params = do
    throw_if (ltb max_bids (length params.bids)) Error.too_many_bids
    throw_if
        (not (params.disclosure_policy == disclose_winning_price)
          && not (params.disclosure_policy == conceal_winning_price))
        Error.unsupported_policy
    assemble params (sort_by (λ b. b.submission_index) params.bids)

unfoldable pub award_public_signals : AwardWitness → List ℤ
award_public_signals w =
    w.tender_id_field
    ∷ w.rules_hash_hi
    ∷ w.rules_hash_lo
    ∷ w.bid_set_root
    ∷ pos w.submission_count
    ∷ w.winner_commitment
    ∷ w.winning_price
    ∷ pos w.disclosure_policy
    ∷ []
