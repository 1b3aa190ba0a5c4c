-- ===== src/Examples/Bids.antt =====
-- The theorems on bids, receipts and the award at concrete inputs.
use fairproof_bcolbd.Prelude.{
  ℕ, ◌+◌, ◌≤◌, ◌≡◌, ◌⊎◌, refl, arith, true, if◌then◌else◌, List, [], ◌∷◌, ◌==◌, length, All, Occurs,
  none, ok, some, get_elem?, replicate,
}
use fairproof_bcolbd.Prelude.Int.{pos}
use fairproof_bcolbd.Prelude.Sort.{swap, HasDistinctKeys, insert_by, sort_by}
use fairproof_bcolbd.Field.{to_limbs, to_bigint, parse_hex, hex_value, assert_uint}
use fairproof_bcolbd.Poseidon.{poseidon, bid_commitment, bid_leaf}
use fairproof_bcolbd.Merkle.{insert, insert_all, new}
use fairproof_bcolbd.Award.{
  OpenedBid, AwardParams, AwardWitness, build_award_witness, assemble, fill_slots, slot_of,
  winner_index_of, active_bid, select_winner, reduce_better, better, check_indices, commitment_of,
}
use fairproof_bcolbd.Award.Winner.{precedes, select_winner-precedes}
use fairproof_bcolbd.Award.Columns.{in_slots}
use fairproof_bcolbd.Award.Slots.{build_award_witness-winner, build_award_witness-Reorder}
use fairproof_bcolbd.Examples.Platform.{ok_or, sample_hash, sample_domains}

abbrev bid : ℕ → ℕ → OpenedBid
bid i amount = record {
  submission_index = i;
  nullifier = pos (40 + i);
  bid_amount = pos amount;
  bid_nonce = pos (60 + i);
  ciphertext_hash_field = pos (80 + i);
}

-- a tie between the second and the third submission
abbrev bids : List OpenedBid
bids = bid 1 300 ∷ bid 0 500 ∷ bid 2 300 ∷ []

abbrev award : AwardParams
award = record {
  bids = bids;
  tender_id_field = pos 9;
  rules_hash = b'0' ∷ b'x' ∷ b'f' ∷ b'f' ∷ [];
  disclosure_policy = 1;
  winner_index_override = none;
}

abbrev no_witness : AwardWitness
no_witness = record {
  tender_id_field = pos 0;
  rules_hash_hi = pos 0;
  rules_hash_lo = pos 0;
  bid_set_root = pos 0;
  submission_count = 0;
  winner_commitment = pos 0;
  winning_price = pos 0;
  disclosure_policy = 0;
  nullifier = [];
  bid_amount = [];
  bid_nonce = [];
  ciphertext_hash_field = [];
  winner_index = 0;
}

abbrev witness : AwardWitness
witness = ok_or no_witness (build_award_witness sample_hash sample_domains award)

award-witness : build_award_witness sample_hash sample_domains award ≡ ok witness
unfolding build_award_witness assemble sort_by insert_by check_indices fill_slots slot_of
    bid_commitment bid_leaf poseidon assert_uint insert_all insert winner_index_of select_winner
    reduce_better better active_bid to_limbs to_bigint parse_hex hex_value new
award-witness = refl

amounts-witness : witness.bid_amount ≡ pos 500 ∷ pos 300 ∷ pos 300 ∷ replicate 29 (pos 0)
unfolding build_award_witness assemble sort_by insert_by check_indices fill_slots slot_of
    bid_commitment bid_leaf poseidon assert_uint insert_all insert winner_index_of select_winner
    reduce_better better active_bid to_limbs to_bigint parse_hex hex_value new
amounts-witness = refl

build_award_witness-winner_example :
    (b : OpenedBid) × Occurs b bids
    × All (λ x. precedes b x ≡ true) bids
    × (witness.winner_index ≡ b.submission_index)
    × (commitment_of sample_hash sample_domains (pos 9) b ≡ ok witness.winner_commitment)
    × (witness.winning_price ≡ (if witness.disclosure_policy == 1 then b.bid_amount else pos 0))
    × ((witness.disclosure_policy ≡ 1) ⊎ (witness.disclosure_policy ≡ 2))
    × (witness.submission_count ≡ 3)
    × (3 ≤ 32)
    × (length witness.nullifier ≡ 32)
    × (length witness.bid_amount ≡ 32)
    × (length witness.bid_nonce ≡ 32)
    × (length witness.ciphertext_hash_field ≡ 32)
    × (witness.nullifier ≡ in_slots (λ x. x.nullifier) bids)
    × (witness.bid_amount ≡ in_slots (λ x. x.bid_amount) bids)
    × (witness.bid_nonce ≡ in_slots (λ x. x.bid_nonce) bids)
    × (witness.ciphertext_hash_field ≡ in_slots (λ x. x.ciphertext_hash_field) bids)
    × All (λ x. get_elem? witness.nullifier x.submission_index ≡ some x.nullifier) bids
    × All (λ x. get_elem? witness.bid_amount x.submission_index ≡ some x.bid_amount) bids
    × All (λ x. get_elem? witness.bid_nonce x.submission_index ≡ some x.bid_nonce) bids
    × All
        (λ x.
          get_elem? witness.ciphertext_hash_field x.submission_index ≡ some x.ciphertext_hash_field)
        bids
build_award_witness-winner_example =
    build_award_witness-winner sample_hash sample_domains award witness refl award-witness

abbrev reordered : List OpenedBid
reordered = bid 0 500 ∷ bid 1 300 ∷ bid 2 300 ∷ []

bids-HasDistinctKeys : HasDistinctKeys (λ b. b.submission_index) bids
bids-HasDistinctKeys =
    ((λ e. omega arith, (λ e. omega arith, tt)), ((λ e. omega arith, tt), (tt, tt)))

build_award_witness-Reorder_example :
    build_award_witness sample_hash sample_domains award
    ≡ build_award_witness sample_hash sample_domains (record award { bids = reordered })
build_award_witness-Reorder_example =
    build_award_witness-Reorder sample_hash sample_domains award reordered swap bids-HasDistinctKeys

select_winner-precedes_example :
    (w : OpenedBid) × (select_winner bids ≡ ok w)
    × Occurs w bids
    × All (λ x. precedes w x ≡ true) bids
select_winner-precedes_example = select_winner-precedes (bid 1 300) (bid 0 500 ∷ bid 2 300 ∷ [])
