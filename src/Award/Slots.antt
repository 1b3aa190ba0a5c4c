-- ===== src/Award/Slots.antt =====
-- What a successful `buildAwardWitness` of packages/crypto/src/award.ts returns.
use fairproof_bcolbd.Prelude.{
  ℕ, zero, suc, ◌≤◌, ◌≡◌, All, Occurs, ◌⊎◌, subst, refl, sym, ap, ◌∙◌, arith, true, ◌&&◌, not, ltb,
  ◌==◌, List, [], ◌∷◌, map, length, length-map, get_elem?, Option, none, some, ok, throw_if-eq-ok,
  >>=-eq-ok, ok-injective, if◌then◌else◌,
}
use fairproof_bcolbd.Prelude.Int.{ℤ, pos}
use fairproof_bcolbd.Prelude.Sort.{
  Reorder, HasDistinctKeys, sort_by, sort_by_unique, length-sort_by, sort_by-Reorder,
  Occurs-Reorder, All-Reorder,
}
use fairproof_bcolbd.Field.{hex, to_limbs}
use fairproof_bcolbd.Merkle.{insert_all}
use fairproof_bcolbd.Award.Columns.{in_slots, get_elem?-Occurs, column-All, fill_slots-in_slots}
use fairproof_bcolbd.Award.Winner.{precedes, select_winner-precedes}
use fairproof_bcolbd.Platform.{Poseidon}
use fairproof_bcolbd.Domains.{Domains, max_bids}
use fairproof_bcolbd.Award.{
  OpenedBid, AwardParams, AwardWitness, Slot, build_award_witness, assemble, fill_slots,
  check_indices, slot_of, commitment_of, select_winner, winner_index_of, active_bid,
  disclose_winning_price, conceal_winning_price,
}

length-Reorder {ℓ} : {A : Type ℓ} {xs ys : List A} → Reorder xs ys → length xs ≡ length ys
length-Reorder Reorder.same = refl
length-Reorder (Reorder.keep r) = ap suc (length-Reorder r)
length-Reorder Reorder.swap = refl
length-Reorder (Reorder.chain r s) = length-Reorder r ∙ length-Reorder s

module _ (hash : Poseidon) (domains : Domains) where
  -- The witness does not depend on the order in which the authority holds the bids: on two orders
  -- of bids with distinct submission indices `buildAwardWitness` returns one result, or throws one
  -- error.
  pub build_award_witness-Reorder :
      (params : AwardParams) (bids : List OpenedBid)
      → Reorder params.bids bids
      → HasDistinctKeys (λ b. b.submission_index) params.bids
      → build_award_witness hash domains params
        ≡ build_award_witness hash domains (record params { bids = bids })
  unfolding build_award_witness assemble
  build_award_witness-Reorder params bids r distinct =
      rw (length-Reorder r, sort_by_unique (λ b. b.submission_index) r distinct) refl

  length-fill_slots :
      (tender : ℤ) (n i : ℕ) (bids : List OpenedBid) (slots : List Slot)
      → fill_slots hash domains tender n i bids ≡ ok slots
      → length slots ≡ n
  unfolding fill_slots
  length-fill_slots tender zero i bids slots h = ap length (sym (ok-injective h))
  length-fill_slots tender (suc n) i [] slots h =
      let (rest, filled, e) = >>=-eq-ok (fill_slots hash domains tender n (suc i) []) _ h in
      ap length (sym (ok-injective e)) ∙ ap suc (length-fill_slots tender n (suc i) [] rest filled)
  length-fill_slots tender (suc n) i (b ∷ bids) slots h =
      let (slot, _, h₁) = >>=-eq-ok (slot_of hash domains tender i b) _ h in
      let (rest, filled, e) = >>=-eq-ok (fill_slots hash domains tender n (suc i) bids) _ h₁ in
      ap length (sym (ok-injective e))
      ∙ ap suc (length-fill_slots tender n (suc i) bids rest filled)

  active_bid-ok :
      (bids : List OpenedBid) (index : ℕ) (w : OpenedBid)
      → get_elem? bids index ≡ some w
      → active_bid hash domains bids index ≡ ok w
  unfolding active_bid
  active_bid-ok bids index w e = rw (e, active_bid)

  -- The bid in the slot of the selected winner is the winner.
  active_bid-winner :
      (bids : List OpenedBid) (index : ℕ) (b : OpenedBid)
      → check_indices 0 bids ≡ ok tt
      → winner_index_of hash domains none bids ≡ ok index
      → active_bid hash domains bids index ≡ ok b
      → Occurs b bids × All (λ x. precedes b x ≡ true) bids × (index ≡ b.submission_index)
  unfolding winner_index_of select_winner
  active_bid-winner [] index b checked chosen found = cc
  active_bid-winner (x ∷ bids) index b checked chosen found =
      let (w, selected, occurs, best) = select_winner-precedes x bids in
      let (w', selected', index_eq) =
        >>=-eq-ok (select_winner (x ∷ bids)) (λ (v : OpenedBid). ok v.submission_index) chosen in
      let same : w' ≡ w = ok-injective (sym selected' ∙ selected) in
      let place : w.submission_index ≡ index =
        ap (λ (v : OpenedBid). v.submission_index) (sym same) ∙ ok-injective index_eq in
      let (k, at_k, k_eq) = get_elem?-Occurs 0 (x ∷ bids) w checked occurs in
      let slot : k ≡ index = omega arith in
      let here : get_elem? (x ∷ bids) index ≡ some w =
        ap (get_elem? (x ∷ bids)) (sym slot) ∙ at_k in
      let is : w ≡ b = ok-injective (sym (active_bid-ok (x ∷ bids) index w here) ∙ found) in
      subst
        (λ (v : OpenedBid).
          Occurs v (x ∷ bids)
          × All (λ y. precedes v y ≡ true) (x ∷ bids)
          × (index ≡ v.submission_index))
        is (occurs, best, sym place)

  -- A witness that is built with no override is for between 1 and 32 bids and a known policy. It is
  -- for one of the bids, which every bid exceeds in amount, or equals in amount without an earlier
  -- submission: its index is that bid's, its commitment is that bid's, and its price is that bid's
  -- amount under policy 1 and zero under policy 2. Its vectors have 32 slots: the nullifiers, the
  -- amounts, the nonces and the ciphertext hashes of the bids, each in the order of the submission
  -- indices, and zeros behind them. The values of every bid stand in the slot of its submission
  -- index.
  pub build_award_witness-winner :
      (params : AwardParams) (w : AwardWitness)
      → params.winner_index_override ≡ none
      → build_award_witness hash domains params ≡ ok w
      → (b : OpenedBid) × Occurs b params.bids
        × All (λ x. precedes b x ≡ true) params.bids
        × (w.winner_index ≡ b.submission_index)
        × (commitment_of hash domains params.tender_id_field b ≡ ok w.winner_commitment)
        × (w.winning_price ≡ (if w.disclosure_policy == 1 then b.bid_amount else pos 0))
        × ((w.disclosure_policy ≡ 1) ⊎ (w.disclosure_policy ≡ 2))
        × (w.submission_count ≡ length params.bids)
        × (length params.bids ≤ 32)
        × (length w.nullifier ≡ 32)
        × (length w.bid_amount ≡ 32)
        × (length w.bid_nonce ≡ 32)
        × (length w.ciphertext_hash_field ≡ 32)
        × (w.nullifier ≡ in_slots (λ x. x.nullifier) params.bids)
        × (w.bid_amount ≡ in_slots (λ x. x.bid_amount) params.bids)
        × (w.bid_nonce ≡ in_slots (λ x. x.bid_nonce) params.bids)
        × (w.ciphertext_hash_field ≡ in_slots (λ x. x.ciphertext_hash_field) params.bids)
        × All (λ x. get_elem? w.nullifier x.submission_index ≡ some x.nullifier) params.bids
        × All (λ x. get_elem? w.bid_amount x.submission_index ≡ some x.bid_amount) params.bids
        × All (λ x. get_elem? w.bid_nonce x.submission_index ≡ some x.bid_nonce) params.bids
        × All
            (λ x.
              get_elem? w.ciphertext_hash_field x.submission_index ≡ some x.ciphertext_hash_field)
            params.bids
  unfolding build_award_witness assemble
  build_award_witness-winner params w free h =
      let key = λ (b : OpenedBid). b.submission_index in
      let ordered = sort_by key params.bids in
      let (few, h₁) = throw_if-eq-ok (ltb max_bids (length params.bids)) _ _ h in
      let (policy, h₂) =
        throw_if-eq-ok
          (not (params.disclosure_policy == disclose_winning_price)
            && not (params.disclosure_policy == conceal_winning_price))
          _ _ h₁ in
      let (_, checked, h₃) = >>=-eq-ok (check_indices 0 ordered) _ h₂ in
      let (slots, filled, h₄) =
        >>=-eq-ok (fill_slots hash domains params.tender_id_field max_bids 0 ordered) _ h₃ in
      let (tree, _, h₅) = >>=-eq-ok (insert_all _ (map (λ (s : Slot). s.leaf) slots)) _ h₄ in
      let (index, chosen, h₆) =
        >>=-eq-ok (winner_index_of hash domains params.winner_index_override ordered) _ h₅ in
      let (b, found, h₇) = >>=-eq-ok (active_bid hash domains ordered index) _ h₆ in
      let (commitment, committed, h₈) =
        >>=-eq-ok (commitment_of hash domains params.tender_id_field b) _ h₇ in
      let (limbs, _, h₉) = >>=-eq-ok (to_limbs (hex params.rules_hash)) _ h₈ in
      let e = sym (ok-injective h₉) in
      let len = length-fill_slots params.tender_id_field max_bids 0 ordered slots filled in
      let (occurs, best, place) =
        active_bid-winner ordered index b checked
          (subst (λ (o : Option ℕ). winner_index_of hash domains o ordered ≡ ok index) free chosen)
          found in
      let r = sort_by-Reorder key params.bids in
      let columns =
        fill_slots-in_slots hash domains params.tender_id_field params.bids slots (ground arith)
          filled in
      rw e (
        b,
        Occurs-Reorder r occurs,
        All-Reorder key (λ x. precedes b x ≡ true) r best,
        place,
        committed,
        refl,
        ground arith,
        length-sort_by key params.bids,
        ground arith,
        length-map slots _ ∙ len,
        length-map slots _ ∙ len,
        length-map slots _ ∙ len,
        length-map slots _ ∙ len,
        columns.0,
        columns.1,
        columns.2,
        columns.3,
        column-All (λ x. x.nullifier) params.bids checked columns.0,
        column-All (λ x. x.bid_amount) params.bids checked columns.1,
        column-All (λ x. x.bid_nonce) params.bids checked columns.2,
        column-All (λ x. x.ciphertext_hash_field) params.bids checked columns.3,
      )
