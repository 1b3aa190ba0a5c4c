-- ===== src/Award/Columns.antt =====
-- The vectors of the witness that buildAwardWitness of packages/crypto/src/award.ts assembles.
use fairproof_bcolbd.Prelude.{
  All, All-weaken, All-of_Occurs, Occurs, first, later, some, some-injective, not, ◌==◌, ◌+◌, subst,
  get_elem?, throw_if-eq-ok, ℕ, zero, suc, ◌-◌, ◌≤◌, ◌≡◌, refl, sym, ap, ap₂, ◌∙◌, arith, List, [],
  ◌∷◌, ◌++◌, map, length, replicate, ok, >>=-eq-ok, ok-injective,
}
use fairproof_bcolbd.Prelude.Int.{ℤ, pos}
use fairproof_bcolbd.Prelude.Sort.{sort_by, length-sort_by, sort_by-Reorder, All-Reorder}
use fairproof_bcolbd.Platform.{Poseidon}
use fairproof_bcolbd.Domains.{Domains, max_bids}
use fairproof_bcolbd.Poseidon.{bid_leaf}
use fairproof_bcolbd.Award.{
  OpenedBid, Slot, check_indices, fill_slots, slot_of, commitment_of, empty_slot,
}

-- A column of the 32 slots: the bids' values in the order of their submission indices, then zeros.
abbrev pub in_slots : (OpenedBid → ℤ) → List OpenedBid → List ℤ
in_slots value bids =
    map value (sort_by (λ b. b.submission_index) bids) ++ replicate (32 - length bids) (pos 0)

pub get_elem?-Occurs :
    (i : ℕ) (bids : List OpenedBid) (w : OpenedBid)
    → check_indices i bids ≡ ok tt
    → Occurs w bids
    → (k : ℕ) × (get_elem? bids k ≡ some w) × (w.submission_index ≡ i + k)
unfolding check_indices
get_elem?-Occurs i [] w h o = elim o [ ]
get_elem?-Occurs i (b ∷ bids) w h first =
    let (here, rest) = throw_if-eq-ok (not (w.submission_index == i)) _ _ h in
    (0, refl, ground arith)
get_elem?-Occurs i (b ∷ bids) w h (later o) =
    let (here, rest) = throw_if-eq-ok (not (b.submission_index == i)) _ _ h in
    let (k, found, index) = get_elem?-Occurs (suc i) bids w rest o in (suc k, found, omega arith)

get_elem?-map_append :
    (value : OpenedBid → ℤ) (bids : List OpenedBid) (rest : List ℤ) (i : ℕ) (x : OpenedBid)
    → get_elem? bids i ≡ some x
    → get_elem? (map value bids ++ rest) i ≡ some (value x)
get_elem?-map_append value [] rest i x h = cc
get_elem?-map_append value (b ∷ bids) rest zero x h = ap some (ap value (some-injective h))
get_elem?-map_append value (b ∷ bids) rest (suc i) x h = get_elem?-map_append value bids rest i x h

-- The bid stands in the list at its submission index.
abbrev IsInPlace : List OpenedBid → OpenedBid → Type 0
IsInPlace bids x = get_elem? bids x.submission_index ≡ some x

check_indices-IsInPlace :
    (bids : List OpenedBid) → check_indices 0 bids ≡ ok tt → All (IsInPlace bids) bids
check_indices-IsInPlace bids h = All-of_Occurs (IsInPlace bids) bids (λ x o.
    let (k, found, index) = get_elem?-Occurs 0 bids x h o in
    let same : k ≡ x.submission_index = omega arith in ap (get_elem? bids) (sym same) ∙ found)

-- Where each bid stands at its submission index, a column has its value there.
pub column-All :
    (value : OpenedBid → ℤ) (bids : List OpenedBid) {xs : List ℤ}
    → check_indices 0 (sort_by (λ b. b.submission_index) bids) ≡ ok tt
    → xs ≡ in_slots value bids
    → All (λ x. get_elem? xs x.submission_index ≡ some (value x)) bids
column-All value bids checked column =
    let key = λ (b : OpenedBid). b.submission_index in
    let ordered = sort_by key bids in
    let places =
      All-Reorder key (IsInPlace ordered) (sort_by-Reorder key bids)
        (check_indices-IsInPlace ordered checked) in
    subst (λ (ys : List ℤ). All (λ x. get_elem? ys x.submission_index ≡ some (value x)) bids)
      (sym column)
      (All-weaken (λ x p. get_elem?-map_append value ordered _ x.submission_index x p) bids places)

shorter : (n : ℕ) → suc (n - 0) ≡ suc n - 0
shorter n = omega arith

shorter_by : (n m : ℕ) → n - m ≡ suc n - suc m
shorter_by n m = omega arith

module _ (hash : Poseidon) (domains : Domains) where
  slot_of_fields :
      (tender : ℤ) (i : ℕ) (b : OpenedBid) (slot : Slot)
      → slot_of hash domains tender i b ≡ ok slot
      → (slot.nullifier ≡ b.nullifier)
        × (slot.bid_amount ≡ b.bid_amount)
        × (slot.bid_nonce ≡ b.bid_nonce)
        × (slot.ciphertext_hash_field ≡ b.ciphertext_hash_field)
  unfolding slot_of
  slot_of_fields tender i b slot h =
      let (commitment, _, h₁) = >>=-eq-ok (commitment_of hash domains tender b) _ h in
      let (leaf, _, h₂) =
        >>=-eq-ok (bid_leaf hash domains b.nullifier commitment b.ciphertext_hash_field i) _ h₁ in
      let e = sym (ok-injective h₂) in rw e (refl, refl, refl, refl)

  -- A column of the slots, from slot `i` on: the bids' values and then those of the empty slot.
  map-fill_slots :
      (column : Slot → ℤ) (value : OpenedBid → ℤ) (tender : ℤ) (n i : ℕ) (bids : List OpenedBid)
      (slots : List Slot)
      → ((j : ℕ) (b : OpenedBid) (s : Slot)
          → slot_of hash domains tender j b ≡ ok s
          → column s ≡ value b)
      → length bids ≤ n
      → fill_slots hash domains tender n i bids ≡ ok slots
      → map column slots
        ≡ map value bids ++ replicate (n - length bids) (column (empty_slot hash domains))
  unfolding fill_slots
  map-fill_slots column value tender zero i [] slots fits few h =
      ap (map column) (sym (ok-injective h))
  map-fill_slots column value tender zero i (b ∷ bids) slots fits few h = absurd (omega arith)
  map-fill_slots column value tender (suc n) i [] slots fits few h =
      let (rest, filled, e) = >>=-eq-ok (fill_slots hash domains tender n (suc i) []) _ h in
      ap (map column) (sym (ok-injective e))
      ∙ ap (λ (xs : List ℤ). column (empty_slot hash domains) ∷ xs)
          (map-fill_slots column value tender n (suc i) [] rest fits (omega arith) filled)
      ∙ ap (λ (k : ℕ). replicate k (column (empty_slot hash domains))) (shorter n)
  map-fill_slots column value tender (suc n) i (b ∷ bids) slots fits few h =
      let (slot, made, h₁) = >>=-eq-ok (slot_of hash domains tender i b) _ h in
      let (rest, filled, e) = >>=-eq-ok (fill_slots hash domains tender n (suc i) bids) _ h₁ in
      ap (map column) (sym (ok-injective e))
      ∙ ap₂ (λ (x : ℤ) (xs : List ℤ). x ∷ xs) (fits i b slot made)
          (map-fill_slots column value tender n (suc i) bids rest fits (omega arith) filled)
      ∙ ap (λ (k : ℕ). map value (b ∷ bids) ++ replicate k (column (empty_slot hash domains)))
          (shorter_by n (length bids))

  sorted_column :
      (column : Slot → ℤ) (value : OpenedBid → ℤ) (tender : ℤ) (bids : List OpenedBid)
      (slots : List Slot)
      → ((j : ℕ) (b : OpenedBid) (s : Slot)
          → slot_of hash domains tender j b ≡ ok s
          → column s ≡ value b)
      → column (empty_slot hash domains) ≡ pos 0
      → length bids ≤ 32
      → fill_slots hash domains tender max_bids 0 (sort_by (λ b. b.submission_index) bids)
        ≡ ok slots
      → map column slots ≡ in_slots value bids
  sorted_column column value tender bids slots fits empty few h =
      let ordered = sort_by (λ (b : OpenedBid). b.submission_index) bids in
      let same_length = length-sort_by (λ (b : OpenedBid). b.submission_index) bids in
      map-fill_slots column value tender 32 0 ordered slots fits (omega (arith, same_length)) h
      ∙ ap₂ (λ (k : ℕ) (e : ℤ). map value ordered ++ replicate (32 - k) e) same_length empty

  -- Each column of the slots has the bids' values in the order of submission, and zeros behind them.
  pub fill_slots-in_slots :
      (tender : ℤ) (bids : List OpenedBid) (slots : List Slot)
      → length bids ≤ 32
      → fill_slots hash domains tender max_bids 0 (sort_by (λ b. b.submission_index) bids)
        ≡ ok slots
      → (map (λ s. s.nullifier) slots ≡ in_slots (λ b. b.nullifier) bids)
        × (map (λ s. s.bid_amount) slots ≡ in_slots (λ b. b.bid_amount) bids)
        × (map (λ s. s.bid_nonce) slots ≡ in_slots (λ b. b.bid_nonce) bids)
        × (map (λ s. s.ciphertext_hash_field) slots ≡ in_slots (λ b. b.ciphertext_hash_field) bids)
  fill_slots-in_slots tender bids slots few h =
      let fields = slot_of_fields tender in
      (
        sorted_column (λ s. s.nullifier) (λ b. b.nullifier) tender bids slots
            (λ j b s m. (fields j b s m).0) refl few h,
        sorted_column (λ s. s.bid_amount) (λ b. b.bid_amount) tender bids slots
            (λ j b s m. (fields j b s m).1) refl few h,
        sorted_column (λ s. s.bid_nonce) (λ b. b.bid_nonce) tender bids slots
            (λ j b s m. (fields j b s m).2) refl few h,
        sorted_column (λ s. s.ciphertext_hash_field) (λ b. b.ciphertext_hash_field) tender bids
            slots (λ j b s m. (fields j b s m).3) refl few h,
      )
