-- ===== src/SealedBid/Receipts.antt =====
-- The storage-receipt root of packages/crypto/src/sealedbid.ts does not depend on the order in
-- which the replicas answered.
use fairproof_bcolbd.Prelude.{
  ℕ, suc, ◌≤◌, ◌≡◌, ◌≢◌, refl, sym, ap, ap₂, ◌∙◌, arith, Bool, true, false, ◌||◌, ◌==◌, List, [],
  ◌∷◌, map, length, contains, All, Occurs, first, later, Bool-cases, inl, inr,
}
use fairproof_bcolbd.Prelude.Sort.{
  Reorder, same, keep, swap, chain, HasDistinctKeys, sort_by_unique,
}
use fairproof_bcolbd.Platform.{Ethers, Poseidon}
use fairproof_bcolbd.Domains.{Domains}
use fairproof_bcolbd.Encoding.{StorageReceipt}
use fairproof_bcolbd.SealedBid.{
  receipt_leaves, storage_receipt_root, count_distinct, has_storage_quorum,
}
use fairproof_bcolbd.Vss.{has_duplicate}

ids : List StorageReceipt → List ℕ
ids receipts = map (λ r. r.replica_id) receipts

contains-Reorder :
    (x : ℕ) {xs ys : List StorageReceipt}
    → Reorder xs ys
    → contains x (ids xs) ≡ contains x (ids ys)
unfolding ids
contains-Reorder x same = refl
contains-Reorder x (keep {x = r} e) =
    ap (λ (b : Bool). x == r.replica_id || b) (contains-Reorder x e)
contains-Reorder x swap = ground arith
contains-Reorder x (chain r s) = contains-Reorder x r ∙ contains-Reorder x s

has_duplicate-Reorder :
    {xs ys : List StorageReceipt} → Reorder xs ys → has_duplicate (ids xs) ≡ has_duplicate (ids ys)
unfolding ids
has_duplicate-Reorder same = refl
has_duplicate-Reorder (keep {x = r} e) =
    ap₂ (λ (a b : Bool). a || b) (contains-Reorder r.replica_id e) (has_duplicate-Reorder e)
has_duplicate-Reorder swap = ground arith
has_duplicate-Reorder (chain r s) = has_duplicate-Reorder r ∙ has_duplicate-Reorder s

length-Reorder : {xs ys : List StorageReceipt} → Reorder xs ys → length xs ≡ length ys
length-Reorder same = refl
length-Reorder (keep r) = ap suc (length-Reorder r)
length-Reorder swap = refl
length-Reorder (chain r s) = length-Reorder r ∙ length-Reorder s

distinct_of_contains :
    (r : StorageReceipt) (xs : List StorageReceipt)
    → contains r.replica_id (ids xs) ≡ false
    → All (λ (s : StorageReceipt). r.replica_id ≢ s.replica_id) xs
unfolding ids
distinct_of_contains r [] h = tt
distinct_of_contains r (s ∷ xs) h =
    let apart : r.replica_id ≢ s.replica_id = ground arith in
    (apart, distinct_of_contains r xs (ground arith))

distinct_of_has_duplicate :
    (xs : List StorageReceipt)
    → has_duplicate (ids xs) ≡ false
    → HasDistinctKeys (λ (r : StorageReceipt). r.replica_id) xs
unfolding ids
distinct_of_has_duplicate [] h = tt
distinct_of_has_duplicate (r ∷ xs) h =
    (distinct_of_contains r xs (ground arith), distinct_of_has_duplicate xs (ground arith))

-- On two orders of the same receipts `storageReceiptRoot` returns one root, or throws one error.
pub storage_receipt_root-Reorder :
    (e : Ethers) (domains : Domains) (hash : Poseidon) (xs ys : List StorageReceipt)
    → Reorder xs ys
    → storage_receipt_root e domains hash xs ≡ storage_receipt_root e domains hash ys
unfolding storage_receipt_root receipt_leaves ids
storage_receipt_root-Reorder e domains hash xs ys r = elim (Bool-cases (has_duplicate (ids xs))) [
  | inl d ↦ rw (length-Reorder r, d, sym (has_duplicate-Reorder r) ∙ d) refl
  | inr d ↦
      rw
        (
          length-Reorder r,
          has_duplicate-Reorder r,
          sort_by_unique (λ (r : StorageReceipt). r.replica_id) r (distinct_of_has_duplicate xs d),
        )
        refl
]

Occurs-map :
    (n : ℕ) (xs : List StorageReceipt)
    → Occurs n (ids xs)
    → (r : StorageReceipt) × Occurs r xs × (r.replica_id ≡ n)
unfolding ids
Occurs-map n [] o = elim o [ ]
Occurs-map n (r ∷ xs) first = (r, first, refl)
Occurs-map n (r ∷ xs) (later o) = let (s, occurs, e) = Occurs-map n xs o in (s, later occurs, e)

two_distinct :
    (ns : List ℕ) → 2 ≤ count_distinct ns → (a : ℕ) × (b : ℕ) × Occurs a ns × Occurs b ns × (a ≢ b)
unfolding count_distinct
two_distinct [] h = absurd (omega arith)
two_distinct (x ∷ []) h = absurd (omega arith)
two_distinct (x ∷ y ∷ xs) h = elim (Bool-cases (contains x (y ∷ xs))) [
  | inl again ↦
      let (a, b, oa, ob, ne) = two_distinct (y ∷ xs) (rw again at h) in
      (a, b, later oa, later ob, ne)
  | inr fresh ↦ let apart : x ≢ y = ground arith in (x, y, first, later first, apart)
]

-- A quorum means that two of the receipts come from different replicas.
pub has_storage_quorum-distinct :
    (receipts : List StorageReceipt)
    → has_storage_quorum receipts ≡ true
    → (r : StorageReceipt) × (s : StorageReceipt) × Occurs r receipts
      × Occurs s receipts
      × (r.replica_id ≢ s.replica_id)
unfolding has_storage_quorum ids
has_storage_quorum-distinct receipts h =
    let (a, b, oa, ob, ne) = two_distinct (ids receipts) (ground arith) in
    let (r, or, re) = Occurs-map a receipts oa in
    let (s, os, se) = Occurs-map b receipts ob in (r, s, or, os, λ e. ne (sym re ∙ e ∙ se))
