-- ===== src/Verifier/Root.antt =====
-- packages/verifier/src/verify.mjs recomputes the root that packages/crypto/src/sealedbid.ts computed,
-- and its report forgets no check.
use fairproof_bcolbd.Prelude.{
  ◌+◌, ◌≡◌, refl, sym, ◌∙◌, arith, Bool, true, false, List, [], ◌∷◌, ◌++◌, Option, none, some,
  length, replicate, map_ok, ok, >>=-assoc, throw_if-eq-ok, ◌-◌, ◌^◌, ltb,
}
use fairproof_bcolbd.Prelude.Int.{ℤ}
use fairproof_bcolbd.Prelude.Sort.{sort_by}
use fairproof_bcolbd.Platform.{Ethers, Poseidon}
use fairproof_bcolbd.Domains.{Domains, storage_replicas, receipt_tree_depth}
use fairproof_bcolbd.Encoding.{StorageReceipt, receipt_leaf}
use fairproof_bcolbd.Merkle.{root_from_leaves}
use fairproof_bcolbd.SealedBid.{storage_receipt_root, receipt_leaves, replica_ids}
use fairproof_bcolbd.Vss.{has_duplicate}
use fairproof_bcolbd.Verifier.{Report, failures, passed, skipped, storage_receipt_root_from}

-- Every check of a report has failed, passed or been skipped.
report-length : (r : Report) → length (failures r) + passed r + skipped r ≡ length r
unfolding failures passed skipped
report-length [] = refl
report-length (c ∷ r) = go (report-length r) c.ok refl
  where
    go :
        length (failures r) + passed r + skipped r ≡ length r
        → (o : Option Bool) → c.ok ≡ o
        → length (failures (c ∷ r)) + passed (c ∷ r) + skipped (c ∷ r) ≡ length (c ∷ r)
    go h none e = rw (failures, passed, skipped, e) (omega (arith, h))
    go h (some true) e = rw (failures, passed, skipped, e) (omega (arith, h))
    go h (some false) e = rw (failures, passed, skipped, e) (omega (arith, h))

-- Where the root of the receipts is defined, the verifier recomputes it.
storage_receipt_root_from-storage_receipt_root :
    (e : Ethers) (domains : Domains) (hash : Poseidon) (receipts : List StorageReceipt) (root : ℤ)
    → storage_receipt_root e domains hash receipts ≡ ok root
    → storage_receipt_root_from e domains hash receipts ≡ ok root
unfolding storage_receipt_root storage_receipt_root_from receipt_leaves
storage_receipt_root_from-storage_receipt_root e domains hash receipts root h =
    let (_, h₁) = throw_if-eq-ok (ltb storage_replicas (length receipts)) _ _ h in
    let (_, h₂) = throw_if-eq-ok (has_duplicate (replica_ids e domains receipts)) _ _ h₁ in
    let leaves =
      map_ok (receipt_leaf e domains) (sort_by (λ (r : StorageReceipt). r.replica_id) receipts) in
    sym (
      >>=-assoc leaves
        (λ (ls : List ℤ). ok (ls ++ replicate (2 ^ receipt_tree_depth - length ls) domains.padding))
        (λ (ls : List ℤ). root_from_leaves hash domains ls receipt_tree_depth))
    ∙ h₂
