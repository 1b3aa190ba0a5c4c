-- ===== src/Storage/Quorum.antt =====
-- What an upload of packages/crypto/src/storage.ts guarantees.
use fairproof_bcolbd.Prelude.{
  ℕ, ◌≡◌, ◌≢◌, refl, sym, ap, ◌∙◌, arith, Bool, true, false, not, if◌then◌else◌, List, [], ◌∷◌, map,
  length, All, Occurs, first, later, Option, none, some, Result, ok, err, throw_if-eq-ok, >>=-eq-ok,
  ok-injective, none-ne-some, some-injective, Option-cases, Bool-cases, inl, inr, subst,
}
use fairproof_bcolbd.Field.{Bytes, Text}
use fairproof_bcolbd.Platform.{Ethers, Poseidon}
use fairproof_bcolbd.Domains.{Domains}
use fairproof_bcolbd.Encoding.{StorageReceipt}
use fairproof_bcolbd.SealedBid.{receipt_sig_digest, has_storage_quorum}
use fairproof_bcolbd.SealedBid.Receipts.{has_storage_quorum-distinct}
use fairproof_bcolbd.Storage.{
  ReplicaEndpoint, Reply, ReplyBody, Expected, UploadResult, Problem, accepted, refused, timed_out,
  unreachable, truthy, is_number, is_hash, signature_of, same_lower, judge_signer, check_signer,
  check_signature, validate, conclude, outcome_of, receipts_of, root_of_receipts,
  upload_to_replicas, receipt_of,
}

-- A receipt of one of the endpoints for the uploaded bytes, whose signature recovers to the address
-- that is registered for the endpoint.
pub record IsVerified (e : Ethers) (domains : Domains) (replicas : List ReplicaEndpoint)
    (hash : Text) (size : ℕ) (r : StorageReceipt) : Type 0 where
  pub endpoint : ReplicaEndpoint
  pub listed : Occurs endpoint replicas
  pub id : r.replica_id ≡ endpoint.replica_id
  pub content : r.content_hash ≡ hash
  pub bytes : r.byte_length ≡ size
  pub digest : Text
  pub signed : receipt_sig_digest e domains r.replica_id r.content_hash r.byte_length ≡ ok digest
  pub signer : Text
  pub recovered : e.recover_address digest r.signature ≡ ok signer
  pub registered : same_lower e domains signer endpoint.address ≡ true

-- A guard that reports a problem is passed where no problem is reported.
if_not-none :
    (b : Bool) (p : Problem) (rest : Result (Option Problem))
    → (if not b then ok (some p) else rest) ≡ ok none
    → rest ≡ ok none
if_not-none true p rest h = h
if_not-none false p rest h = cc

module _ (e : Ethers) (domains : Domains) (endpoint : ReplicaEndpoint) (expected : Expected) where
  -- The signature that a body carries, where `validate` finds no problem.
  abbrev Signed : Text → Type 0
  Signed signature =
      (digest : Text) × (signer : Text) × (receipt_sig_digest e domains endpoint.replica_id
          expected.content_hash expected.byte_length
        ≡ ok digest)
      × (e.recover_address digest signature ≡ ok signer)
      × (same_lower e domains signer endpoint.address ≡ true)

  judge_signer-none :
      (r : Result Text)
      → judge_signer e domains endpoint r ≡ none
      → (signer : Text) × (r ≡ ok signer) × (same_lower e domains signer endpoint.address ≡ true)
  unfolding judge_signer
  judge_signer-none (err reason) h = cc
  judge_signer-none (ok signer) h =
      elim (Bool-cases (same_lower e domains signer endpoint.address)) [
        | inl yes_same ↦ (signer, refl, yes_same)
        | inr different ↦ absurd (none-ne-some (sym (rw different at h)))
      ]

  check_signature-Signed :
      (signature : Option Text)
      → check_signature e domains endpoint expected signature ≡ ok none
      → (s : Text) × (signature ≡ some s) × Signed s
  unfolding check_signature check_signer
  check_signature-Signed none h = absurd (none-ne-some (sym (ok-injective h)))
  check_signature-Signed (some s) h =
      let (digest, digested, judged) =
        >>=-eq-ok
          (receipt_sig_digest e domains endpoint.replica_id expected.content_hash
            expected.byte_length)
          _ h in
      let (signer, recovered, registered) =
        judge_signer-none (e.recover_address digest s) (ok-injective judged) in
      (s, refl, (digest, signer, digested, recovered, registered))

  -- `validate` finds no problem only in a body whose signature is checked.
  validate-none :
      (body : ReplyBody)
      → validate e domains endpoint body expected ≡ ok none
      → check_signature e domains endpoint expected (truthy body.signature) ≡ ok none
  unfolding validate
  validate-none body h =
      if_not-none (is_number body.byte_length expected.byte_length) Problem.wrong_length _ (
        if_not-none (is_hash e domains (truthy body.content_hash) expected.content_hash)
          Problem.wrong_hash _
          (if_not-none (is_number body.replica_id endpoint.replica_id) Problem.wrong_replica _ h))

  truthy-signature_of :
      (o : Option Text) (s : Text) → truthy o ≡ some s → signature_of e domains o ≡ s
  truthy-signature_of none s h = cc
  truthy-signature_of (some []) s h = cc
  truthy-signature_of (some (c ∷ cs)) s h = cc

  conclude-receipt :
      (body : ReplyBody) (v : Result (Option Problem)) (r : StorageReceipt)
      → (conclude e domains endpoint body expected v).receipt ≡ some r
      → (v ≡ ok none) × (receipt_of e domains endpoint body expected ≡ r)
  unfolding conclude
  conclude-receipt body (err reason) r h = absurd (none-ne-some h)
  conclude-receipt body (ok (some problem)) r h = absurd (none-ne-some h)
  conclude-receipt body (ok none) r h = (refl, some-injective h)

  -- A receipt in an outcome is verified.
  outcome_of-IsVerified :
      (replicas : List ReplicaEndpoint) (reply : Reply) (r : StorageReceipt)
      → Occurs endpoint replicas
      → (outcome_of e domains expected endpoint reply).receipt ≡ some r
      → IsVerified e domains replicas expected.content_hash expected.byte_length r
  unfolding outcome_of
  outcome_of-IsVerified replicas (refused status) r o h = absurd (none-ne-some h)
  outcome_of-IsVerified replicas timed_out r o h = absurd (none-ne-some h)
  outcome_of-IsVerified replicas unreachable r o h = absurd (none-ne-some h)
  outcome_of-IsVerified replicas (accepted body) r o h =
      let (valid, made) = conclude-receipt body (validate e domains endpoint body expected) r h in
      let (s, given, (digest, signer, digested, recovered, registered)) =
        check_signature-Signed (truthy body.signature) (validate-none body valid) in
      let carried : signature_of e domains body.signature ≡ s =
        truthy-signature_of body.signature s given in
      subst (IsVerified e domains replicas expected.content_hash expected.byte_length) made
        (record {
          endpoint = endpoint;
          listed = o;
          id = refl;
          content = refl;
          bytes = refl;
          digest = digest;
          signed = digested;
          signer = signer;
          recovered = ap (e.recover_address digest) carried ∙ recovered;
          registered = registered;
        })

module _ (e : Ethers) (domains : Domains) (network : ReplicaEndpoint → Reply) where
  -- The receipts of some of the replicas.
  receipts_of-IsVerified :
      (expected : Expected) (replicas some_replicas : List ReplicaEndpoint)
      → ((endpoint : ReplicaEndpoint) → Occurs endpoint some_replicas → Occurs endpoint replicas)
      → All
          (IsVerified e domains replicas expected.content_hash expected.byte_length)
          (receipts_of (map (λ r. outcome_of e domains expected r (network r)) some_replicas))
  unfolding receipts_of
  receipts_of-IsVerified expected replicas [] within = tt
  receipts_of-IsVerified expected replicas (endpoint ∷ others) within =
      let rest = receipts_of-IsVerified expected replicas others (λ x o. within x (later o)) in
      elim (Option-cases (outcome_of e domains expected endpoint (network endpoint)).receipt) [
        | inl nothing ↦ rw (nothing, receipts_of) rest
        | inr (r, found) ↦
            rw (found, receipts_of)
              (
                outcome_of-IsVerified e domains endpoint expected replicas (network endpoint) r
                    (within endpoint first) found,
                rest,
              )
      ]

-- Whatever the replicas reply, every receipt of a successful upload that requires a quorum is of
-- one of the given endpoints, for the hash and the length of the upload, and its signature recovers
-- to the endpoint's registered address (compared in lower case); and two of the receipts are of
-- different replicas.
pub upload_to_replicas-IsVerified :
    (e : Ethers) (domains : Domains) (hash : Poseidon) (network : ReplicaEndpoint → Reply)
    (replicas : List ReplicaEndpoint) (content : Bytes) (content_hash : Text)
    (result : UploadResult)
    → upload_to_replicas e domains hash network replicas content content_hash true ≡ ok result
    → All (IsVerified e domains replicas content_hash (length content)) result.receipts
      × (r : StorageReceipt) × (s : StorageReceipt) × Occurs r result.receipts
      × Occurs s result.receipts
      × (r.replica_id ≢ s.replica_id)
unfolding upload_to_replicas
upload_to_replicas-IsVerified e domains hash network replicas content content_hash result h =
    let expected : Expected = record {
      content_hash = content_hash;
      byte_length = length content;
    } in
    let receipts = receipts_of (map (λ r. outcome_of e domains expected r (network r)) replicas) in
    let (quorum, h₁) = throw_if-eq-ok (not (has_storage_quorum receipts)) _ _ h in
    let (root, _, h₂) = >>=-eq-ok (root_of_receipts e domains hash receipts) _ h₁ in
    let same : receipts ≡ result.receipts =
      ap (λ (u : UploadResult). u.receipts) (ok-injective h₂) in
    let verified = receipts_of-IsVerified e domains network expected replicas replicas (λ x o. o) in
    let (r, s, r_in, s_in, differ) = has_storage_quorum-distinct receipts (ground arith) in
    subst
      (λ (rs : List StorageReceipt).
        All (IsVerified e domains replicas content_hash (length content)) rs
        × (r : StorageReceipt) × (s : StorageReceipt) × Occurs r rs
        × Occurs s rs
        × (r.replica_id ≢ s.replica_id))
      same (verified, r, s, r_in, s_in, differ)
