-- ===== src/Storage.antt =====
-- packages/crypto/src/storage.ts: the client of the ciphertext-store replicas. What the network
-- does is a function from the endpoint to its reply.
pub mod Quorum
use fairproof_bcolbd.Prelude.{
  ℕ, zero, suc, Bool, true, false, not, ◌&&◌, ◌||◌, List, [], ◌∷◌, ◌++◌, map, ◌==◌, if◌then◌else◌,
  length, Option, none, some, Result, ok, err, Error, ◌>>=◌, ◌>>◌, throw_if,
}
use fairproof_bcolbd.Prelude.Int.{ℤ, pos}
use fairproof_bcolbd.Prelude.Texts.{text_eq}
use fairproof_bcolbd.Field.{Bytes, Text}
use fairproof_bcolbd.Platform.{Ethers, Poseidon}
use fairproof_bcolbd.Domains.{Domains}
use fairproof_bcolbd.Encoding.{StorageReceipt}
use fairproof_bcolbd.SealedBid.{receipt_sig_digest, storage_receipt_root, has_storage_quorum}

pub record ReplicaEndpoint : Type 0 where
  pub replica_id : ℕ
  pub url : Text
  pub address : Text

-- why a replica gave no usable receipt, without the text of the message
pub data Problem : Type 0 where
  wrong_replica wrong_hash wrong_length no_signature not_recovered wrong_signer : Problem
  http_status : ℕ → Problem
  aborted : Problem
  failed : Problem

pub record ReplicaOutcome : Type 0 where
  pub replica_id : ℕ
  pub ok : Bool
  pub receipt : Option StorageReceipt
  pub problem : Option Problem

pub record UploadResult : Type 0 where
  pub receipts : List StorageReceipt
  pub storage_receipt_root : ℤ
  pub outcomes : List ReplicaOutcome
  pub quorum_met : Bool

-- the JSON body of a reply; a field that is missing is `undefined`
pub record ReplyBody : Type 0 where
  pub replica_id : Option ℕ
  pub content_hash : Option Text
  pub byte_length : Option ℕ
  pub signature : Option Text

-- What `fetch` gives: an answer with its status, an abort after the timeout, or another failure.
pub data Reply : Type 0 where
  accepted : ReplyBody → Reply
  refused : ℕ → Reply
  timed_out : Reply
  unreachable : Reply

-- `contentHash` and `byteLength` of what was uploaded
pub record Expected : Type 0 where
  pub content_hash : Text
  pub byte_length : ℕ

-- a string that is not `undefined` and not empty
abbrev pub truthy : Option Text → Option Text
truthy none = none
truthy (some []) = none
truthy (some (c ∷ cs)) = some (c ∷ cs)

-- `body.n === n`
abbrev pub is_number : Option ℕ → ℕ → Bool
is_number none n = false
is_number (some m) n = m == n

module _ (e : Ethers) (domains : Domains) where
  -- `a.toLowerCase() === b.toLowerCase()`
  abbrev pub same_lower : Text → Text → Bool
  same_lower a b = text_eq (e.to_lower_case a) (e.to_lower_case b)

  -- `!body.contentHash || …`, the other way round
  abbrev pub is_hash : Option Text → Text → Bool
  is_hash none hash = false
  is_hash (some given) hash = same_lower given hash

  -- the comparison of the recovered signer with the registered address
  unfoldable pub judge_signer : ReplicaEndpoint → Result Text → Option Problem
  judge_signer endpoint (err reason) = some not_recovered
  judge_signer endpoint (ok recovered) =
      if same_lower recovered endpoint.address then none else some wrong_signer

  -- the end of `validate`
  unfoldable pub check_signer : ReplicaEndpoint → Expected → Text → Result (Option Problem)
  check_signer endpoint expected signature = do
    digest ←
        receipt_sig_digest e domains endpoint.replica_id expected.content_hash expected.byte_length
    ok (judge_signer endpoint (e.recover_address digest signature))

  unfoldable pub check_signature :
      ReplicaEndpoint → Expected → Option Text → Result (Option Problem)
  check_signature endpoint expected none = ok (some no_signature)
  check_signature endpoint expected (some signature) = check_signer endpoint expected signature

  unfoldable pub validate : ReplicaEndpoint → ReplyBody → Expected → Result (Option Problem)
  validate endpoint body expected =
      if not (is_number body.replica_id endpoint.replica_id)
      then ok (some wrong_replica)
      else if not (is_hash (truthy body.content_hash) expected.content_hash)
      then ok (some wrong_hash)
      else if not (is_number body.byte_length expected.byte_length)
      then ok (some wrong_length)
      else check_signature endpoint expected (truthy body.signature)

  abbrev pub failure : ReplicaEndpoint → Problem → ReplicaOutcome
  failure endpoint problem = record {
    replica_id = endpoint.replica_id;
    ok = false;
    receipt = none;
    problem = some problem;
  }

  -- `body.signature as string`
  abbrev pub signature_of : Option Text → Text
  signature_of none = []
  signature_of (some signature) = signature

  abbrev pub receipt_of : ReplicaEndpoint → ReplyBody → Expected → StorageReceipt
  receipt_of endpoint body expected = record {
    replica_id = endpoint.replica_id;
    content_hash = expected.content_hash;
    byte_length = expected.byte_length;
    signature = signature_of body.signature;
  }

  -- What follows `validate`; an exception in it is caught and reported.
  unfoldable pub conclude :
      ReplicaEndpoint → ReplyBody → Expected → Result (Option Problem) → ReplicaOutcome
  conclude endpoint body expected (err reason) = failure endpoint failed
  conclude endpoint body expected (ok (some problem)) = failure endpoint problem
  conclude endpoint body expected (ok none) = record {
    replica_id = endpoint.replica_id;
    ok = true;
    receipt = some (receipt_of endpoint body expected);
    problem = none;
  }

  -- the body of the callback of `replicas.map`
  unfoldable pub outcome_of : Expected → ReplicaEndpoint → Reply → ReplicaOutcome
  outcome_of expected endpoint (accepted body) =
      conclude endpoint body expected (validate endpoint body expected)
  outcome_of expected endpoint (refused status) = failure endpoint (http_status status)
  outcome_of expected endpoint timed_out = failure endpoint aborted
  outcome_of expected endpoint unreachable = failure endpoint failed

-- `outcomes.flatMap((o) => (o.receipt ? [o.receipt] : []))`
unfoldable pub receipts_of : List ReplicaOutcome → List StorageReceipt
receipts_of [] = []
receipts_of (o ∷ outcomes) = elim o.receipt [
  | none ↦ receipts_of outcomes
  | some receipt ↦ receipt ∷ receipts_of outcomes
]

module _ (e : Ethers) (domains : Domains) (hash : Poseidon) where
  -- `receipts.length ? storageReceiptRoot(receipts) : 0n`
  unfoldable pub root_of_receipts : List StorageReceipt → Result ℤ
  root_of_receipts [] = ok (pos 0)
  root_of_receipts (r ∷ receipts) = storage_receipt_root e domains hash (r ∷ receipts)

  unfoldable pub upload_to_replicas :
      (ReplicaEndpoint → Reply) → List ReplicaEndpoint → Bytes → Text → Bool → Result UploadResult
  upload_to_replicas network replicas canonical_bytes content_hash require_quorum = do
    let expected : Expected = record {
      content_hash = content_hash;
      byte_length = length canonical_bytes;
    }
    let outcomes = map (λ r. outcome_of e domains expected r (network r)) replicas
    let receipts = receipts_of outcomes
    let quorum_met = has_storage_quorum receipts
    throw_if (require_quorum && not quorum_met) Error.no_quorum
    root ← root_of_receipts receipts
    ok (record {
      receipts = receipts;
      storage_receipt_root = root;
      outcomes = outcomes;
      quorum_met = quorum_met;
    })

-- The reply to a download: the bytes, or anything else.
pub data Download : Type 0 where
  served : Bytes → Download
  unavailable : Download

-- the loop of `fetchCiphertext`: the first replica that serves the object
unfoldable pub fetch_ciphertext :
    (ReplicaEndpoint → Download) → List ReplicaEndpoint → Result (Bytes × ℕ)
fetch_ciphertext network [] = err Error.not_served
fetch_ciphertext network (endpoint ∷ replicas) = elim (network endpoint) [
  | served content ↦ ok (content, endpoint.replica_id)
  | unavailable ↦ fetch_ciphertext network replicas
]
