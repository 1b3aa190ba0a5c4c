-- ===== src/SealedBid.antt =====
-- packages/crypto/src/sealedbid.ts: sealing and opening a bid, and storage receipts.
pub mod Opening
pub mod Receipts
use fairproof_bcolbd.Prelude.{
  ℕ, zero, suc, ◌+◌, ◌-◌, ◌^◌, ◌≡◌, Bool, true, false, not, ◌||◌, List, [], ◌∷◌, ◌++◌, map, ltb,
  leb, ◌==◌, if◌then◌else◌, length, take, drop, replicate, contains, Option, none, some, or_default,
  Result, ok, err, Error, ◌>>=◌, ◌>>◌, throw_if, map_ok,
}
use fairproof_bcolbd.Prelude.Int.{ℤ, pos, eq_ℤ}
use fairproof_bcolbd.Prelude.Sort.{sort_by}
use fairproof_bcolbd.Field.{Bytes, Text, to_bytes, concat_bytes}
use fairproof_bcolbd.Platform.{Ethers, Poseidon, codes}
use fairproof_bcolbd.Domains.{Domains, receipt_tree_depth, storage_quorum, storage_replicas}
use fairproof_bcolbd.Poseidon.{bid_commitment}
use fairproof_bcolbd.Merkle.{root_from_leaves}
use fairproof_bcolbd.Babyjub.{Point, Curve}
use fairproof_bcolbd.Encoding.{
  CiphertextParts, StorageReceipt, receipt_leaf, canonical_ciphertext_bytes, ciphertext_hash,
  ciphertext_hash_field, Json, string, object, end, entry, JsonText, jcs_canonicalize,
}
use fairproof_bcolbd.Elgamal.{encapsulate, unwrap_dek}
use fairproof_bcolbd.Vss.{has_duplicate}

pub record BidPayload : Type 0 where
  pub tender_id : Text
  pub amount_minor_unit : Text
  pub currency : Text
  pub bid_nonce : Text
  pub subject_commitment : Text
  pub created_at : Text

pub record SealedBid : Type 0 where
  pub ciphertext : CiphertextParts
  pub ciphertext_hash : Text
  pub ciphertext_hash_field : ℤ
  pub canonical_bytes : Bytes
  pub bid_commitment : ℤ
  pub dek : Bytes

-- What the platform provides: AES-256-GCM of WebCrypto, whose output ends with the tag, the text
-- codecs, `JSON.parse` of a payload, and `BigInt` of a string.
pub record Platform : Type 0 where
  pub encrypt : Bytes → Bytes → Bytes → Bytes
  pub decrypt : Bytes → Bytes → Bytes → Option Bytes
  pub encode_text : Text → Bytes
  pub decode_text : Bytes → Text
  pub parse_payload : Text → Result BidPayload
  pub big_int : Text → Result ℤ
  pub json : JsonText

-- the object literal as a JavaScript value
abbrev pub payload_json : BidPayload → Json
payload_json p = object (
    entry (codes "tenderId") (string p.tender_id) (
      entry (codes "amountMinorUnit") (string p.amount_minor_unit) (
        entry (codes "currency") (string p.currency) (
          entry (codes "bidNonce") (string p.bid_nonce) (
            entry (codes "subjectCommitment") (string p.subject_commitment)
              (entry (codes "createdAt") (string p.created_at) end))))))

module _ (w : Platform) where
  -- the fields `ct` and `tag`
  unfoldable pub aes_gcm_encrypt : Bytes → Bytes → Bytes → Bytes × Bytes
  aes_gcm_encrypt dek iv plaintext =
      let sealed = w.encrypt dek iv plaintext in
      (take (length sealed - 16) sealed, drop (length sealed - 16) sealed)

  unfoldable pub aes_gcm_decrypt : Bytes → Bytes → Bytes → Bytes → Result Bytes
  aes_gcm_decrypt dek iv ct tag = elim (w.decrypt dek iv (concat_bytes (ct ∷ tag ∷ []))) [
    | none ↦ err Error.authentication_failed
    | some plaintext ↦ ok plaintext
  ]

-- what `generateDek`, `generateIv` and `randomScalar` draw
pub record Draws : Type 0 where
  pub dek : Bytes
  pub iv : Bytes
  pub scalar : ℕ

pub record SealParams : Type 0 where
  pub payload : BidPayload
  pub tender_public_key : Point
  pub tender_id_field : ℤ
  pub nullifier : ℤ
  pub dek : Option Bytes
  pub iv : Option Bytes
  pub ephemeral_scalar : Option ℕ

pub record OpenParams : Type 0 where
  pub ciphertext : CiphertextParts
  pub shared : Point
  pub expected_commitment : ℤ
  pub tender_id_field : ℤ
  pub nullifier : ℤ

module _ (w : Platform) (e : Ethers) (hash : Poseidon) (domains : Domains) (c : Curve) where
  unfoldable pub seal_bid : Draws → SealParams → Result SealedBid
  seal_bid draws params = do
    text ← jcs_canonicalize w.json (payload_json params.payload)
    let dek = or_default params.dek draws.dek
    let iv = or_default params.iv draws.iv
    let (ct, tag) = aes_gcm_encrypt w dek iv (w.encode_text text)
    enc ← encapsulate e domains c draws.scalar params.tender_public_key dek params.ephemeral_scalar
    let ciphertext : CiphertextParts = record {
      r_x = pos enc.ephemeral.x;
      r_y = pos enc.ephemeral.y;
      wrapped = enc.wrapped;
      iv = iv;
      ct = ct;
      tag = tag;
    }
    amount ← w.big_int params.payload.amount_minor_unit
    nonce ← w.big_int params.payload.bid_nonce
    commitment ← bid_commitment hash domains amount nonce params.tender_id_field params.nullifier
    digest ← ciphertext_hash e domains ciphertext
    digest_field ← ciphertext_hash_field e domains ciphertext
    canonical ← canonical_ciphertext_bytes ciphertext
    ok (record {
      ciphertext = ciphertext;
      ciphertext_hash = digest;
      ciphertext_hash_field = digest_field;
      canonical_bytes = canonical;
      bid_commitment = commitment;
      dek = dek;
    })

  unfoldable pub open_sealed_bid : OpenParams → Result (BidPayload × ℤ × ℤ)
  open_sealed_bid params = do
    dek ← unwrap_dek e domains c params.ciphertext.wrapped params.shared
    plaintext ←
        aes_gcm_decrypt w dek params.ciphertext.iv params.ciphertext.ct params.ciphertext.tag
    payload ← w.parse_payload (w.decode_text plaintext)
    amount ← w.big_int payload.amount_minor_unit
    nonce ← w.big_int payload.bid_nonce
    recomputed ← bid_commitment hash domains amount nonce params.tender_id_field params.nullifier
    throw_if (not (eq_ℤ recomputed params.expected_commitment)) Error.commitment_mismatch
    ok (payload, amount, nonce)

module _ (e : Ethers) (domains : Domains) where
  -- replicaId, contentHash, byteLength
  unfoldable pub receipt_sig_digest : ℕ → Text → ℕ → Result Text
  receipt_sig_digest replica_id content_hash byte_length = do
    throw_if (ltb 255 replica_id) Error.replica_id_range
    domain ← e.get_bytes domains.raw_receipt_sig
    id ← to_bytes (pos replica_id) 1
    content ← e.get_bytes content_hash
    len ← to_bytes (pos byte_length) 8
    ok (e.keccak256 (concat_bytes (domain ∷ id ∷ content ∷ len ∷ [])))

  abbrev pub replica_ids : List StorageReceipt → List ℕ
  replica_ids receipts = map (λ r. r.replica_id) receipts

  -- the leaves of the sorted receipts, with padding up to the capacity
  unfoldable pub receipt_leaves : List StorageReceipt → Result (List ℤ)
  receipt_leaves receipts = do
    leaves ← map_ok (receipt_leaf e domains) (sort_by (λ r. r.replica_id) receipts)
    ok (leaves ++ replicate (2 ^ receipt_tree_depth - length leaves) domains.padding)

  unfoldable pub storage_receipt_root : Poseidon → List StorageReceipt → Result ℤ
  storage_receipt_root hash receipts = do
    throw_if (ltb storage_replicas (length receipts)) Error.too_many_replicas
    throw_if (has_duplicate (replica_ids receipts)) Error.duplicate_replica
    leaves ← receipt_leaves receipts
    root_from_leaves hash domains leaves receipt_tree_depth

-- `new Set(xs).size`
unfoldable pub count_distinct : List ℕ → ℕ
count_distinct [] = 0
count_distinct (x ∷ xs) = if contains x xs then count_distinct xs else suc (count_distinct xs)

unfoldable pub has_storage_quorum : List StorageReceipt → Bool
has_storage_quorum receipts = leb storage_quorum (count_distinct (map (λ r. r.replica_id) receipts))
