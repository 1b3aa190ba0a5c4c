-- ===== src/Store/Client.antt =====
-- services/ciphertext-store/src/server.mjs and its client packages/crypto/src/storage.ts together. The
-- service has hash definitions of its own, which are to agree with the client's.
use fairproof_bcolbd.Prelude.{
  ℕ, ◌+◌, ◌≤◌, ◌<◌, ◌^◌, ◌≡◌, refl, sym, ap, ◌∙◌, arith, true, false, List, [], ◌∷◌, ◌==◌, ltb,
  length, length-append, none, some, ok, ok-injective, >>=-eq-ok,
}
use fairproof_bcolbd.Prelude.Int.{pos}
use fairproof_bcolbd.Prelude.Texts.{text_eq_refl}
use fairproof_bcolbd.Field.{Bytes, Text, concat_bytes, to_hex32, pad_hex, hex_digit}
use fairproof_bcolbd.Field.Bytes.{to_bytes-eq-ok}
use fairproof_bcolbd.Platform.{Ethers, EthersLaws, codes}
use fairproof_bcolbd.Platform.Hashes.{LowerLaws, IsHash}
use fairproof_bcolbd.Domains.{Domains}
use fairproof_bcolbd.Domains.Loading.{get_bytes-keccak256}
use fairproof_bcolbd.Encoding.{CiphertextParts, canonical_ciphertext_bytes, ciphertext_hash}
use fairproof_bcolbd.Encoding.Layout.{length-canonical_ciphertext_bytes}
use fairproof_bcolbd.SealedBid
use fairproof_bcolbd.Storage.{
  ReplicaEndpoint, ReplicaOutcome, ReplyBody, accepted, Expected, outcome_of, validate,
  check_signature, check_signer, judge_signer, conclude, truthy, is_hash,
}
use fairproof_bcolbd.Store.{
  Config, Wallet, Files, Request, PutReply, created, write_file, object_path, content_hash_of,
  handle, put_object, put_hashed, receipt_response, receipt_sig_digest, read_body,
  raw_ciphertext_v1, raw_receipt_sig_v1, u8, differs,
}
use fairproof_bcolbd.Store.Durable.{content_hash_of-IsHash}
use fairproof_bcolbd.Store.Acknowledged.{receipt_for}

-- The service's constants are those of the client.
pub record SameConstants (domains : Domains) : Type 0 where
  pub ciphertext : domains.raw_ciphertext ≡ raw_ciphertext_v1
  pub receipt_sig : domains.raw_receipt_sig ≡ raw_receipt_sig_v1

-- A signature of the wallet is not empty, and recovers to the wallet's address.
pub record WalletLaws (e : Ethers) (w : Wallet) : Type 0 where
  pub present : (digest : Text) → truthy (some (w.sign digest)) ≡ some (w.sign digest)
  pub recovers : (digest : Text) → e.recover_address digest (w.sign digest) ≡ ok w.address

module _ (e : Ethers) (domains : Domains) (same : SameConstants domains) where
  -- On a replica id of one byte and a length of eight bytes the service's digest of a receipt is the
  -- client's, its errors included.
  pub receipt_sig_digest_agree :
      (id : ℕ) (h : Text) (n : ℕ)
      → id < 256
      → n < 256 ^ 8
      → receipt_sig_digest e id h n ≡ SealedBid.receipt_sig_digest e domains id h n
  unfolding receipt_sig_digest SealedBid.receipt_sig_digest u8
  receipt_sig_digest_agree id h n small fits =
      let guard : ltb 255 id ≡ false = ground arith in
      let one = to_bytes-eq-ok id 1 small in
      let eight = to_bytes-eq-ok n 8 fits in rw (guard, same.receipt_sig, one, eight) refl

  -- The service computes the content hash that the client computes for a ciphertext.
  pub content_hash_of_agree :
      (parts : CiphertextParts) (out : Bytes)
      → canonical_ciphertext_bytes parts ≡ ok out
      → content_hash_of e out ≡ ciphertext_hash e domains parts
  unfolding content_hash_of ciphertext_hash
  content_hash_of_agree parts out h = rw (same.ciphertext, h) refl

-- A body within the limit is read whole, however it is cut into chunks.
read_body-concat_bytes :
    (limit total : ℕ) (chunks : List Bytes)
    → total + length (concat_bytes chunks) ≤ limit
    → read_body limit total chunks ≡ ok (concat_bytes chunks)
unfolding read_body concat_bytes
read_body-concat_bytes limit total [] h = refl
read_body-concat_bytes limit total (chunk ∷ chunks) h =
    let size = length-append chunk (concat_bytes chunks) in
    let guard : ltb limit (total + length chunk) ≡ false =
      let fits : total + length chunk ≤ limit = omega (arith, size) in ground arith in
    rw (guard, read_body-concat_bytes limit (total + length chunk) chunks (omega (arith, size)))
      refl

-- the request that `uploadToReplicas` sends, with the body in some chunks
abbrev pub put_request : Text → List Bytes → Request
put_request h chunks = record {
  method = codes "PUT";
  pathname = codes "/objects";
  claimed = some h;
  chunks = chunks;
}

-- the fields of the reply's JSON body that the client reads
abbrev pub body_of : PutReply → ReplyBody
body_of reply = record {
  replica_id = some reply.replica_id;
  content_hash = some reply.content_hash;
  byte_length = some reply.byte_length;
  signature = some reply.signature;
}

-- the outcome that carries a receipt
abbrev pub acknowledgement : Config → Text → ℕ → Text → ReplicaOutcome
acknowledgement config h n digest = record {
  replica_id = config.replica_id;
  ok = true;
  receipt = some (record {
    replica_id = config.replica_id;
    content_hash = h;
    byte_length = n;
    signature = config.wallet.sign digest;
  });
  problem = none;
}

module _ {e : Ethers} (laws : EthersLaws e) (lower : LowerLaws e) (domains : Domains)
    (same : SameConstants domains) (config : Config) (wallet : WalletLaws e config.wallet) where
  get_bytes-raw :
      (s : Text) (v : ℕ)
      → v < 256 ^ 32
      → to_hex32 (pos v) ≡ ok s
      → (out : Bytes) × (e.get_bytes s ≡ ok out)
  get_bytes-raw s v fits printed = (_, laws.get_bytes_hex v s printed ∙ to_bytes-eq-ok v 32 fits)

  digest-ok :
      (id n : ℕ) (bs : Bytes) → (d : Text) × (receipt_sig_digest e id (e.keccak256 bs) n ≡ ok d)
  unfolding receipt_sig_digest to_hex32 pad_hex hex_digit
  digest-ok id n bs =
      let (domain, domain_ok) =
        get_bytes-raw raw_receipt_sig_v1
          0xc3ffb182dd3ebfe5535def6710ba4562e2bf2416e6ac55e4ac25fc7e14433ea3 (omega arith) refl in
      let (content, content_ok, _, _) = get_bytes-keccak256 laws bs in
      (
        e.keccak256 (concat_bytes (domain ∷ u8 id 1 ∷ content ∷ u8 n 8 ∷ [])),
        rw (domain_ok, content_ok) refl,
      )

  digest-hash :
      (out : Bytes) (h : Text)
      → content_hash_of e out ≡ ok h
      → (d : Text) × (receipt_sig_digest e config.replica_id h (length out) ≡ ok d)
  unfolding content_hash_of
  digest-hash out h hashed =
      let (domain, _, given) = >>=-eq-ok (e.get_bytes raw_ciphertext_v1) _ hashed in
      let whole = concat_bytes (domain ∷ out ∷ []) in
      let (d, digested) = digest-ok config.replica_id (length out) whole in
      (
        d,
        ap (λ (t : Text). receipt_sig_digest e config.replica_id t (length out))
              (sym (ok-injective given))
            ∙ digested,
      )

  validate-body_of :
      (h d : Text) (n : ℕ) (url : Text)
      → IsHash h
      → SealedBid.receipt_sig_digest e domains config.replica_id h n ≡ ok d
      → validate e domains
          (record { replica_id = config.replica_id; url = url; address = config.wallet.address })
          (body_of (receipt_for config h n d))
          (record { content_hash = h; byte_length = n })
        ≡ ok none
  unfolding validate check_signature check_signer judge_signer
  validate-body_of h d n url v digested =
      let endpoint : ReplicaEndpoint = record {
        replica_id = config.replica_id;
        url = url;
        address = config.wallet.address;
      } in
      let expected : Expected = record { content_hash = h; byte_length = n } in
      let id : (config.replica_id == config.replica_id) ≡ true = ground arith in
      let len : (n == n) ≡ true = ground arith in
      let given : truthy (some h) ≡ some h = rw v.spelled refl in
      let hash : is_hash e domains (truthy (some h)) h ≡ true =
        rw given (text_eq_refl (e.to_lower_case h)) in
      let signed : check_signer e domains endpoint expected (config.wallet.sign d) ≡ ok none =
        rw (digested, wallet.recovers d)
          (rw (text_eq_refl (e.to_lower_case config.wallet.address)) refl) in
      rw (id, hash, len) (rw (wallet.present d) signed)

  -- An upload of a ciphertext's canonical bytes under its content hash, in any chunks, to a replica
  -- whose limit they do not exceed: the replica stores the bytes under that hash and answers with a
  -- receipt, and the client, which knows the replica's id and address, accepts the receipt as it is.
  pub outcome_of-handle :
      (files : Files) (parts : CiphertextParts) (h url : Text) (chunks : List Bytes)
      → canonical_ciphertext_bytes parts ≡ ok (concat_bytes chunks)
      → ciphertext_hash e domains parts ≡ ok h
      → config.replica_id < 256
      → length (concat_bytes chunks) ≤ config.max_bytes
      → config.max_bytes < 256 ^ 8
      → (reply : PutReply) × (digest : Text) × (handle e config files (put_request h chunks)
          ≡ (created reply, write_file files (object_path h) (concat_bytes chunks)))
        × (outcome_of e domains
              (record { content_hash = h; byte_length = length (concat_bytes chunks) })
              (record {
                replica_id = config.replica_id;
                url = url;
                address = config.wallet.address;
              })
              (accepted (body_of reply))
            ≡ acknowledgement config h (length (concat_bytes chunks)) digest)
  unfolding handle put_object put_hashed receipt_response outcome_of conclude
  outcome_of-handle files parts h url chunks canonical hashed id fits small =
      let out = concat_bytes chunks in
      let stored : content_hash_of e out ≡ ok h =
        content_hash_of_agree e domains same parts out canonical ∙ hashed in
      let v = content_hash_of-IsHash laws out h stored in
      let long = length-canonical_ciphertext_bytes parts out canonical in
      let read = read_body-concat_bytes config.max_bytes 0 chunks (omega arith) in
      let filled : (length out == 0) ≡ false = ground arith in
      let (d, digested) = digest-hash out h stored in
      let given : truthy (some h) ≡ some h = rw v.spelled refl in
      let agreed : differs e (truthy (some h)) h ≡ false =
        rw given (rw (text_eq_refl (e.to_lower_case h)) refl) in
      let digested' =
        sym (
          receipt_sig_digest_agree e domains same config.replica_id h (length out) id (omega arith))
        ∙ digested in
      let valid = validate-body_of h d (length out) url v digested' in
      (
        receipt_for config h (length out) d,
        d,
        rw (read, put_object) (rw (filled, stored, put_hashed) (rw (agreed, digested) refl)),
        rw valid refl,
      )
