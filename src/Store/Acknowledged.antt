-- ===== src/Store/Acknowledged.antt =====
-- What services/ciphertext-store/src/server.mjs has done when it answers with a receipt.
use fairproof_bcolbd.Prelude.{
  ℕ, ◌≡◌, ◌≢◌, refl, sym, ap, ◌∙◌, length, Bool-cases, inl, inr, Option, none, some, Result, ok,
  err,
}
use fairproof_bcolbd.Prelude.Texts.{text_eq}
use fairproof_bcolbd.Field.{Bytes, Text}
use fairproof_bcolbd.Platform.{Ethers}
use fairproof_bcolbd.Store.{
  Config, Files, Request, Response, PutReply, created, read_file, write_file, object_path,
  content_hash_of, is_object_hash, get_object, serve_file, serve, handle, receipt_response,
  receipt_sig_digest, read_body,
}
use fairproof_bcolbd.Store.Objects.{
  Answer, preflight, report, upload, download, no_route, handle-Answer,
}
use fairproof_bcolbd.Store.Uploads.{refused, stored, put_object-Upload}

-- the receipt that a replica signs for a hash, a length and their digest
abbrev pub receipt_for : Config → Text → ℕ → Text → PutReply
receipt_for config content_hash byte_length digest = record {
  replica_id = config.replica_id;
  content_hash = content_hash;
  object_id = content_hash;
  byte_length = byte_length;
  signature = config.wallet.sign digest;
  signer = config.wallet.address;
  digest = digest;
}

receipt_response-created :
    (e : Ethers) (config : Config) (h : Text) (n : ℕ) (digest : Result Text) (reply : PutReply)
    → receipt_response e config h n digest ≡ created reply
    → (d : Text) × (digest ≡ ok d) × (reply ≡ receipt_for config h n d)
unfolding receipt_response
receipt_response-created e config h n (err reason) reply given = cc
receipt_response-created e config h n (ok d) reply given = (d, refl, cc)

serve-ne-created :
    (e : Ethers) (config : Config) (h : Text) (content : Bytes) (hash : Result Text)
    (reply : PutReply)
    → serve e config h content hash ≢ created reply
unfolding serve
serve-ne-created e config h content (err reason) reply given = cc
serve-ne-created e config h content (ok r) reply given =
    elim (Bool-cases (text_eq (e.to_lower_case r) h)) [
      | inl same ↦ let bad = rw same at given in cc
      | inr other ↦ let bad = rw other at given in cc
    ]

serve_file-ne-created :
    (e : Ethers) (config : Config) (h : Text) (file : Option Bytes) (reply : PutReply)
    → serve_file e config h file ≢ created reply
unfolding serve_file
serve_file-ne-created e config h none reply given = cc
serve_file-ne-created e config h (some b) reply given =
    serve-ne-created e config h b (content_hash_of e b) reply given

get_object-ne-created :
    (e : Ethers) (config : Config) (files : Files) (h : Text) (reply : PutReply)
    → get_object e config files h ≢ created reply
unfolding get_object
get_object-ne-created e config files h reply given = elim (Bool-cases (is_object_hash h)) [
  | inl valid ↦
      serve_file-ne-created e config h (read_file files (object_path h)) reply (rw valid at given)
  | inr other ↦ let bad = rw other at given in cc
]

-- What a replica that answers an upload with a receipt has computed and stored.
pub record Acknowledged (e : Ethers) (config : Config) (files : Files) (r : Request)
    (reply : PutReply) (files' : Files) : Type 0 where
  pub content : Bytes
  pub digest : Text
  pub received : read_body config.max_bytes 0 r.chunks ≡ ok content
  pub hashed : content_hash_of e content ≡ ok reply.content_hash
  pub written : files' ≡ write_file files (object_path reply.content_hash) content
  pub digested :
      receipt_sig_digest e config.replica_id reply.content_hash (length content) ≡ ok digest
  pub signed : reply ≡ receipt_for config reply.content_hash (length content) digest

Answer-Acknowledged :
    (e : Ethers) (config : Config) (files : Files) (r : Request) (out : Response × Files)
    (reply : PutReply)
    → Answer e config files r out
    → out.0 ≡ created reply
    → Acknowledged e config files r reply out.1
Answer-Acknowledged e config files r out reply (preflight q) h =
    let bad = ap (λ (p : Response × Files). p.0) q in absurd (cc)
Answer-Acknowledged e config files r out reply (report q) h =
    let bad = ap (λ (p : Response × Files). p.0) q in absurd (cc)
Answer-Acknowledged e config files r out reply (no_route q) h =
    let bad = ap (λ (p : Response × Files). p.0) q in absurd (cc)
Answer-Acknowledged e config files r out reply (download q) h =
    let got = ap (λ (p : Response × Files). p.0) q in
    absurd (get_object-ne-created e config files _ reply (sym got ∙ h))
Answer-Acknowledged e config files r out reply (upload q) h =
    elim (put_object-Upload e config files r.claimed (read_body config.max_bytes 0 r.chunks)) [
      | refused status s ↦ let bad = ap (λ (p : Response × Files). p.0) (q ∙ s) in absurd (cc)
      | stored content k body hashed s ↦
          let answered = ap (λ (p : Response × Files). p.0) (q ∙ s) in
          let (d, digested, made) =
            receipt_response-created e config k (length content) _ reply (sym answered ∙ h) in
          let same : reply.content_hash ≡ k = ap (λ (p : PutReply). p.content_hash) made in
          let hash_eq : content_hash_of e content ≡ ok reply.content_hash =
            hashed ∙ ap (λ (t : Text). ok t) (sym same) in
          record {
            content = content;
            digest = d;
            received = body;
            hashed = hash_eq;
            written =
                ap (λ (p : Response × Files). p.1) (q ∙ s)
                ∙ ap (λ (t : Text). write_file files (object_path t) content) (sym same);
            digested =
                ap (λ (t : Text). receipt_sig_digest e config.replica_id t (length content)) same
                ∙ digested;
            signed = made ∙ ap (λ (t : Text). receipt_for config t (length content) d) (sym same);
          }
    ]

pub handle-Acknowledged :
    (e : Ethers) (config : Config) (files : Files) (r : Request) (reply : PutReply)
    → (handle e config files r).0 ≡ created reply
    → Acknowledged e config files r reply (handle e config files r).1
handle-Acknowledged e config files r reply h =
    Answer-Acknowledged e config files r (handle e config files r) reply
      (handle-Answer e config files r) h
