-- ===== src/Store/Serving.antt =====
-- What services/ciphertext-store/src/server.mjs serves from a disk that may be corrupt.
use fairproof_bcolbd.Prelude.{ℕ, ◌≡◌, ◌≢◌, sym, ap, ◌∙◌, length, drop, some, Result, ok, err}
use fairproof_bcolbd.Field.{Bytes, Text}
use fairproof_bcolbd.Platform.{Ethers}
use fairproof_bcolbd.Store.{
  Config, Files, Request, Response, object, read_file, object_path, content_hash_of, handle,
  receipt_response, read_body,
}
use fairproof_bcolbd.Store.Objects.{
  Answer, preflight, report, upload, download, no_route, handle-Answer, get_object-object,
}
use fairproof_bcolbd.Store.Uploads.{refused, stored, put_object-Upload}

-- The bytes are a file's, and hash to the requested hash.
pub record Served (e : Ethers) (files : Files) (h : Text) (b : Bytes) : Type 0 where
  pub read : read_file files (object_path h) ≡ some b
  pub recomputed : Text
  pub hashed : content_hash_of e b ≡ ok recomputed
  pub same : e.to_lower_case recomputed ≡ h

receipt_response-ne-object :
    (e : Ethers) (config : Config) (k h : Text) (n : ℕ) (digest : Result Text) (b : Bytes)
    → receipt_response e config k n digest ≢ object h b
unfolding receipt_response
receipt_response-ne-object e config k h n (err reason) b given = cc
receipt_response-ne-object e config k h n (ok d) b given = cc

Answer-object :
    (e : Ethers) (config : Config) (files : Files) (r : Request) (out : Response × Files) (h : Text)
    (b : Bytes)
    → Answer e config files r out
    → out.0 ≡ object h b
    → Served e files h b × (h ≡ e.to_lower_case (drop 9 r.pathname)) × (out.1 ≡ files)
Answer-object e config files r out h b (preflight q) given =
    let bad = ap (λ (p : Response × Files). p.0) q in absurd (cc)
Answer-object e config files r out h b (report q) given =
    let bad = ap (λ (p : Response × Files). p.0) q in absurd (cc)
Answer-object e config files r out h b (no_route q) given =
    let bad = ap (λ (p : Response × Files). p.0) q in absurd (cc)
Answer-object e config files r out h b (upload q) given =
    elim (put_object-Upload e config files r.claimed (read_body config.max_bytes 0 r.chunks)) [
      | refused status s ↦ let bad = ap (λ (p : Response × Files). p.0) (q ∙ s) in absurd (cc)
      | stored content k body hashed s ↦ absurd (
          receipt_response-ne-object e config k h (length content) _ b
            (sym (ap (λ (p : Response × Files). p.0) (q ∙ s)) ∙ given))
    ]
Answer-object e config files r out h b (download q) given =
    let asked = e.to_lower_case (drop 9 r.pathname) in
    let got = sym (ap (λ (p : Response × Files). p.0) q) ∙ given in
    let (same, there, k, hashed, lower) = get_object-object e config files asked h b got in
    (
      record {
        read = ap (λ (t : Text). read_file files (object_path t)) (sym same) ∙ there;
        recomputed = k;
        hashed = hashed;
        same = lower ∙ same;
      },
      sym same,
      ap (λ (p : Response × Files). p.1) q,
    )

-- Whatever is on the disk, bytes that are served under a hash were read from the file of that name,
-- and their own content hash, in lower case, is the hash that the path names; serving changes
-- nothing. A corrupt file is never served.
pub handle-object :
    (e : Ethers) (config : Config) (files : Files) (r : Request) (h : Text) (b : Bytes)
    → (handle e config files r).0 ≡ object h b
    → Served e files h b
      × (h ≡ e.to_lower_case (drop 9 r.pathname))
      × ((handle e config files r).1 ≡ files)
handle-object e config files r h b given =
    Answer-object e config files r (handle e config files r) h b (handle-Answer e config files r)
      given
