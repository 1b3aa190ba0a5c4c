-- ===== src/Store/Objects.antt =====
-- What services/ciphertext-store/src/server.mjs stores and serves, request by request.
use fairproof_bcolbd.Prelude.{
  ◌≡◌, refl, sym, ap, ◌∙◌, false, ◌&&◌, [], ◌∷◌, if◌then◌else◌, drop, Bool-cases, inl, inr, Option,
  none, some, Result, ok, err,
}
use fairproof_bcolbd.Prelude.Texts.{text_eq, eq_of_text_eq}
use fairproof_bcolbd.Field.{Bytes, Text}
use fairproof_bcolbd.Platform.{Ethers, codes}
use fairproof_bcolbd.Store.{
  Config, Files, Request, Response, object, failure, read_file, write_file, object_path,
  content_hash_of, is_object_hash, get_object, serve_file, serve, handle, no_content, health,
  count_objects, put_object, read_body, starts_with,
}

pub read_file-write_file :
    (files : Files) (name m : Text) (content : Bytes)
    → read_file (write_file files name content) m
      ≡ (if text_eq name m then some content else read_file files m)
unfolding read_file write_file
read_file-write_file [] name m content = refl
read_file-write_file (f ∷ files) name m content = elim (Bool-cases (text_eq f.name name)) [
  | inl e ↦
      let here = eq_of_text_eq f.name name e in
      elim (Bool-cases (text_eq name m)) [
        | inl k ↦ rw (e, here, k) refl
        | inr k ↦ rw (e, here, k) refl
      ]
  | inr e ↦ elim (Bool-cases (text_eq name m)) [
    | inl k ↦
        let there = eq_of_text_eq name m k in
        let miss : text_eq f.name m ≡ false = rw (← there) e in
        rw (e, read_file-write_file files name m content, k, miss) refl
    | inr k ↦ rw (e, read_file-write_file files name m content, k) refl
  ]
]

module _ (e : Ethers) (config : Config) where
  serve-object :
      (h h' : Text) (content b : Bytes) (hash : Result Text)
      → serve e config h content hash ≡ object h' b
      → (h ≡ h') × (content ≡ b) × (r : Text) × (hash ≡ ok r) × (e.to_lower_case r ≡ h)
  unfolding serve
  serve-object h h' content b (err reason) served = cc
  serve-object h h' content b (ok r) served = elim (Bool-cases (text_eq (e.to_lower_case r) h)) [
    | inl same ↦
        let reply = rw same at served in (cc, cc, r, refl, eq_of_text_eq (e.to_lower_case r) h same)
    | inr other ↦ let reply = rw other at served in absurd (cc)
  ]

  serve_file-object :
      (h h' : Text) (file : Option Bytes) (b : Bytes)
      → serve_file e config h file ≡ object h' b
      → (h ≡ h')
        × (file ≡ some b)
        × (r : Text) × (content_hash_of e b ≡ ok r)
        × (e.to_lower_case r ≡ h)
  unfolding serve_file
  serve_file-object h h' none b served = cc
  serve_file-object h h' (some content) b served =
      let (same, bytes, r, hashed, lower) = serve-object h h' content b _ served in
      (
        same,
        ap (λ (c : Bytes). some c) bytes,
        r,
        ap (content_hash_of e) (sym bytes) ∙ hashed,
        lower,
      )

  pub get_object-object :
      (files : Files) (h h' : Text) (b : Bytes)
      → get_object e config files h ≡ object h' b
      → (h ≡ h')
        × (read_file files (object_path h) ≡ some b)
        × (r : Text) × (content_hash_of e b ≡ ok r)
        × (e.to_lower_case r ≡ h)
  unfolding get_object
  get_object-object files h h' b served = elim (Bool-cases (is_object_hash h)) [
    | inl valid ↦ serve_file-object h h' (read_file files (object_path h)) b (rw valid at served)
    | inr other ↦ let reply = rw other at served in absurd (cc)
  ]

-- The routes: what the handler answers, and from which part of it.
pub data Answer (e : Ethers) (config : Config) (files : Files) (r : Request)
    (out : Response × Files) : Type 0 where
  preflight : out ≡ (no_content, files) → Answer e config files r out
  report :
      out ≡ (
        health config.replica_id config.wallet.address (count_objects files) config.max_bytes,
        files,
      )
      → Answer e config files r out
  upload :
      out ≡ put_object e config files r.claimed (read_body config.max_bytes 0 r.chunks)
      → Answer e config files r out
  download :
      out ≡ (get_object e config files (e.to_lower_case (drop 9 r.pathname)), files)
      → Answer e config files r out
  no_route : out ≡ (failure 404, files) → Answer e config files r out

pub handle-Answer :
    (e : Ethers) (config : Config) (files : Files) (r : Request)
    → Answer e config files r (handle e config files r)
unfolding handle
handle-Answer e config files r = elim (Bool-cases (text_eq r.method (codes "OPTIONS"))) [
  | inl a ↦ preflight (rw a refl)
  | inr a ↦
      elim (Bool-cases (text_eq r.method (codes "GET") && text_eq r.pathname (codes "/health"))) [
        | inl b ↦ report (rw (a, b) refl)
        | inr b ↦
            elim (Bool-cases
              (text_eq r.method (codes "PUT") && text_eq r.pathname (codes "/objects"))) [
                | inl c ↦ upload (rw (a, b, c) refl)
                | inr c ↦
                    elim (Bool-cases (
                      text_eq r.method (codes "GET")
                      && starts_with (codes "/objects/") r.pathname)) [
                        | inl d ↦ download (rw (a, b, c, d) refl)
                        | inr d ↦ no_route (rw (a, b, c, d) refl)
                      ]
              ]
      ]
]
