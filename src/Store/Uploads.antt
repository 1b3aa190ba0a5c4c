-- ===== src/Store/Uploads.antt =====
-- The upload of services/ciphertext-store/src/server.mjs, and the states that requests lead to.
use fairproof_bcolbd.Prelude.{
  ℕ, ◌≡◌, refl, [], ◌∷◌, ◌==◌, length, All, Bool-cases, inl, inr, Option, some, Result, ok, err,
}
use fairproof_bcolbd.Prelude.Texts.{text_eq}
use fairproof_bcolbd.Field.{Bytes, Text}
use fairproof_bcolbd.Platform.{Ethers}
use fairproof_bcolbd.Storage.{truthy}
use fairproof_bcolbd.Store.{
  Config, File, Files, Request, Response, failure, read_file, write_file, object_path,
  content_hash_of, handle, put_object, put_hashed, receipt_response, receipt_sig_digest, differs,
  read_body,
}
use fairproof_bcolbd.Store.Objects.{
  Answer, preflight, report, upload, download, no_route, handle-Answer, read_file-write_file,
}

-- An upload is refused and changes nothing, or it stores the bytes under their own hash.
pub data Upload (e : Ethers) (config : Config) (files : Files) (body : Result Bytes)
    (out : Response × Files) : Type 0 where
  refused : (status : ℕ) → out ≡ (failure status, files) → Upload e config files body out
  stored :
      (content : Bytes) (h : Text)
      → body ≡ ok content
      → content_hash_of e content ≡ ok h
      → out ≡ (
        receipt_response e config h
            (length content)
            (receipt_sig_digest e config.replica_id h (length content)),
        write_file files (object_path h) content,
      )
      → Upload e config files body out

module _ (e : Ethers) (config : Config) (files : Files) (claimed : Option Text) where
  put_hashed-Upload :
      (content : Bytes) (hash : Result Text)
      → content_hash_of e content ≡ hash
      → Upload e config files (ok content) (put_hashed e config files claimed content hash)
  unfolding put_hashed
  put_hashed-Upload content (err reason) hashed = refused _ refl
  put_hashed-Upload content (ok h) hashed = elim (Bool-cases (differs e (truthy claimed) h)) [
    | inl d ↦ refused 400 (rw d refl)
    | inr d ↦ stored content h refl hashed (rw d refl)
  ]

  pub put_object-Upload :
      (body : Result Bytes) → Upload e config files body (put_object e config files claimed body)
  unfolding put_object
  put_object-Upload (err reason) = refused _ refl
  put_object-Upload (ok content) = elim (Bool-cases (length content == 0)) [
    | inl z ↦ refused 400 (rw z refl)
    | inr z ↦ rw z (put_hashed-Upload content (content_hash_of e content) refl)
  ]

-- The states that a replica reaches from a state, by requests of any kind.
pub data Reach (e : Ethers) (config : Config) (files : Files) : Files → Type 0 where
  here : Reach e config files files
  next :
      {later : Files}
      → Reach e config files later
      → (r : Request) → Reach e config files (handle e config later r).1

pub Reach-trans :
    {e : Ethers} {config : Config} {files middle later : Files}
    → Reach e config files middle
    → Reach e config middle later
    → Reach e config files later
Reach-trans p here = p
Reach-trans p (next q r) = next (Reach-trans p q) r

-- Every file is stored under the hash of its content.
abbrev pub IsAddressed : Ethers → Files → Type 0
IsAddressed e files =
    All (λ (f : File). (h : Text) × (content_hash_of e f.content ≡ ok h) × (f.name ≡ object_path h))
      files

write_file-IsAddressed :
    (e : Ethers) (files : Files) (content : Bytes) (h : Text)
    → content_hash_of e content ≡ ok h
    → IsAddressed e files
    → IsAddressed e (write_file files (object_path h) content)
unfolding write_file
write_file-IsAddressed e [] content h hashed v = ((h, hashed, refl), tt)
write_file-IsAddressed e (f ∷ files) content h hashed (p, v) =
    elim (Bool-cases (text_eq f.name (object_path h))) [
      | inl same ↦ rw same ((h, hashed, refl), v)
      | inr other ↦ rw other (p, write_file-IsAddressed e files content h hashed v)
    ]

handle-IsAddressed :
    (e : Ethers) (config : Config) (files : Files) (r : Request) (out : Response × Files)
    → Answer e config files r out
    → IsAddressed e files
    → IsAddressed e out.1
handle-IsAddressed e config files r out (preflight q) v = rw q v
handle-IsAddressed e config files r out (report q) v = rw q v
handle-IsAddressed e config files r out (download q) v = rw q v
handle-IsAddressed e config files r out (no_route q) v = rw q v
handle-IsAddressed e config files r out (upload q) v =
    elim (put_object-Upload e config files r.claimed (read_body config.max_bytes 0 r.chunks)) [
      | refused status s ↦ rw (q, s) v
      | stored content h body hashed s ↦
          rw (q, s) (write_file-IsAddressed e files content h hashed v)
    ]

-- In every state that a replica reaches from an empty data directory, each file is stored under the
-- hash of its own content, whatever hashes the requests claimed.
pub Reach-IsAddressed :
    (e : Ethers) (config : Config) {files : Files} → Reach e config [] files → IsAddressed e files
Reach-IsAddressed e config here = tt
Reach-IsAddressed e config (next {later} reached r) =
    handle-IsAddressed e config later r (handle e config later r) (handle-Answer e config later r)
      (Reach-IsAddressed e config reached)

-- A file that is there stays there: it may be written again, and is not removed.
handle-keeps :
    (e : Ethers) (config : Config) (files : Files) (r : Request) (out : Response × Files)
    → Answer e config files r out
    → (name : Text) (b : Bytes) → read_file files name ≡ some b
    → (b' : Bytes) × (read_file out.1 name ≡ some b')
handle-keeps e config files r out (preflight q) name b h = (b, rw q h)
handle-keeps e config files r out (report q) name b h = (b, rw q h)
handle-keeps e config files r out (download q) name b h = (b, rw q h)
handle-keeps e config files r out (no_route q) name b h = (b, rw q h)
handle-keeps e config files r out (upload q) name b h =
    elim (put_object-Upload e config files r.claimed (read_body config.max_bytes 0 r.chunks)) [
      | refused status s ↦ (b, rw (q, s) h)
      | stored content hash body hashed s ↦ elim (Bool-cases (text_eq (object_path hash) name)) [
        | inl same ↦ (
          content,
          rw (q, s, read_file-write_file files (object_path hash) name content, same) refl,
        )
        | inr other ↦
            (b, rw (q, s, read_file-write_file files (object_path hash) name content, other) h)
      ]
    ]

pub Reach-keeps :
    (e : Ethers) (config : Config) {files later : Files}
    → Reach e config files later
    → (name : Text) (b : Bytes) → read_file files name ≡ some b
    → (b' : Bytes) × (read_file later name ≡ some b')
Reach-keeps e config here name b h = (b, h)
Reach-keeps e config (next {later} reached r) name b h =
    let (b', h') = Reach-keeps e config reached name b h in
    handle-keeps e config later r (handle e config later r) (handle-Answer e config later r) name b'
      h'
