-- ===== src/Store/Durable.antt =====
-- What an acknowledgement of services/ciphertext-store/src/server.mjs is worth: the object is served
-- at once and later, and nothing else is served under its hash.
use fairproof_bcolbd.Prelude.{
  ◌≡◌, refl, sym, ap, ◌∙◌, arith, true, [], ◌∷◌, ◌++◌, length, Bool-cases, inl, inr, none, some, ok,
  some-injective, ok-injective, append-injective, >>=-eq-ok,
}
use fairproof_bcolbd.Prelude.Texts.{text_eq, text_eq_refl, eq_of_text_eq}
use fairproof_bcolbd.Field.{Bytes, Text, concat_bytes}
use fairproof_bcolbd.Platform.{Ethers, EthersLaws, codes}
use fairproof_bcolbd.Platform.Hashes.{LowerLaws, IsHash, keccak256-IsHash, to_lower_case-IsHash}
use fairproof_bcolbd.Store.{
  Config, Files, Request, Response, PutReply, created, object, read_file, object_path,
  content_hash_of, is_object_hash, get_object, serve_file, serve, handle, read_body,
}
use fairproof_bcolbd.Store.Objects.{read_file-write_file}
use fairproof_bcolbd.Store.Acknowledged.{handle-Acknowledged}
use fairproof_bcolbd.Store.Uploads.{
  Reach, IsAddressed, Reach-IsAddressed, Reach-keeps, Reach-trans, next,
}

-- the request that `fetchCiphertext` sends for a hash
abbrev pub get_request : Text → Request
get_request h = record {
  method = codes "GET";
  pathname = codes "/objects/" ++ h;
  claimed = none;
  chunks = [];
}

pub content_hash_of-IsHash :
    {e : Ethers}
    → EthersLaws e
    → (content : Bytes) (h : Text) → content_hash_of e content ≡ ok h
    → IsHash h
unfolding content_hash_of
content_hash_of-IsHash {e} laws content h hashed =
    let (domain, _, given) = >>=-eq-ok (e.get_bytes _) _ hashed in
    rw (← ok-injective given) (keccak256-IsHash laws (concat_bytes (domain ∷ content ∷ [])))

IsHash-is_object_hash : (h : Text) → IsHash h → is_object_hash h ≡ true
unfolding is_object_hash
IsHash-is_object_hash h v = let size = v.size in let lower = v.lower in rw v.spelled (ground arith)

-- Hashes that are stored under one name are equal.
object_path-injective : (h k : Text) → IsHash h → IsHash k → object_path h ≡ object_path k → h ≡ k
object_path-injective h k v w same =
    let named : v.digits ++ codes ".bin" ≡ w.digits ++ codes ".bin" =
      ap (λ (s : Text). object_path s) (sym v.spelled)
      ∙ same
      ∙ ap (λ (s : Text). object_path s) w.spelled in
    let (digits, _) = append-injective v.digits w.digits _ _ (v.size ∙ sym w.size) named in
    v.spelled ∙ ap (λ (s : Text). b'0' ∷ b'x' ∷ s) digits ∙ sym w.spelled

read_file-IsAddressed :
    (e : Ethers) (files : Files) (name : Text) (b : Bytes)
    → IsAddressed e files
    → read_file files name ≡ some b
    → (h : Text) × (content_hash_of e b ≡ ok h) × (name ≡ object_path h)
unfolding read_file
read_file-IsAddressed e [] name b v h = cc
read_file-IsAddressed e (f ∷ files) name b ((hash, hashed, path), v) h =
    elim (Bool-cases (text_eq f.name name)) [
      | inl same ↦
          let content : f.content ≡ b = some-injective (rw same at h) in
          (
            hash,
            ap (content_hash_of e) (sym content) ∙ hashed,
            sym (eq_of_text_eq f.name name same) ∙ path,
          )
      | inr other ↦ read_file-IsAddressed e files name b v (rw other at h)
    ]

module _ {e : Ethers} (laws : EthersLaws e) (lower : LowerLaws e) (config : Config) where
  -- A request for a hash is answered from the file of that name.
  handle-get_request :
      (files : Files) (h : Text)
      → IsHash h
      → handle e config files (get_request h) ≡ (get_object e config files h, files)
  unfolding handle
  handle-get_request files h v =
      ap (λ (t : Text). (get_object e config files t, files)) (to_lower_case-IsHash lower h v)

  get_object-stored :
      (files : Files) (h : Text) (b : Bytes)
      → IsHash h
      → read_file files (object_path h) ≡ some b
      → content_hash_of e b ≡ ok h
      → get_object e config files h ≡ object h b
  unfolding get_object serve_file serve
  get_object-stored files h b v there hashed =
      rw (IsHash-is_object_hash h v, there, serve_file)
        (rw (hashed, serve) (rw (to_lower_case-IsHash lower h v, text_eq_refl h) refl))

  -- After an upload that is answered with a receipt, a request for the receipt's hash gets exactly
  -- the bytes that were uploaded, as many as the receipt says.
  pub get-put :
      (files : Files) (r : Request) (reply : PutReply)
      → (handle e config files r).0 ≡ created reply
      → (content : Bytes) × (read_body config.max_bytes 0 r.chunks ≡ ok content)
        × (reply.byte_length ≡ length content)
        × (handle e config (handle e config files r).1 (get_request reply.content_hash)
            ≡ (object reply.content_hash content, (handle e config files r).1))
  get-put files r reply h =
      let a = handle-Acknowledged e config files r reply h in
      let v = content_hash_of-IsHash laws a.content reply.content_hash a.hashed in
      let after = (handle e config files r).1 in
      let there : read_file after (object_path reply.content_hash) ≡ some a.content =
        ap (λ (fs : Files). read_file fs (object_path reply.content_hash)) a.written
        ∙ read_file-write_file files (object_path reply.content_hash)
            (object_path reply.content_hash) a.content
        ∙ rw (text_eq_refl (object_path reply.content_hash)) refl in
      (
        a.content,
        a.received,
        ap (λ (p : PutReply). p.byte_length) a.signed,
        handle-get_request after reply.content_hash v
            ∙ ap (λ (s : Response). (s, after))
                (get_object-stored after reply.content_hash a.content v there a.hashed),
      )

  -- An object that a replica acknowledged in a state that it reached from an empty data directory
  -- is served in every state that it reaches later: a request for the receipt's hash gets bytes of
  -- that hash.
  pub acknowledged-Reach :
      {files later : Files} (r : Request) (reply : PutReply)
      → Reach e config [] files
      → (handle e config files r).0 ≡ created reply
      → Reach e config (handle e config files r).1 later
      → (b : Bytes) × (content_hash_of e b ≡ ok reply.content_hash)
        × (handle e config later (get_request reply.content_hash)
            ≡ (object reply.content_hash b, later))
  acknowledged-Reach {files} {later} r reply reached h further =
      let a = handle-Acknowledged e config files r reply h in
      let v = content_hash_of-IsHash laws a.content reply.content_hash a.hashed in
      let path = object_path reply.content_hash in
      let there : read_file (handle e config files r).1 path ≡ some a.content =
        ap (λ (fs : Files). read_file fs path) a.written
        ∙ read_file-write_file files path path a.content
        ∙ rw (text_eq_refl path) refl in
      let (b, kept) = Reach-keeps e config further path a.content there in
      let sound = Reach-IsAddressed e config (Reach-trans (next reached r) further) in
      let (k, hashed, named) = read_file-IsAddressed e later path b sound kept in
      let w = content_hash_of-IsHash laws b k hashed in
      let same : k ≡ reply.content_hash =
        object_path-injective k reply.content_hash w v (sym named) in
      let hashed' : content_hash_of e b ≡ ok reply.content_hash =
        hashed ∙ ap (λ (t : Text). ok t) same in
      (
        b,
        hashed',
        handle-get_request later reply.content_hash v
            ∙ ap (λ (s : Response). (s, later))
                (get_object-stored later reply.content_hash b v kept hashed'),
      )
