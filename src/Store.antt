-- ===== src/Store.antt =====
-- services/ciphertext-store/src/server.mjs: one replica of the ciphertext store. The data directory
-- is a list of files by name; a request is what `node:http` and `URL` have parsed, with the body in
-- the chunks that arrive. A response carries its status, and of a refusal nothing more.
pub mod Objects
pub mod Uploads
pub mod Acknowledged
pub mod Serving
pub mod Durable
pub mod Client
use fairproof_bcolbd.Prelude.{
  ℕ, zero, suc, ◌+◌, ◌-◌, Bool, true, false, not, ◌&&◌, ◌||◌, List, [], ◌∷◌, ◌++◌, leb, ltb, ◌==◌,
  if◌then◌else◌, length, take, drop, Option, none, some, Result, ok, err, Error, ◌>>=◌, ◌>>◌,
  throw_if,
}
use fairproof_bcolbd.Prelude.Texts.{text_eq}
use fairproof_bcolbd.Field.{Bytes, Text, write_bytes, concat_bytes}
use fairproof_bcolbd.Platform.{Ethers, codes}
use fairproof_bcolbd.Platform.Hashes.{all_lower_hex}
use fairproof_bcolbd.Storage.{truthy}

abbrev pub raw_ciphertext_v1 : Text
raw_ciphertext_v1 = codes "0x6edc5e8537624c6e297a0e49274ec5a5e66270f9402ff011206b0c1793896729"

abbrev pub raw_receipt_sig_v1 : Text
raw_receipt_sig_v1 = codes "0xc3ffb182dd3ebfe5535def6710ba4562e2bf2416e6ac55e4ac25fc7e14433ea3"

-- the `Wallet` of ethers, whose `sign` is `signingKey.sign(…).serialized`
pub record Wallet : Type 0 where
  pub address : Text
  pub sign : Text → Text

-- `REPLICA_ID`, `MAX_BYTES` and `wallet`
pub record Config : Type 0 where
  pub replica_id : ℕ
  pub max_bytes : ℕ
  pub wallet : Wallet

abbrev pub default_max_bytes : ℕ
default_max_bytes = 65536

-- what is in `DATA_DIR`
pub record File : Type 0 where
  pub name : Text
  pub content : Bytes

abbrev pub Files : Type 0
Files = List File

pub record Request : Type 0 where
  pub method : Text
  pub pathname : Text
  -- `url.searchParams.get("contentHash")`
  pub claimed : Option Text
  pub chunks : List Bytes

-- the JSON body of a receipt, without the time
pub record PutReply : Type 0 where
  pub replica_id : ℕ
  pub content_hash : Text
  pub object_id : Text
  pub byte_length : ℕ
  pub signature : Text
  pub signer : Text
  pub digest : Text

pub data Response : Type 0 where
  no_content : Response
  health : ℕ → Text → ℕ → ℕ → Response
  created : PutReply → Response
  object : Text → Bytes → Response
  failure : ℕ → Response

-- the start-up check of `REPLICA_ID`
unfoldable pub accepts_id : ℕ → Bool
accepts_id id = not (ltb id 1 || ltb 255 id)

-- `u8(n, bytes)`: what does not fit is cut off
unfoldable pub u8 : ℕ → ℕ → Bytes
u8 n size = (write_bytes size n []).0

-- `/^0x[0-9a-f]{64}$/`
unfoldable pub is_object_hash : Text → Bool
is_object_hash s = text_eq (take 2 s) (codes "0x") && length s == 66 && all_lower_hex (drop 2 s)

-- `p.startsWith(prefix)`
abbrev pub starts_with : Text → Text → Bool
starts_with prefix p = text_eq (take (length prefix) p) prefix

-- the file's name in `DATA_DIR`
abbrev pub object_path : Text → Text
object_path content_hash = drop 2 content_hash ++ codes ".bin"

-- `existsSync` and `readFileSync`
unfoldable pub read_file : Files → Text → Option Bytes
read_file [] name = none
read_file (f ∷ files) name = if text_eq f.name name then some f.content else read_file files name

-- `writeFileSync`
unfoldable pub write_file : Files → Text → Bytes → Files
write_file [] name content = record { name = name; content = content } ∷ []
write_file (f ∷ files) name content =
    if text_eq f.name name
    then record { name = name; content = content } ∷ files
    else f ∷ write_file files name content

-- `f.endsWith(".bin")`
abbrev pub is_bin : Text → Bool
is_bin name = leb 4 (length name) && text_eq (drop (length name - 4) name) (codes ".bin")

unfoldable pub count_objects : Files → ℕ
count_objects [] = 0
count_objects (f ∷ files) = (if is_bin f.name then 1 else 0) + count_objects files

-- the loop over the chunks of the request, from the bytes that have arrived on
unfoldable pub read_body : ℕ → ℕ → List Bytes → Result Bytes
read_body max_bytes total [] = ok []
read_body max_bytes total (chunk ∷ chunks) = do
  throw_if (ltb max_bytes (total + length chunk)) Error.body_too_large
  rest ← read_body max_bytes (total + length chunk) chunks
  ok (chunk ++ rest)

-- `err.status ?? 500`
abbrev pub status_of : Error → ℕ
status_of Error.body_too_large = 413
status_of _ = 500

module _ (e : Ethers) where
  unfoldable pub content_hash_of : Bytes → Result Text
  content_hash_of content = do
    domain ← e.get_bytes raw_ciphertext_v1
    ok (e.keccak256 (concat_bytes (domain ∷ content ∷ [])))

  unfoldable pub receipt_sig_digest : ℕ → Text → ℕ → Result Text
  receipt_sig_digest replica_id content_hash byte_length = do
    domain ← e.get_bytes raw_receipt_sig_v1
    content ← e.get_bytes content_hash
    ok (e.keccak256 (concat_bytes (domain ∷ u8 replica_id 1 ∷ content ∷ u8 byte_length 8 ∷ [])))

  -- `claimed && claimed.toLowerCase() !== contentHash.toLowerCase()`
  abbrev pub differs : Option Text → Text → Bool
  differs none content_hash = false
  differs (some claimed) content_hash =
      not (text_eq (e.to_lower_case claimed) (e.to_lower_case content_hash))

module _ (e : Ethers) (config : Config) where
  -- the answer to an upload; an exception from the digest is answered by the `catch`
  unfoldable pub receipt_response : Text → ℕ → Result Text → Response
  receipt_response content_hash byte_length (err reason) = failure (status_of reason)
  receipt_response content_hash byte_length (ok digest) = created (record {
    replica_id = config.replica_id;
    content_hash = content_hash;
    object_id = content_hash;
    byte_length = byte_length;
    signature = config.wallet.sign digest;
    signer = config.wallet.address;
    digest = digest;
  })

  -- the upload from the computed hash on
  unfoldable pub put_hashed : Files → Option Text → Bytes → Result Text → Response × Files
  put_hashed files claimed content (err reason) = (failure (status_of reason), files)
  put_hashed files claimed content (ok content_hash) =
      if differs e (truthy claimed) content_hash then (failure 400, files) else (
        receipt_response content_hash (length content)
            (receipt_sig_digest e config.replica_id content_hash (length content)),
        write_file files (object_path content_hash) content,
      )

  unfoldable pub put_object : Files → Option Text → Result Bytes → Response × Files
  put_object files claimed (err reason) = (failure (status_of reason), files)
  put_object files claimed (ok content) =
      if length content == 0
      then (failure 400, files)
      else put_hashed files claimed content (content_hash_of e content)

  -- the comparison of the hash on the way out
  unfoldable pub serve : Text → Bytes → Result Text → Response
  serve content_hash content (err reason) = failure (status_of reason)
  serve content_hash content (ok recomputed) =
      if text_eq (e.to_lower_case recomputed) content_hash
      then object content_hash content
      else failure 500

  unfoldable pub serve_file : Text → Option Bytes → Response
  serve_file content_hash none = failure 404
  serve_file content_hash (some content) = serve content_hash content (content_hash_of e content)

  unfoldable pub get_object : Files → Text → Response
  get_object files content_hash =
      if is_object_hash content_hash
      then serve_file content_hash (read_file files (object_path content_hash))
      else failure 400

  -- the request handler
  unfoldable pub handle : Files → Request → Response × Files
  handle files r =
      if text_eq r.method (codes "OPTIONS")
      then (no_content, files)
      else if text_eq r.method (codes "GET") && text_eq r.pathname (codes "/health")
      then (
        health config.replica_id config.wallet.address (count_objects files) config.max_bytes,
        files,
      )
      else if text_eq r.method (codes "PUT") && text_eq r.pathname (codes "/objects")
      then put_object files r.claimed (read_body config.max_bytes 0 r.chunks)
      else if text_eq r.method (codes "GET") && starts_with (codes "/objects/") r.pathname
      then (get_object files (e.to_lower_case (drop 9 r.pathname)), files)
      else (failure 404, files)
