-- ===== src/Encoding.antt =====
-- packages/crypto/src/encoding.ts: the Keccak-based encodings and JSON canonicalization.
pub mod Layout
use fairproof_bcolbd.Prelude.{
  ℕ, ◌+◌, ◌*◌, Bool, true, false, not, ◌&&◌, ◌||◌, List, [], ◌∷◌, ◌++◌, ltb, leb, ◌==◌,
  if◌then◌else◌, length, Result, ok, err, Error, ◌>>=◌, ◌>>◌, throw_if,
}
use fairproof_bcolbd.Prelude.Int.{ℤ, pos}
use fairproof_bcolbd.Field.{Bytes, Text, hex, to_bytes, to_field, concat_bytes}
use fairproof_bcolbd.Platform.{Ethers, codes}
use fairproof_bcolbd.Domains.{Domains}

pub record CiphertextParts : Type 0 where
  pub r_x : ℤ
  pub r_y : ℤ
  pub wrapped : Bytes
  pub iv : Bytes
  pub ct : Bytes
  pub tag : Bytes

abbrev pub ciphertext_version : ℕ
ciphertext_version = 1

unfoldable pub canonical_ciphertext_bytes : CiphertextParts → Result Bytes
canonical_ciphertext_bytes parts = do
  throw_if (not (length parts.wrapped == 32)) Error.wrapped_length
  throw_if (not (length parts.iv == 12)) Error.iv_length
  throw_if (not (length parts.tag == 16)) Error.tag_length
  x ← to_bytes parts.r_x 32
  y ← to_bytes parts.r_y 32
  len ← to_bytes (pos (length parts.ct)) 4
  ok (
      concat_bytes (
        (ciphertext_version ∷ [])
        ∷ x
        ∷ y
        ∷ parts.wrapped
        ∷ parts.iv
        ∷ len
        ∷ parts.ct
        ∷ parts.tag
        ∷ []))

pub record StorageReceipt : Type 0 where
  pub replica_id : ℕ
  pub content_hash : Text
  pub byte_length : ℕ
  pub signature : Text

module _ (e : Ethers) (domains : Domains) where
  unfoldable pub tender_id_field : Text → Result ℤ
  tender_id_field tender_id = do
    domain ← e.get_bytes domains.raw_tender_id
    to_field (hex (e.keccak256 (concat_bytes (domain ∷ e.to_utf8_bytes tender_id ∷ []))))

  unfoldable pub ciphertext_hash : CiphertextParts → Result Text
  ciphertext_hash parts = do
    domain ← e.get_bytes domains.raw_ciphertext
    canonical ← canonical_ciphertext_bytes parts
    ok (e.keccak256 (concat_bytes (domain ∷ canonical ∷ [])))

  unfoldable pub ciphertext_hash_field : CiphertextParts → Result ℤ
  ciphertext_hash_field parts = do hash ← ciphertext_hash parts; to_field (hex hash)

  unfoldable pub receipt_leaf : StorageReceipt → Result ℤ
  receipt_leaf receipt = do
    sig ← e.get_bytes receipt.signature
    throw_if (not (length sig == 65)) Error.signature_length
    domain ← e.get_bytes domains.raw_receipt
    id ← to_bytes (pos receipt.replica_id) 1
    content ← e.get_bytes receipt.content_hash
    len ← to_bytes (pos receipt.byte_length) 8
    to_field (hex (e.keccak256 (concat_bytes (domain ∷ id ∷ content ∷ len ∷ sig ∷ []))))

-- A JavaScript value. A number is an integer, a fraction or not finite; `other` is a value of
-- another type, such as a function.
mutual
  pub data Json : Type 0 where
    null : Json
    boolean : Bool → Json
    integer : ℤ → Json
    fraction : Json
    non_finite : Json
    bigint : ℤ → Json
    string : Text → Json
    array : Items → Json
    object : Entries → Json
    undefined : Json
    other : Json

  pub data Items : Type 0 where
    nil : Items
    cons : Json → Items → Items

  pub data Entries : Type 0 where
    end : Entries
    entry : Text → Json → Entries → Entries

-- `String(n)` of an integer, `toString` of a bigint and `JSON.stringify` of a string
pub record JsonText : Type 0 where
  pub show_number : ℤ → Text
  pub show_bigint : ℤ → Text
  pub quote : Text → Text

-- `a < b` on strings: by UTF-16 code unit
unfoldable pub text_lt : Text → Text → Bool
text_lt [] [] = false
text_lt [] (b ∷ bs) = true
text_lt (a ∷ as') [] = false
text_lt (a ∷ as') (b ∷ bs) = ltb a b || (a == b && text_lt as' bs)

-- `.sort(([a], [b]) => …)` by key, stable
unfoldable pub insert_entry :
    Text × Result Text → List (Text × Result Text) → List (Text × Result Text)
insert_entry (k, v) [] = (k, v) ∷ []
insert_entry (k, v) ((j, w) ∷ entries) =
    if text_lt j k then (j, w) ∷ insert_entry (k, v) entries else (k, v) ∷ (j, w) ∷ entries

unfoldable pub sort_entries : List (Text × Result Text) → List (Text × Result Text)
sort_entries [] = []
sort_entries (e ∷ entries) = insert_entry e (sort_entries entries)

-- `.join(",")`
unfoldable pub join : List Text → Text
join [] = []
join (t ∷ []) = t
join (t ∷ u ∷ ts) = t ++ (b',' ∷ join (u ∷ ts))

module _ (t : JsonText) where
  unfoldable pub print_entries : List (Text × Result Text) → Result (List Text)
  print_entries [] = ok []
  print_entries ((k, v) ∷ entries) = do
    text ← v
    texts ← print_entries entries
    ok ((t.quote k ++ (b':' ∷ text)) ∷ texts)

  unfoldable mutual
    pub jcs_canonicalize : Json → Result Text
    jcs_canonicalize null = ok (codes "null")
    jcs_canonicalize (boolean b) = ok (if b then codes "true" else codes "false")
    jcs_canonicalize non_finite = err Error.non_finite_number
    jcs_canonicalize fraction = err Error.non_integer_number
    jcs_canonicalize (integer n) = ok (t.show_number n)
    jcs_canonicalize (bigint n) = ok (t.show_bigint n)
    jcs_canonicalize (string s) = ok (t.quote s)
    jcs_canonicalize (array items) =
        jcs_items items >>= λ texts. ok (b'[' ∷ (join texts ++ (b']' ∷ [])))
    jcs_canonicalize (object fields) =
        print_entries (sort_entries (jcs_entries fields)) >>= λ texts.
        ok (b'{' ∷ (join texts ++ (b'}' ∷ [])))
    jcs_canonicalize undefined = err Error.unsupported_type
    jcs_canonicalize other = err Error.unsupported_type

    pub jcs_items : Items → Result (List Text)
    jcs_items nil = ok []
    jcs_items (cons v items) =
        jcs_canonicalize v >>= λ text. jcs_items items >>= λ texts. ok (text ∷ texts)

    -- The entries whose value is not `undefined`, each with what canonicalizing its value gives.
    pub jcs_entries : Entries → List (Text × Result Text)
    jcs_entries end = []
    jcs_entries (entry k undefined fields) = jcs_entries fields
    jcs_entries (entry k v fields) = (k, jcs_canonicalize v) ∷ jcs_entries fields

  unfoldable pub rules_hash : Ethers → Json → Result Text
  rules_hash e rule_document =
      jcs_canonicalize rule_document >>= λ text. ok (e.keccak256 (e.to_utf8_bytes text))
