-- ===== src/Browser.antt =====
-- What apps/dashboard/src/lib/vault.ts and receipts.ts share: `localStorage` under their key, and plain
-- objects used as maps. A key is a text such as `0x…`, which is no array index and no inherited name, so
-- an object lists its values in the order in which their keys were added.
pub mod Entries
pub mod Vault
pub mod Receipts
use fairproof_bcolbd.Prelude.{
  ℕ, Bool, true, false, List, [], ◌∷◌, leb, if◌then◌else◌, Option, none, some, Result, ok, err,
  Error,
}
use fairproof_bcolbd.Prelude.Texts.{text_eq}
use fairproof_bcolbd.Field.{Text}
use fairproof_bcolbd.Storage.{truthy}

-- The text under the key, whether `getItem` works at all, and which texts `setItem` has room for.
pub record LocalStorage : Type 0 where
  pub item : Option Text
  pub readable : Bool
  pub accepts : Text → Bool

pub record Entry (A : Type 0) : Type 0 where
  pub key : Text
  pub value : A

-- `JSON.parse` of what is under the key, and `JSON.stringify`; nothing else writes the key
pub record Codec (A : Type 0) : Type 0 where
  pub parse : Text → Result (List (Entry A))
  pub stringify : List (Entry A) → Text

module _ {A : Type 0} where
  -- `o[key] = value`
  unfoldable pub assign : Text → A → List (Entry A) → List (Entry A)
  assign key value [] = record { key = key; value = value } ∷ []
  assign key value (e ∷ entries) =
      if text_eq e.key key
      then record { key = key; value = value } ∷ entries
      else e ∷ assign key value entries

  -- `delete o[key]`
  unfoldable pub remove : Text → List (Entry A) → List (Entry A)
  remove key [] = []
  remove key (e ∷ entries) =
      let rest = remove key entries in if text_eq e.key key then rest else e ∷ rest

  -- `o[key] ?? null`
  unfoldable pub find : List (Entry A) → Text → Option A
  find [] key = none
  find (e ∷ entries) key = if text_eq e.key key then some e.value else find entries key

  -- `Object.values(o)`
  unfoldable pub values : List (Entry A) → List A
  values [] = []
  values (e ∷ entries) = e.value ∷ values entries

  -- the parsed object, or an empty one for a missing or empty item and for an error
  unfoldable pub read_entries : Codec A → LocalStorage → List (Entry A)
  read_entries codec local =
      if local.readable
      then elim (truthy local.item) [
        | none ↦ []
        | some raw ↦ elim (codec.parse raw) [ err reason ↦ [] | ok entries ↦ entries ]
      ]
      else []

  -- A failed `setItem` changes nothing.
  unfoldable pub write_entries : Codec A → LocalStorage → List (Entry A) → LocalStorage
  write_entries codec local entries =
      if local.accepts (codec.stringify entries)
      then record local { item = some (codec.stringify entries) }
      else local

  -- a stable sort, the largest key first
  unfoldable pub insert_latest : (A → ℕ) → A → List A → List A
  insert_latest time a [] = a ∷ []
  insert_latest time a (x ∷ xs) =
      if leb (time x) (time a) then a ∷ x ∷ xs else x ∷ insert_latest time a xs

  unfoldable pub sort_latest : (A → ℕ) → List A → List A
  sort_latest time [] = []
  sort_latest time (x ∷ xs) = insert_latest time x (sort_latest time xs)
