-- ===== src/Browser/Vault.antt =====
-- apps/dashboard/src/lib/vault.ts: the dealings that the browser keeps.
pub mod Dealings
use fairproof_bcolbd.Prelude.{
  ℕ, Bool, true, false, ◌&&◌, not, List, [], ◌∷◌, ◌++◌, Option, none, some, Result, ok, err,
  if◌then◌else◌,
}
use fairproof_bcolbd.Field.{Text}
use fairproof_bcolbd.Browser.{
  LocalStorage, Entry, Codec, assign, remove, find, values, read_entries, write_entries,
  sort_latest,
}

-- a point in decimal
pub record StoredPoint : Type 0 where
  pub x : Text
  pub y : Text

pub record StoredShare : Type 0 where
  pub index : ℕ
  pub share : Text
  pub public_share_x : Text
  pub public_share_y : Text

pub record StoredDealing : Type 0 where
  pub tender_id : Text
  pub tender_id_string : Text
  pub dealt_at : ℕ
  pub seeded : Option Bool
  pub public_key : StoredPoint
  pub commitments : List StoredPoint
  pub shares : List StoredShare
  pub members : List Text

module _ (codec : Codec StoredDealing) where
  unfoldable pub save_dealing : LocalStorage → StoredDealing → LocalStorage
  save_dealing local d = write_entries codec local (assign d.tender_id d (read_entries codec local))

  unfoldable pub load_dealing : LocalStorage → Text → Option StoredDealing
  load_dealing local tender_id = find (read_entries codec local) tender_id

  unfoldable pub all_dealings : LocalStorage → List StoredDealing
  all_dealings local =
      sort_latest (λ (d : StoredDealing). d.dealt_at) (values (read_entries codec local))

  unfoldable pub forget_dealing : LocalStorage → Text → LocalStorage
  forget_dealing local tender_id =
      write_entries codec local (remove tender_id (read_entries codec local))

-- What `fetch` and `json()` give: an error for a request or a body that fails, nothing for a status
-- that is not ok, and of a dealing's file whether it has a tender id and an array of shares.
pub record SeededFiles : Type 0 where
  pub index : Result (Option (Option (List Text)))
  pub dealing : Text → Result (Option (Bool × StoredDealing))

-- one round of the loop over the names
unfoldable pub seeded_dealing : Result (Option (Bool × StoredDealing)) → List StoredDealing
seeded_dealing (ok (some (complete, d))) =
    if complete then record d { seeded = some true } ∷ [] else []
seeded_dealing (ok none) = []
seeded_dealing (err reason) = []

unfoldable pub seeded_dealings : SeededFiles → List Text → List StoredDealing
seeded_dealings files [] = []
seeded_dealings files (name ∷ names) =
    seeded_dealing (files.dealing name) ++ seeded_dealings files names

unfoldable pub load_seeded_dealings : SeededFiles → List StoredDealing
load_seeded_dealings files = elim files.index [
  | err reason ↦ []
  | ok none ↦ []
  | ok (some none) ↦ []
  | ok (some (some names)) ↦ seeded_dealings files names
]
