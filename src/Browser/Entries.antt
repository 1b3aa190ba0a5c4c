-- ===== src/Browser/Entries.antt =====
-- Plain objects used as maps, and their way through `localStorage`, in apps/dashboard/src/lib.
use fairproof_bcolbd.Prelude.{
  ◌≡◌, refl, true, false, List, [], ◌∷◌, if◌then◌else◌, Bool-cases, inl, inr, none, some, ok,
}
use fairproof_bcolbd.Prelude.Texts.{text_eq, eq_of_text_eq}
use fairproof_bcolbd.Field.{Text}
use fairproof_bcolbd.Storage.{truthy}
use fairproof_bcolbd.Browser.{
  LocalStorage, Entry, Codec, assign, remove, find, read_entries, write_entries,
}

-- `localStorage` can be read and takes the entries' text, which is not empty and which `JSON.parse`
-- reads as the entries.
pub record Keeps {A : Type 0} (codec : Codec A) (local : LocalStorage) (entries : List (Entry A))
    : Type 0 where
  pub readable : local.readable ≡ true
  pub accepts : local.accepts (codec.stringify entries) ≡ true
  pub present : truthy (some (codec.stringify entries)) ≡ some (codec.stringify entries)
  pub parse_stringify : codec.parse (codec.stringify entries) ≡ ok entries

pub read_entries-write_entries :
    {A : Type 0} (codec : Codec A) (local : LocalStorage) (entries : List (Entry A))
    → Keeps codec local entries
    → read_entries codec (write_entries codec local entries) ≡ entries
unfolding read_entries write_entries
read_entries-write_entries codec local entries k =
    rw (k.accepts) (rw (k.readable) (rw (k.present) (rw (k.parse_stringify) refl)))

module _ {A : Type 0} where
  pub find-assign :
      (entries : List (Entry A)) (key other : Text) (value : A)
      → find (assign key value entries) other
        ≡ (if text_eq key other then some value else find entries other)
  unfolding find assign
  find-assign [] key other value = refl
  find-assign (e ∷ entries) key other value = elim (Bool-cases (text_eq e.key key)) [
    | inl h ↦
        let same = eq_of_text_eq e.key key h in
        elim (Bool-cases (text_eq key other)) [
          | inl k ↦ rw (h, same, k) refl
          | inr k ↦ rw (h, same, k) refl
        ]
    | inr h ↦ elim (Bool-cases (text_eq key other)) [
      | inl k ↦
          let same = eq_of_text_eq key other k in
          let miss : text_eq e.key other ≡ false = rw (← same) h in
          rw (h, find-assign entries key other value, k, miss) refl
      | inr k ↦ rw (h, find-assign entries key other value, k) refl
    ]
  ]

  pub find-remove :
      (entries : List (Entry A)) (key other : Text)
      → find (remove key entries) other ≡ (if text_eq key other then none else find entries other)
  unfolding find remove
  find-remove [] key other = elim (Bool-cases (text_eq key other)) [
    | inl k ↦ rw k refl
    | inr k ↦ rw k refl
  ]
  find-remove (e ∷ entries) key other = elim (Bool-cases (text_eq e.key key)) [
    | inl h ↦
        let same = eq_of_text_eq e.key key h in
        elim (Bool-cases (text_eq key other)) [
          | inl k ↦ rw (h, find-remove entries key other, same, k) refl
          | inr k ↦ rw (h, find-remove entries key other, same, k) refl
        ]
    | inr h ↦ elim (Bool-cases (text_eq key other)) [
      | inl k ↦
          let same = eq_of_text_eq key other k in
          let miss : text_eq e.key other ≡ false = rw (← same) h in
          rw (h, find-remove entries key other, k, miss) refl
      | inr k ↦ rw (h, find-remove entries key other, k) refl
    ]
  ]
