-- ===== src/Browser/Vault/Dealings.antt =====
-- What apps/dashboard/src/lib/vault.ts finds after it has saved or forgotten a dealing.
use fairproof_bcolbd.Prelude.{◌≡◌, ap, ◌∙◌, if◌then◌else◌, none, some, List}
use fairproof_bcolbd.Prelude.Texts.{text_eq}
use fairproof_bcolbd.Field.{Text}
use fairproof_bcolbd.Browser.{LocalStorage, Entry, Codec, assign, remove, find, read_entries}
use fairproof_bcolbd.Browser.Entries.{Keeps, read_entries-write_entries, find-assign, find-remove}
use fairproof_bcolbd.Browser.Vault.{StoredDealing, save_dealing, load_dealing, forget_dealing}

module _ (codec : Codec StoredDealing) (local : LocalStorage) where
  -- Where the browser keeps the new entries, a saved dealing is loaded under its tender id, and every
  -- other tender id has the dealing that it had.
  pub load_dealing-save_dealing :
      (d : StoredDealing) (tender_id : Text)
      → Keeps codec local (assign d.tender_id d (read_entries codec local))
      → load_dealing codec (save_dealing codec local d) tender_id
        ≡ (if text_eq d.tender_id tender_id then some d else load_dealing codec local tender_id)
  unfolding load_dealing save_dealing
  load_dealing-save_dealing d tender_id k =
      let entries = assign d.tender_id d (read_entries codec local) in
      ap (λ (es : List (Entry StoredDealing)). find es tender_id)
        (read_entries-write_entries codec local entries k)
      ∙ find-assign (read_entries codec local) d.tender_id tender_id d

  -- Where the browser keeps the new entries, nothing is loaded under a forgotten tender id, and every
  -- other tender id has the dealing that it had.
  pub load_dealing-forget_dealing :
      (forgotten tender_id : Text)
      → Keeps codec local (remove forgotten (read_entries codec local))
      → load_dealing codec (forget_dealing codec local forgotten) tender_id
        ≡ (if text_eq forgotten tender_id then none else load_dealing codec local tender_id)
  unfolding load_dealing forget_dealing
  load_dealing-forget_dealing forgotten tender_id k =
      ap (λ (es : List (Entry StoredDealing)). find es tender_id)
        (read_entries-write_entries codec local (remove forgotten (read_entries codec local)) k)
      ∙ find-remove (read_entries codec local) forgotten tender_id
