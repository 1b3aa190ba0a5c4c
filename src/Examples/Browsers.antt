-- ===== src/Examples/Browsers.antt =====
-- The theorems on what the browser keeps at concrete inputs.
use fairproof_bcolbd.Prelude.{
  ℕ, ◌≡◌, refl, true, List, [], ◌∷◌, length, All, Occurs, ◌⊎◌, none, some, ok, if◌then◌else◌,
}
use fairproof_bcolbd.Prelude.Texts.{text_eq}
use fairproof_bcolbd.Field.{Text}
use fairproof_bcolbd.Platform.{codes}
use fairproof_bcolbd.Browser.{LocalStorage, Entry, Codec, assign, values, read_entries}
use fairproof_bcolbd.Browser.Entries.{Keeps}
use fairproof_bcolbd.Browser.Vault.{StoredPoint, StoredDealing, save_dealing, load_dealing}
use fairproof_bcolbd.Browser.Vault.Dealings.{load_dealing-save_dealing}
use fairproof_bcolbd.Browser.Receipts.{BidReceipt, id_of, save_receipt, receipts_for}
use fairproof_bcolbd.Browser.Receipts.Listed.{HasNoColon, receipts_for-save_receipt}

abbrev point : StoredPoint
point = record { x = codes "1"; y = codes "2" }

abbrev dealing : Text → ℕ → StoredDealing
dealing tender_id dealt_at = record {
  tender_id = tender_id;
  tender_id_string = codes "T";
  dealt_at = dealt_at;
  seeded = none;
  public_key = point;
  commitments = point ∷ [];
  shares = [];
  members = [];
}

abbrev old_dealings : List (Entry StoredDealing)
old_dealings = record { key = codes "0x1"; value = dealing (codes "0x1") 5 } ∷ []

abbrev new_dealings : List (Entry StoredDealing)
unfolding assign
new_dealings = assign (codes "0x2") (dealing (codes "0x2") 6) old_dealings

-- a text that names one of the two objects by its number of dealings
abbrev dealing_codec : Codec StoredDealing
dealing_codec = record {
  parse = λ text. if text_eq text (1 ∷ []) then ok old_dealings else ok new_dealings;
  stringify = λ entries. length entries ∷ [];
}

abbrev dealing_storage : LocalStorage
dealing_storage = record { item = some (1 ∷ []); readable = true; accepts = λ text. true }

dealings-Keeps :
    Keeps dealing_codec dealing_storage
      (assign (codes "0x2") (dealing (codes "0x2") 6) (read_entries dealing_codec dealing_storage))
unfolding assign read_entries
dealings-Keeps = record { readable = refl; accepts = refl; present = refl; parse_stringify = refl }

load_dealing-save_dealing_example :
    load_dealing dealing_codec
      (save_dealing dealing_codec dealing_storage (dealing (codes "0x2") 6))
      (codes "0x1")
    ≡ (if text_eq (codes "0x2") (codes "0x1")
        then some (dealing (codes "0x2") 6)
        else load_dealing dealing_codec dealing_storage (codes "0x1"))
load_dealing-save_dealing_example =
    load_dealing-save_dealing dealing_codec dealing_storage (dealing (codes "0x2") 6) (codes "0x1")
      dealings-Keeps

abbrev receipt : Text → BidReceipt
receipt nullifier = record {
  tender_id = codes "0x1";
  tender_id_string = codes "T";
  tender_title = codes "Road";
  firm_name = codes "Firm";
  submission_index = 0;
  nullifier = nullifier;
  bid_commitment = codes "5";
  ciphertext_hash = codes "0x6";
  amount_minor_unit = codes "700";
  bid_nonce = codes "8";
  subject_secret = none;
  attestation = none;
  credential = none;
  tx_hash = codes "0x9";
  from = codes "0xa";
  gas_used = codes "21000";
  submitted_at = 3;
  seeded = none;
}

abbrev old_receipts : List (Entry BidReceipt)
unfolding id_of
old_receipts = record { key = id_of (codes "0x1") (codes "11"); value = receipt (codes "11") } ∷ []

abbrev new_receipts : List (Entry BidReceipt)
unfolding assign id_of
new_receipts = assign (id_of (codes "0x1") (codes "12")) (receipt (codes "12")) old_receipts

abbrev receipt_codec : Codec BidReceipt
receipt_codec = record {
  parse = λ text. if text_eq text (1 ∷ []) then ok old_receipts else ok new_receipts;
  stringify = λ entries. length entries ∷ [];
}

abbrev receipt_storage : LocalStorage
receipt_storage = record { item = some (1 ∷ []); readable = true; accepts = λ text. true }

receipts-Keeps : Keeps receipt_codec receipt_storage (
    assign
      (id_of (codes "0x1") (codes "12"))
      (receipt (codes "12"))
      (read_entries receipt_codec receipt_storage))
unfolding assign read_entries id_of
receipts-Keeps = record { readable = refl; accepts = refl; present = refl; parse_stringify = refl }

tender-HasNoColon : HasNoColon (codes "0x1")
tender-HasNoColon = ((λ h. cc), ((λ h. cc), ((λ h. cc), tt)))

receipts_for-save_receipt_example :
    Occurs (receipt (codes "12")) (
      receipts_for receipt_codec
        (save_receipt receipt_codec receipt_storage (receipt (codes "12")))
        (codes "0x1"))
    × All
        (λ s.
          ((s.tender_id ≡ codes "0x1") × (s.nullifier ≡ codes "12"))
          ⊎ Occurs s (
              receipts_for receipt_codec
                (save_receipt receipt_codec receipt_storage (receipt (codes "12")))
                s.tender_id))
        (receipt (codes "11") ∷ [])
unfolding read_entries values id_of
receipts_for-save_receipt_example =
    receipts_for-save_receipt receipt_codec receipt_storage (receipt (codes "12")) (refl, tt)
      receipts-Keeps tender-HasNoColon (tender-HasNoColon, tt)

-- a first receipt, into a storage with no item
abbrev empty_storage : LocalStorage
empty_storage = record { item = none; readable = true; accepts = λ text. true }

abbrev first_entries : List (Entry BidReceipt)
unfolding assign id_of
first_entries = assign (id_of (codes "0x1") (codes "11")) (receipt (codes "11")) []

abbrev first_codec : Codec BidReceipt
first_codec = record {
  parse = λ text. ok first_entries;
  stringify = λ entries. length entries ∷ [];
}

first-Keeps : Keeps first_codec empty_storage (
    assign
      (id_of (codes "0x1") (codes "11"))
      (receipt (codes "11"))
      (read_entries first_codec empty_storage))
unfolding assign read_entries id_of
first-Keeps = record { readable = refl; accepts = refl; present = refl; parse_stringify = refl }

first_receipt_listed : Occurs (receipt (codes "11")) (
    receipts_for first_codec
      (save_receipt first_codec empty_storage (receipt (codes "11")))
      (codes "0x1"))
unfolding read_entries values
first_receipt_listed =
    (receipts_for-save_receipt first_codec empty_storage (receipt (codes "11")) tt first-Keeps
      tender-HasNoColon tt).0
