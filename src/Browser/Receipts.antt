-- ===== src/Browser/Receipts.antt =====
-- apps/dashboard/src/lib/receipts.ts: the bid receipts that the browser keeps.
pub mod Listed
use fairproof_bcolbd.Prelude.{
  ℕ, Bool, true, List, [], ◌∷◌, ◌++◌, map, Option, none, some, Result, ok, err, if◌then◌else◌,
}
use fairproof_bcolbd.Prelude.Sort.{sort_by}
use fairproof_bcolbd.Prelude.Texts.{text_eq}
use fairproof_bcolbd.Field.{Text}
use fairproof_bcolbd.Platform.{codes}
use fairproof_bcolbd.Browser.{
  LocalStorage, Entry, Codec, assign, remove, values, read_entries, write_entries, sort_latest,
}

-- the `credential` of a receipt
pub record ReceiptCredential : Type 0 where
  pub credential_id : Text
  pub annual_turnover : Text
  pub relevant_experience : Text
  pub certification_code : Text
  pub valid_for_days : ℕ
  pub registration_number : Option Text

pub record BidReceipt : Type 0 where
  pub tender_id : Text
  pub tender_id_string : Text
  pub tender_title : Text
  pub firm_name : Text
  pub submission_index : ℕ
  pub nullifier : Text
  pub bid_commitment : Text
  pub ciphertext_hash : Text
  pub amount_minor_unit : Text
  pub bid_nonce : Text
  pub subject_secret : Option Text
  pub attestation : Option Text
  pub credential : Option ReceiptCredential
  pub tx_hash : Text
  pub from : Text
  pub gas_used : Text
  pub submitted_at : ℕ
  pub seeded : Option Bool

unfoldable pub id_of : Text → Text → Text
id_of tender_id nullifier = tender_id ++ (codes ":" ++ nullifier)

-- `rs.filter((r) => r.tenderId === tenderId)`
unfoldable pub of_tender : Text → List BidReceipt → List BidReceipt
of_tender tender_id [] = []
of_tender tender_id (r ∷ rs) =
    let rest = of_tender tender_id rs in if text_eq r.tender_id tender_id then r ∷ rest else rest

module _ (codec : Codec BidReceipt) where
  unfoldable pub save_receipt : LocalStorage → BidReceipt → LocalStorage
  save_receipt local r =
      write_entries codec local
        (assign (id_of r.tender_id r.nullifier) r (read_entries codec local))

  unfoldable pub receipts_for : LocalStorage → Text → List BidReceipt
  receipts_for local tender_id =
      sort_by (λ (r : BidReceipt). r.submission_index)
        (of_tender tender_id (values (read_entries codec local)))

  unfoldable pub all_receipts : LocalStorage → List BidReceipt
  all_receipts local =
      sort_latest (λ (r : BidReceipt). r.submitted_at) (values (read_entries codec local))

  unfoldable pub forget_receipt : LocalStorage → Text → Text → LocalStorage
  forget_receipt local tender_id nullifier =
      write_entries codec local (remove (id_of tender_id nullifier) (read_entries codec local))

-- What `fetch` and `json()` give for the index: an error, nothing for a status that is not ok, or the
-- receipts, which may be missing.
unfoldable pub load_seeded_receipts : Result (Option (Option (List BidReceipt))) → List BidReceipt
load_seeded_receipts (err reason) = []
load_seeded_receipts (ok none) = []
load_seeded_receipts (ok (some none)) = []
load_seeded_receipts (ok (some (some receipts))) =
    map (λ (r : BidReceipt). record r { seeded = some true }) receipts
