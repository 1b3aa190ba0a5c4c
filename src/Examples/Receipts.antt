-- ===== src/Examples/Receipts.antt =====
-- The theorems on storage receipts at concrete inputs.
use fairproof_bcolbd.Prelude.{
  ℕ, ◌≡◌, ◌≢◌, refl, true, false, ◌==◌, if◌then◌else◌, List, [], ◌∷◌, replicate, All, Occurs, some,
  ok,
}
use fairproof_bcolbd.Prelude.Int.{pos}
use fairproof_bcolbd.Prelude.Sort.{swap, insert_by, sort_by}
use fairproof_bcolbd.Field.{
  Bytes, Text, to_bytes, write_bytes, to_bigint, parse_hex, hex_value, to_field, of_bytes,
  concat_bytes, pad_hex, hex_digit,
}
use fairproof_bcolbd.Encoding.{StorageReceipt, receipt_leaf}
use fairproof_bcolbd.Merkle.{insert, insert_all, new, root_from_leaves}
use fairproof_bcolbd.SealedBid.{
  storage_receipt_root, receipt_leaves, has_storage_quorum, count_distinct, receipt_sig_digest,
}
use fairproof_bcolbd.SealedBid.Receipts.{storage_receipt_root-Reorder}
use fairproof_bcolbd.Storage.{
  ReplicaEndpoint, Reply, accepted, timed_out, UploadResult, upload_to_replicas, outcome_of,
  validate, check_signature, check_signer, judge_signer, conclude, receipts_of, root_of_receipts,
}
use fairproof_bcolbd.Storage.Quorum.{IsVerified, upload_to_replicas-IsVerified}
use fairproof_bcolbd.Examples.Ethers.{sample_ethers, digest_value}
use fairproof_bcolbd.Examples.Platform.{ok_or, sample_hash, sample_domains}

-- 65 bytes, which the recovery of the concrete library returns as the address
abbrev signature : ℕ → Text
signature digit = replicate 130 digit

abbrev receipt : ℕ → ℕ → StorageReceipt
receipt id digit = record {
  replica_id = id;
  content_hash = b'f' ∷ b'f' ∷ [];
  byte_length = 3;
  signature = signature digit;
}

abbrev receipts : List StorageReceipt
receipts = receipt 2 b'5' ∷ receipt 1 b'4' ∷ []

storage_receipt_root-Reorder_example :
    storage_receipt_root sample_ethers sample_domains sample_hash receipts
    ≡ storage_receipt_root sample_ethers sample_domains sample_hash
        (receipt 1 b'4' ∷ receipt 2 b'5' ∷ [])
storage_receipt_root-Reorder_example =
    storage_receipt_root-Reorder sample_ethers sample_domains sample_hash receipts
      (receipt 1 b'4' ∷ receipt 2 b'5' ∷ []) swap

abbrev endpoint : ℕ → ℕ → ReplicaEndpoint
endpoint id digit = record { replica_id = id; url = []; address = signature digit }

abbrev replicas : List ReplicaEndpoint
replicas = endpoint 1 b'4' ∷ endpoint 2 b'5' ∷ endpoint 3 b'6' ∷ []

-- Two replicas answer as they should, the third one does not answer.
abbrev network : ReplicaEndpoint → Reply
network r =
    if r.replica_id == 3
    then timed_out
    else accepted (record {
      replica_id = some r.replica_id;
      content_hash = some (b'f' ∷ b'f' ∷ []);
      byte_length = some 3;
      signature = some r.address;
    })

abbrev content : Bytes
content = 1 ∷ 2 ∷ 3 ∷ []

abbrev no_upload : UploadResult
no_upload = record {
  receipts = [];
  storage_receipt_root = pos 0;
  outcomes = [];
  quorum_met = false;
}

abbrev upload : UploadResult
upload = ok_or no_upload (
    upload_to_replicas sample_ethers sample_domains sample_hash network replicas content
      (b'f' ∷ b'f' ∷ []) true)

upload-ok :
    upload_to_replicas sample_ethers sample_domains sample_hash network replicas content
      (b'f' ∷ b'f' ∷ [])
      true
    ≡ ok upload
unfolding upload_to_replicas outcome_of validate check_signature check_signer judge_signer conclude
    receipts_of root_of_receipts storage_receipt_root receipt_leaves receipt_leaf receipt_sig_digest
    has_storage_quorum count_distinct sort_by insert_by to_field to_bigint parse_hex hex_value
    to_bytes write_bytes of_bytes concat_bytes root_from_leaves insert_all insert new sample_ethers
    digest_value pad_hex hex_digit
upload-ok = refl

upload_to_replicas-IsVerified_example :
    All (IsVerified sample_ethers sample_domains replicas (b'f' ∷ b'f' ∷ []) 3) upload.receipts
    × (r : StorageReceipt) × (s : StorageReceipt) × Occurs r upload.receipts
    × Occurs s upload.receipts
    × (r.replica_id ≢ s.replica_id)
upload_to_replicas-IsVerified_example =
    upload_to_replicas-IsVerified sample_ethers sample_domains sample_hash network replicas content
      (b'f' ∷ b'f' ∷ []) upload upload-ok
