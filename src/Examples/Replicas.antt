-- ===== src/Examples/Replicas.antt =====
-- The theorems on a replica of the ciphertext store at concrete inputs.
use fairproof_bcolbd.Prelude.{
  ◌≤◌, ◌≡◌, refl, arith, List, [], ◌∷◌, length, take, drop, replicate, ok,
}
use fairproof_bcolbd.Field.{
  Bytes, Text, concat_bytes, to_bytes, write_bytes, parse_hex, hex_value, of_bytes, pad_hex,
  hex_digit,
}
use fairproof_bcolbd.Platform.{codes}
use fairproof_bcolbd.Platform.Hashes.{LowerLaws}
use fairproof_bcolbd.Domains.{Domains}
use fairproof_bcolbd.Encoding.{canonical_ciphertext_bytes, ciphertext_hash}
use fairproof_bcolbd.Storage.{accepted, outcome_of}
use fairproof_bcolbd.Store.{
  Wallet, Config, Files, Request, Response, PutReply, created, object, default_max_bytes,
  raw_ciphertext_v1, raw_receipt_sig_v1, handle, put_object, put_hashed, receipt_response,
  receipt_sig_digest, content_hash_of, get_object, serve_file, serve, read_file, write_file,
  object_path, read_body, is_object_hash, u8,
}
use fairproof_bcolbd.Store.Uploads.{Reach, here, next, IsAddressed, Reach-IsAddressed}
use fairproof_bcolbd.Store.Serving.{Served, handle-object}
use fairproof_bcolbd.Store.Durable.{get_request, get-put, acknowledged-Reach}
use fairproof_bcolbd.Store.Client.{
  SameConstants, WalletLaws, put_request, body_of, acknowledgement, outcome_of-handle,
}
use fairproof_bcolbd.Examples.Ethers.{sample_ethers, sample_ethers-EthersLaws, digest_value}
use fairproof_bcolbd.Examples.Encodings.{parts, canonical}
use fairproof_bcolbd.Examples.Platform.{ok_or, sample_domains}

sample_ethers-LowerLaws : LowerLaws sample_ethers
unfolding sample_ethers
sample_ethers-LowerLaws = record { keeps = λ s h. refl }

abbrev wallet : Wallet
wallet = record { address = replicate 130 b'4'; sign = λ digest. replicate 130 b'4' }

wallet-WalletLaws : WalletLaws sample_ethers wallet
unfolding sample_ethers
wallet-WalletLaws = record { present = λ digest. refl; recovers = λ digest. refl }

abbrev config : Config
config = record { replica_id = 1; max_bytes = default_max_bytes; wallet = wallet }

abbrev domains : Domains
domains = record sample_domains {
  raw_ciphertext = raw_ciphertext_v1;
  raw_receipt_sig = raw_receipt_sig_v1;
}

domains-SameConstants : SameConstants domains
domains-SameConstants = record { ciphertext = refl; receipt_sig = refl }

-- the body arrives in two chunks
abbrev chunks : List Bytes
chunks = take 100 canonical ∷ drop 100 canonical ∷ []

abbrev hash : Text
unfolding ciphertext_hash canonical_ciphertext_bytes to_bytes write_bytes concat_bytes sample_ethers
    digest_value parse_hex hex_value of_bytes pad_hex hex_digit
hash = ok_or [] (ciphertext_hash sample_ethers domains parts)

parts-hash : ciphertext_hash sample_ethers domains parts ≡ ok hash
unfolding ciphertext_hash canonical_ciphertext_bytes to_bytes write_bytes concat_bytes sample_ethers
    digest_value parse_hex hex_value of_bytes pad_hex hex_digit
parts-hash = refl

parts-chunks : canonical_ciphertext_bytes parts ≡ ok (concat_bytes chunks)
unfolding canonical_ciphertext_bytes to_bytes write_bytes concat_bytes
parts-chunks = refl

length-chunks : length (concat_bytes chunks) ≡ 132
unfolding canonical_ciphertext_bytes to_bytes write_bytes concat_bytes
length-chunks = refl

chunks-fits : length (concat_bytes chunks) ≤ 65536
chunks-fits = omega (arith, length-chunks)

outcome_of-handle_example :
    (reply : PutReply) × (digest : Text) × (handle sample_ethers config [] (put_request hash chunks)
      ≡ (created reply, write_file [] (object_path hash) (concat_bytes chunks)))
    × (outcome_of sample_ethers domains
          (record { content_hash = hash; byte_length = length (concat_bytes chunks) })
          (record { replica_id = 1; url = []; address = config.wallet.address })
          (accepted (body_of reply))
        ≡ acknowledgement config hash (length (concat_bytes chunks)) digest)
outcome_of-handle_example =
    outcome_of-handle sample_ethers-EthersLaws sample_ethers-LowerLaws domains domains-SameConstants
      config wallet-WalletLaws [] parts hash [] chunks parts-chunks parts-hash (omega arith)
      chunks-fits (omega arith)

abbrev request : Request
request = put_request hash chunks

abbrev after : Files
after = (handle sample_ethers config [] request).1

-- the receipt in a response, or a receipt of nothing
abbrev reply_in : Response → PutReply
reply_in (created reply) = reply
reply_in _ = record {
  replica_id = 0;
  content_hash = [];
  object_id = [];
  byte_length = 0;
  signature = [];
  signer = [];
  digest = [];
}

abbrev reply : PutReply
reply = reply_in (handle sample_ethers config [] request).0

request-created : (handle sample_ethers config [] request).0 ≡ created reply
unfolding handle put_object put_hashed receipt_response read_body content_hash_of receipt_sig_digest
    u8 write_file canonical_ciphertext_bytes to_bytes write_bytes concat_bytes sample_ethers
    digest_value parse_hex hex_value of_bytes pad_hex hex_digit ciphertext_hash
request-created = refl

get-put_example :
    (content : Bytes) × (read_body 65536 0 chunks ≡ ok content)
    × (reply.byte_length ≡ length content)
    × (handle sample_ethers config after (get_request reply.content_hash)
        ≡ (object reply.content_hash content, after))
get-put_example =
    get-put sample_ethers-EthersLaws sample_ethers-LowerLaws config [] request reply request-created

-- A refused upload and the same upload once more come later.
abbrev later : Files
later =
    (handle sample_ethers config (handle sample_ethers config after (put_request [] [])).1
      request).1

later-Reach : Reach sample_ethers config after later
later-Reach = next (next here (put_request [] [])) request

acknowledged-Reach_example :
    (b : Bytes) × (content_hash_of sample_ethers b ≡ ok reply.content_hash)
    × (handle sample_ethers config later (get_request reply.content_hash)
        ≡ (object reply.content_hash b, later))
acknowledged-Reach_example =
    acknowledged-Reach sample_ethers-EthersLaws sample_ethers-LowerLaws config request reply here
      request-created later-Reach

Reach-IsAddressed_example : IsAddressed sample_ethers after
Reach-IsAddressed_example = Reach-IsAddressed sample_ethers config (next here request)

-- A corrupt file lies beside the uploaded one.
abbrev files : Files
files = record { name = codes "00.bin"; content = 9 ∷ [] } ∷ after

files-object : (handle sample_ethers config files (get_request hash)).0 ≡ object hash canonical
unfolding handle put_object put_hashed receipt_response read_body content_hash_of receipt_sig_digest
    u8 write_file canonical_ciphertext_bytes to_bytes write_bytes concat_bytes sample_ethers
    digest_value parse_hex hex_value of_bytes pad_hex hex_digit ciphertext_hash get_object
    is_object_hash read_file serve_file serve
files-object = refl

handle-object_example :
    Served sample_ethers files hash canonical
    × (hash ≡ sample_ethers.to_lower_case (drop 9 (get_request hash).pathname))
    × ((handle sample_ethers config files (get_request hash)).1 ≡ files)
handle-object_example =
    handle-object sample_ethers config files (get_request hash) hash canonical files-object
