-- ===== src/Examples/Sealing.antt =====
-- Sealing and opening a bid at concrete inputs.
use fairproof_bcolbd.Prelude.{
  ℕ, zero, suc, length-append, ◌-◌, ◌≡◌, refl, sym, ap, ◌∙◌, arith, [], ◌∷◌, ◌++◌, length, take,
  drop, replicate, none, some, Result, ok, err, Error, ◌>>=◌, ok-injective,
}
use fairproof_bcolbd.Prelude.Int.{ℤ, pos}
use fairproof_bcolbd.Field.{
  Bytes, Text, to_bytes, write_bytes, parse_hex, hex_value, assert_uint, to_field, to_bigint,
  concat_bytes, of_bytes, pad_hex, hex_digit,
}
use fairproof_bcolbd.Poseidon.{poseidon, bid_commitment}
use fairproof_bcolbd.Encoding.{
  JsonText, jcs_canonicalize, sort_entries, insert_entry, text_lt, join, print_entries,
  canonical_ciphertext_bytes, ciphertext_hash, ciphertext_hash_field,
}
use fairproof_bcolbd.SealedBid.{
  Platform, BidPayload, SealedBid, SealParams, OpenParams, Draws, payload_json, aes_gcm_encrypt,
  aes_gcm_decrypt, seal_bid, open_sealed_bid,
}
use fairproof_bcolbd.SealedBid.Opening.{PlatformLaws, open-seal, open_sealed_bid-committed}
use fairproof_bcolbd.Field.Bytes.{IsBytes}
use fairproof_bcolbd.Domains.{Domains, raw, load_domains}
use fairproof_bcolbd.Babyjub.{Point, mul_base, mul_point, in_curve, is_in_prime_subgroup}
use fairproof_bcolbd.Elgamal.{encapsulate, unwrap_dek, derive_wrapping_key, xor32, xor_bytes}
use fairproof_bcolbd.Examples.Ethers.{sample_ethers, sample_ethers-EthersLaws, digest_value}
use fairproof_bcolbd.Examples.Curve.{sample_curve, scalar_of, sample_curve-CurveLaws}
use fairproof_bcolbd.Examples.Platform.{ok_or, sample_hash, sample_domains}

-- A string is printed as its length and itself.
abbrev pub sample_json : JsonText
sample_json = record {
  show_number = λ n. b'1' ∷ [];
  show_bigint = λ n. b'1' ∷ [];
  quote = λ s. length s ∷ s;
}

-- a printed string at the head of a text, and what stands behind it
abbrev read : Text → (Text → Text → Result BidPayload) → Result BidPayload
read [] f = err Error.bad_json
read (n ∷ s) f = f (take n s) (drop n s)

-- the values of the six printed entries, behind keys of these lengths
abbrev read_payload : Text → Result BidPayload
read_payload s = read (drop 18 s) (λ amount rest. read (drop 11 rest) (λ nonce rest.
    read (drop 12 rest) (λ created rest. read (drop 11 rest) (λ currency rest.
      read (drop 20 rest) (λ subject rest. read (drop 11 rest) (λ tender rest. ok (record {
        tender_id = tender;
        amount_minor_unit = amount;
        currency = currency;
        bid_nonce = nonce;
        subject_commitment = subject;
        created_at = created;
      })))))))

abbrev sample_platform : Platform
unfolding parse_hex hex_value
sample_platform = record {
  encrypt = λ dek iv m. m ++ replicate 16 0;
  decrypt = λ dek iv c. some (take (length c - 16) c);
  encode_text = λ s. s;
  decode_text = λ s. s;
  parse_payload = read_payload;
  big_int = λ s. parse_hex 0 s >>= λ v. ok (pos v);
  json = sample_json;
}

take-prefix : (v r q : Text) → take (length v) ((v ++ r) ++ q) ≡ v
take-prefix [] r q = refl
take-prefix (c ∷ v) r q = ap (λ (t : Text). c ∷ t) (take-prefix v r q)

drop-prefix : (v r q : Text) → drop (length v) ((v ++ r) ++ q) ≡ r ++ q
drop-prefix [] r q = refl
drop-prefix (c ∷ v) r q = drop-prefix v r q

take-end : (v q : Text) → take (length v) (v ++ q) ≡ v
take-end [] q = refl
take-end (c ∷ v) q = ap (λ (t : Text). c ∷ t) (take-end v q)

read_payload-jcs :
    (p : BidPayload) (s : Text)
    → jcs_canonicalize sample_json (payload_json p) ≡ ok s
    → read_payload s ≡ ok p
unfolding jcs_canonicalize print_entries sort_entries insert_entry text_lt join
read_payload-jcs p s h =
    ap read_payload (sym (ok-injective h)) ∙ simp (take-prefix, drop-prefix, take-end)

gcm-sample_platform :
    (m : Bytes) → take (length (m ++ replicate 16 0) - 16) (m ++ replicate 16 0) ≡ m
gcm-sample_platform m =
    let n : length (m ++ replicate 16 0) - 16 ≡ length m =
      rw (length-append m (replicate 16 0)) (omega arith) in
    ap (λ (k : ℕ). take k (m ++ replicate 16 0)) n ∙ take-end m (replicate 16 0)

sample_platform-PlatformLaws : PlatformLaws sample_platform
unfolding sample_platform
sample_platform-PlatformLaws = record {
  gcm = λ dek iv m. ap (λ (t : Bytes). some t) (gcm-sample_platform m);
  parse = read_payload-jcs;
}

abbrev sample_loaded : Domains
sample_loaded = ok_or sample_domains (load_domains sample_ethers)

loaded-ok : load_domains sample_ethers ≡ ok sample_loaded
unfolding load_domains raw sample_ethers digest_value of_bytes pad_hex hex_digit parse_hex hex_value
    to_field to_bigint
loaded-ok = refl

abbrev payload : BidPayload
payload = record {
  tender_id = b'T' ∷ b'7' ∷ [];
  amount_minor_unit = b'f' ∷ b'0' ∷ [];
  currency = b'B' ∷ b'D' ∷ b'T' ∷ [];
  bid_nonce = b'2' ∷ b'b' ∷ [];
  subject_commitment = b'9' ∷ [];
  created_at = b'1' ∷ b'2' ∷ [];
}

abbrev draws : Draws
draws = record { dek = replicate 32 200; iv = replicate 12 3; scalar = 11 }

abbrev params : SealParams
params = record {
  payload = payload;
  tender_public_key = mul_base sample_curve 5;
  tender_id_field = pos 9;
  nullifier = pos 44;
  dek = none;
  iv = none;
  ephemeral_scalar = none;
}

abbrev no_bid : SealedBid
no_bid = record {
  ciphertext = record { r_x = pos 0; r_y = pos 0; wrapped = []; iv = []; ct = []; tag = [] };
  ciphertext_hash = [];
  ciphertext_hash_field = pos 0;
  canonical_bytes = [];
  bid_commitment = pos 0;
  dek = [];
}

abbrev sealed : SealedBid
sealed =
    ok_or no_bid
      (seal_bid sample_platform sample_ethers sample_hash sample_loaded sample_curve draws params)

params-sealed :
    seal_bid sample_platform sample_ethers sample_hash sample_loaded sample_curve draws params
    ≡ ok sealed
unfolding seal_bid jcs_canonicalize print_entries sort_entries insert_entry text_lt join
    aes_gcm_encrypt encapsulate is_in_prime_subgroup in_curve mul_point mul_base sample_curve
    scalar_of derive_wrapping_key xor32 xor_bytes load_domains raw sample_ethers digest_value
    of_bytes pad_hex hex_digit parse_hex hex_value to_bytes write_bytes concat_bytes bid_commitment
    assert_uint poseidon ciphertext_hash ciphertext_hash_field canonical_ciphertext_bytes to_field
    to_bigint
params-sealed = refl

All-replicate : (n : ℕ) → IsBytes (replicate n 200)
All-replicate zero = tt
All-replicate (suc n) = (omega arith, All-replicate n)

open-seal_example :
    (r : Point) × (amount : ℤ) × (nonce : ℤ) × (sealed.ciphertext.r_x ≡ pos r.x)
    × (sealed.ciphertext.r_y ≡ pos r.y)
    × (sample_platform.big_int payload.amount_minor_unit ≡ ok amount)
    × (sample_platform.big_int payload.bid_nonce ≡ ok nonce)
    × (open_sealed_bid sample_platform sample_ethers sample_hash sample_loaded sample_curve
          (record {
            ciphertext = sealed.ciphertext;
            shared = mul_point sample_curve r 5;
            expected_commitment = sealed.bid_commitment;
            tender_id_field = pos 9;
            nullifier = pos 44;
          })
        ≡ ok (payload, amount, nonce))
open-seal_example =
    open-seal sample_platform-PlatformLaws sample_ethers-EthersLaws sample_curve-CurveLaws
      sample_hash sample_loaded draws params sealed 5 loaded-ok (All-replicate 32) refl
      params-sealed

abbrev opening : OpenParams
opening = record {
  ciphertext = sealed.ciphertext;
  shared = mul_point sample_curve (mul_base sample_curve 11) 5;
  expected_commitment = sealed.bid_commitment;
  tender_id_field = pos 9;
  nullifier = pos 44;
}

opening-ok :
    open_sealed_bid sample_platform sample_ethers sample_hash sample_loaded sample_curve opening
    ≡ ok (payload, pos 240, pos 43)
unfolding seal_bid jcs_canonicalize print_entries sort_entries insert_entry text_lt join
    aes_gcm_encrypt encapsulate is_in_prime_subgroup in_curve mul_point mul_base sample_curve
    scalar_of derive_wrapping_key xor32 xor_bytes load_domains raw sample_ethers digest_value
    of_bytes pad_hex hex_digit parse_hex hex_value to_bytes write_bytes concat_bytes bid_commitment
    assert_uint poseidon ciphertext_hash ciphertext_hash_field canonical_ciphertext_bytes to_field
    to_bigint open_sealed_bid unwrap_dek aes_gcm_decrypt sample_platform
opening-ok = refl

open_sealed_bid-committed_example :
    (bid_commitment sample_hash sample_loaded (pos 240) (pos 43) (pos 9) (pos 44)
      ≡ ok sealed.bid_commitment)
    × (sample_platform.big_int payload.amount_minor_unit ≡ ok (pos 240))
    × (sample_platform.big_int payload.bid_nonce ≡ ok (pos 43))
open_sealed_bid-committed_example =
    open_sealed_bid-committed sample_platform sample_ethers sample_hash sample_loaded sample_curve
      opening payload (pos 240) (pos 43) opening-ok
