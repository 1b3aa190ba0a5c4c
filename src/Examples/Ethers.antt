-- ===== src/Examples/Ethers.antt =====
-- A hash and hex strings that behave as the protocol code assumes of ethers.
use fairproof_bcolbd.Prelude.{
  ℕ, zero, suc, ◌+◌, ◌*◌, ◌/◌, ◌%◌, ◌^◌, ◌<◌, ◌≡◌, refl, sym, ap, ◌∙◌, arith, [], ◌∷◌, leb, length,
  ok, ◌>>=◌, ok-injective, ok-ne-err, Error, Bool-cases, inl, inr,
}
use fairproof_bcolbd.Prelude.Int.{pos}
use fairproof_bcolbd.Field.{
  Bytes, Text, of_bytes, parse_hex, hex_value, hex_digit, strip_0x, pad_hex, to_hex32, to_bytes,
  write_bytes,
}
use fairproof_bcolbd.Field.Limbs.{parse_hex-pad_hex_64, to_hex32-eq-ok}
use fairproof_bcolbd.Platform.{Ethers, EthersLaws}

-- the digest of a byte string: its number, and its length so that leading zeros count
unfoldable pub digest_value : Bytes → ℕ
unfolding of_bytes
digest_value bs = (of_bytes 0 bs * 257 + length bs) % 2 ^ 256

unfoldable pub sample_ethers : Ethers
unfolding digest_value pad_hex hex_digit parse_hex hex_value to_bytes write_bytes
sample_ethers = record {
  keccak256 = λ bs. b'0' ∷ b'x' ∷ pad_hex 64 (digest_value bs) [];
  get_bytes = λ s. parse_hex 0 (strip_0x s) >>= λ v. to_bytes (pos v) (length (strip_0x s) / 2);
  to_utf8_bytes = λ s. s;
  recover_address = λ digest signature. ok signature;
  to_lower_case = λ s. s;
}

length-pad_hex : (n v : ℕ) (tail : Text) → length (pad_hex n v tail) ≡ n + length tail
unfolding pad_hex
length-pad_hex zero v tail = omega arith
length-pad_hex (suc n) v tail = omega (arith, length-pad_hex n (v / 16) (hex_digit (v % 16) ∷ tail))

get_bytes-pad_hex :
    (v : ℕ)
    → v < 2 ^ 256
    → sample_ethers.get_bytes (b'0' ∷ b'x' ∷ pad_hex 64 v []) ≡ to_bytes (pos v) 32
unfolding sample_ethers
get_bytes-pad_hex v h =
    let size : length (pad_hex 64 v []) / 2 ≡ 32 = omega (arith, length-pad_hex 64 v []) in
    rw (parse_hex-pad_hex_64 v h) (ap (λ (n : ℕ). to_bytes (pos v) n) size)

digest_value-fits : (bs : Bytes) → digest_value bs < 2 ^ 256
unfolding digest_value
digest_value-fits bs = omega arith

get_bytes-to_hex32 :
    (v : ℕ) (s : Text) → to_hex32 (pos v) ≡ ok s → sample_ethers.get_bytes s ≡ to_bytes (pos v) 32
unfolding to_hex32
get_bytes-to_hex32 v s h = elim (Bool-cases (leb (2 ^ 256) v)) [
  | inl e ↦ absurd (ok-ne-err {e = Error.exceeds_256_bits} (sym h ∙ rw e refl))
  | inr e ↦
      let small : v < 2 ^ 256 = ground arith in
      let printed = ok-injective (sym h ∙ to_hex32-eq-ok v small) in
      rw printed (get_bytes-pad_hex v small)
]

pub sample_ethers-EthersLaws : EthersLaws sample_ethers
unfolding sample_ethers
sample_ethers-EthersLaws = record {
  keccak_value = digest_value;
  keccak_fits = digest_value-fits;
  keccak_hex = λ bs. to_hex32-eq-ok (digest_value bs) (digest_value-fits bs);
  get_bytes_hex = get_bytes-to_hex32;
}
