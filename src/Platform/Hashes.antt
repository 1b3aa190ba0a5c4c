-- ===== src/Platform/Hashes.antt =====
-- The form of the hex strings that `keccak256` returns, and what `toLowerCase` does to them.
use fairproof_bcolbd.Prelude.{
  ℕ, zero, suc, ◌+◌, ◌/◌, ◌%◌, ◌<◌, ◌≡◌, refl, sym, ap, ◌∙◌, arith, true, ◌&&◌, [], ◌∷◌, length,
  leb, ◌||◌, Bool, ok-injective,
}
use fairproof_bcolbd.Field.{Bytes, Text, pad_hex, hex_digit}
use fairproof_bcolbd.Field.Limbs.{to_hex32-eq-ok}
use fairproof_bcolbd.Platform.{Ethers, EthersLaws}

-- `/[0-9a-f]/`
abbrev pub is_lower_hex : ℕ → Bool
is_lower_hex c = (leb b'0' c && leb c b'9') || (leb b'a' c && leb c b'f')

abbrev pub all_lower_hex : Text → Bool
all_lower_hex [] = true
all_lower_hex (c ∷ cs) = is_lower_hex c && all_lower_hex cs

-- `toLowerCase` changes no lower-case hex string.
pub record LowerLaws (e : Ethers) : Type 0 where
  pub keeps :
      (s : Text) → all_lower_hex s ≡ true → e.to_lower_case (b'0' ∷ b'x' ∷ s) ≡ b'0' ∷ b'x' ∷ s

pub length-pad_hex : (n v : ℕ) (tail : Text) → length (pad_hex n v tail) ≡ n + length tail
unfolding pad_hex
length-pad_hex zero v tail = omega arith
length-pad_hex (suc n) v tail = omega (arith, length-pad_hex n (v / 16) (hex_digit (v % 16) ∷ tail))

hex_digit-lower : (d : ℕ) → d < 16 → is_lower_hex (hex_digit d) ≡ true
unfolding hex_digit
hex_digit-lower d h = ground arith

pub pad_hex-lower :
    (n v : ℕ) (tail : Text) → all_lower_hex tail ≡ true → all_lower_hex (pad_hex n v tail) ≡ true
unfolding pad_hex
pad_hex-lower zero v tail h = h
pad_hex-lower (suc n) v tail h =
    pad_hex-lower n (v / 16) (hex_digit (v % 16) ∷ tail)
      (rw (hex_digit-lower (v % 16) (omega arith)) h)

-- A hash is `0x` and 64 lower-case digits.
pub record IsHash (s : Text) : Type 0 where
  pub digits : Text
  pub spelled : s ≡ b'0' ∷ b'x' ∷ digits
  pub size : length digits ≡ 64
  pub lower : all_lower_hex digits ≡ true

pub keccak256-IsHash : {e : Ethers} → EthersLaws e → (bs : Bytes) → IsHash (e.keccak256 bs)
keccak256-IsHash laws bs = record {
  digits = pad_hex 64 (laws.keccak_value bs) [];
  spelled =
      ok-injective
        (sym (laws.keccak_hex bs) ∙ to_hex32-eq-ok (laws.keccak_value bs) (laws.keccak_fits bs));
  size = length-pad_hex 64 (laws.keccak_value bs) [];
  lower = pad_hex-lower 64 (laws.keccak_value bs) [] refl;
}

pub to_lower_case-IsHash :
    {e : Ethers} → LowerLaws e → (s : Text) → IsHash s → e.to_lower_case s ≡ s
to_lower_case-IsHash {e} laws s h =
    ap (λ (t : Text). e.to_lower_case t) h.spelled ∙ laws.keeps h.digits h.lower ∙ sym h.spelled
