-- ===== src/Field.antt =====
-- packages/crypto/src/field.ts: the encodings of field elements, digests and bytes.
-- A `bigint` is an integer of either sign. A `Uint8Array` is a list of numbers below 256. A string
-- is the list of its code units.
pub mod Bytes
pub mod Limbs
use fairproof_bcolbd.Prelude.{
  ℕ, zero, suc, ◌+◌, ◌-◌, ◌*◌, ◌/◌, ◌%◌, ◌^◌, Bool, true, false, ◌&&◌, ◌||◌, List, [], ◌∷◌, ◌++◌,
  Option, none, some, not, ltb, leb, ◌==◌, if◌then◌else◌, Result, ok, err, Error, ◌>>=◌, ◌>>◌,
  throw_if,
}
use fairproof_bcolbd.Prelude.Int.{ℤ, pos, negsuc, ltb_ℤ, shift_right, low_bits, shift_or}

abbrev pub Bytes : Type 0
Bytes = List ℕ

abbrev pub Text : Type 0
Text = List ℕ

abbrev pub field_prime : ℕ
field_prime = 21888242871839275222246405745257275088548364400416034343698204186575808495617

abbrev pub safe_bits : ℕ
safe_bits = 248

abbrev pub safe_max : ℕ
safe_max = 2 ^ safe_bits - 1

-- the argument type `string | Uint8Array | bigint`
pub data Digest : Type 0 where
  hex : Text → Digest
  bytes : Bytes → Digest
  big : ℤ → Digest

-- `/^[0-9a-fA-F]$/` with the value of the digit
unfoldable pub hex_value : ℕ → Option ℕ
hex_value c =
    if leb b'0' c && leb c b'9'
    then some (c - b'0')
    else if leb b'a' c && leb c b'f'
    then some (c - b'a' + 10)
    else if leb b'A' c && leb c b'F'
    then some (c - b'A' + 10)
    else none

-- the regular expression and `BigInt("0x" + hex)`, from the digits read so far
unfoldable pub parse_hex : ℕ → Text → Result ℕ
parse_hex acc [] = ok acc
parse_hex acc (c ∷ cs) = elim (hex_value c) [
  | none ↦ err Error.not_hex
  | some d ↦ parse_hex (acc * 16 + d) cs
]

-- `value.startsWith("0x") ? value.slice(2) : value`
abbrev pub strip_0x : Text → Text
strip_0x (z ∷ x ∷ cs) = if z == b'0' && x == b'x' then cs else z ∷ x ∷ cs
strip_0x cs = cs

-- `(acc << 8n) | BigInt(byte)`: the byte is below 256, so that the bits do not overlap
unfoldable pub of_bytes : ℕ → Bytes → ℕ
of_bytes acc [] = acc
of_bytes acc (b ∷ bs) = of_bytes (acc * 256 + b) bs

-- an empty string of digits is 0, which is where `parse_hex` starts
unfoldable pub to_bigint : Digest → Result ℤ
to_bigint (big v) = ok v
to_bigint (hex s) = do v ← parse_hex 0 (strip_0x s); ok (pos v)
to_bigint (bytes bs) = ok (pos (of_bytes 0 bs))

-- `value >= 1n << 256n`
abbrev pub exceeds_256 : ℤ → Bool
exceeds_256 v = not (ltb_ℤ v (pos (2 ^ 256)))

unfoldable pub to_field : Digest → Result ℤ
to_field digest = do
  value ← to_bigint digest
  throw_if (exceeds_256 value) Error.exceeds_256_bits
  ok (shift_right value 8)

-- the fields `hi` and `lo`
unfoldable pub to_limbs : Digest → Result (ℤ × ℤ)
to_limbs hash = do
  value ← to_bigint hash
  throw_if (exceeds_256 value) Error.exceeds_256_bits
  ok (shift_right value 128, low_bits value 128)

unfoldable pub hex_digit : ℕ → ℕ
hex_digit d = if ltb d 10 then b'0' + d else b'a' + (d - 10)

-- `v.toString(16).padStart(n, "0")` in front of `tail`, for a `v` of at most `n` digits
unfoldable pub pad_hex : ℕ → ℕ → Text → Text
pad_hex zero v tail = tail
pad_hex (suc n) v tail = pad_hex n (v / 16) (hex_digit (v % 16) ∷ tail)

unfoldable pub to_hex32 : ℤ → Result Text
to_hex32 (negsuc n) = err Error.negative_value
to_hex32 (pos v) =
    if leb (2 ^ 256) v then err Error.exceeds_256_bits else ok (b'0' ∷ b'x' ∷ pad_hex 64 v [])

unfoldable pub from_limbs : ℤ → ℤ → Result Text
from_limbs hi lo = do
  throw_if (not (ltb_ℤ hi (pos (2 ^ 128)))) Error.hi_limb
  throw_if (not (ltb_ℤ lo (pos (2 ^ 128)))) Error.lo_limb
  to_hex32 (shift_or 128 hi lo)

-- the loop: the bytes written so far, from the last one on, and what is left of the value
unfoldable pub write_bytes : ℕ → ℕ → Bytes → Bytes × ℕ
write_bytes zero v out = (out, v)
write_bytes (suc i) v out = write_bytes i (v / 256) (v % 256 ∷ out)

unfoldable pub to_bytes : ℤ → ℕ → Result Bytes
to_bytes (negsuc n) byte_length = err Error.negative_value
to_bytes (pos value) byte_length =
    let (out, v) = write_bytes byte_length value [] in
    if v == 0 then ok out else err Error.does_not_fit

-- the parts one after the other
unfoldable pub concat_bytes : List Bytes → Bytes
concat_bytes [] = []
concat_bytes (part ∷ parts) = part ++ concat_bytes parts

unfoldable pub assert_field : ℤ → Result ℤ
assert_field (negsuc n) = err Error.negative_value
assert_field (pos value) =
    if leb field_prime value then err Error.not_a_field_element else ok (pos value)

unfoldable pub assert_uint : ℤ → ℕ → Result ℤ
assert_uint (negsuc n) bits = err Error.negative_value
assert_uint (pos value) bits =
    if leb (2 ^ bits) value then err Error.exceeds_uint else ok (pos value)
