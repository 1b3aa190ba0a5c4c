-- ===== src/Field/Limbs.antt =====
-- toField, toLimbs, fromLimbs and toHex32 of packages/crypto/src/field.ts.
use native.Mathlib.Nat.{pow-suc}
use fairproof_bcolbd.Prelude.{
  ℕ, zero, suc, ◌+◌, ◌*◌, ◌/◌, ◌%◌, ◌^◌, ◌≤◌, ◌<◌, ◌≡◌, refl, ap, ◌∙◌, arith, some, lt→ltb, [], ◌∷◌,
  ok, ◌>>=◌,
}
use fairproof_bcolbd.Prelude.Int.{pos}
use fairproof_bcolbd.Field.{
  Text, Digest, hex, field_prime, hex_value, hex_digit, parse_hex, pad_hex, to_bigint, to_field,
  to_limbs, from_limbs, to_hex32,
}

hex_value-hex_digit : (d : ℕ) → d < 16 → hex_value (hex_digit d) ≡ some d
unfolding hex_value hex_digit
hex_value-hex_digit d h = ground arith

parse_hex-pad_hex :
    (n v acc : ℕ) (tail : Text)
    → v < 16 ^ n
    → parse_hex acc (pad_hex n v tail) ≡ parse_hex (acc * 16 ^ n + v) tail
unfolding parse_hex pad_hex
parse_hex-pad_hex zero v acc tail h =
    let e : acc ≡ acc * 1 + v = omega arith in ap (λ (a : ℕ). parse_hex a tail) e
parse_hex-pad_hex (suc n) v acc tail h =
    let small : v / 16 < 16 ^ n = omega (arith, pow-suc 16 n) in
    let e : (acc * 16 ^ n + v / 16) * 16 + v % 16 ≡ acc * 16 ^ suc n + v =
      rw (pow-suc 16 n) (omega arith) in
    parse_hex-pad_hex n (v / 16) acc (hex_digit (v % 16) ∷ tail) small
    ∙ rw (hex_value-hex_digit (v % 16) (omega arith), parse_hex)
        (ap (λ (a : ℕ). parse_hex a tail) e)

pub parse_hex-pad_hex_64 : (v : ℕ) → v < 2 ^ 256 → parse_hex 0 (pad_hex 64 v []) ≡ ok v
unfolding parse_hex
parse_hex-pad_hex_64 v h =
    let e : 0 * 16 ^ 64 + v ≡ v = omega arith in
    parse_hex-pad_hex 64 v 0 [] h ∙ ap (λ (a : ℕ). ok a) e

pub to_hex32-eq-ok : (v : ℕ) → v < 2 ^ 256 → to_hex32 (pos v) ≡ ok (b'0' ∷ b'x' ∷ pad_hex 64 v [])
unfolding to_hex32
to_hex32-eq-ok v h = ground arith

-- A value below 2 ** 256 is printed by `toHex32`, and `toBigInt` reads it back.
pub to_bigint-to_hex32 :
    (v : ℕ) → v < 2 ^ 256 → (to_hex32 (pos v) >>= λ s. to_bigint (hex s)) ≡ ok (pos v)
unfolding to_bigint
to_bigint-to_hex32 v h = rw (to_hex32-eq-ok v h, parse_hex-pad_hex_64 v h) refl

-- `fromLimbs` inverts `toLimbs`: the two limbs of a digest of at most 256 bits put together are
-- the digest's value, printed as a 32-byte hex string.
pub from_limbs-to_limbs :
    (d : Digest) (v : ℕ)
    → to_bigint d ≡ ok (pos v)
    → v < 2 ^ 256
    → (to_limbs d >>= λ limbs. from_limbs limbs.0 limbs.1) ≡ to_hex32 (pos v)
unfolding to_limbs from_limbs
from_limbs-to_limbs d v e h =
    let whole : v / 2 ^ 128 * 2 ^ 128 + v % 2 ^ 128 ≡ v = omega arith in
    rw
      (
        e,
        lt→ltb _ _ h,
        lt→ltb (v / 2 ^ 128) (2 ^ 128) (omega arith),
        lt→ltb (v % 2 ^ 128) (2 ^ 128) (omega arith),
        whole,
      )
      refl

-- `toField` keeps the high 248 bits of a digest of at most 256 bits: its result is below 2 ** 248,
-- so a field element, and is the digest's value without the low byte.
pub to_field_bounds :
    (d : Digest) (v : ℕ)
    → to_bigint d ≡ ok (pos v)
    → v < 2 ^ 256
    → (f : ℕ) × (to_field d ≡ ok (pos f))
      × (f < 2 ^ 248)
      × (f < field_prime)
      × (f * 256 ≤ v)
      × (v < f * 256 + 256)
unfolding to_field
to_field_bounds d v e h =
    (v / 256, rw (e, lt→ltb _ _ h) refl, omega arith, omega arith, omega arith, omega arith)
