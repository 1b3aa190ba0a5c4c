-- ===== src/Examples/Encodings.antt =====
-- The theorems on numbers and bytes at concrete inputs.
use fairproof_bcolbd.Prelude.{
  ℕ, ◌*◌, ◌+◌, ◌≤◌, ◌<◌, ◌^◌, ◌≡◌, refl, ◌↔◌, arith, [], ◌∷◌, length, replicate, ok, ◌>>=◌,
}
use fairproof_bcolbd.Prelude.Int.{pos}
use fairproof_bcolbd.Field.{
  Bytes, bytes, big, field_prime, to_bigint, to_bytes, to_limbs, from_limbs, to_hex32, to_field,
  write_bytes, concat_bytes,
}
use fairproof_bcolbd.Field.Bytes.{IsBytes, to_bytes-ok_iff}
use fairproof_bcolbd.Field.Limbs.{from_limbs-to_limbs, to_field_bounds}
use fairproof_bcolbd.Encoding.{CiphertextParts, canonical_ciphertext_bytes}
use fairproof_bcolbd.Encoding.Layout.{canonical_ciphertext_bytes-injective}
use fairproof_bcolbd.Examples.Platform.{ok_or}

to_bytes-ok_iff_example : (to_bytes (pos 258) 2 ≡ ok (1 ∷ 2 ∷ [])) ↔ (
    (length {A = ℕ} (1 ∷ 2 ∷ []) ≡ 2)
    × IsBytes (1 ∷ 2 ∷ [])
    × (to_bigint (bytes (1 ∷ 2 ∷ [])) ≡ ok (pos 258)))
to_bytes-ok_iff_example = to_bytes-ok_iff (pos 258) 2 (1 ∷ 2 ∷ [])

from_limbs-to_limbs_example :
    (to_limbs (big (pos 258)) >>= λ limbs. from_limbs limbs.0 limbs.1) ≡ to_hex32 (pos 258)
unfolding to_bigint
from_limbs-to_limbs_example = from_limbs-to_limbs (big (pos 258)) 258 refl (omega arith)

to_field_bounds_example :
    (f : ℕ) × (to_field (big (pos 70000)) ≡ ok (pos f))
    × (f < 2 ^ 248)
    × (f < field_prime)
    × (f * 256 ≤ 70000)
    × (70000 < f * 256 + 256)
unfolding to_bigint
to_field_bounds_example = to_field_bounds (big (pos 70000)) 70000 refl (omega arith)

abbrev pub parts : CiphertextParts
parts = record {
  r_x = pos 258;
  r_y = pos 7;
  wrapped = replicate 32 1;
  iv = replicate 12 2;
  ct = 3 ∷ 4 ∷ 5 ∷ [];
  tag = replicate 16 6;
}

abbrev pub canonical : Bytes
unfolding canonical_ciphertext_bytes to_bytes write_bytes concat_bytes
canonical = ok_or [] (canonical_ciphertext_bytes parts)

pub parts-canonical : canonical_ciphertext_bytes parts ≡ ok canonical
unfolding canonical_ciphertext_bytes to_bytes write_bytes concat_bytes
parts-canonical = refl

canonical_ciphertext_bytes-injective_example : parts ≡ parts
canonical_ciphertext_bytes-injective_example =
    canonical_ciphertext_bytes-injective parts parts canonical parts-canonical parts-canonical
