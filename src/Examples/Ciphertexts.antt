-- ===== src/Examples/Ciphertexts.antt =====
-- The theorems on reading ciphertext objects at concrete inputs.
use fairproof_bcolbd.Prelude.{
  ◌≡◌, refl, arith, Bool, true, ◌&&◌, ltb, Bool-cases, inl, inr, [], ◌∷◌, ok,
}
use fairproof_bcolbd.Field.{Bytes, to_bytes, write_bytes, concat_bytes}
use fairproof_bcolbd.Field.Bytes.{IsBytes}
use fairproof_bcolbd.Encoding.{canonical_ciphertext_bytes}
use fairproof_bcolbd.Ciphertext.{parse_ciphertext_bytes}
use fairproof_bcolbd.Ciphertext.RoundTrip.{parse-canonical_ciphertext_bytes}
use fairproof_bcolbd.Ciphertext.Accepts.{canonical-parse_ciphertext_bytes}
use fairproof_bcolbd.Examples.Encodings.{parts, canonical, parts-canonical}

parse-canonical_ciphertext_bytes_example : parse_ciphertext_bytes canonical ≡ ok parts
parse-canonical_ciphertext_bytes_example =
    parse-canonical_ciphertext_bytes parts canonical parts-canonical

all_small : Bytes → Bool
all_small [] = true
all_small (b ∷ bs) = ltb b 256 && all_small bs

all_small-IsBytes : (bs : Bytes) → all_small bs ≡ true → IsBytes bs
unfolding all_small
all_small-IsBytes [] h = tt
all_small-IsBytes (b ∷ bs) h = elim (Bool-cases (ltb b 256)) [
  | inl small ↦ (ground arith, all_small-IsBytes bs (rw small at h))
  | inr large ↦ let bad = rw large at h in absurd (cc)
]

canonical-IsBytes : IsBytes canonical
unfolding all_small canonical_ciphertext_bytes to_bytes write_bytes concat_bytes
canonical-IsBytes = all_small-IsBytes canonical refl

canonical-parse_ciphertext_bytes_example : canonical_ciphertext_bytes parts ≡ ok canonical
canonical-parse_ciphertext_bytes_example =
    canonical-parse_ciphertext_bytes canonical parts canonical-IsBytes
      parse-canonical_ciphertext_bytes_example
