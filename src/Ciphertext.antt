-- ===== src/Ciphertext.antt =====
-- apps/dashboard/src/lib/ciphertext.ts: reading a ciphertext object from its canonical bytes.
pub mod RoundTrip
pub mod Accepts
use fairproof_bcolbd.Prelude.{
  ℕ, ◌+◌, List, [], ◌∷◌, not, ltb, ◌==◌, length, take, drop, get_or, Result, ok, Error, ◌>>=◌, ◌>>◌,
  throw_if,
}
use fairproof_bcolbd.Prelude.Int.{pos}
use fairproof_bcolbd.Field.{Bytes, of_bytes}
use fairproof_bcolbd.Encoding.{CiphertextParts, ciphertext_version}

-- 1 version + 32 rX + 32 rY + 32 wrapped + 12 iv + 4 length + ct + 16 tag
abbrev pub fixed : ℕ
fixed = 1 + 32 + 32 + 32 + 12 + 4 + 16

unfoldable pub be_big_int : Bytes → ℕ
be_big_int b = of_bytes 0 b

-- `bytes.subarray(at, at + n)`: what `take(n)` gives at the position `at`
abbrev pub subarray : Bytes → ℕ → ℕ → Bytes
subarray content at n = take n (drop at content)

-- the offsets are the values of `at` in turn
unfoldable pub parse_ciphertext_bytes : Bytes → Result CiphertextParts
parse_ciphertext_bytes content = do
  throw_if (ltb (length content) fixed) Error.ciphertext_too_short
  throw_if (not (get_or content 0 0 == ciphertext_version)) Error.unknown_version
  let ct_length = be_big_int (subarray content 109 4)
  throw_if (not (113 + ct_length + 16 == length content)) Error.length_mismatch
  ok (record {
    r_x = pos (be_big_int (subarray content 1 32));
    r_y = pos (be_big_int (subarray content 33 32));
    wrapped = subarray content 65 32;
    iv = subarray content 97 12;
    ct = subarray content 113 ct_length;
    tag = subarray content (113 + ct_length) 16;
  })
