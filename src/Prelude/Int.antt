-- ===== src/Prelude/Int.antt =====
-- Signed integers over the native numbers: the `bigint` of the source, with the operators that
-- the code applies to values of either sign.
use Prim.Native.Nat.{ℕ, suc, ◌+◌, ◌-◌, ◌*◌, ◌/◌, ◌%◌, ◌^◌, bit_and}
use mathlib.Core.Path.{◌≡◌, sym, ap, ◌∙◌}
use mathlib.Core.Logic.{◌≢◌}
use native.Mathlib.Omega.{arith}
use mathlib.Core.Bool.{Bool, true, false, false≢true}
use fairproof_bcolbd.Prelude.Tests.{ltb, leb, ◌==◌, if◌then◌else◌}

-- `negsuc n` is -(n + 1).
pub data ℤ : Type 0 where
  pos : ℕ → ℤ
  negsuc : ℕ → ℤ

-- `a < b`
abbrev pub ltb_ℤ : ℤ → ℤ → Bool
ltb_ℤ (pos a) (pos b) = ltb a b
ltb_ℤ (pos a) (negsuc b) = false
ltb_ℤ (negsuc a) (pos b) = true
ltb_ℤ (negsuc a) (negsuc b) = ltb b a

-- `a === b`
abbrev pub eq_ℤ : ℤ → ℤ → Bool
eq_ℤ (pos a) (pos b) = a == b
eq_ℤ (negsuc a) (negsuc b) = a == b
eq_ℤ (pos a) (negsuc b) = false
eq_ℤ (negsuc a) (pos b) = false

-- `v >> k`, rounding down
abbrev pub shift_right : ℤ → ℕ → ℤ
shift_right (pos v) k = pos (v / 2 ^ k)
shift_right (negsuc n) k = negsuc (n / 2 ^ k)

-- `v & (2 ** k - 1)`, on the two's complement of a negative number
abbrev pub low_bits : ℤ → ℕ → ℤ
low_bits (pos v) k = pos (v % 2 ^ k)
low_bits (negsuc n) k = pos (2 ^ k - 1 - n % 2 ^ k)

-- `(hi << k) | lo` for a low part below `2 ** k`, on the two's complements
abbrev pub shift_or : ℕ → ℤ → ℤ → ℤ
shift_or k (pos hi) (pos lo) = pos (hi * 2 ^ k + lo)
shift_or k (negsuc h) (pos lo) = negsuc (suc h * 2 ^ k - lo - 1)
shift_or k (pos hi) (negsuc l) = negsuc (l - bit_and l (hi * 2 ^ k))
shift_or k (negsuc h) (negsuc l) = negsuc (bit_and (suc h * 2 ^ k - 1) l)

pub pos-injective : {a b : ℕ} → pos a ≡ pos b → a ≡ b
pos-injective h = cc

pub eq_ℤ_refl : (a : ℤ) → eq_ℤ a a ≡ true
eq_ℤ_refl (pos a) = ground arith
eq_ℤ_refl (negsuc a) = ground arith

pub eq_of_eq_ℤ : (a b : ℤ) → eq_ℤ a b ≡ true → a ≡ b
eq_of_eq_ℤ (pos a) (pos b) h = ground arith
eq_of_eq_ℤ (pos a) (negsuc b) h = cc
eq_of_eq_ℤ (negsuc a) (pos b) h = cc
eq_of_eq_ℤ (negsuc a) (negsuc b) h = ground arith

pub ne_of_eq_ℤ : (a b : ℤ) → eq_ℤ a b ≡ false → a ≢ b
ne_of_eq_ℤ a b h e = false≢true (sym h ∙ ap (eq_ℤ a) (sym e) ∙ eq_ℤ_refl a)

-- a - b, as an integer
abbrev pub sub_ℕ : ℕ → ℕ → ℤ
sub_ℕ a b = if leb b a then pos (a - b) else negsuc (b - a - 1)

-- `a - q * b`
unfoldable pub sub_scaled : ℤ → ℕ → ℤ → ℤ
sub_scaled (pos a) q (pos b) = sub_ℕ a (q * b)
sub_scaled (pos a) q (negsuc b) = pos (a + q * suc b)
sub_scaled (negsuc a) q (pos b) = negsuc (a + q * b)
sub_scaled (negsuc a) q (negsuc b) = sub_ℕ (q * suc b) (suc a)
