-- ===== src/Elgamal/Recovery.antt =====
-- The key that packages/crypto/src/elgamal.ts encapsulates is recovered from the shared point.
use Prim.Native.Nat.{bit_xor}
use fairproof_bcolbd.Prelude.{
  ℕ, zero, suc, ◌*◌, ◌<◌, ◌≤◌, ◌^◌, ◌≡◌, refl, sym, ap, ◌∙◌, arith, Bool, true, false, ◌&&◌, ◌||◌,
  not, [], ◌∷◌, ◌==◌, leb, length, Option, or_default, ok, throw_if-eq-ok, ==_iff,
}
use fairproof_bcolbd.Field.{Bytes, write_bytes, concat_bytes}
use fairproof_bcolbd.Field.Bytes.{IsBytes, to_bytes-eq-ok}
use fairproof_bcolbd.Platform.{Ethers, EthersLaws}
use native.Mathlib.Nat.{mul_comm}
use fairproof_bcolbd.Domains.{Domains, load_domains}
use fairproof_bcolbd.Domains.Loading.{raw_dek-bytes, get_bytes-keccak256}
use fairproof_bcolbd.Babyjub.{Point, Curve, sub_order, mul_base, mul_point, is_in_prime_subgroup}
use fairproof_bcolbd.Babyjub.Group.{CurveLaws, mul_base-lt, mul_base-in_subgroup}
use fairproof_bcolbd.Elgamal.{
  Encapsulation, derive_wrapping_key, xor_bytes, xor32, encapsulate, unwrap_dek,
}

-- a test on the numbers below a bound
holds_to : (ℕ → Bool) → ℕ → Bool
holds_to test zero = true
holds_to test (suc bound) = holds_to test bound && test bound

holds_to-below :
    (test : ℕ → Bool) (bound k : ℕ) → k < bound → holds_to test bound ≡ true → test k ≡ true
unfolding holds_to
holds_to-below test zero k small h = absurd (omega arith)
holds_to-below test (suc bound) k small h = ground (arith, holds_to-below test bound k)

abbrev toggles : ℕ → Bool
toggles a = holds_to (λ b. bit_xor (bit_xor a b) b == a) 256

toggle_table : holds_to toggles 256 ≡ true
unfolding holds_to
toggle_table = refl

-- Two exclusive ors with one byte cancel.
xor_twice : (a b : ℕ) → a < 256 → b < 256 → bit_xor (bit_xor a b) b ≡ a
xor_twice a b ha hb = (==_iff _ a).0 (
    holds_to-below (λ b. bit_xor (bit_xor a b) b == a) 256 b hb
      (holds_to-below toggles 256 a ha toggle_table))

xor_bytes_twice :
    (xs ks : Bytes)
    → length xs ≡ length ks
    → IsBytes xs
    → IsBytes ks
    → (xor_bytes (xor_bytes xs ks) ks ≡ xs) × (length (xor_bytes xs ks) ≡ length xs)
unfolding xor_bytes
xor_bytes_twice [] ks len hx hk = (refl, refl)
xor_bytes_twice (x ∷ xs) [] len hx hk = absurd (omega arith)
xor_bytes_twice (x ∷ xs) (k ∷ ks) len (px, hx) (pk, hk) =
    let (same, l) = xor_bytes_twice xs ks (omega arith) hx hk in
    (rw (xor_twice x k px pk, same) refl, ap suc l)

module _ {e : Ethers} (laws : EthersLaws e) (domains : Domains) where
  -- A wrapping key is derived from any point whose coordinates fit 32 bytes, and has 32 bytes.
  derive_wrapping_key-ok :
      (shared : Point)
      → load_domains e ≡ ok domains
      → (shared.x < 256 ^ 32) × (shared.y < 256 ^ 32)
      → (key : Bytes) × (derive_wrapping_key e domains shared ≡ ok key)
        × (length key ≡ 32)
        × IsBytes key
  unfolding derive_wrapping_key
  derive_wrapping_key-ok shared loaded (hx, hy) =
      let (domain, read) = raw_dek-bytes laws domains loaded in
      let ex = to_bytes-eq-ok shared.x 32 hx in
      let ey = to_bytes-eq-ok shared.y 32 hy in
      let (key, digest, len, small) = get_bytes-keccak256 laws (
        concat_bytes
          (domain ∷ (write_bytes 32 shared.x []).0 ∷ (write_bytes 32 shared.y []).0 ∷ [])) in
      (key, rw (read, ex, ey) digest, len, small)

  module _ {c : Curve} (curve_laws : CurveLaws c) where
    -- `encapsulate` to the key `x * G` succeeds for a 32-byte key and a scalar in [1, SUB_ORDER):
    -- its ephemeral point is the scalar's multiple of the generator, and `unwrapDek` with the
    -- ephemeral point's multiple by `x` gives the key back.
    pub unwrap_dek-encapsulate :
        (x random : ℕ) (dek : Bytes) (scalar : Option ℕ)
        → load_domains e ≡ ok domains
        → length dek ≡ 32
        → IsBytes dek
        → 1 ≤ or_default scalar random
        → or_default scalar random < sub_order
        → (enc : Encapsulation) × (encapsulate e domains c random (mul_base c x) dek scalar
            ≡ ok enc)
          × (enc.ephemeral ≡ mul_base c (or_default scalar random))
          × (length enc.wrapped ≡ 32)
          × (unwrap_dek e domains c enc.wrapped (mul_point c enc.ephemeral x) ≡ ok dek)
    unfolding encapsulate unwrap_dek xor32
    unwrap_dek-encapsulate x random dek scalar loaded len small lo hi =
        let r = or_default scalar random in
        let shared = mul_point c (mul_base c x) r in
        let shared_eq : shared ≡ mul_base c (x * r) = curve_laws.mul_mul x r in
        let (key, derived, key_len, key_small) =
          derive_wrapping_key-ok shared loaded (rw shared_eq (mul_base-lt curve_laws (x * r))) in
        let (twice, wrapped_len) = xor_bytes_twice dek key (len ∙ sym key_len) small key_small in
        let commutes : mul_point c (mul_base c r) x ≡ shared =
          curve_laws.mul_mul r x ∙ ap (mul_base c) (mul_comm r x) ∙ sym shared_eq in
        let ranges : (leb r 0 ≡ false) × (leb sub_order r ≡ false) = ground arith in
        let d32 : (length dek == 32) ≡ true = ground arith in
        let k32 : (length key == 32) ≡ true = ground arith in
        let w32 : (length (xor_bytes dek key) == 32) ≡ true = ground arith in
        (
          record { ephemeral = mul_base c r; wrapped = xor_bytes dek key; shared = shared },
          rw (d32, mul_base-in_subgroup curve_laws x, ranges.0, ranges.1, derived, k32) refl,
          refl,
          wrapped_len ∙ len,
          rw (w32, commutes, derived, k32) (ap ok twice),
        )

    -- The guards that a successful call has passed.
    pub encapsulate_guards :
        (random : ℕ) (key : Point) (dek : Bytes) (scalar : Option ℕ) (enc : Encapsulation)
        → encapsulate e domains c random key dek scalar ≡ ok enc
        → (length dek ≡ 32)
          × (1 ≤ or_default scalar random)
          × (or_default scalar random < sub_order)
    unfolding encapsulate
    encapsulate_guards random key dek scalar enc h =
        let r = or_default scalar random in
        let (len, h₁) = throw_if-eq-ok (not (length dek == 32)) _ _ h in
        let (_, h₂) = throw_if-eq-ok (not (is_in_prime_subgroup c key)) _ _ h₁ in
        let (range, _) = throw_if-eq-ok (leb r 0 || leb sub_order r) _ _ h₂ in ground arith
