-- ===== src/Elgamal.antt =====
-- packages/crypto/src/elgamal.ts: encapsulation of the data-encryption key.
pub mod Recovery
use Prim.Native.Nat.{bit_xor}
use fairproof_bcolbd.Prelude.{
  ℕ, ◌%◌, ◌||◌, not, List, [], ◌∷◌, leb, ◌==◌, length, Option, or_default, Result, ok, err, Error,
  ◌>>=◌, ◌>>◌, throw_if,
}
use fairproof_bcolbd.Prelude.Int.{pos}
use fairproof_bcolbd.Field.{Bytes, to_bytes, concat_bytes}
use fairproof_bcolbd.Platform.{Ethers}
use fairproof_bcolbd.Domains.{Domains}
use fairproof_bcolbd.Babyjub.{Point, Curve, sub_order, mul_base, mul_point, is_in_prime_subgroup}

-- the result of `encapsulate`
pub record Encapsulation : Type 0 where
  pub ephemeral : Point
  pub wrapped : Bytes
  pub shared : Point

module _ (e : Ethers) (domains : Domains) where
  unfoldable pub derive_wrapping_key : Point → Result Bytes
  derive_wrapping_key shared = do
    domain ← e.get_bytes domains.raw_dek
    x ← to_bytes (pos shared.x) 32
    y ← to_bytes (pos shared.y) 32
    e.get_bytes (e.keccak256 (concat_bytes (domain ∷ x ∷ y ∷ [])))

-- the loop of `xor32`, over arrays of one length
unfoldable pub xor_bytes : Bytes → Bytes → Bytes
xor_bytes [] bs = []
xor_bytes (a ∷ as') [] = []
xor_bytes (a ∷ as') (b ∷ bs) = bit_xor a b ∷ xor_bytes as' bs

unfoldable pub xor32 : Bytes → Bytes → Result Bytes
xor32 a b = do
  throw_if (not (length a == 32) || not (length b == 32)) Error.xor_length
  ok (xor_bytes a b)

module _ (e : Ethers) (domains : Domains) (c : Curve) where
  -- `random` is what `randomScalar` returns if no scalar is supplied.
  unfoldable pub encapsulate : ℕ → Point → Bytes → Option ℕ → Result Encapsulation
  encapsulate random tender_public_key dek ephemeral_scalar = do
    throw_if (not (length dek == 32)) Error.dek_length
    throw_if (not (is_in_prime_subgroup c tender_public_key)) Error.not_in_subgroup
    let r = or_default ephemeral_scalar random
    throw_if (leb r 0 || leb sub_order r) Error.scalar_range
    let shared = mul_point c tender_public_key r
    key ← derive_wrapping_key e domains shared
    wrapped ← xor32 dek key
    ok (record { ephemeral = mul_base c r; wrapped = wrapped; shared = shared })

  unfoldable pub unwrap_dek : Bytes → Point → Result Bytes
  unwrap_dek wrapped shared = do
    throw_if (not (length wrapped == 32)) Error.wrapped_length
    key ← derive_wrapping_key e domains shared
    xor32 wrapped key

unfoldable pub decryption_share : Curve → ℕ → Point → Point
decryption_share c member_secret_share ephemeral =
    mul_point c ephemeral (member_secret_share % sub_order)
