-- ===== src/Eddsa.antt =====
-- packages/crypto/src/eddsa.ts: issuer signatures over credential digests. The EdDSA instance of
-- circomlibjs, behind the conversions of its field, is a parameter.
use fairproof_bcolbd.Prelude.{
  ◌*◌, ◌^◌, Bool, not, ◌==◌, length, Result, ok, Error, ◌>>=◌, ◌>>◌, throw_if,
}
use fairproof_bcolbd.Prelude.Int.{ℤ, pos, ltb_ℤ}
use fairproof_bcolbd.Field.{Bytes, safe_max}
use fairproof_bcolbd.Platform.{Poseidon}
use fairproof_bcolbd.Domains.{Domains}
use fairproof_bcolbd.Poseidon.{CredentialFields, cred_digest}
use fairproof_bcolbd.Witness.{IssuerPublicKey, EddsaSignature}

pub record Eddsa : Type 0 where
  pub prv2pub : Bytes → IssuerPublicKey
  pub sign_poseidon : Bytes → ℤ → EddsaSignature
  pub verify_poseidon : ℤ → EddsaSignature → IssuerPublicKey → Bool

module _ (eddsa : Eddsa) where
  unfoldable pub derive_public_key : Bytes → Result IssuerPublicKey
  derive_public_key private_key = do
    throw_if (not (length private_key == 32)) Error.key_length
    ok (eddsa.prv2pub private_key)

  unfoldable pub sign_field : Bytes → ℤ → Result EddsaSignature
  sign_field private_key message = do
    throw_if (ltb_ℤ (pos (safe_max * 2 ^ 6)) message) Error.message_range
    ok (eddsa.sign_poseidon private_key message)

  unfoldable pub verify_field : IssuerPublicKey → ℤ → EddsaSignature → Bool
  verify_field public_key message signature = eddsa.verify_poseidon message signature public_key

  -- the fields `digest` and `signature`
  unfoldable pub sign_credential :
      Poseidon → Domains → Bytes → CredentialFields → Result (ℤ × EddsaSignature)
  sign_credential hash domains private_key fields = do
    digest ← cred_digest hash domains fields
    signature ← sign_field private_key digest
    ok (digest, signature)
