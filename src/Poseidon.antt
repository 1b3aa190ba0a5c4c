-- ===== src/Poseidon.antt =====
-- packages/crypto/src/poseidon.ts: the composite Poseidon digests. `hash` is the instance that
-- `initPoseidon` has built; calls before that throw, and are left out.
use fairproof_bcolbd.Prelude.{
  ℕ, zero, suc, List, [], ◌∷◌, Result, ok, Error, ◌>>=◌, ◌>>◌, throw_if, ltb, ◌||◌, length, ◌≡◌,
  refl,
}
use fairproof_bcolbd.Prelude.Int.{ℤ, pos}
use fairproof_bcolbd.Field.{assert_uint}
use fairproof_bcolbd.Platform.{Poseidon}
use fairproof_bcolbd.Domains.{Domains}

-- the fields that an issuer signs
pub record CredentialFields : Type 0 where
  pub schema_version : ℤ
  pub subject_commitment : ℤ
  pub annual_turnover : ℤ
  pub relevant_experience : ℤ
  pub certification_code : ℤ
  pub cert_valid_until : ℤ
  pub credential_valid_until : ℤ
  pub credential_id : ℤ
  pub issuer_epoch : ℤ
  pub issued_at : ℤ

module _ (hash : Poseidon) where
  unfoldable pub poseidon : List ℤ → Result ℤ
  poseidon inputs = do
    throw_if (ltb (length inputs) 1 || ltb 6 (length inputs)) Error.arity_out_of_range
    ok (hash inputs)

  -- The arity guard never fires on a pair, so that the parent is no `Result`.
  abbrev pub merkle_parent : ℤ → ℤ → ℤ
  merkle_parent left right = hash (left ∷ right ∷ [])

  pub poseidon-pair :
      (left right : ℤ) → poseidon (left ∷ right ∷ []) ≡ ok (merkle_parent left right)
  unfolding poseidon
  poseidon-pair left right = refl

  -- the loop of `zeroHashes`: the hashes from one level up
  unfoldable pub zeros_from : ℤ → ℕ → List ℤ
  zeros_from z zero = z ∷ []
  zeros_from z (suc n) = z ∷ zeros_from (merkle_parent z z) n

module _ (hash : Poseidon) (domains : Domains) where
  unfoldable pub zero_hashes : ℕ → List ℤ
  zero_hashes depth = zeros_from hash domains.padding depth

  unfoldable pub subject_commitment : ℤ → Result ℤ
  subject_commitment subject_secret = poseidon hash (domains.subject ∷ subject_secret ∷ [])

  unfoldable pub nullifier : ℤ → ℤ → Result ℤ
  nullifier subject_secret tender_id_field =
      poseidon hash (domains.nullifier ∷ subject_secret ∷ tender_id_field ∷ [])

  -- bidAmount, bidNonce, tenderIdField, nullifier
  unfoldable pub bid_commitment : ℤ → ℤ → ℤ → ℤ → Result ℤ
  bid_commitment bid_amount bid_nonce tender_id_field nullifier = do
    _ ← assert_uint bid_amount 64
    poseidon hash (domains.bid_commit ∷ bid_amount ∷ bid_nonce ∷ tender_id_field ∷ nullifier ∷ [])

  unfoldable pub cred_digest : CredentialFields → Result ℤ
  cred_digest c = do
    _ ← assert_uint c.annual_turnover 64
    _ ← assert_uint c.relevant_experience 32
    _ ← assert_uint c.certification_code 64
    _ ← assert_uint c.cert_valid_until 64
    _ ← assert_uint c.credential_valid_until 64
    _ ← assert_uint c.credential_id 64
    _ ← assert_uint c.issuer_epoch 32
    _ ← assert_uint c.issued_at 64
    h1 ← poseidon hash (
        domains.cred ∷ c.schema_version ∷ c.subject_commitment ∷ c.annual_turnover
        ∷ c.relevant_experience ∷ c.certification_code ∷ [])
    h2 ← poseidon hash (
        c.cert_valid_until ∷ c.credential_valid_until ∷ c.credential_id ∷ c.issuer_epoch
        ∷ c.issued_at ∷ [])
    poseidon hash (h1 ∷ h2 ∷ [])

  -- nullifier, bidCommitment, ciphertextHashField, submissionIndex
  unfoldable pub bid_leaf : ℤ → ℤ → ℤ → ℕ → Result ℤ
  bid_leaf nullifier commitment ciphertext_hash_field submission_index = do
    _ ← assert_uint (pos submission_index) 8
    poseidon hash
        (domains.leaf ∷ nullifier ∷ commitment ∷ ciphertext_hash_field ∷ pos submission_index ∷ [])
