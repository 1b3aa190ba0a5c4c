-- ===== src/Attestation/Signing.antt =====
-- Issuing and checking a credential in apps/dashboard/src/lib/attestation.ts.
use fairproof_bcolbd.Prelude.{
  ◌≡◌, sym, ap, ◌∙◌, Bool, true, not, ◌==◌, length, ok, ok-injective, >>=-eq-ok, throw_if-eq-ok,
}
use fairproof_bcolbd.Prelude.Int.{ℤ, eq_ℤ_refl}
use fairproof_bcolbd.Field.{Bytes, Text}
use fairproof_bcolbd.Platform.{Poseidon}
use fairproof_bcolbd.Domains.{Domains}
use fairproof_bcolbd.Poseidon.{CredentialFields, cred_digest}
use fairproof_bcolbd.Witness.{IssuerPublicKey}
use fairproof_bcolbd.Eddsa.{Eddsa, derive_public_key, sign_field, sign_credential, verify_field}
use fairproof_bcolbd.Attestation.{
  Attestation, Subject, commitment_for, issue_credential, check_attestation, bound_to,
}

-- A signature verifies under the public key of the key that made it.
pub record EddsaLaws (eddsa : Eddsa) : Type 0 where
  pub verify_sign :
      (key : Bytes) (message : ℤ)
      → eddsa.verify_poseidon message (eddsa.sign_poseidon key message) (eddsa.prv2pub key) ≡ true

module _ {eddsa : Eddsa} (laws : EddsaLaws eddsa) (hash : Poseidon) (domains : Domains) where
  check_attestation-verifies :
      (a : Attestation) (digest : ℤ)
      → cred_digest hash domains a.fields ≡ ok digest
      → eddsa.verify_poseidon digest a.signature a.issuer_public_key ≡ true
      → check_attestation hash domains eddsa a ≡ true
  unfolding check_attestation verify_field
  check_attestation-verifies a digest h v = rw (check_attestation, h) v

  bound_to-committed :
      (a : Attestation) (secret : ℤ)
      → commitment_for hash domains secret ≡ ok a.fields.subject_commitment
      → bound_to hash domains a secret ≡ ok true
  unfolding bound_to commitment_for
  bound_to-committed a secret h =
      rw (bound_to, h) (ap (λ (b : Bool). ok b) (eq_ℤ_refl a.fields.subject_commitment))

  -- A credential that is issued with a private key, and with the public key derived from it, passes
  -- the check on import. It carries the fields as they were given, and is bound to the secret whose
  -- commitment they hold.
  pub check_attestation-issue_credential :
      (priv : Bytes) (key : IssuerPublicKey) (label : Text) (fields : CredentialFields)
      (subject : Subject) (a : Attestation) (secret : ℤ)
      → derive_public_key eddsa priv ≡ ok key
      → commitment_for hash domains secret ≡ ok fields.subject_commitment
      → issue_credential hash domains eddsa priv key label fields subject ≡ ok a
      → (check_attestation hash domains eddsa a ≡ true)
        × (a.fields ≡ fields)
        × (bound_to hash domains a secret ≡ ok true)
  unfolding issue_credential check_attestation bound_to commitment_for sign_credential sign_field
      derive_public_key verify_field
  check_attestation-issue_credential priv key label fields subject a secret derived committed h =
      let (signed, sign_eq, rest) =
        >>=-eq-ok (sign_credential eddsa hash domains priv fields) _ h in
      let (digest, digest_eq, rest') = >>=-eq-ok (cred_digest hash domains fields) _ sign_eq in
      let (signature, signature_eq, pair) = >>=-eq-ok (sign_field eddsa priv digest) _ rest' in
      let (_, made) = throw_if-eq-ok _ _ _ signature_eq in
      let (_, public) = throw_if-eq-ok (not (length priv == 32)) _ _ derived in
      let key_eq : eddsa.prv2pub priv ≡ key = ok-injective public in
      let sig_eq : eddsa.sign_poseidon priv digest ≡ signed.1 =
        ok-injective made ∙ ap (λ p. p.1) (ok-injective pair) in
      let issued = ok-injective rest in
      let valid : eddsa.verify_poseidon digest signed.1 key ≡ true =
        rw (← sig_eq, ← key_eq) (laws.verify_sign priv digest) in
      let fields_eq : fields ≡ a.fields = ap (λ (b : Attestation). b.fields) issued in
      let sig_eq' : eddsa.verify_poseidon digest a.signature a.issuer_public_key ≡ true =
        ap (λ (b : Attestation). eddsa.verify_poseidon digest b.signature b.issuer_public_key)
          (sym issued)
        ∙ valid in
      (
        check_attestation-verifies a digest
            (ap (cred_digest hash domains) (sym fields_eq) ∙ digest_eq) sig_eq',
        sym fields_eq,
        bound_to-committed a secret
            (committed ∙ ap (λ (f : CredentialFields). ok f.subject_commitment) fields_eq),
      )
