-- ===== src/Identity/Inputs.antt =====
-- winnerIdentityCircuitInput of packages/crypto/src/identity.ts.
use fairproof_bcolbd.Prelude.{◌≡◌, refl, some, ℕ, List, [], ◌∷◌, map}
use fairproof_bcolbd.Prelude.Int.{ℤ, pos}
use fairproof_bcolbd.Field.{Text}
use fairproof_bcolbd.Platform.Inputs.{Input, one, many, put, input_of}
use fairproof_bcolbd.Identity.{WinnerIdentityWitness, winner_identity_public_signals}

-- `show` is `toString` of a bigint.
unfoldable pub winner_identity_circuit_input : (ℤ → Text) → WinnerIdentityWitness → List Input
winner_identity_circuit_input show w =
    put "subjectSecret" (one (show w.subject_secret))
    ∷ put "annualTurnover" (one (show w.annual_turnover))
    ∷ put "relevantExperience" (one (show w.relevant_experience))
    ∷ put "certificationCode" (one (show w.certification_code))
    ∷ put "certValidUntil" (one (show w.cert_valid_until))
    ∷ put "credentialValidUntil" (one (show w.credential_valid_until))
    ∷ put "credentialId" (one (show w.credential_id))
    ∷ put "issuerEpoch" (one (show w.issuer_epoch))
    ∷ put "issuedAt" (one (show w.issued_at))
    ∷ put "issuerPubKeyX" (one (show w.issuer_pub_key_x))
    ∷ put "issuerPubKeyY" (one (show w.issuer_pub_key_y))
    ∷ put "issuerSigR8x" (one (show w.issuer_sig_r8x))
    ∷ put "issuerSigR8y" (one (show w.issuer_sig_r8y))
    ∷ put "issuerSigS" (one (show w.issuer_sig_s))
    ∷ put "issuerPathElements" (many (map show w.issuer_path_elements))
    ∷ put "issuerPathIndices" (many (map (λ (n : ℕ). show (pos n)) w.issuer_path_indices))
    ∷ put "bidAmount" (one (show w.bid_amount))
    ∷ put "bidNonce" (one (show w.bid_nonce))
    ∷ put "legalIdentityHash" (one (show w.legal_identity_hash))
    ∷ put "tenderIdField" (one (show w.tender_id_field))
    ∷ put "winnerCommitment" (one (show w.winner_commitment))
    ∷ put "nullifier" (one (show w.nullifier))
    ∷ put "legalIdentityCommitment" (one (show w.legal_identity_commitment))
    ∷ put "issuerRegistryRoot" (one (show w.issuer_registry_root))
    ∷ []

-- The public inputs by name, in the order of the public signals, are the public signals.
winner_identity_circuit_input-winner_identity_public_signals :
    (show : ℤ → Text) (w : WinnerIdentityWitness)
    → map (input_of (winner_identity_circuit_input show w)) (
        "tenderIdField" ∷ "winnerCommitment" ∷ "nullifier" ∷ "legalIdentityCommitment"
        ∷ "issuerRegistryRoot" ∷ [])
      ≡ map (λ (v : ℤ). some (one (show v))) (winner_identity_public_signals w)
unfolding winner_identity_circuit_input winner_identity_public_signals
winner_identity_circuit_input-winner_identity_public_signals show w = refl
