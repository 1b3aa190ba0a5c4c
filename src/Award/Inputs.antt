-- ===== src/Award/Inputs.antt =====
-- awardCircuitInput of packages/crypto/src/award.ts.
use fairproof_bcolbd.Prelude.{◌≡◌, refl, some, List, [], ◌∷◌, map}
use fairproof_bcolbd.Prelude.Int.{ℤ, pos}
use fairproof_bcolbd.Field.{Text}
use fairproof_bcolbd.Platform.Inputs.{Input, one, many, put, input_of}
use fairproof_bcolbd.Award.{AwardWitness, award_public_signals}

-- `show` is `toString` of a bigint.
unfoldable pub award_circuit_input : (ℤ → Text) → AwardWitness → List Input
award_circuit_input show w =
    put "tenderIdField" (one (show w.tender_id_field))
    ∷ put "rulesHashHi" (one (show w.rules_hash_hi))
    ∷ put "rulesHashLo" (one (show w.rules_hash_lo))
    ∷ put "bidSetRoot" (one (show w.bid_set_root))
    ∷ put "submissionCount" (one (show (pos w.submission_count)))
    ∷ put "winnerCommitment" (one (show w.winner_commitment))
    ∷ put "winningPrice" (one (show w.winning_price))
    ∷ put "disclosurePolicy" (one (show (pos w.disclosure_policy)))
    ∷ put "nullifier" (many (map show w.nullifier))
    ∷ put "bidAmount" (many (map show w.bid_amount))
    ∷ put "bidNonce" (many (map show w.bid_nonce))
    ∷ put "ciphertextHashField" (many (map show w.ciphertext_hash_field))
    ∷ put "winnerIndex" (one (show (pos w.winner_index)))
    ∷ []

-- The public inputs by name, in the order of the public signals, are the public signals.
award_circuit_input-award_public_signals :
    (show : ℤ → Text) (w : AwardWitness)
    → map (input_of (award_circuit_input show w)) (
        "tenderIdField" ∷ "rulesHashHi" ∷ "rulesHashLo" ∷ "bidSetRoot" ∷ "submissionCount"
        ∷ "winnerCommitment" ∷ "winningPrice" ∷ "disclosurePolicy" ∷ [])
      ≡ map (λ (v : ℤ). some (one (show v))) (award_public_signals w)
unfolding award_circuit_input award_public_signals
award_circuit_input-award_public_signals show w = refl
