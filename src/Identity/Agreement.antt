-- ===== src/Identity/Agreement.antt =====
-- The two witnesses that one bidder builds, of packages/crypto/src/witness.ts and
-- packages/crypto/src/identity.ts, agree on what the chain compares.
use fairproof_bcolbd.Prelude.{
  ◌≡◌, sym, ap, ◌∙◌, not, ok, throw_if-eq-ok, >>=-eq-ok, ok-injective, subst,
}
use fairproof_bcolbd.Prelude.Int.{ℤ, eq_ℤ}
use fairproof_bcolbd.Field.{hex, to_limbs}
use fairproof_bcolbd.Platform.{Ethers, Poseidon}
use fairproof_bcolbd.Domains.{Domains, schema_version}
use fairproof_bcolbd.Poseidon.{subject_commitment, nullifier, bid_commitment}
use fairproof_bcolbd.Encoding.{JsonText, jcs_canonicalize}
use fairproof_bcolbd.Witness.{EligibilityParams, EligibilityWitness, build_eligibility_witness}
use fairproof_bcolbd.Identity.{
  WinnerIdentityParams, WinnerIdentityWitness, record_json, legal_identity_hash,
  legal_identity_commitment, build_winner_identity_witness,
}

-- The nullifier and the commitment that a witness carries for the bidder's inputs.
abbrev Committed : Poseidon → Domains → ℤ → ℤ → ℤ → ℤ → ℤ → ℤ → Type 0
Committed hash domains secret amount nonce tender nul commitment =
    (nullifier hash domains secret tender ≡ ok nul)
    × (bid_commitment hash domains amount nonce tender nul ≡ ok commitment)

Committed-unique :
    (hash : Poseidon) (domains : Domains) (secret amount nonce tender n m a b : ℤ)
    → Committed hash domains secret amount nonce tender n a
    → Committed hash domains secret amount nonce tender m b
    → (n ≡ m) × (a ≡ b)
Committed-unique hash domains secret amount nonce tender n m a b (en, ea) (em, eb) =
    let same : n ≡ m = ok-injective (sym en ∙ em) in
    (same, ok-injective (sym ea ∙ ap (bid_commitment hash domains amount nonce tender) same ∙ eb))

eligibility-Committed :
    (hash : Poseidon) (domains : Domains) (p : EligibilityParams) (w : EligibilityWitness)
    → build_eligibility_witness hash domains p ≡ ok w
    → Committed hash domains p.subject_secret p.bid_amount p.bid_nonce p.tender.tender_id_field
        w.nullifier w.bid_commitment
unfolding build_eligibility_witness
eligibility-Committed hash domains p w h =
    let (subject, _, h₁) = >>=-eq-ok (subject_commitment hash domains p.subject_secret) _ h in
    let (_, h₂) =
      throw_if-eq-ok (not (eq_ℤ p.credential.fields.subject_commitment subject)) _ _ h₁ in
    let (_, h₃) =
      throw_if-eq-ok (not (eq_ℤ p.credential.fields.schema_version schema_version)) _ _ h₂ in
    let (nul, n, h₄) =
      >>=-eq-ok (nullifier hash domains p.subject_secret p.tender.tender_id_field) _ h₃ in
    let (commitment, c, h₅) =
      >>=-eq-ok (bid_commitment hash domains p.bid_amount p.bid_nonce p.tender.tender_id_field nul)
        _ h₄ in
    let (limbs, _, h₆) = >>=-eq-ok (to_limbs (hex p.tender.rules_hash)) _ h₅ in
    subst
      (λ (v : EligibilityWitness).
        Committed hash domains p.subject_secret p.bid_amount p.bid_nonce p.tender.tender_id_field
          v.nullifier v.bid_commitment)
      (ok-injective h₆) (n, c)

identity-Committed :
    (t : JsonText) (e : Ethers) (hash : Poseidon) (domains : Domains) (p : WinnerIdentityParams)
    (w : WinnerIdentityWitness)
    → build_winner_identity_witness t e hash domains p ≡ ok w
    → Committed hash domains p.subject_secret p.bid_amount p.bid_nonce p.tender_id_field w.nullifier
        w.winner_commitment
unfolding build_winner_identity_witness
identity-Committed t e hash domains p w h =
    let f = p.credential.fields in
    let (_, h₁) = throw_if-eq-ok (not (eq_ℤ f.schema_version schema_version)) _ _ h in
    let (_, h₂) = throw_if-eq-ok (not (eq_ℤ p.identity.credential_id f.credential_id)) _ _ h₁ in
    let (text, _, h₃) = >>=-eq-ok (jcs_canonicalize t (record_json p.identity)) _ h₂ in
    let (id_hash, _, h₄) = >>=-eq-ok (legal_identity_hash e domains text) _ h₃ in
    let (nul, n, h₅) = >>=-eq-ok (nullifier hash domains p.subject_secret p.tender_id_field) _ h₄ in
    let (commitment, c, h₆) =
      >>=-eq-ok (bid_commitment hash domains p.bid_amount p.bid_nonce p.tender_id_field nul) _ h₅ in
    let (identity, _, h₇) =
      >>=-eq-ok (legal_identity_commitment hash domains f.credential_id id_hash) _ h₆ in
    subst
      (λ (v : WinnerIdentityWitness).
        Committed hash domains p.subject_secret p.bid_amount p.bid_nonce p.tender_id_field
          v.nullifier v.winner_commitment)
      (ok-injective h₇) (n, c)

-- A bidder that builds an eligibility witness and later a winner-identity witness, with the same
-- subject secret, amount, nonce and tender, publishes the same nullifier twice, and as the winner's
-- commitment the bid commitment of its eligibility proof.
pub witness_agreement :
    (t : JsonText) (e : Ethers) (hash : Poseidon) (domains : Domains) (p : EligibilityParams)
    (w : EligibilityWitness) (q : WinnerIdentityParams) (v : WinnerIdentityWitness)
    → build_eligibility_witness hash domains p ≡ ok w
    → build_winner_identity_witness t e hash domains q ≡ ok v
    → q.subject_secret ≡ p.subject_secret
    → q.bid_amount ≡ p.bid_amount
    → q.bid_nonce ≡ p.bid_nonce
    → q.tender_id_field ≡ p.tender.tender_id_field
    → (v.nullifier ≡ w.nullifier) × (v.winner_commitment ≡ w.bid_commitment)
witness_agreement t e hash domains p w q v hp hq secret amount nonce tender =
    let (n, c) = identity-Committed t e hash domains q v hq in
    Committed-unique hash domains p.subject_secret p.bid_amount p.bid_nonce p.tender.tender_id_field
      v.nullifier w.nullifier v.winner_commitment w.bid_commitment
      (
        ap (λ (x : ℤ). nullifier hash domains x p.tender.tender_id_field) (sym secret)
            ∙ ap (nullifier hash domains q.subject_secret) (sym tender)
            ∙ n,
        (λ i. bid_commitment hash domains (sym amount i) (sym nonce i) (sym tender i) v.nullifier)
            ∙ c,
      )
      (eligibility-Committed hash domains p w hp)
