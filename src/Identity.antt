-- ===== src/Identity.antt =====
-- packages/crypto/src/identity.ts: the witness with which the winner publishes its identity.
pub mod Inputs
pub mod Agreement
use fairproof_bcolbd.Prelude.{
  ℕ, Bool, not, List, [], ◌∷◌, Result, ok, err, Error, ◌>>=◌, ◌>>◌, throw_if,
}
use fairproof_bcolbd.Prelude.Int.{ℤ, pos, eq_ℤ}
use fairproof_bcolbd.Field.{Text, hex, to_field, concat_bytes}
use fairproof_bcolbd.Platform.{Ethers, Poseidon, codes}
use fairproof_bcolbd.Domains.{Domains, schema_version}
use fairproof_bcolbd.Poseidon.{poseidon, nullifier, bid_commitment}
use fairproof_bcolbd.Encoding.{
  Json, integer, string, object, end, entry, JsonText, jcs_canonicalize,
}
use fairproof_bcolbd.Witness.{SignedCredential}

pub record LegalIdentityRecord : Type 0 where
  pub credential_id : ℤ
  pub legal_name : Text
  pub registration_number : Text
  pub trade_licence : Text
  pub vat_bin : Text

-- the record as a JavaScript value
abbrev pub record_json : LegalIdentityRecord → Json
record_json r = object (
    entry (codes "credentialId") (integer r.credential_id) (
      entry (codes "legalName") (string r.legal_name) (
        entry (codes "registrationNumber") (string r.registration_number) (
          entry (codes "tradeLicence") (string r.trade_licence)
            (entry (codes "vatBin") (string r.vat_bin) end)))))

module _ (e : Ethers) (domains : Domains) where
  -- `TextEncoder` encodes as `toUtf8Bytes` does.
  unfoldable pub legal_identity_hash : Text → Result ℤ
  legal_identity_hash canonical_record = do
    domain ← e.get_bytes domains.raw_identity_record
    to_field (hex (e.keccak256 (concat_bytes (domain ∷ e.to_utf8_bytes canonical_record ∷ []))))

module _ (hash : Poseidon) (domains : Domains) where
  unfoldable pub legal_identity_commitment : ℤ → ℤ → Result ℤ
  legal_identity_commitment credential_id identity_hash = do
    inner ← poseidon hash (domains.identity ∷ credential_id ∷ [])
    poseidon hash (inner ∷ identity_hash ∷ [])

pub record WinnerIdentityWitness : Type 0 where
  pub subject_secret : ℤ
  pub annual_turnover : ℤ
  pub relevant_experience : ℤ
  pub certification_code : ℤ
  pub cert_valid_until : ℤ
  pub credential_valid_until : ℤ
  pub credential_id : ℤ
  pub issuer_epoch : ℤ
  pub issued_at : ℤ
  pub issuer_pub_key_x : ℤ
  pub issuer_pub_key_y : ℤ
  pub issuer_sig_r8x : ℤ
  pub issuer_sig_r8y : ℤ
  pub issuer_sig_s : ℤ
  pub issuer_path_elements : List ℤ
  pub issuer_path_indices : List ℕ
  pub bid_amount : ℤ
  pub bid_nonce : ℤ
  pub legal_identity_hash : ℤ
  pub tender_id_field : ℤ
  pub winner_commitment : ℤ
  pub nullifier : ℤ
  pub legal_identity_commitment : ℤ
  pub issuer_registry_root : ℤ

pub record WinnerIdentityParams : Type 0 where
  pub credential : SignedCredential
  pub subject_secret : ℤ
  pub bid_amount : ℤ
  pub bid_nonce : ℤ
  pub tender_id_field : ℤ
  pub issuer_registry_root : ℤ
  pub issuer_path_elements : List ℤ
  pub issuer_path_indices : List ℕ
  pub identity : LegalIdentityRecord

module _ (t : JsonText) (e : Ethers) (hash : Poseidon) (domains : Domains) where
  unfoldable pub build_winner_identity_witness : WinnerIdentityParams → Result WinnerIdentityWitness
  build_winner_identity_witness p = do
    let f = p.credential.fields
    throw_if (not (eq_ℤ f.schema_version schema_version)) Error.schema_mismatch
    throw_if (not (eq_ℤ p.identity.credential_id f.credential_id)) Error.credential_mismatch
    canonical ← jcs_canonicalize t (record_json p.identity)
    id_hash ← legal_identity_hash e domains canonical
    nul ← nullifier hash domains p.subject_secret p.tender_id_field
    commitment ← bid_commitment hash domains p.bid_amount p.bid_nonce p.tender_id_field nul
    identity_commitment ← legal_identity_commitment hash domains f.credential_id id_hash
    ok (record {
      subject_secret = p.subject_secret;
      annual_turnover = f.annual_turnover;
      relevant_experience = f.relevant_experience;
      certification_code = f.certification_code;
      cert_valid_until = f.cert_valid_until;
      credential_valid_until = f.credential_valid_until;
      credential_id = f.credential_id;
      issuer_epoch = f.issuer_epoch;
      issued_at = f.issued_at;
      issuer_pub_key_x = p.credential.issuer_public_key.x;
      issuer_pub_key_y = p.credential.issuer_public_key.y;
      issuer_sig_r8x = p.credential.signature.r8x;
      issuer_sig_r8y = p.credential.signature.r8y;
      issuer_sig_s = p.credential.signature.s;
      issuer_path_elements = p.issuer_path_elements;
      issuer_path_indices = p.issuer_path_indices;
      bid_amount = p.bid_amount;
      bid_nonce = p.bid_nonce;
      legal_identity_hash = id_hash;
      tender_id_field = p.tender_id_field;
      winner_commitment = commitment;
      nullifier = nul;
      legal_identity_commitment = identity_commitment;
      issuer_registry_root = p.issuer_registry_root;
    })

unfoldable pub winner_identity_public_signals : WinnerIdentityWitness → List ℤ
winner_identity_public_signals w =
    w.tender_id_field ∷ w.winner_commitment ∷ w.nullifier ∷ w.legal_identity_commitment
    ∷ w.issuer_registry_root ∷ []
