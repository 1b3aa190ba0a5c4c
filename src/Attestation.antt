-- ===== src/Attestation.antt =====
-- apps/dashboard/src/lib/attestation.ts: a credential as an issuing body signs it and hands it over.
-- Property names are those that the file writes and reads; none is inherited.
pub mod Signing
pub mod Handover
use fairproof_bcolbd.Prelude.{
  Bool, true, false, not, List, [], ◌∷◌, if◌then◌else◌, Result, ok, err, Error, ◌>>=◌, ◌>>◌,
  throw_if,
}
use fairproof_bcolbd.Prelude.Int.{ℤ, eq_ℤ}
use fairproof_bcolbd.Prelude.Texts.{text_eq}
use fairproof_bcolbd.Field.{Bytes, Text}
use fairproof_bcolbd.Platform.{Poseidon, codes}
use fairproof_bcolbd.Domains.{Domains}
use fairproof_bcolbd.Poseidon.{CredentialFields, cred_digest, subject_commitment}
use fairproof_bcolbd.Encoding.{Json, null, undefined, string, object, Entries, end, entry}
use fairproof_bcolbd.Witness.{IssuerPublicKey, EddsaSignature}
use fairproof_bcolbd.Eddsa.{Eddsa, sign_credential, verify_field}

pub record Subject : Type 0 where
  pub firm_name : Text
  pub registration_number : Text

pub record Attestation : Type 0 where
  pub fields : CredentialFields
  pub signature : EddsaSignature
  pub issuer_public_key : IssuerPublicKey
  pub subject : Subject
  pub issuer_label : Text

module _ (hash : Poseidon) (domains : Domains) where
  unfoldable pub commitment_for : ℤ → Result ℤ
  commitment_for secret = subject_commitment hash domains secret

  unfoldable pub issue_credential :
      Eddsa → Bytes → IssuerPublicKey → Text → CredentialFields → Subject → Result Attestation
  issue_credential eddsa issuer_priv issuer_public_key issuer_label fields subject = do
    (_, signature) ← sign_credential eddsa hash domains issuer_priv fields
    ok (record {
      fields = fields;
      signature = signature;
      issuer_public_key = issuer_public_key;
      subject = subject;
      issuer_label = issuer_label;
    })

  -- an exception is answered by the `catch`
  unfoldable pub check_attestation : Eddsa → Attestation → Bool
  check_attestation eddsa a = elim (cred_digest hash domains a.fields) [
    | err reason ↦ false
    | ok digest ↦ verify_field eddsa a.issuer_public_key digest a.signature
  ]

  unfoldable pub bound_to : Attestation → ℤ → Result Bool
  bound_to a secret = do
    commitment ← subject_commitment hash domains secret
    ok (eq_ℤ a.fields.subject_commitment commitment)

  unfoldable pub digest_of : Attestation → Result ℤ
  digest_of a = cred_digest hash domains a.fields

-- What the platform provides: `JSON.stringify`, `JSON.parse`, `trim`, `BigInt` and `String` of a
-- value, and `toString` of a bigint.
pub record Transport : Type 0 where
  pub stringify : Json → Text
  pub parse : Text → Result Json
  pub trim : Text → Text
  pub big_int : Json → Result ℤ
  pub string_of : Json → Text
  pub show_bigint : ℤ → Text

abbrev pub credential_format : Text
credential_format = codes "fairproof.credential.v1"

-- the property of a record of entries
abbrev pub lookup : Entries → Text → Json
lookup end name = undefined
lookup (entry k v rest) name = if text_eq k name then v else lookup rest name

-- `value?.name`
abbrev pub optional_member : Json → Text → Json
optional_member (object entries) name = lookup entries name
optional_member _ name = undefined

-- `value.name`
abbrev pub member : Json → Text → Result Json
member null name = err Error.type_error
member undefined name = err Error.type_error
member value name = ok (optional_member value name)

-- `value ?? fallback`
abbrev pub or_else : Json → Json → Json
or_else null fallback = fallback
or_else undefined fallback = fallback
or_else value fallback = value

abbrev pub is_undefined : Json → Bool
is_undefined undefined = true
is_undefined _ = false

-- `value === text`
abbrev pub is_text : Json → Text → Bool
is_text (string s) text = text_eq s text
is_text _ text = false

module _ (t : Transport) where
  -- the object that `encodeAttestation` prints
  abbrev pub field_entries : CredentialFields → Entries
  field_entries f = entry (codes "schemaVersion") (string (t.show_bigint f.schema_version)) (
      entry (codes "subjectCommitment") (string (t.show_bigint f.subject_commitment)) (
        entry (codes "annualTurnover") (string (t.show_bigint f.annual_turnover)) (
          entry (codes "relevantExperience") (string (t.show_bigint f.relevant_experience)) (
            entry (codes "certificationCode") (string (t.show_bigint f.certification_code)) (
              entry (codes "certValidUntil") (string (t.show_bigint f.cert_valid_until)) (
                entry (codes "credentialValidUntil")
                  (string (t.show_bigint f.credential_valid_until))
                  (entry (codes "credentialId") (string (t.show_bigint f.credential_id)) (
                    entry (codes "issuerEpoch") (string (t.show_bigint f.issuer_epoch))
                      (entry (codes "issuedAt") (string (t.show_bigint f.issued_at)) end)))))))))

  abbrev pub signature_entries : EddsaSignature → Entries
  signature_entries s = entry (codes "R8x") (string (t.show_bigint s.r8x)) (
      entry (codes "R8y") (string (t.show_bigint s.r8y))
        (entry (codes "S") (string (t.show_bigint s.s)) end))

  abbrev pub attestation_json : Attestation → Json
  attestation_json a = object (
      entry (codes "format") (string credential_format) (
        entry (codes "issuerLabel") (string a.issuer_label) (
          entry (codes "subject")
            (object (
              entry (codes "firmName") (string a.subject.firm_name)
                (entry (codes "registrationNumber") (string a.subject.registration_number) end)))
            (entry (codes "fields") (object (field_entries a.fields)) (
              entry (codes "signature") (object (signature_entries a.signature)) (
                entry (codes "issuerPublicKey")
                  (object (
                    entry (codes "x") (string (t.show_bigint a.issuer_public_key.x))
                      (entry (codes "y") (string (t.show_bigint a.issuer_public_key.y)) end)))
                  end))))))

  unfoldable pub encode_attestation : Attestation → Text
  encode_attestation a = t.stringify (attestation_json a)

  -- one round of the loop over `FIELD_NAMES`
  unfoldable pub decode_field : Json → Text → Result ℤ
  decode_field fields name = do
    throw_if (is_undefined (optional_member fields name)) Error.missing_field
    t.big_int (optional_member fields name)

  unfoldable pub decode_fields : Json → Result CredentialFields
  decode_fields fields = do
    schema_version ← decode_field fields (codes "schemaVersion")
    commitment ← decode_field fields (codes "subjectCommitment")
    annual_turnover ← decode_field fields (codes "annualTurnover")
    relevant_experience ← decode_field fields (codes "relevantExperience")
    certification_code ← decode_field fields (codes "certificationCode")
    cert_valid_until ← decode_field fields (codes "certValidUntil")
    credential_valid_until ← decode_field fields (codes "credentialValidUntil")
    credential_id ← decode_field fields (codes "credentialId")
    issuer_epoch ← decode_field fields (codes "issuerEpoch")
    issued_at ← decode_field fields (codes "issuedAt")
    ok (record {
      schema_version = schema_version;
      subject_commitment = commitment;
      annual_turnover = annual_turnover;
      relevant_experience = relevant_experience;
      certification_code = certification_code;
      cert_valid_until = cert_valid_until;
      credential_valid_until = credential_valid_until;
      credential_id = credential_id;
      issuer_epoch = issuer_epoch;
      issued_at = issued_at;
    })

  -- `BigInt(value.name)`
  abbrev pub big_member : Json → Text → Result ℤ
  big_member value name = do v ← member value name; t.big_int v

  -- `String(value?.name ?? fallback)`
  abbrev pub text_member : Json → Text → Text → Text
  text_member value name fallback =
      t.string_of (or_else (optional_member value name) (string fallback))

  unfoldable pub decode_raw : Json → Result Attestation
  decode_raw raw = do
    throw_if (not (is_text (optional_member raw (codes "format")) credential_format))
        Error.unknown_format
    fields ← decode_fields (optional_member raw (codes "fields"))
    let signature = optional_member raw (codes "signature")
    r8x ← big_member signature (codes "R8x")
    r8y ← big_member signature (codes "R8y")
    s ← big_member signature (codes "S")
    let key = optional_member raw (codes "issuerPublicKey")
    x ← big_member key (codes "x")
    y ← big_member key (codes "y")
    let subject = optional_member raw (codes "subject")
    ok (record {
      fields = fields;
      signature = record { r8x = r8x; r8y = r8y; s = s };
      issuer_public_key = record { x = x; y = y };
      subject = record {
        firm_name = text_member subject (codes "firmName") [];
        registration_number = text_member subject (codes "registrationNumber") [];
      };
      issuer_label = text_member raw (codes "issuerLabel") (codes "unnamed body");
    })

  unfoldable pub decode_attestation : Text → Result Attestation
  decode_attestation text = elim (t.parse (t.trim text)) [
    | err reason ↦ err Error.not_a_credential
    | ok raw ↦ decode_raw raw
  ]
