-- ===== src/Attestation/Handover.antt =====
-- The text in which apps/dashboard/src/lib/attestation.ts hands a credential over.
use fairproof_bcolbd.Prelude.{
  ◌≡◌, refl, sym, arith, ◌∙◌, true, false, not, List, [], ◌∷◌, All, Occurs, first, later, Result,
  ok, err, Error, >>=-eq-ok, throw_if-eq-ok,
}
use fairproof_bcolbd.Prelude.Int.{ℤ}
use fairproof_bcolbd.Field.{Text}
use fairproof_bcolbd.Platform.{codes}
use fairproof_bcolbd.Poseidon.{CredentialFields}
use fairproof_bcolbd.Encoding.{Json, string}
use fairproof_bcolbd.Attestation.{
  Attestation, Transport, attestation_json, encode_attestation, decode_attestation, decode_raw,
  decode_fields, decode_field, optional_member, is_undefined, is_text, credential_format,
}

-- An object of strings comes back from its JSON text, a bigint from its decimal string, and `String`
-- of a string is the string.
pub record TransportLaws (t : Transport) : Type 0 where
  pub parse_stringify :
      (a : Attestation)
      → t.parse (t.trim (t.stringify (attestation_json t a))) ≡ ok (attestation_json t a)
  pub big_int_show : (v : ℤ) → t.big_int (string (t.show_bigint v)) ≡ ok v
  pub string_of_string : (s : Text) → t.string_of (string s) ≡ s

-- What is handed over is read back as it was, figures, signature, key and names.
pub decode-encode_attestation :
    {t : Transport}
    → TransportLaws t
    → (a : Attestation) → decode_attestation t (encode_attestation t a) ≡ ok a
unfolding decode_attestation encode_attestation decode_raw decode_fields decode_field
decode-encode_attestation {t} laws a =
    let f = a.fields in
    let s = a.signature in
    let k = a.issuer_public_key in
    let b = laws.big_int_show in
    rw (decode_attestation, encode_attestation, laws.parse_stringify a)
      (rw
        (
          b f.schema_version,
          b f.subject_commitment,
          b f.annual_turnover,
          b f.relevant_experience,
          b f.certification_code,
        )
        (rw
          (
            b f.cert_valid_until,
            b f.credential_valid_until,
            b f.credential_id,
            b f.issuer_epoch,
            b f.issued_at,
          )
          (rw (b s.r8x, b s.r8y, b s.s, b k.x, b k.y)
            (rw
              (
                laws.string_of_string a.subject.firm_name,
                laws.string_of_string a.subject.registration_number,
                laws.string_of_string a.issuer_label,
              )
              refl))))

-- the `FIELD_NAMES`
abbrev pub field_names : List Text
field_names =
    codes "schemaVersion"
    ∷ codes "subjectCommitment"
    ∷ codes "annualTurnover"
    ∷ codes "relevantExperience"
    ∷ codes "certificationCode"
    ∷ codes "certValidUntil"
    ∷ codes "credentialValidUntil"
    ∷ codes "credentialId"
    ∷ codes "issuerEpoch"
    ∷ codes "issuedAt"
    ∷ []

-- The value has the property.
abbrev pub Has : Json → Text → Type 0
Has fields name = is_undefined (optional_member fields name) ≡ false

module _ (t : Transport) where
  decode_field-Has :
      (fields : Json) (name : Text) {v : ℤ} → decode_field t fields name ≡ ok v → Has fields name
  unfolding decode_field
  decode_field-Has fields name h =
      (throw_if-eq-ok (is_undefined (optional_member fields name)) Error.missing_field _ h).0

  decode_fields-Has :
      (fields : Json) (f : CredentialFields)
      → decode_fields t fields ≡ ok f
      → All (Has fields) field_names
  unfolding decode_fields
  decode_fields-Has fields f h =
      let (_, a, ha) = >>=-eq-ok (decode_field t fields _) _ h in
      let (_, b, hb) = >>=-eq-ok (decode_field t fields _) _ ha in
      let (_, c, hc) = >>=-eq-ok (decode_field t fields _) _ hb in
      let (_, d, hd) = >>=-eq-ok (decode_field t fields _) _ hc in
      let (_, e, he) = >>=-eq-ok (decode_field t fields _) _ hd in
      let (_, g, hg) = >>=-eq-ok (decode_field t fields _) _ he in
      let (_, i, hi) = >>=-eq-ok (decode_field t fields _) _ hg in
      let (_, j, hj) = >>=-eq-ok (decode_field t fields _) _ hi in
      let (_, k, hk) = >>=-eq-ok (decode_field t fields _) _ hj in
      let (_, l, hl) = >>=-eq-ok (decode_field t fields _) _ hk in
      let has = λ (name : Text) (v : ℤ) (q : decode_field t fields name ≡ ok v).
        decode_field-Has fields name q in
      (
        has _ _ a,
        (
          has _ _ b,
          (
            has _ _ c,
            (
              has _ _ d,
              (has _ _ e, (has _ _ g, (has _ _ i, (has _ _ j, (has _ _ k, (has _ _ l, tt)))))),
            ),
          ),
        ),
      )

  All-Has :
      (fields : Json) (name : Text) (names : List Text)
      → All (Has fields) names
      → Occurs name names
      → Has fields name
  All-Has fields name [] v o = elim o [ ]
  All-Has fields name (n ∷ names) (p, v) first = p
  All-Has fields name (n ∷ names) (p, v) (later o) = All-Has fields name names v o

  decode_raw-Has :
      (raw : Json) (a : Attestation)
      → decode_raw t raw ≡ ok a
      → (is_text (optional_member raw (codes "format")) credential_format ≡ true)
        × All (Has (optional_member raw (codes "fields"))) field_names
  unfolding decode_raw
  decode_raw-Has raw a h =
      let (format, h₁) =
        throw_if-eq-ok (not (is_text (optional_member raw (codes "format")) credential_format)) _ _
          h in
      let (f, fields, _) =
        >>=-eq-ok (decode_fields t (optional_member raw (codes "fields"))) _ h₁ in
      (ground arith, decode_fields-Has (optional_member raw (codes "fields")) f fields)

  refused :
      (r : Result Attestation) → ((a : Attestation) → r ≡ ok a → ⊥) → (e : Error) × (r ≡ err e)
  refused (ok a) f = absurd (f a refl)
  refused (err e) f = (e, refl)

  -- A text that is JSON but lacks one of the ten field names is refused with an error, whichever name
  -- it is and whatever else the text holds.
  pub decode_attestation_missing :
      (text : Text) (raw : Json) (name : Text)
      → t.parse (t.trim text) ≡ ok raw
      → Occurs name field_names
      → is_undefined (optional_member (optional_member raw (codes "fields")) name) ≡ true
      → (reason : Error) × (decode_attestation t text ≡ err reason)
  unfolding decode_attestation
  decode_attestation_missing text raw name parsed listed missing =
      refused (decode_attestation t text) (λ a h.
        let fields = optional_member raw (codes "fields") in
        let read : decode_attestation t text ≡ decode_raw t raw =
          rw (decode_attestation, parsed) refl in
        let (_, has) = decode_raw-Has raw a (sym read ∙ h) in
        let present = All-Has fields name field_names has listed in absurd (cc))
