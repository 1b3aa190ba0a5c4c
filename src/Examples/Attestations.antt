-- ===== src/Examples/Attestations.antt =====
-- The theorems on credentials at concrete inputs.
use fairproof_bcolbd.Prelude.{
  ℕ, zero, suc, ◌≡◌, refl, ap, ◌∙◌, true, List, [], ◌∷◌, ◌++◌, replicate, first, later, Result, ok,
  err, Error, length,
}
use fairproof_bcolbd.Prelude.Int.{ℤ, pos, negsuc, eq_ℤ, eq_ℤ_refl}
use fairproof_bcolbd.Field.{Bytes, Text, assert_uint}
use fairproof_bcolbd.Platform.{codes}
use fairproof_bcolbd.Poseidon.{CredentialFields, poseidon, cred_digest, subject_commitment}
use fairproof_bcolbd.Encoding.{Json, string, object, Entries, end, entry}
use fairproof_bcolbd.Witness.{IssuerPublicKey}
use fairproof_bcolbd.Eddsa.{Eddsa, derive_public_key, sign_credential, sign_field}
use fairproof_bcolbd.Attestation.{
  Attestation, Subject, Transport, attestation_json, encode_attestation, decode_attestation,
  issue_credential, check_attestation, bound_to, commitment_for,
}
use fairproof_bcolbd.Attestation.Signing.{EddsaLaws, check_attestation-issue_credential}
use fairproof_bcolbd.Attestation.Handover.{
  TransportLaws, decode-encode_attestation, decode_attestation_missing,
}
use fairproof_bcolbd.Examples.Platform.{ok_or, sample_hash, sample_domains}

-- a number in one code unit
abbrev show : ℤ → Text
show (pos n) = 0 ∷ n ∷ []
show (negsuc n) = 1 ∷ n ∷ []

abbrev read : Json → Result ℤ
read (string (zero ∷ n ∷ [])) = ok (pos n)
read (string (suc m ∷ n ∷ [])) = ok (negsuc n)
read _ = err Error.bad_number

abbrev text_of : Json → Text
text_of (string s) = s
text_of _ = []

-- the strings of an object of strings and of such objects
mutual
  leaves : Json → List Text
  leaves (string s) = s ∷ []
  leaves (object entries) = leaves_in entries
  leaves _ = []

  leaves_in : Entries → List Text
  leaves_in end = []
  leaves_in (entry name value rest) = leaves value ++ leaves_in rest

-- a text ends with a zero
abbrev ended : Text → Text → Text
ended [] after = 0 ∷ after
ended (c ∷ s) after = suc c ∷ ended s after

print : List Text → Text
print [] = []
print (s ∷ texts) = ended s (print texts)

abbrev put_first : ℕ → List Text → List Text
put_first c [] = (c ∷ []) ∷ []
put_first c (s ∷ texts) = (c ∷ s) ∷ texts

scan : Text → List Text
scan [] = []
scan (zero ∷ after) = [] ∷ scan after
scan (suc c ∷ after) = put_first c (scan after)

scan-ended : (s : Text) (after : Text) → scan (ended s after) ≡ s ∷ scan after
unfolding scan
scan-ended [] after = refl
scan-ended (c ∷ s) after = ap (put_first c) (scan-ended s after)

scan-print : (texts : List Text) → scan (print texts) ≡ texts
unfolding scan print
scan-print [] = refl
scan-print (s ∷ texts) =
    scan-ended s (print texts) ∙ ap (λ (ts : List Text). s ∷ ts) (scan-print texts)

-- the object of a credential with these strings
abbrev rebuild : List Text → Result Json
rebuild
      (format ∷ label ∷ firm ∷ number ∷ f₁ ∷ f₂ ∷ f₃ ∷ f₄ ∷ f₅ ∷ f₆ ∷ f₇ ∷ f₈ ∷ f₉ ∷ f₁₀ ∷ r ∷ r₂
        ∷ s ∷ x ∷ y ∷ []) =
    ok (
      object (
        entry (codes "format") (string format) (
          entry (codes "issuerLabel") (string label) (
            entry (codes "subject")
              (object (
                entry (codes "firmName") (string firm)
                  (entry (codes "registrationNumber") (string number) end)))
              (entry (codes "fields")
                (object (
                  entry (codes "schemaVersion") (string f₁) (
                    entry (codes "subjectCommitment") (string f₂) (
                      entry (codes "annualTurnover") (string f₃) (
                        entry (codes "relevantExperience") (string f₄) (
                          entry (codes "certificationCode") (string f₅) (
                            entry (codes "certValidUntil") (string f₆) (
                              entry (codes "credentialValidUntil") (string f₇) (
                                entry (codes "credentialId") (string f₈) (
                                  entry (codes "issuerEpoch") (string f₉)
                                    (entry (codes "issuedAt") (string f₁₀) end)))))))))))
                (entry (codes "signature")
                  (object (
                    entry (codes "R8x") (string r)
                      (entry (codes "R8y") (string r₂) (entry (codes "S") (string s) end))))
                  (entry (codes "issuerPublicKey")
                    (object (entry (codes "x") (string x) (entry (codes "y") (string y) end)))
                    end)))))))
rebuild _ = err Error.bad_json

abbrev transport : Transport
unfolding leaves print scan
transport = record {
  stringify = λ v. print (leaves v);
  parse = λ text. rebuild (scan text);
  trim = λ text. text;
  big_int = read;
  string_of = text_of;
  show_bigint = show;
}

read-show : (v : ℤ) → read (string (show v)) ≡ ok v
read-show (pos n) = refl
read-show (negsuc n) = refl

transport-TransportLaws : TransportLaws transport
unfolding leaves transport scan
transport-TransportLaws = record {
  parse_stringify = λ a. ap rebuild (scan-print (leaves (attestation_json transport a)));
  big_int_show = read-show;
  string_of_string = λ s. refl;
}

abbrev eddsa : Eddsa
eddsa = record {
  prv2pub = λ key. record { x = pos (length key); y = pos 1 };
  sign_poseidon = λ key message. record { r8x = message; r8y = pos 2; s = pos (length key) };
  verify_poseidon = λ message signature key. eq_ℤ signature.r8x message;
}

eddsa-EddsaLaws : EddsaLaws eddsa
eddsa-EddsaLaws = record { verify_sign = λ key message. eq_ℤ_refl message }

abbrev priv : Bytes
priv = replicate 32 7

abbrev issuer_key : IssuerPublicKey
issuer_key = record { x = pos 32; y = pos 1 }

-- the commitment to the secret 42
abbrev commitment : ℤ
unfolding commitment_for subject_commitment poseidon
commitment = ok_or (pos 0) (commitment_for sample_hash sample_domains (pos 42))

abbrev fields : CredentialFields
fields = record {
  schema_version = pos 1;
  subject_commitment = commitment;
  annual_turnover = pos 5000;
  relevant_experience = pos 6;
  certification_code = pos 9001;
  cert_valid_until = pos 100;
  credential_valid_until = pos 90;
  credential_id = pos 12;
  issuer_epoch = pos 1;
  issued_at = pos 10;
}

abbrev subject : Subject
subject = record { firm_name = codes "Firm"; registration_number = codes "17" }

abbrev attestation : Attestation
attestation = record {
  fields = fields;
  signature =
      eddsa.sign_poseidon priv (ok_or (pos 0) (cred_digest sample_hash sample_domains fields));
  issuer_public_key = issuer_key;
  subject = subject;
  issuer_label = codes "Body";
}

priv-key : derive_public_key eddsa priv ≡ ok issuer_key
unfolding derive_public_key
priv-key = refl

secret-commitment :
    commitment_for sample_hash sample_domains (pos 42) ≡ ok fields.subject_commitment
unfolding commitment_for subject_commitment poseidon
secret-commitment = refl

issue-attestation :
    issue_credential sample_hash sample_domains eddsa priv issuer_key (codes "Body") fields subject
    ≡ ok attestation
unfolding issue_credential sign_credential sign_field cred_digest poseidon assert_uint
    commitment_for subject_commitment
issue-attestation = refl

check_attestation-issue_credential_example :
    (check_attestation sample_hash sample_domains eddsa attestation ≡ true)
    × (attestation.fields ≡ fields)
    × (bound_to sample_hash sample_domains attestation (pos 42) ≡ ok true)
check_attestation-issue_credential_example =
    check_attestation-issue_credential eddsa-EddsaLaws sample_hash sample_domains priv issuer_key
      (codes "Body") fields subject attestation (pos 42) priv-key secret-commitment
      issue-attestation

decode-encode_attestation_example :
    decode_attestation transport (encode_attestation transport attestation) ≡ ok attestation
decode-encode_attestation_example = decode-encode_attestation transport-TransportLaws attestation

-- a platform that reads a credential without fields from every text
abbrev bare : Json
bare = object (entry (codes "format") (string (codes "fairproof.credential.v1")) end)

abbrev bare_transport : Transport
bare_transport = record transport { parse = λ text. ok bare }

decode_attestation_missing_example :
    (reason : Error) × (decode_attestation bare_transport [] ≡ err reason)
decode_attestation_missing_example =
    decode_attestation_missing bare_transport [] bare (codes "annualTurnover") refl
      (later (later first)) refl
