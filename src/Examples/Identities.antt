-- ===== src/Examples/Identities.antt =====
-- One bidder's two witnesses at concrete inputs.
use fairproof_bcolbd.Prelude.{◌≡◌, refl, [], ◌∷◌, ok}
use fairproof_bcolbd.Prelude.Int.{pos}
use fairproof_bcolbd.Field.{
  to_bytes, write_bytes, parse_hex, hex_value, assert_uint, to_field, to_bigint, to_limbs,
  concat_bytes, of_bytes, pad_hex, hex_digit,
}
use fairproof_bcolbd.Poseidon.{poseidon, bid_commitment, subject_commitment, nullifier}
use fairproof_bcolbd.Encoding.{
  jcs_canonicalize, sort_entries, insert_entry, text_lt, join, print_entries,
}
use fairproof_bcolbd.Witness.{
  SignedCredential, EligibilityParams, EligibilityWitness, build_eligibility_witness,
}
use fairproof_bcolbd.Identity.{
  WinnerIdentityParams, WinnerIdentityWitness, build_winner_identity_witness, legal_identity_hash,
  legal_identity_commitment,
}
use fairproof_bcolbd.Identity.Agreement.{witness_agreement}
use fairproof_bcolbd.Examples.Ethers.{sample_ethers, digest_value}
use fairproof_bcolbd.Examples.Sealing.{sample_json}
use fairproof_bcolbd.Examples.Platform.{ok_or, sample_hash, sample_domains}

abbrev credential : SignedCredential
credential = record {
  fields = record {
    schema_version = pos 1;
    subject_commitment = sample_hash (pos 106 ∷ pos 5 ∷ []);
    annual_turnover = pos 9000;
    relevant_experience = pos 36;
    certification_code = pos 4;
    cert_valid_until = pos 1900;
    credential_valid_until = pos 1901;
    credential_id = pos 77;
    issuer_epoch = pos 3;
    issued_at = pos 1700;
  };
  signature = record { r8x = pos 21; r8y = pos 22; s = pos 23 };
  issuer_public_key = record { x = pos 31; y = pos 32 };
}

abbrev eligibility : EligibilityParams
eligibility = record {
  credential = credential;
  subject_secret = pos 5;
  bid_amount = pos 240;
  bid_nonce = pos 43;
  tender = record {
    tender_id_field = pos 9;
    rules_hash = b'f' ∷ b'f' ∷ [];
    turnover_threshold = pos 5000;
    experience_months_threshold = pos 24;
    required_certification_code = pos 4;
    deadline = pos 1800;
    issuer_registry_root = pos 51;
    revocation_root = pos 52;
    credential_epoch = pos 3;
  };
  merkle = record {
    issuer_path_elements = [];
    issuer_path_indices = [];
    revocation_path_elements = [];
  };
}

abbrev winner : WinnerIdentityParams
winner = record {
  credential = credential;
  subject_secret = pos 5;
  bid_amount = pos 240;
  bid_nonce = pos 43;
  tender_id_field = pos 9;
  issuer_registry_root = pos 51;
  issuer_path_elements = [];
  issuer_path_indices = [];
  identity = record {
    credential_id = pos 77;
    legal_name = b'A' ∷ [];
    registration_number = b'R' ∷ [];
    trade_licence = b'L' ∷ [];
    vat_bin = b'V' ∷ [];
  };
}

abbrev no_eligibility : EligibilityWitness
no_eligibility = record {
  subject_secret = pos 0;
  annual_turnover = pos 0;
  relevant_experience = pos 0;
  certification_code = pos 0;
  cert_valid_until = pos 0;
  credential_valid_until = pos 0;
  credential_id = pos 0;
  issued_at = pos 0;
  issuer_pub_key_x = pos 0;
  issuer_pub_key_y = pos 0;
  issuer_sig_r8x = pos 0;
  issuer_sig_r8y = pos 0;
  issuer_sig_s = pos 0;
  issuer_path_elements = [];
  issuer_path_indices = [];
  revocation_path_elements = [];
  bid_amount = pos 0;
  bid_nonce = pos 0;
  tender_id_field = pos 0;
  rules_hash_hi = pos 0;
  rules_hash_lo = pos 0;
  turnover_threshold = pos 0;
  experience_months_threshold = pos 0;
  required_certification_code = pos 0;
  deadline = pos 0;
  issuer_registry_root = pos 0;
  revocation_root = pos 0;
  credential_epoch = pos 0;
  nullifier = pos 0;
  bid_commitment = pos 0;
}

abbrev no_winner : WinnerIdentityWitness
no_winner = record {
  subject_secret = pos 0;
  annual_turnover = pos 0;
  relevant_experience = pos 0;
  certification_code = pos 0;
  cert_valid_until = pos 0;
  credential_valid_until = pos 0;
  credential_id = pos 0;
  issuer_epoch = pos 0;
  issued_at = pos 0;
  issuer_pub_key_x = pos 0;
  issuer_pub_key_y = pos 0;
  issuer_sig_r8x = pos 0;
  issuer_sig_r8y = pos 0;
  issuer_sig_s = pos 0;
  issuer_path_elements = [];
  issuer_path_indices = [];
  bid_amount = pos 0;
  bid_nonce = pos 0;
  legal_identity_hash = pos 0;
  tender_id_field = pos 0;
  winner_commitment = pos 0;
  nullifier = pos 0;
  legal_identity_commitment = pos 0;
  issuer_registry_root = pos 0;
}

abbrev eligibility_witness : EligibilityWitness
eligibility_witness =
    ok_or no_eligibility (build_eligibility_witness sample_hash sample_domains eligibility)

eligibility-ok :
    build_eligibility_witness sample_hash sample_domains eligibility ≡ ok eligibility_witness
unfolding build_eligibility_witness poseidon subject_commitment nullifier bid_commitment assert_uint
    to_limbs to_bigint parse_hex hex_value
eligibility-ok = refl

abbrev winner_witness : WinnerIdentityWitness
winner_witness =
    ok_or no_winner
      (build_winner_identity_witness sample_json sample_ethers sample_hash sample_domains winner)

winner-ok :
    build_winner_identity_witness sample_json sample_ethers sample_hash sample_domains winner
    ≡ ok winner_witness
unfolding build_winner_identity_witness poseidon subject_commitment nullifier bid_commitment
    assert_uint to_limbs to_bigint parse_hex hex_value jcs_canonicalize print_entries sort_entries
    insert_entry text_lt join legal_identity_hash legal_identity_commitment sample_ethers
    digest_value of_bytes pad_hex hex_digit to_bytes write_bytes concat_bytes to_field
winner-ok = refl

witness_agreement_example :
    (winner_witness.nullifier ≡ eligibility_witness.nullifier)
    × (winner_witness.winner_commitment ≡ eligibility_witness.bid_commitment)
witness_agreement_example =
    witness_agreement sample_json sample_ethers sample_hash sample_domains eligibility
      eligibility_witness winner winner_witness eligibility-ok winner-ok refl refl refl refl
