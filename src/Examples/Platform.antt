-- ===== src/Examples/Platform.antt =====
-- A hash, constants and a platform for the concrete inputs.
use fairproof_bcolbd.Prelude.{ℕ, ◌+◌, ◌*◌, ◌%◌, List, [], ◌∷◌, Result, ok, err}
use fairproof_bcolbd.Prelude.Int.{ℤ, pos, negsuc}
use fairproof_bcolbd.Field.{field_prime}
use fairproof_bcolbd.Platform.{Poseidon}
use fairproof_bcolbd.Domains.{Domains}

-- the value of a result, or another value in place of an error
abbrev pub ok_or {ℓ} : {A : Type ℓ} → A → Result A → A
ok_or d (ok a) = a
ok_or d (err e) = d

abbrev pub mix : List ℤ → ℕ
mix [] = 7
mix (pos v ∷ vs) = (v * 31 + mix vs * 17 + 1) % field_prime
mix (negsuc v ∷ vs) = (v * 37 + mix vs * 19 + 2) % field_prime

abbrev pub sample_hash : Poseidon
sample_hash inputs = pos (mix inputs)

abbrev pub sample_domains : Domains
sample_domains = record {
  raw_tender_id = b'a' ∷ b'1' ∷ [];
  raw_ciphertext = b'a' ∷ b'2' ∷ [];
  raw_receipt = b'a' ∷ b'3' ∷ [];
  raw_dek = b'a' ∷ b'4' ∷ [];
  raw_dleq = b'a' ∷ b'5' ∷ [];
  raw_identity_record = b'a' ∷ b'6' ∷ [];
  raw_receipt_sig = b'a' ∷ b'7' ∷ [];
  cred = pos 101;
  leaf = pos 102;
  padding = pos 103;
  nullifier = pos 104;
  bid_commit = pos 105;
  subject = pos 106;
  identity = pos 107;
}
