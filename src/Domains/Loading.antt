-- ===== src/Domains/Loading.antt =====
-- Loading packages/crypto/src/domains.ts never throws, and what its raw constants are.
use fairproof_bcolbd.Prelude.{
  ℕ, ◌<◌, ◌^◌, ◌≡◌, refl, sym, ap, ◌∙◌, ok, ◌>>=◌, >>=-eq-ok, ok-injective, length,
}
use fairproof_bcolbd.Prelude.Int.{pos, pos-injective}
use fairproof_bcolbd.Field.{Bytes, Text, hex, to_bigint, to_field, write_bytes, parse_hex, strip_0x}
use fairproof_bcolbd.Field.Bytes.{IsBytes, to_bytes-eq-ok, to_bytes-ok_iff}
use fairproof_bcolbd.Field.Limbs.{to_bigint-to_hex32, to_field_bounds}
use fairproof_bcolbd.Platform.{Ethers, EthersLaws, codes}
use fairproof_bcolbd.Domains.{Domains, raw, load_domains}

module _ {e : Ethers} (laws : EthersLaws e) where
  -- A digest reads back as a value below 2 ** 256, and `toField` accepts it.
  pub to_bigint-keccak256 :
      (bs : Bytes) → to_bigint (hex (e.keccak256 bs)) ≡ ok (pos (laws.keccak_value bs))
  to_bigint-keccak256 bs =
      ap (λ r. r >>= λ s. to_bigint (hex s)) (sym (laws.keccak_hex bs))
      ∙ to_bigint-to_hex32 (laws.keccak_value bs) (laws.keccak_fits bs)

  pub to_field-keccak256 :
      (bs : Bytes) → (f : ℕ) × (to_field (hex (e.keccak256 bs)) ≡ ok (pos f)) × (f < 2 ^ 248)
  to_field-keccak256 bs =
      let t =
        to_field_bounds (hex (e.keccak256 bs)) (laws.keccak_value bs) (to_bigint-keccak256 bs)
          (laws.keccak_fits bs) in
      (t.0, t.1, t.2)

  -- `getBytes` of a digest is 32 bytes.
  pub get_bytes-keccak256 :
      (bs : Bytes)
      → (out : Bytes) × (e.get_bytes (e.keccak256 bs) ≡ ok out) × (length out ≡ 32) × IsBytes out
  get_bytes-keccak256 bs =
      let written = to_bytes-eq-ok (laws.keccak_value bs) 32 (laws.keccak_fits bs) in
      let (len, small, _) = (to_bytes-ok_iff (pos (laws.keccak_value bs)) 32 _).0 written in
      (
        (write_bytes 32 (laws.keccak_value bs) _).0,
        laws.get_bytes_hex (laws.keccak_value bs) (e.keccak256 bs) (laws.keccak_hex bs) ∙ written,
        len,
        small,
      )

  field_of : Text → ℕ
  field_of label = (to_field-keccak256 (e.to_utf8_bytes label)).0

  to_field-raw : (label : Text) → to_field (hex (raw e label)) ≡ ok (pos (field_of label))
  unfolding raw field_of
  to_field-raw label = (to_field-keccak256 (e.to_utf8_bytes label)).1

  -- The constants that loading gives.
  pub loaded : Domains
  loaded = record {
    raw_tender_id = raw e (codes "FairProof:tenderId:v1");
    raw_ciphertext = raw e (codes "FairProof:ciphertext:v1");
    raw_receipt = raw e (codes "FairProof:receipt:v1");
    raw_dek = raw e (codes "FairProof:dek:v1");
    raw_dleq = raw e (codes "FairProof:dleq:v1");
    raw_identity_record = raw e (codes "FairProof:identityRecord:v1");
    raw_receipt_sig = raw e (codes "FairProof:receiptSig:v1");
    cred = pos (field_of (codes "FairProof:cred:v1"));
    leaf = pos (field_of (codes "FairProof:leaf:v1"));
    padding = pos (field_of (codes "FairProof:padding:v1"));
    nullifier = pos (field_of (codes "FairProof:nullifier:v1"));
    bid_commit = pos (field_of (codes "FairProof:bidCommitment:v1"));
    subject = pos (field_of (codes "FairProof:subject:v1"));
    identity = pos (field_of (codes "FairProof:identity:v1"));
  }

  -- Loading the module does not throw.
  pub load_domains-ok : load_domains e ≡ ok loaded
  unfolding load_domains loaded
  load_domains-ok =
      rw
        (
          to_field-raw (codes "FairProof:cred:v1"),
          to_field-raw (codes "FairProof:leaf:v1"),
          to_field-raw (codes "FairProof:padding:v1"),
          to_field-raw (codes "FairProof:nullifier:v1"),
          to_field-raw (codes "FairProof:bidCommitment:v1"),
          to_field-raw (codes "FairProof:subject:v1"),
          to_field-raw (codes "FairProof:identity:v1"),
        )
        refl

  -- The raw constants of a loaded module that enter byte strings read as bytes.
  pub raw_dek-bytes :
      (domains : Domains)
      → load_domains e ≡ ok domains
      → (out : Bytes) × (e.get_bytes domains.raw_dek ≡ ok out)
  unfolding loaded raw
  raw_dek-bytes domains h =
      let same : loaded ≡ domains = ok-injective (sym load_domains-ok ∙ h) in
      let (out, read, _, _) = get_bytes-keccak256 (e.to_utf8_bytes (codes "FairProof:dek:v1")) in
      (out, ap (λ (d : Domains). e.get_bytes d.raw_dek) (sym same) ∙ read)

  pub raw_dleq-bytes :
      (domains : Domains)
      → load_domains e ≡ ok domains
      → (out : Bytes) × (e.get_bytes domains.raw_dleq ≡ ok out)
  unfolding loaded raw
  raw_dleq-bytes domains h =
      let same : loaded ≡ domains = ok-injective (sym load_domains-ok ∙ h) in
      let (out, read, _, _) = get_bytes-keccak256 (e.to_utf8_bytes (codes "FairProof:dleq:v1")) in
      (out, ap (λ (d : Domains). e.get_bytes d.raw_dleq) (sym same) ∙ read)

  -- The hex string of a digest is read as its value.
  pub parse_hex-keccak256 :
      (bs : Bytes) → parse_hex 0 (strip_0x (e.keccak256 bs)) ≡ ok (laws.keccak_value bs)
  unfolding to_bigint
  parse_hex-keccak256 bs =
      let (v, parsed, same) =
        >>=-eq-ok (parse_hex 0 (strip_0x (e.keccak256 bs))) (λ v. ok (pos v))
          (to_bigint-keccak256 bs) in
      parsed ∙ ap ok (pos-injective (ok-injective same))
