-- ===== src/Domains.antt =====
-- packages/crypto/src/domains.ts: the domain separation constants, which the module derives when
-- it is loaded, and the protocol's numbers.
pub mod Loading
use fairproof_bcolbd.Prelude.{ℕ, Result, ok, ◌>>=◌}
use fairproof_bcolbd.Prelude.Int.{ℤ, pos}
use fairproof_bcolbd.Field.{Text, hex, to_field}
use fairproof_bcolbd.Platform.{Ethers, codes}

pub record Domains : Type 0 where
  pub raw_tender_id : Text
  pub raw_ciphertext : Text
  pub raw_receipt : Text
  pub raw_dek : Text
  pub raw_dleq : Text
  pub raw_identity_record : Text
  pub raw_receipt_sig : Text
  pub cred : ℤ
  pub leaf : ℤ
  pub padding : ℤ
  pub nullifier : ℤ
  pub bid_commit : ℤ
  pub subject : ℤ
  pub identity : ℤ

unfoldable pub raw : Ethers → Text → Text
raw e label = e.keccak256 (e.to_utf8_bytes label)

unfoldable pub load_domains : Ethers → Result Domains
load_domains e = do
  cred ← to_field (hex (raw e (codes "FairProof:cred:v1")))
  leaf ← to_field (hex (raw e (codes "FairProof:leaf:v1")))
  padding ← to_field (hex (raw e (codes "FairProof:padding:v1")))
  nullifier ← to_field (hex (raw e (codes "FairProof:nullifier:v1")))
  bid_commit ← to_field (hex (raw e (codes "FairProof:bidCommitment:v1")))
  subject ← to_field (hex (raw e (codes "FairProof:subject:v1")))
  identity ← to_field (hex (raw e (codes "FairProof:identity:v1")))
  ok (record {
    raw_tender_id = raw e (codes "FairProof:tenderId:v1");
    raw_ciphertext = raw e (codes "FairProof:ciphertext:v1");
    raw_receipt = raw e (codes "FairProof:receipt:v1");
    raw_dek = raw e (codes "FairProof:dek:v1");
    raw_dleq = raw e (codes "FairProof:dleq:v1");
    raw_identity_record = raw e (codes "FairProof:identityRecord:v1");
    raw_receipt_sig = raw e (codes "FairProof:receiptSig:v1");
    cred = cred;
    leaf = leaf;
    padding = padding;
    nullifier = nullifier;
    bid_commit = bid_commit;
    subject = subject;
    identity = identity;
  })

abbrev pub schema_version : ℤ
schema_version = pos 1

abbrev pub max_bids : ℕ
max_bids = 32

abbrev pub bid_tree_depth : ℕ
bid_tree_depth = 5

abbrev pub issuer_tree_depth : ℕ
issuer_tree_depth = 4

abbrev pub receipt_tree_depth : ℕ
receipt_tree_depth = 2

abbrev pub revocation_tree_depth : ℕ
revocation_tree_depth = 32

abbrev pub committee_threshold : ℕ
committee_threshold = 3

abbrev pub committee_size : ℕ
committee_size = 5

abbrev pub storage_quorum : ℕ
storage_quorum = 2

abbrev pub storage_replicas : ℕ
storage_replicas = 3
