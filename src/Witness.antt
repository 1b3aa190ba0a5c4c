-- ===== src/Witness.antt =====
-- packages/crypto/src/witness.ts: Merkle witnesses of the issuer registry and of the revocation
-- tree, and the witness of the eligibility circuit. A credential id is a natural number.
pub mod Revocation
use fairproof_bcolbd.Prelude.{
  ℕ, zero, suc, ◌+◌, ◌-◌, ◌/◌, ◌%◌, Bool, true, false, not, List, [], ◌∷◌, map, ◌==◌, if◌then◌else◌,
  Option, none, some, Result, ok, err, Error, ◌>>=◌, ◌>>◌, throw_if, map_ok,
}
use fairproof_bcolbd.Prelude.Int.{ℤ, pos, eq_ℤ}
use fairproof_bcolbd.Field.{Text, hex, to_limbs}
use fairproof_bcolbd.Platform.{Poseidon}
use fairproof_bcolbd.Domains.{Domains, schema_version, issuer_tree_depth}
use fairproof_bcolbd.Poseidon.{
  CredentialFields, merkle_parent, subject_commitment, nullifier, bid_commitment,
}
use fairproof_bcolbd.Merkle
use fairproof_bcolbd.Merkle.{insert_all, prove, root_from_leaves}

pub record IssuerPublicKey : Type 0 where
  pub x : ℤ
  pub y : ℤ

pub record EddsaSignature : Type 0 where
  pub r8x : ℤ
  pub r8y : ℤ
  pub s : ℤ

pub record SignedCredential : Type 0 where
  pub fields : CredentialFields
  pub signature : EddsaSignature
  pub issuer_public_key : IssuerPublicKey

pub record TenderPublicInputs : Type 0 where
  pub tender_id_field : ℤ
  pub rules_hash : Text
  pub turnover_threshold : ℤ
  pub experience_months_threshold : ℤ
  pub required_certification_code : ℤ
  pub deadline : ℤ
  pub issuer_registry_root : ℤ
  pub revocation_root : ℤ
  pub credential_epoch : ℤ

pub record MerkleWitnesses : Type 0 where
  pub issuer_path_elements : List ℤ
  pub issuer_path_indices : List ℕ
  pub revocation_path_elements : List ℤ

module _ (hash : Poseidon) where
  unfoldable pub issuer_registry_leaf : IssuerPublicKey → ℤ
  issuer_registry_leaf key = merkle_parent hash key.x key.y

  -- the loop of `emptyRevocationTree`, and of the empty-subtree hashes of `revocationTreeWith`
  unfoldable pub empty_hashes : ℕ → ℤ → List ℤ
  empty_hashes zero node = []
  empty_hashes (suc n) node = node ∷ empty_hashes n (merkle_parent hash node node)

  -- the node that the loop of `emptyRevocationTree` ends with
  unfoldable pub empty_node : ℕ → ℤ → ℤ
  empty_node zero node = node
  empty_node (suc n) node = empty_node n (merkle_parent hash node node)

  -- the fields `root` and `siblings`
  unfoldable pub empty_revocation_tree : ℕ → ℤ × List ℤ
  empty_revocation_tree depth = (empty_node depth (pos 0), empty_hashes depth (pos 0))

  -- `(id >> BigInt(i)) & 1n`, i = 0, 1, …
  unfoldable pub id_bits : ℕ → ℕ → List ℕ
  id_bits zero id = []
  id_bits (suc n) id = id % 2 ∷ id_bits n (id / 2)

  -- the loop for `pathNodes`, from a node on
  unfoldable pub path_nodes : ℤ → List ℕ → List ℤ → List ℤ
  path_nodes node [] zeros = node ∷ []
  path_nodes node (bit ∷ bits) [] = node ∷ []
  path_nodes node (bit ∷ bits) (z ∷ zeros) =
      node
      ∷ path_nodes (if bit == 1 then merkle_parent hash z node else merkle_parent hash node z) bits
          zeros

  -- `v ^ 1n`
  abbrev pub sibling_block : ℕ → ℕ
  sibling_block v = if v % 2 == 1 then v - 1 else v + 1

  -- the loop of `siblingsFor`, with the two blocks at the level
  unfoldable pub siblings_loop : ℕ → ℕ → List ℤ → List ℤ → List ℤ
  siblings_loop query revoked nodes [] = []
  siblings_loop query revoked [] (z ∷ zeros) = []
  siblings_loop query revoked (node ∷ nodes) (z ∷ zeros) =
      (if revoked == sibling_block query then node else z)
      ∷ siblings_loop (query / 2) (revoked / 2) nodes zeros

  -- `pathNodes[depth]`
  abbrev pub last_node : List ℤ → ℤ
  last_node [] = pos 0
  last_node (node ∷ []) = node
  last_node (node ∷ next ∷ nodes) = last_node (next ∷ nodes)

  abbrev pub revoked_path : ℕ → ℤ → ℕ → List ℤ
  revoked_path revoked marker depth =
      path_nodes marker (id_bits depth revoked) (empty_hashes depth (pos 0))

  -- `revocationTreeWith(…).root` and `.siblingsFor(id)`
  unfoldable pub revocation_root : ℕ → ℤ → ℕ → ℤ
  revocation_root revoked marker depth = last_node (revoked_path revoked marker depth)

  unfoldable pub siblings_for : ℕ → ℤ → ℕ → ℕ → List ℤ
  siblings_for revoked marker depth id =
      siblings_loop id revoked (revoked_path revoked marker depth) (empty_hashes depth (pos 0))

pub record EligibilityWitness : Type 0 where
  pub subject_secret : ℤ
  pub annual_turnover : ℤ
  pub relevant_experience : ℤ
  pub certification_code : ℤ
  pub cert_valid_until : ℤ
  pub credential_valid_until : ℤ
  pub credential_id : ℤ
  pub issued_at : ℤ
  pub issuer_pub_key_x : ℤ
  pub issuer_pub_key_y : ℤ
  pub issuer_sig_r8x : ℤ
  pub issuer_sig_r8y : ℤ
  pub issuer_sig_s : ℤ
  pub issuer_path_elements : List ℤ
  pub issuer_path_indices : List ℕ
  pub revocation_path_elements : List ℤ
  pub bid_amount : ℤ
  pub bid_nonce : ℤ
  pub tender_id_field : ℤ
  pub rules_hash_hi : ℤ
  pub rules_hash_lo : ℤ
  pub turnover_threshold : ℤ
  pub experience_months_threshold : ℤ
  pub required_certification_code : ℤ
  pub deadline : ℤ
  pub issuer_registry_root : ℤ
  pub revocation_root : ℤ
  pub credential_epoch : ℤ
  pub nullifier : ℤ
  pub bid_commitment : ℤ

pub record EligibilityParams : Type 0 where
  pub credential : SignedCredential
  pub subject_secret : ℤ
  pub bid_amount : ℤ
  pub bid_nonce : ℤ
  pub tender : TenderPublicInputs
  pub merkle : MerkleWitnesses

module _ (hash : Poseidon) (domains : Domains) where
  unfoldable pub issuer_registry_root : List IssuerPublicKey → Result ℤ
  issuer_registry_root keys =
      root_from_leaves hash domains (map (issuer_registry_leaf hash) keys) issuer_tree_depth

  -- the fields `pathElements` and `pathIndices`
  unfoldable pub issuer_registry_path : List IssuerPublicKey → ℕ → Result (List ℤ × List ℕ)
  issuer_registry_path keys index = do
    tree ←
        insert_all (Merkle.new hash domains issuer_tree_depth)
          (map (issuer_registry_leaf hash) keys)
    proof ← prove hash domains tree index
    ok (proof.siblings, proof.path_indices)

  unfoldable pub build_eligibility_witness : EligibilityParams → Result EligibilityWitness
  build_eligibility_witness p = do
    let f = p.credential.fields
    expected_subject ← subject_commitment hash domains p.subject_secret
    throw_if (not (eq_ℤ f.subject_commitment expected_subject)) Error.subject_mismatch
    throw_if (not (eq_ℤ f.schema_version schema_version)) Error.schema_mismatch
    nul ← nullifier hash domains p.subject_secret p.tender.tender_id_field
    commitment ← bid_commitment hash domains p.bid_amount p.bid_nonce p.tender.tender_id_field nul
    limbs ← to_limbs (hex p.tender.rules_hash)
    ok (record {
      subject_secret = p.subject_secret;
      annual_turnover = f.annual_turnover;
      relevant_experience = f.relevant_experience;
      certification_code = f.certification_code;
      cert_valid_until = f.cert_valid_until;
      credential_valid_until = f.credential_valid_until;
      credential_id = f.credential_id;
      issued_at = f.issued_at;
      issuer_pub_key_x = p.credential.issuer_public_key.x;
      issuer_pub_key_y = p.credential.issuer_public_key.y;
      issuer_sig_r8x = p.credential.signature.r8x;
      issuer_sig_r8y = p.credential.signature.r8y;
      issuer_sig_s = p.credential.signature.s;
      issuer_path_elements = p.merkle.issuer_path_elements;
      issuer_path_indices = p.merkle.issuer_path_indices;
      revocation_path_elements = p.merkle.revocation_path_elements;
      bid_amount = p.bid_amount;
      bid_nonce = p.bid_nonce;
      tender_id_field = p.tender.tender_id_field;
      rules_hash_hi = limbs.0;
      rules_hash_lo = limbs.1;
      turnover_threshold = p.tender.turnover_threshold;
      experience_months_threshold = p.tender.experience_months_threshold;
      required_certification_code = p.tender.required_certification_code;
      deadline = p.tender.deadline;
      issuer_registry_root = p.tender.issuer_registry_root;
      revocation_root = p.tender.revocation_root;
      credential_epoch = f.issuer_epoch;
      nullifier = nul;
      bid_commitment = commitment;
    })
