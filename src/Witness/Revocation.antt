-- ===== src/Witness/Revocation.antt =====
-- The sibling paths of the revocation tree of packages/crypto/src/witness.ts.
use native.Mathlib.Nat.{pow-suc}
use fairproof_bcolbd.Prelude.{
  ℕ, zero, suc, ◌/◌, ◌%◌, ◌^◌, ◌<◌, ◌≡◌, ◌≢◌, refl, sym, ap, ◌∙◌, arith, Bool, true, false, ◌==◌,
  if◌then◌else◌, List, Bool-cases, inl, inr,
}
use fairproof_bcolbd.Prelude.Int.{ℤ, pos}
use fairproof_bcolbd.Platform.{Poseidon}
use fairproof_bcolbd.Poseidon.{merkle_parent}
use fairproof_bcolbd.Merkle.{fold_path}
use fairproof_bcolbd.Witness.{
  empty_hashes, id_bits, path_nodes, sibling_block, siblings_loop, last_node, revocation_root,
  siblings_for,
}

module _ (hash : Poseidon) where
  -- the node that the path of the revoked id reaches one level up
  up : ℕ → ℤ → ℤ → ℤ
  up v node z = if v % 2 == 1 then merkle_parent hash z node else merkle_parent hash node z

  -- the path of the revoked id from a level up
  climb_path : ℕ → ℕ → ℤ → ℤ → List ℤ
  climb_path n v node z = path_nodes hash node (id_bits hash n v) (empty_hashes hash n z)

  last_node-path :
      (n v : ℕ) (node z : ℤ)
      → last_node hash (climb_path (suc n) v node z)
        ≡ last_node hash (climb_path n (v / 2) (up v node z) (merkle_parent hash z z))
  unfolding climb_path path_nodes id_bits empty_hashes up
  last_node-path zero v node z = refl
  last_node-path (suc n) v node z = refl

  -- the root that a verifier computes for the block `q` from a node
  recomputed : ℕ → ℕ → ℕ → ℤ → ℤ → ℤ → ℤ
  recomputed n q v start node z =
      fold_path hash start (siblings_loop hash q v (climb_path n v node z) (empty_hashes hash n z))
        (id_bits hash n q)

  recomputed-suc :
      (n q v : ℕ) (start node z : ℤ)
      → recomputed (suc n) q v start node z
        ≡ recomputed n
            (q / 2)
            (v / 2)
            (up q start (if v == sibling_block hash q then node else z))
            (up v node z)
            (merkle_parent hash z z)
  unfolding recomputed climb_path path_nodes id_bits empty_hashes siblings_loop fold_path up
  recomputed-suc zero q v start node z = refl
  recomputed-suc (suc n) q v start node z = refl

  up_sibling :
      (q v : ℕ) (node z : ℤ) → (v == sibling_block hash q) ≡ true → up q z node ≡ up v node z
  unfolding up
  up_sibling q v node z h = ground arith

  up_empty : (q : ℕ) (z : ℤ) → up q z z ≡ merkle_parent hash z z
  unfolding up
  up_empty q z = ground arith

  -- From its own node the revoked id recomputes the root.
  recomputed_revoked :
      (n v : ℕ) (node z : ℤ) → recomputed n v v node node z ≡ last_node hash (climb_path n v node z)
  unfolding recomputed climb_path path_nodes id_bits empty_hashes siblings_loop fold_path
  recomputed_revoked zero v node z = refl
  recomputed_revoked (suc n) v node z =
      let other : (v == sibling_block hash v) ≡ false = ground arith in
      recomputed-suc n v v node node z
      ∙ ap
          (λ (b : Bool).
            recomputed n (v / 2) (v / 2) (up v node (if b then node else z)) (up v node z)
              (merkle_parent hash z z))
          other
      ∙ recomputed_revoked n (v / 2) (up v node z) (merkle_parent hash z z)
      ∙ sym (last_node-path n v node z)

  -- So does every other id, from the hash of the empty subtree.
  recomputed_other :
      (n q v : ℕ) (node z : ℤ)
      → q < 2 ^ n
      → v < 2 ^ n
      → q ≢ v
      → recomputed n q v z node z ≡ last_node hash (climb_path n v node z)
  recomputed_other zero q v node z hq hv ne = absurd (ne (omega arith))
  recomputed_other (suc n) q v node z hq hv ne =
      let above = merkle_parent hash z z in
      let here = λ (b : Bool).
        recomputed n (q / 2) (v / 2) (up q z (if b then node else z)) (up v node z) above in
      recomputed-suc n q v z node z
      ∙ elim (Bool-cases (v == sibling_block hash q)) [
        | inl e ↦
            let block : q / 2 ≡ v / 2 = ground arith in
            ap here e
            ∙ ap (λ (k : ℕ). recomputed n k (v / 2) (up q z node) (up v node z) above) block
            ∙ ap (λ (m : ℤ). recomputed n (v / 2) (v / 2) m (up v node z) above)
                (up_sibling q v node z e)
            ∙ recomputed_revoked n (v / 2) (up v node z) above
        | inr e ↦
            let apart : q / 2 ≢ v / 2 = ground arith in
            ap here e
            ∙ ap (λ (m : ℤ). recomputed n (q / 2) (v / 2) m (up v node z) above) (up_empty q z)
            ∙ recomputed_other n (q / 2) (v / 2) (up v node z) above (omega (arith, pow-suc 2 n))
                (omega (arith, pow-suc 2 n)) apart
      ]
      ∙ sym (last_node-path n v node z)

-- The path that `siblingsFor` gives for an id below 2 ** depth recomputes the root of the tree in
-- which one id is revoked: from a zero leaf if the id is another one, and from the marker if it is
-- the revoked id.
pub siblings_for-revocation_root :
    (hash : Poseidon) (revoked id depth : ℕ) (marker : ℤ)
    → revoked < 2 ^ depth
    → id < 2 ^ depth
    → fold_path hash
        (if id == revoked then marker else pos 0)
        (siblings_for hash revoked marker depth id)
        (id_bits hash depth id)
      ≡ revocation_root hash revoked marker depth
unfolding siblings_for revocation_root recomputed climb_path
siblings_for-revocation_root hash revoked id depth marker hr hi =
    elim (Bool-cases (id == revoked)) [
      | inl e ↦
          let same : id ≡ revoked = ground arith in
          ap
            (λ (b : Bool).
              fold_path hash (if b then marker else pos 0)
                (siblings_for hash revoked marker depth id) (id_bits hash depth id))
            e
          ∙ ap
              (λ (k : ℕ).
                fold_path hash marker (siblings_for hash revoked marker depth k)
                  (id_bits hash depth k))
              same
          ∙ recomputed_revoked hash depth revoked marker (pos 0)
      | inr e ↦
          let ne : id ≢ revoked = ground arith in
          ap
            (λ (b : Bool).
              fold_path hash (if b then marker else pos 0)
                (siblings_for hash revoked marker depth id) (id_bits hash depth id))
            e
          ∙ recomputed_other hash depth id revoked marker (pos 0) hi hr ne
    ]
