-- ===== src/Examples/Trees.antt =====
-- The theorems on Merkle trees at concrete inputs.
use fairproof_bcolbd.Prelude.{◌≡◌, refl, arith, true, [], ◌∷◌, length, ok}
use fairproof_bcolbd.Prelude.Int.{ℤ, pos, ne_of_eq_ℤ}
use fairproof_bcolbd.Merkle.{
  Tree, MerkleProof, IsValid, at, prove, verify, root, new, insert, padded_leaves, fold_path,
  empty_root,
}
use fairproof_bcolbd.Merkle.Proofs.{prove-verify}
use fairproof_bcolbd.Merkle.Binding.{Collision, verify_binding}
use fairproof_bcolbd.Merkle.Insertion.{root-new, insert-ok}
use fairproof_bcolbd.Witness.{siblings_for, id_bits, revocation_root}
use fairproof_bcolbd.Witness.Revocation.{siblings_for-revocation_root}
use fairproof_bcolbd.Platform.{Poseidon}
use fairproof_bcolbd.Examples.Platform.{sample_hash, sample_domains}

abbrev tree : Tree
tree = record { depth = 2; capacity = 4; zeros = []; leaves = pos 11 ∷ pos 12 ∷ pos 13 ∷ [] }

tree-IsValid : IsValid tree
tree-IsValid = record { sized = refl; bounded = omega arith }

prove-verify_example :
    (p : MerkleProof) × (prove sample_hash sample_domains tree 2 ≡ ok p)
    × (verify sample_hash p ≡ true)
    × (p.leaf ≡ at (padded_leaves sample_hash sample_domains tree) 2)
    × (p.root ≡ root sample_hash sample_domains tree)
    × (length p.siblings ≡ 2)
    × (length p.path_indices ≡ 2)
prove-verify_example = prove-verify sample_hash sample_domains tree 2 tree-IsValid (omega arith)

-- a hash with collisions
abbrev weak_hash : Poseidon
weak_hash inputs = pos 7

abbrev proof_of : ℤ → MerkleProof
proof_of leaf = record {
  leaf = leaf;
  index = 0;
  siblings = pos 3 ∷ [];
  path_indices = 0 ∷ [];
  root = pos 7;
}

proof_of-verify : (leaf : ℤ) → verify weak_hash (proof_of leaf) ≡ true
unfolding verify fold_path
proof_of-verify leaf = refl

verify_binding_example : Collision weak_hash
verify_binding_example =
    verify_binding weak_hash (proof_of (pos 1)) (proof_of (pos 2)) (proof_of-verify (pos 1))
      (proof_of-verify (pos 2)) refl refl refl (ne_of_eq_ℤ (pos 1) (pos 2) refl)

siblings_for-revocation_root_example :
    fold_path sample_hash (pos 0) (siblings_for sample_hash 5 (pos 1) 3 6) (id_bits sample_hash 3 6)
    ≡ revocation_root sample_hash 5 (pos 1) 3
siblings_for-revocation_root_example =
    siblings_for-revocation_root sample_hash 5 6 3 (pos 1) (omega arith) (omega arith)

root-new_example :
    root sample_hash sample_domains (new sample_hash sample_domains 3)
    ≡ empty_root sample_hash sample_domains 3
root-new_example = root-new sample_hash sample_domains 3

insert-ok_example :
    (t' : Tree) × (insert tree (pos 14) ≡ ok (t', 3))
    × IsValid t'
    × (length t'.leaves ≡ 4)
    × (at (padded_leaves sample_hash sample_domains t') 3 ≡ pos 14)
insert-ok_example = insert-ok sample_hash sample_domains tree (pos 14) tree-IsValid (omega arith) 3
