-- ===== src/Merkle.antt =====
-- packages/crypto/src/merkle.ts: the incremental Merkle tree of fixed depth.
pub mod Proofs
pub mod Binding
pub mod Insertion
use fairproof_bcolbd.Prelude.{
  ℕ, zero, suc, ◌+◌, ◌-◌, ◌/◌, ◌%◌, ◌^◌, ◌≤◌, ◌≡◌, Bool, List, [], ◌∷◌, ◌++◌, ltb, leb, ◌==◌,
  if◌then◌else◌, length, get_or, replicate, Result, ok, err, Error, ◌>>=◌, ◌>>◌, throw_if,
}
use fairproof_bcolbd.Prelude.Int.{ℤ, pos, eq_ℤ}
use fairproof_bcolbd.Platform.{Poseidon}
use fairproof_bcolbd.Domains.{Domains}
use fairproof_bcolbd.Poseidon.{merkle_parent, zero_hashes}

pub record MerkleProof : Type 0 where
  pub leaf : ℤ
  pub index : ℕ
  pub siblings : List ℤ
  pub path_indices : List ℕ
  pub root : ℤ

-- class IncrementalMerkleTree
pub record Tree : Type 0 where
  pub depth : ℕ
  pub capacity : ℕ
  pub zeros : List ℤ
  pub leaves : List ℤ

-- `level[i]`. No index is out of range: a level has 2 ** (depth - d) nodes.
abbrev pub at : List ℤ → ℕ → ℤ
at level i = get_or level i (pos 0)

-- `get size`
abbrev pub size : Tree → ℕ
size t = length t.leaves

unfoldable pub insert : Tree → ℤ → Result (Tree × ℕ)
insert t leaf = do
  throw_if (leb t.capacity (length t.leaves)) Error.capacity_exhausted
  ok (record t { leaves = t.leaves ++ leaf ∷ [] }, length t.leaves)

-- `for (const leaf of leaves) tree.insert(leaf)`
unfoldable pub insert_all : Tree → List ℤ → Result Tree
insert_all t [] = ok t
insert_all t (leaf ∷ leaves) = do (t', _) ← insert t leaf; insert_all t' leaves

-- the head and the rest of `proof.pathIndices[d]`, d = 0, 1, …; past the end it is `undefined`
abbrev pub head_index : List ℕ → ℕ
head_index [] = 0
head_index (i ∷ path) = i

abbrev pub tail_indices : List ℕ → List ℕ
tail_indices [] = []
tail_indices (i ∷ path) = path

module _ (hash : Poseidon) where
  -- the inner loop of `root` and `proof`: the next level up
  unfoldable pub next_level : List ℤ → List ℤ
  next_level [] = []
  next_level (left ∷ []) = []
  next_level (left ∷ right ∷ level) = merkle_parent hash left right ∷ next_level level

  -- the outer loop of `root`, for the rounds that are left
  unfoldable pub climb : ℕ → List ℤ → List ℤ
  climb zero level = level
  climb (suc d) level = climb d (next_level level)

  -- the sibling that a round of `proof` takes
  abbrev pub sibling : List ℤ → ℕ → ℤ
  sibling level idx = if idx % 2 == 1 then at level (idx - 1) else at level (idx + 1)

  -- the loop of `proof`: siblings and path indices
  unfoldable pub path_loop : ℕ → List ℤ → ℕ → List ℤ × List ℕ
  path_loop zero level idx = ([], [])
  path_loop (suc d) level idx =
      let (siblings, path_indices) = path_loop d (next_level level) (idx / 2) in
      (sibling level idx ∷ siblings, (if idx % 2 == 1 then 1 else 0) ∷ path_indices)

  -- the loop of `verify`
  unfoldable pub fold_path : ℤ → List ℤ → List ℕ → ℤ
  fold_path node [] path = node
  fold_path node (s ∷ siblings) path =
      fold_path
        (if head_index path == 1 then merkle_parent hash s node else merkle_parent hash node s)
        siblings (tail_indices path)

  unfoldable pub verify : MerkleProof → Bool
  verify proof = eq_ℤ (fold_path proof.leaf proof.siblings proof.path_indices) proof.root

module _ (hash : Poseidon) (domains : Domains) where
  -- constructor
  unfoldable pub new : ℕ → Tree
  new depth = record {
    depth = depth;
    capacity = 2 ^ depth;
    zeros = zero_hashes hash domains depth;
    leaves = [];
  }

  unfoldable pub padded_leaves : Tree → List ℤ
  padded_leaves t = t.leaves ++ replicate (t.capacity - length t.leaves) domains.padding

  unfoldable pub root : Tree → ℤ
  root t = at (climb hash t.depth (padded_leaves t)) 0

  -- what `proof` returns
  abbrev pub proof_at : Tree → ℕ → MerkleProof
  proof_at t index =
      let level = padded_leaves t in
      let (siblings, path_indices) = path_loop hash t.depth level index in
      record {
        leaf = at level index;
        index = index;
        siblings = siblings;
        path_indices = path_indices;
        root = at (climb hash t.depth level) 0;
      }

  unfoldable pub prove : Tree → ℕ → Result MerkleProof
  prove t index = do throw_if (leb t.capacity index) Error.index_out_of_range; ok (proof_at t index)

  unfoldable pub empty_root : ℕ → ℤ
  empty_root depth = at (zero_hashes hash domains depth) depth

  unfoldable pub root_from_leaves : List ℤ → ℕ → Result ℤ
  root_from_leaves leaves depth = do
    throw_if (ltb (2 ^ depth) (length leaves)) Error.too_many_leaves
    tree ← insert_all (new depth) leaves
    ok (root tree)

-- The invariant: what the constructor fixes, and no more leaves than the capacity.
pub record IsValid (t : Tree) : Type 0 where
  pub sized : t.capacity ≡ 2 ^ t.depth
  pub bounded : length t.leaves ≤ t.capacity
