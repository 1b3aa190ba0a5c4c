-- ===== src/Merkle/Proofs.antt =====
-- Levels and inclusion proofs of packages/crypto/src/merkle.ts.
use native.Mathlib.Nat.{pow-suc}
use fairproof_bcolbd.Prelude.{
  ℕ, zero, suc, ◌+◌, ◌-◌, ◌*◌, ◌/◌, ◌%◌, ◌^◌, ◌<◌, ◌≡◌, refl, ap, ◌∙◌, arith, true, List, [], ◌∷◌,
  length, length-append, length-replicate, replicate, ok, ◌==◌, if◌then◌else◌, Bool-cases, inl, inr,
  ◌≢◌,
}
use fairproof_bcolbd.Prelude.Int.{ℤ, eq_ℤ_refl}
use fairproof_bcolbd.Platform.{Poseidon}
use fairproof_bcolbd.Domains.{Domains}
use fairproof_bcolbd.Poseidon.{merkle_parent}
use fairproof_bcolbd.Merkle.{
  MerkleProof, Tree, IsValid, at, next_level, climb, sibling, path_loop, fold_path, verify,
  padded_leaves, root, prove, proof_at,
}

module _ (hash : Poseidon) where
  length-next_level :
      (n : ℕ) (level : List ℤ) → length level ≡ n * 2 → length (next_level hash level) ≡ n
  unfolding next_level
  length-next_level zero [] h = refl
  length-next_level (suc n) [] h = absurd (omega arith)
  length-next_level n (a ∷ []) h = absurd (omega arith)
  length-next_level zero (a ∷ b ∷ level) h = absurd (omega arith)
  length-next_level (suc n) (a ∷ b ∷ level) h = ap suc (length-next_level n level (omega arith))

  at-next_level :
      (level : List ℤ) (k : ℕ)
      → k * 2 + 1 < length level
      → at (next_level hash level) k ≡ merkle_parent hash (at level (k * 2)) (at level (k * 2 + 1))
  unfolding next_level
  at-next_level [] k h = absurd (omega arith)
  at-next_level (a ∷ []) k h = absurd (omega arith)
  at-next_level (a ∷ b ∷ level) zero h = refl
  at-next_level (a ∷ b ∷ level) (suc k) h =
      let e : suc k * 2 ≡ suc (suc (k * 2)) = omega arith in
      let f : suc k * 2 + 1 ≡ suc (suc (k * 2 + 1)) = omega arith in
      rw (f, e) (at-next_level level k (omega arith))

  -- Going up one step from any node is the node's parent on the next level.
  step_up :
      (level : List ℤ) (i n : ℕ)
      → length level ≡ n * 2
      → i < n * 2
      → (if (if i % 2 == 1 then 1 else 0) == 1
          then merkle_parent hash (sibling hash level i) (at level i)
          else merkle_parent hash (at level i) (sibling hash level i))
        ≡ at (next_level hash level) (i / 2)
  step_up level i n len small = elim (Bool-cases (i % 2 == 1)) [
    | inl odd ↦
        let o : i % 2 ≡ 1 = ground arith in
        let e : i / 2 * 2 + 1 ≡ i = omega arith in
        let f : i / 2 * 2 ≡ i - 1 = omega arith in
        rw (odd, at-next_level level (i / 2) (omega arith), e, f) refl
    | inr even ↦
        let o : i % 2 ≢ 1 = ground arith in
        let f : i / 2 * 2 ≡ i = omega arith in
        rw (even, at-next_level level (i / 2) (omega arith), f) refl
  ]

  fold_path-path_loop :
      (d : ℕ) (level : List ℤ) (i : ℕ)
      → length level ≡ 2 ^ d
      → i < 2 ^ d
      → fold_path hash (at level i) (path_loop hash d level i).0 (path_loop hash d level i).1
        ≡ at (climb hash d level) 0
  unfolding fold_path path_loop climb
  fold_path-path_loop zero level i len small = let e : i ≡ 0 = omega arith in ap (at level) e
  fold_path-path_loop (suc d) level i len small =
      let len' : length level ≡ 2 ^ d * 2 = len ∙ pow-suc 2 d in
      let small' : i < 2 ^ d * 2 = omega (arith, pow-suc 2 d) in
      let (rest, path) = path_loop hash d (next_level hash level) (i / 2) in
      ap (λ node. fold_path hash node rest path) (step_up level i (2 ^ d) len' small')
      ∙ (fold_path-path_loop d (next_level hash level) (i / 2)
          (length-next_level (2 ^ d) level len') (omega arith))

  length-path_loop :
      (d : ℕ) (level : List ℤ) (i : ℕ)
      → (length (path_loop hash d level i).0 ≡ d) × (length (path_loop hash d level i).1 ≡ d)
  unfolding path_loop
  length-path_loop zero level i = (refl, refl)
  length-path_loop (suc d) level i =
      let (a, b) = length-path_loop d (next_level hash level) (i / 2) in (ap suc a, ap suc b)

module _ (hash : Poseidon) (domains : Domains) where
  pub length-padded_leaves :
      (t : Tree) → IsValid t → length (padded_leaves hash domains t) ≡ 2 ^ t.depth
  unfolding padded_leaves
  length-padded_leaves t v = omega (
    arith,
    length-append t.leaves (replicate (t.capacity - length t.leaves) domains.padding),
    length-replicate (t.capacity - length t.leaves) domains.padding,
    v.sized,
    v.bounded,
  )

  -- In a valid tree `proof` succeeds on every index below the capacity; what it returns is about
  -- the padded leaf at that index and the tree's root, has one sibling and one path index for each
  -- level, and passes `verify`.
  pub prove-verify :
      (t : Tree) (index : ℕ)
      → IsValid t
      → index < t.capacity
      → (p : MerkleProof) × (prove hash domains t index ≡ ok p)
        × (verify hash p ≡ true)
        × (p.leaf ≡ at (padded_leaves hash domains t) index)
        × (p.root ≡ root hash domains t)
        × (length p.siblings ≡ t.depth)
        × (length p.path_indices ≡ t.depth)
  unfolding prove verify root
  prove-verify t index v small =
      let level = padded_leaves hash domains t in
      let e : fold_path hash (at level index) (path_loop hash t.depth level index).0
            (path_loop hash t.depth level index).1
          ≡ at (climb hash t.depth level) 0 =
        fold_path-path_loop hash t.depth level index (length-padded_leaves t v)
          (rw (← v.sized) small) in
      let (a, b) = length-path_loop hash t.depth level index in
      (
        proof_at hash domains t index,
        ground arith,
        rw e (eq_ℤ_refl (at (climb hash t.depth level) 0)),
        refl,
        refl,
        a,
        b,
      )
