-- ===== src/Merkle/Binding.antt =====
-- What a verified inclusion proof of packages/crypto/src/merkle.ts binds its prover to.
use fairproof_bcolbd.Prelude.{
  ℕ, ◌≡◌, sym, ap, ◌∙◌, arith, true, false, ◌≢◌, List, [], ◌∷◌, length, ◌==◌, if◌then◌else◌, Bool,
  Bool-cases, inl, inr,
}
use fairproof_bcolbd.Prelude.Int.{ℤ, eq_ℤ, eq_of_eq_ℤ, ne_of_eq_ℤ}
use fairproof_bcolbd.Platform.{Poseidon}
use fairproof_bcolbd.Poseidon.{merkle_parent}
use fairproof_bcolbd.Merkle.{MerkleProof, fold_path, verify, head_index, tail_indices}

-- Two different pairs of nodes with one parent.
pub record Collision (hash : Poseidon) : Type 0 where
  pub left : ℤ
  pub right : ℤ
  pub left' : ℤ
  pub right' : ℤ
  pub same : merkle_parent hash left right ≡ merkle_parent hash left' right'
  pub differ : ¬ ((left ≡ left') × (right ≡ right'))

module _ (hash : Poseidon) where
  -- one round of `verify`
  step : Bool → ℤ → ℤ → ℤ
  step b s node = if b then merkle_parent hash s node else merkle_parent hash node s

  step_binding : (b : Bool) (s s' m n : ℤ) → m ≢ n → step b s m ≡ step b s' n → Collision hash
  unfolding step
  step_binding true s s' m n ne e = record {
    left = s;
    right = m;
    left' = s';
    right' = n;
    same = e;
    differ = λ h. ne h.1;
  }
  step_binding false s s' m n ne e = record {
    left = m;
    right = s;
    left' = n;
    right' = s';
    same = e;
    differ = λ h. ne h.0;
  }

  fold_path_binding :
      (xs ys : List ℤ) (path : List ℕ) (m n : ℤ)
      → length xs ≡ length ys
      → fold_path hash m xs path ≡ fold_path hash n ys path
      → m ≢ n
      → Collision hash
  unfolding fold_path step
  fold_path_binding [] [] path m n len e ne = absurd (ne e)
  fold_path_binding [] (y ∷ ys) path m n len e ne = absurd (omega arith)
  fold_path_binding (x ∷ xs) [] path m n len e ne = absurd (omega arith)
  fold_path_binding (x ∷ xs) (y ∷ ys) path m n len e ne =
      let b = head_index path == 1 in
      elim (Bool-cases (eq_ℤ (step b x m) (step b y n))) [
        | inl same ↦ step_binding b x y m n ne (eq_of_eq_ℤ (step b x m) (step b y n) same)
        | inr differ ↦
            fold_path_binding xs ys (tail_indices path) (step b x m) (step b y n) (omega arith) e
              (ne_of_eq_ℤ (step b x m) (step b y n) differ)
      ]

-- Two verified proofs with the same root, the same path indices and as many siblings, whose leaves
-- differ, give two different pairs of nodes with the same Poseidon parent.
pub verify_binding :
    (hash : Poseidon) (p q : MerkleProof)
    → verify hash p ≡ true
    → verify hash q ≡ true
    → p.root ≡ q.root
    → p.path_indices ≡ q.path_indices
    → length p.siblings ≡ length q.siblings
    → p.leaf ≢ q.leaf
    → Collision hash
unfolding verify
verify_binding hash p q vp vq roots paths len ne =
    let ep = eq_of_eq_ℤ (fold_path hash p.leaf p.siblings p.path_indices) p.root vp in
    let eq = eq_of_eq_ℤ (fold_path hash q.leaf q.siblings q.path_indices) q.root vq in
    fold_path_binding hash p.siblings q.siblings q.path_indices p.leaf q.leaf len
      (ap (fold_path hash p.leaf p.siblings) (sym paths) ∙ ep ∙ roots ∙ sym eq) ne
