-- ===== src/Merkle/Insertion.antt =====
-- Insertion, and the root of the empty tree, in packages/crypto/src/merkle.ts.
use native.Mathlib.Nat.{pow-suc}
use mathlib.Core.List.{append_assoc, append-nil}
use fairproof_bcolbd.Prelude.{
  ℕ, zero, suc, ◌+◌, ◌-◌, ◌*◌, ◌^◌, ◌≤◌, ◌<◌, ◌≡◌, refl, ap, ◌∙◌, arith, sym, false, List, [], ◌∷◌,
  ◌++◌, length, length-append, replicate, get_or, ok, leb, ltb, ◌≢◌, Bool-cases, inl, inr, ◌==◌,
  if◌then◌else◌,
}
use fairproof_bcolbd.Prelude.Int.{ℤ, pos}
use fairproof_bcolbd.Platform.{Poseidon}
use fairproof_bcolbd.Domains.{Domains}
use fairproof_bcolbd.Poseidon.{merkle_parent, zeros_from, zero_hashes}
use fairproof_bcolbd.Merkle.{
  Tree, IsValid, at, next_level, climb, padded_leaves, root, new, empty_root, insert, insert_all,
  root_from_leaves,
}

pub new-IsValid :
    (hash : Poseidon) (domains : Domains) (depth : ℕ) → IsValid (new hash domains depth)
unfolding new
new-IsValid hash domains depth = record { sized = refl; bounded = omega arith }

replicate_double {ℓ} :
    {A : Type ℓ} (n : ℕ) (z : A) → replicate (suc n * 2) z ≡ z ∷ z ∷ replicate (n * 2) z
replicate_double n z =
    let e : suc n * 2 ≡ suc (suc (n * 2)) = omega arith in ap (λ (m : ℕ). replicate m z) e

next_level-replicate :
    (hash : Poseidon) (n : ℕ) (z : ℤ)
    → next_level hash (replicate (n * 2) z) ≡ replicate n (merkle_parent hash z z)
unfolding next_level
next_level-replicate hash zero z = refl
next_level-replicate hash (suc n) z =
    ap (next_level hash) (replicate_double n z)
    ∙ ap (λ l. merkle_parent hash z z ∷ l) (next_level-replicate hash n z)

climb-replicate :
    (hash : Poseidon) (d : ℕ) (z : ℤ)
    → at (climb hash d (replicate (2 ^ d) z)) 0 ≡ at (zeros_from hash z d) d
unfolding climb zeros_from
climb-replicate hash zero z = refl
climb-replicate hash (suc d) z =
    ap (λ (m : ℕ). at (climb hash d (next_level hash (replicate m z))) 0) (pow-suc 2 d)
    ∙ ap (λ l. at (climb hash d l) 0) (next_level-replicate hash (2 ^ d) z)
    ∙ climb-replicate hash d (merkle_parent hash z z)

-- The root that a new tree computes over its padded leaves is the precomputed hash of the empty
-- subtree at its depth.
pub root-new :
    (hash : Poseidon) (domains : Domains) (depth : ℕ)
    → root hash domains (new hash domains depth) ≡ empty_root hash domains depth
unfolding root new empty_root padded_leaves zero_hashes
root-new hash domains depth =
    let e : 2 ^ depth - 0 ≡ 2 ^ depth = omega arith in
    ap (λ (m : ℕ). at (climb hash depth (replicate m domains.padding)) 0) e
    ∙ climb-replicate hash depth domains.padding

get_or-append_last {ℓ} :
    {A : Type ℓ} (xs : List A) (x d : A) (ys : List A) → get_or (xs ++ x ∷ ys) (length xs) d ≡ x
get_or-append_last [] x d ys = refl
get_or-append_last (y ∷ xs) x d ys = get_or-append_last xs x d ys

get_or-append_swap {ℓ} :
    {A : Type ℓ} (xs : List A) (x y d : A) (ys : List A) (i : ℕ)
    → i ≢ length xs
    → get_or (xs ++ x ∷ ys) i d ≡ get_or (xs ++ y ∷ ys) i d
get_or-append_swap [] x y d ys zero h = absurd (h refl)
get_or-append_swap [] x y d ys (suc i) h = refl
get_or-append_swap (z ∷ xs) x y d ys zero h = refl
get_or-append_swap (z ∷ xs) x y d ys (suc i) h =
    get_or-append_swap xs x y d ys i (λ e. h (ap suc e))

module _ (hash : Poseidon) (domains : Domains) (t : Tree) (leaf : ℤ) (v : IsValid t) where
  -- Below the capacity the padded leaves are the leaves, one padding and more padding, and an
  -- insertion replaces that padding by the leaf.
  padded_before :
      length t.leaves < t.capacity
      → padded_leaves hash domains t
        ≡ t.leaves
          ++ domains.padding ∷ replicate (t.capacity - suc (length t.leaves)) domains.padding
  unfolding padded_leaves
  padded_before room =
      let e : t.capacity - length t.leaves ≡ suc (t.capacity - suc (length t.leaves)) =
        omega arith in
      ap (λ (m : ℕ). t.leaves ++ replicate m domains.padding) e

  inserted : Tree
  inserted = record t { leaves = t.leaves ++ leaf ∷ [] }

  padded_after :
      length t.leaves < t.capacity
      → padded_leaves hash domains inserted
        ≡ t.leaves ++ leaf ∷ replicate (t.capacity - suc (length t.leaves)) domains.padding
  unfolding padded_leaves inserted
  padded_after room =
      let e : t.capacity - length (t.leaves ++ leaf ∷ []) ≡ t.capacity - suc (length t.leaves) =
        omega (arith, length-append t.leaves (leaf ∷ [])) in
      ap (λ (m : ℕ). (t.leaves ++ leaf ∷ []) ++ replicate m domains.padding) e
      ∙ append_assoc t.leaves (leaf ∷ []) _

  -- In a valid tree below its capacity an insertion returns the old size as the leaf's index; the
  -- tree stays valid and is larger by one, the padded leaf at that index is the new leaf, and every
  -- other padded leaf is what it was.
  pub insert-ok :
      length t.leaves < t.capacity
      → (i : ℕ)
      → (t' : Tree) × (insert t leaf ≡ ok (t', length t.leaves))
        × IsValid t'
        × (length t'.leaves ≡ suc (length t.leaves))
        × (at (padded_leaves hash domains t') i
            ≡ (if i == length t.leaves then leaf else at (padded_leaves hash domains t) i))
  unfolding insert inserted
  insert-ok room i =
      let grown = length-append t.leaves (leaf ∷ []) in
      (
        inserted,
        ground arith,
        record { sized = v.sized; bounded = omega (arith, grown) },
        omega (arith, grown),
        elim (Bool-cases (i == length t.leaves)) [
          | inl here ↦
              let e : i ≡ length t.leaves = ground arith in
              rw (here, padded_after room, e) (get_or-append_last t.leaves leaf (pos 0) _)
          | inr other ↦
              let ne : i ≢ length t.leaves = ground arith in
              rw (other, padded_after room, padded_before room)
                (get_or-append_swap t.leaves leaf domains.padding (pos 0) _ i ne)
        ],
      )

insert_all-ok :
    (t : Tree) (xs : List ℤ)
    → length t.leaves + length xs ≤ t.capacity
    → insert_all t xs ≡ ok (record t { leaves = t.leaves ++ xs })
unfolding insert_all insert
insert_all-ok t [] room = ap (λ l. ok (record t { leaves = l })) (sym (append-nil t.leaves))
insert_all-ok t (x ∷ xs) room =
    let t' : Tree = record t { leaves = t.leaves ++ x ∷ [] } in
    let grown = length-append t.leaves (x ∷ []) in
    let fits : leb t.capacity (length t.leaves) ≡ false = ground arith in
    rw fits (
      insert_all-ok t' xs (omega (arith, grown))
      ∙ ap (λ l. ok (record t { leaves = l })) (append_assoc t.leaves (x ∷ []) xs))

-- `rootFromLeaves` succeeds on at most 2 ** depth leaves, with the root over the leaves in their
-- order and padding behind them.
pub root_from_leaves-ok :
    (hash : Poseidon) (domains : Domains) (leaves : List ℤ) (depth : ℕ)
    → length leaves ≤ 2 ^ depth
    → root_from_leaves hash domains leaves depth
      ≡ ok (
          at (climb hash depth (leaves ++ replicate (2 ^ depth - length leaves) domains.padding)) 0)
unfolding root_from_leaves new root padded_leaves
root_from_leaves-ok hash domains leaves depth h =
    let fits : ltb (2 ^ depth) (length leaves) ≡ false = ground arith in
    let all = insert_all-ok (new hash domains depth) leaves (omega arith) in rw (fits, all) refl
