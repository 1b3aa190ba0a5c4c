-- ===== src/Prelude/Sort.antt =====
-- `[...xs].sort((a, b) => key(a) - key(b))`: a stable sort by a number.
use Prim.Native.Nat.{ℕ, suc}
use mathlib.Core.Path.{◌≡◌, refl, sym, ap, ◌∙◌}
use mathlib.Core.Logic.{◌≢◌, inl, inr}
use mathlib.Core.List.{List, [], ◌∷◌}
use native.Mathlib.Omega.{arith}
use fairproof_bcolbd.Prelude.Tests.{leb, if◌then◌else◌, Bool-cases}
use fairproof_bcolbd.Prelude.Lists.{All, length, Occurs, first, later}

-- One list is a reordering of the other.
pub data Reorder {ℓ} {A : Type ℓ} : List A → List A → Type ℓ where
  same : {xs : List A} → Reorder xs xs
  keep : {x : A} {xs ys : List A} → Reorder xs ys → Reorder (x ∷ xs) (x ∷ ys)
  swap : {x y : A} {xs : List A} → Reorder (x ∷ y ∷ xs) (y ∷ x ∷ xs)
  chain : {xs ys zs : List A} → Reorder xs ys → Reorder ys zs → Reorder xs zs

module _ {ℓ} {A : Type ℓ} (key : A → ℕ) where
  unfoldable pub insert_by : A → List A → List A
  insert_by a [] = a ∷ []
  insert_by a (x ∷ xs) = if leb (key a) (key x) then a ∷ x ∷ xs else x ∷ insert_by a xs

  unfoldable pub sort_by : List A → List A
  sort_by [] = []
  sort_by (x ∷ xs) = insert_by x (sort_by xs)

  -- No two elements have one key.
  abbrev pub HasDistinctKeys : List A → Type 0
  HasDistinctKeys [] = Unit
  HasDistinctKeys (x ∷ xs) = All (λ y. key x ≢ key y) xs × HasDistinctKeys xs

  insert_by_comm :
      (a b : A) (xs : List A)
      → key a ≢ key b
      → insert_by a (insert_by b xs) ≡ insert_by b (insert_by a xs)
  unfolding insert_by
  insert_by_comm a b [] h = ground arith
  insert_by_comm a b (x ∷ xs) h = ground (arith, insert_by_comm a b xs h)

  pub All-Reorder {κ} : (P : A → Type κ) {xs ys : List A} → Reorder xs ys → All P xs → All P ys
  All-Reorder P same h = h
  All-Reorder P (keep r) (p, h) = (p, All-Reorder P r h)
  All-Reorder P swap (p, (q, h)) = (q, (p, h))
  All-Reorder P (chain r s) h = All-Reorder P s (All-Reorder P r h)

  HasDistinctKeys-Reorder :
      {xs ys : List A} → Reorder xs ys → HasDistinctKeys xs → HasDistinctKeys ys
  HasDistinctKeys-Reorder same h = h
  HasDistinctKeys-Reorder (keep {x} r) (p, h) =
      (All-Reorder (λ y. key x ≢ key y) r p, HasDistinctKeys-Reorder r h)
  HasDistinctKeys-Reorder swap ((p, ps), (q, h)) = ((λ e. p (sym e), q), (ps, h))
  HasDistinctKeys-Reorder (chain r s) h = HasDistinctKeys-Reorder s (HasDistinctKeys-Reorder r h)

  -- Sorting forgets the order of a list with distinct keys.
  pub sort_by_unique :
      {xs ys : List A} → Reorder xs ys → HasDistinctKeys xs → sort_by xs ≡ sort_by ys
  unfolding sort_by
  sort_by_unique same h = refl
  sort_by_unique (keep {x} r) (p, h) = ap (insert_by x) (sort_by_unique r h)
  sort_by_unique (swap {x} {y} {xs}) ((p, ps), (q, h)) = insert_by_comm x y (sort_by xs) p
  sort_by_unique (chain r s) h = sort_by_unique r h ∙ sort_by_unique s (HasDistinctKeys-Reorder r h)

  pub length-insert_by : (a : A) (xs : List A) → length (insert_by a xs) ≡ suc (length xs)
  unfolding insert_by
  length-insert_by a [] = refl
  length-insert_by a (x ∷ xs) = ground (arith, length-insert_by a xs)

  pub length-sort_by : (xs : List A) → length (sort_by xs) ≡ length xs
  unfolding sort_by
  length-sort_by [] = refl
  length-sort_by (x ∷ xs) = omega (arith, length-insert_by x (sort_by xs), length-sort_by xs)

  pub All-insert_by {κ} :
      (P : A → Type κ) (a : A) (xs : List A) → P a → All P xs → All P (insert_by a xs)
  unfolding insert_by
  All-insert_by P a [] p h = (p, tt)
  All-insert_by P a (x ∷ xs) p (q, h) = elim (Bool-cases (leb (key a) (key x))) [
    | inl e ↦ rw e (p, (q, h))
    | inr e ↦ rw e (q, All-insert_by P a xs p h)
  ]

  pub All-sort_by {κ} : (P : A → Type κ) (xs : List A) → All P xs → All P (sort_by xs)
  unfolding sort_by
  All-sort_by P [] h = tt
  All-sort_by P (x ∷ xs) (p, h) = All-insert_by P x (sort_by xs) p (All-sort_by P xs h)

  insert_by-Reorder : (a : A) (xs : List A) → Reorder (insert_by a xs) (a ∷ xs)
  unfolding insert_by
  insert_by-Reorder a [] = same
  insert_by-Reorder a (x ∷ xs) = elim (Bool-cases (leb (key a) (key x))) [
    | inl e ↦ rw e same
    | inr e ↦ rw e (chain (keep (insert_by-Reorder a xs)) swap)
  ]

  pub sort_by-Reorder : (xs : List A) → Reorder (sort_by xs) xs
  unfolding sort_by
  sort_by-Reorder [] = same
  sort_by-Reorder (x ∷ xs) = chain (insert_by-Reorder x (sort_by xs)) (keep (sort_by-Reorder xs))

pub Occurs-Reorder {ℓ} :
    {A : Type ℓ} {a : A} {xs ys : List A} → Reorder xs ys → Occurs a xs → Occurs a ys
Occurs-Reorder same o = o
Occurs-Reorder (keep r) first = first
Occurs-Reorder (keep r) (later o) = later (Occurs-Reorder r o)
Occurs-Reorder swap first = later first
Occurs-Reorder swap (later first) = first
Occurs-Reorder swap (later (later o)) = later (later o)
Occurs-Reorder (chain r s) o = Occurs-Reorder s (Occurs-Reorder r o)
