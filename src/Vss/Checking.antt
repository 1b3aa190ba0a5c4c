-- ===== src/Vss/Checking.antt =====
-- What `verifyDealing` of packages/crypto/src/vss.ts establishes when it reports no problem.
use fairproof_bcolbd.Prelude.{
  ℕ, ◌≡◌, refl, ap, ◌∙◌, Bool, true, false, not, List, [], ◌∷◌, ◌++◌, ◌==◌, length, All, contains,
  ok, >>=-eq-ok, ok-injective, ==_iff,
}
use fairproof_bcolbd.Babyjub.{Point, Curve, is_in_prime_subgroup}
use fairproof_bcolbd.Vss.{
  CommitteeShare, DealtCommitteeKey, DealingProblem, key_not_in_subgroup, share_count,
  commitment_count, share_mismatch, duplicate_index, note_if, off_curve_problems, share_problems,
  key_problems, reconstruction_problems, verify_dealing, verify_share,
}

append-eq-nil : {A : Type 0} (xs ys : List A) → xs ++ ys ≡ [] → (xs ≡ []) × (ys ≡ [])
append-eq-nil [] ys h = (refl, h)
append-eq-nil (x ∷ xs) ys h = absurd cc

note_if-eq-nil : (c : Curve) (b : Bool) (p : DealingProblem) → note_if c (not b) p ≡ [] → b ≡ true
note_if-eq-nil c true p h = refl
note_if-eq-nil c false p h = absurd cc

module _ (c : Curve) where
  share_problems-eq-nil :
      (commitments : List Point) (seen : List ℕ) (shares : List CommitteeShare) (usable : Bool)
      → share_problems c commitments seen shares ≡ ok ([], usable)
      → All (λ s. verify_share c s commitments ≡ ok true) shares
  unfolding share_problems
  share_problems-eq-nil commitments seen [] usable h = tt
  share_problems-eq-nil commitments seen (s ∷ shares) usable h =
      let (fits, checked, h₁) = >>=-eq-ok (verify_share c s commitments) _ h in
      let ((problems, rest), below, h₂) =
        >>=-eq-ok (share_problems c commitments (s.index ∷ seen) shares) _ h₁ in
      let empty = ap (λ (r : List DealingProblem × Bool). r.0) (ok-injective h₂) in
      let (upper, none_below) = append-eq-nil _ problems empty in
      let (_, match) =
        append-eq-nil (note_if c (contains s.index seen) (duplicate_index s.index)) _ upper in
      let good = note_if-eq-nil c fits (share_mismatch s.index) match in
      (
        checked ∙ ap (λ (b : Bool). ok b) good,
        share_problems-eq-nil commitments (s.index ∷ seen) shares rest
            (below ∙ ap (λ (ps : List DealingProblem). ok (ps, rest)) none_below),
      )

  -- A dealing in which `verifyDealing` finds no problem has as many commitments as its threshold
  -- and as many shares as its size; its public key is in the prime-order subgroup, and every share
  -- passes `verifyShare` against the commitments.
  pub verify_dealing_sound :
      (k : DealtCommitteeKey)
      → verify_dealing c k ≡ ok []
      → (length k.commitments ≡ k.threshold)
        × (length k.shares ≡ k.size)
        × (is_in_prime_subgroup c k.public_key ≡ true)
        × All (λ s. verify_share c s k.commitments ≡ ok true) k.shares
  unfolding verify_dealing
  verify_dealing_sound k h =
      let (key, _, h₁) = >>=-eq-ok (key_problems c k.public_key k.commitments) _ h in
      let ((found, unique), shared, h₂) =
        >>=-eq-ok (share_problems c k.commitments [] k.shares) _ h₁ in
      let (last, _, h₃) = >>=-eq-ok (reconstruction_problems c k _) _ h₂ in
      let (l₁, _) = append-eq-nil _ last (ok-injective h₃) in
      let (l₂, fine) = append-eq-nil _ found l₁ in
      let (l₃, complete) =
        append-eq-nil _ (note_if c (not (length k.shares == k.size)) share_count) l₂ in
      let (l₄, grouped) =
        append-eq-nil _ (note_if c (not (is_in_prime_subgroup c k.public_key)) key_not_in_subgroup)
          l₃ in
      let (l₅, _) = append-eq-nil _ key l₄ in
      let (counted, _) = append-eq-nil _ (off_curve_problems c 0 k.commitments) l₅ in
      (
        (==_iff _ _).0 (note_if-eq-nil c _ commitment_count counted),
        (==_iff _ _).0 (note_if-eq-nil c _ share_count complete),
        note_if-eq-nil c _ key_not_in_subgroup grouped,
        share_problems-eq-nil k.commitments [] k.shares unique
            (shared ∙ ap (λ (ps : List DealingProblem). ok (ps, unique)) fine),
      )
