-- ===== src/Evidence/Scan.antt =====
-- The scans of services/evidence/src/bundle.mjs and packages/verifier/src/verify.mjs miss no key.
use fairproof_bcolbd.Prelude.{
  ℕ, suc, ◌≡◌, refl, ◌↔◌, Bool, false, List, [], ◌∷◌, ◌++◌, Bool-cases, inl, inr, ok, err, Error,
}
use fairproof_bcolbd.Field.{Text}
use fairproof_bcolbd.Encoding.{
  Json, null, boolean, integer, fraction, non_finite, bigint, string, array, object, undefined,
  other, Items, nil, cons, Entries, end, entry,
}
use fairproof_bcolbd.Evidence.Forbidden.{IsPublic, is_forbidden-IsPublic}
use fairproof_bcolbd.Evidence.{
  walk, walk_items, walk_entries, at_key, is_forbidden, find_forbidden_fields, assert_no_secrets,
}

unfoldable mutual
  -- The predicate holds of every key and its value, at any depth of the arrays and objects.
  pub IsClean : (Text → Json → Type 0) → Json → Type 0
  IsClean P (array items) = AreClean P items
  IsClean P (object entries) = HasCleanEntries P entries
  IsClean P _ = Unit

  pub AreClean : (Text → Json → Type 0) → Items → Type 0
  AreClean P nil = Unit
  AreClean P (cons v items) = IsClean P v × AreClean P items

  pub HasCleanEntries : (Text → Json → Type 0) → Entries → Type 0
  HasCleanEntries P end = Unit
  HasCleanEntries P (entry k v rest) = P k v × IsClean P v × HasCleanEntries P rest

mutual
  unfolding IsClean AreClean HasCleanEntries

  IsClean-weaken :
      (P Q : Text → Json → Type 0)
      → ((k : Text) (v : Json) → P k v → Q k v)
      → (v : Json) → IsClean P v
      → IsClean Q v
  IsClean-weaken P Q f (array items) c = AreClean-weaken P Q f items c
  IsClean-weaken P Q f (object entries) c = HasCleanEntries-weaken P Q f entries c
  IsClean-weaken P Q f null c = tt
  IsClean-weaken P Q f (boolean b) c = tt
  IsClean-weaken P Q f (integer n) c = tt
  IsClean-weaken P Q f fraction c = tt
  IsClean-weaken P Q f non_finite c = tt
  IsClean-weaken P Q f (bigint n) c = tt
  IsClean-weaken P Q f (string s) c = tt
  IsClean-weaken P Q f undefined c = tt
  IsClean-weaken P Q f other c = tt

  AreClean-weaken :
      (P Q : Text → Json → Type 0)
      → ((k : Text) (v : Json) → P k v → Q k v)
      → (items : Items) → AreClean P items
      → AreClean Q items
  AreClean-weaken P Q f nil c = tt
  AreClean-weaken P Q f (cons v items) (c, cs) =
      (IsClean-weaken P Q f v c, AreClean-weaken P Q f items cs)

  HasCleanEntries-weaken :
      (P Q : Text → Json → Type 0)
      → ((k : Text) (v : Json) → P k v → Q k v)
      → (entries : Entries) → HasCleanEntries P entries
      → HasCleanEntries Q entries
  HasCleanEntries-weaken P Q f end c = tt
  HasCleanEntries-weaken P Q f (entry k v rest) (p, c, cs) =
      (f k v p, IsClean-weaken P Q f v c, HasCleanEntries-weaken P Q f rest cs)

append-eq-nil : (xs ys : List Text) → xs ++ ys ≡ [] → (xs ≡ []) × (ys ≡ [])
append-eq-nil [] ys h = (refl, h)
append-eq-nil (x ∷ xs) ys h = cc

module _ (hit : Text → Json → Bool) (show : ℕ → Text) where
  -- The test does not hold.
  abbrev Missed : Text → Json → Type 0
  Missed k v = hit k v ≡ false

  mutual
    unfolding walk walk_items walk_entries IsClean AreClean HasCleanEntries

    walk-IsClean : (v : Json) (path : Text) → walk hit show v path ≡ [] → IsClean Missed v
    walk-IsClean (array items) path h = walk_items-AreClean items path 0 h
    walk-IsClean (object entries) path h = walk_entries-HasCleanEntries entries path h
    walk-IsClean null path h = tt
    walk-IsClean (boolean b) path h = tt
    walk-IsClean (integer n) path h = tt
    walk-IsClean fraction path h = tt
    walk-IsClean non_finite path h = tt
    walk-IsClean (bigint n) path h = tt
    walk-IsClean (string s) path h = tt
    walk-IsClean undefined path h = tt
    walk-IsClean other path h = tt

    walk_items-AreClean :
        (items : Items) (path : Text) (i : ℕ)
        → walk_items hit show items path i ≡ []
        → AreClean Missed items
    walk_items-AreClean nil path i h = tt
    walk_items-AreClean (cons v items) path i h =
        let (here, rest) = append-eq-nil (walk hit show v _) _ h in
        (walk-IsClean v _ here, walk_items-AreClean items path (suc i) rest)

    walk_entries-HasCleanEntries :
        (entries : Entries) (path : Text)
        → walk_entries hit show entries path ≡ []
        → HasCleanEntries Missed entries
    walk_entries-HasCleanEntries end path h = tt
    walk_entries-HasCleanEntries (entry k v rest) path h = elim (Bool-cases (hit k v)) [
      | inl found ↦ let bad = rw found at h in absurd (cc)
      | inr missed ↦
          let h' = rw missed at h in
          let (inside, after) = append-eq-nil (walk hit show v (at_key path k)) _ h' in
          (
            missed,
            walk-IsClean v (at_key path k) inside,
            walk_entries-HasCleanEntries rest path after,
          )
    ]

  mutual
    unfolding walk walk_items walk_entries IsClean AreClean HasCleanEntries

    IsClean-walk : (v : Json) (path : Text) → IsClean Missed v → walk hit show v path ≡ []
    IsClean-walk (array items) path h = AreClean-walk_items items path 0 h
    IsClean-walk (object entries) path h = HasCleanEntries-walk_entries entries path h
    IsClean-walk null path h = refl
    IsClean-walk (boolean b) path h = refl
    IsClean-walk (integer n) path h = refl
    IsClean-walk fraction path h = refl
    IsClean-walk non_finite path h = refl
    IsClean-walk (bigint n) path h = refl
    IsClean-walk (string s) path h = refl
    IsClean-walk undefined path h = refl
    IsClean-walk other path h = refl

    AreClean-walk_items :
        (items : Items) (path : Text) (i : ℕ)
        → AreClean Missed items
        → walk_items hit show items path i ≡ []
    AreClean-walk_items nil path i h = refl
    AreClean-walk_items (cons v items) path i (p, h) =
        rw (IsClean-walk v _ p) (AreClean-walk_items items path (suc i) h)

    HasCleanEntries-walk_entries :
        (entries : Entries) (path : Text)
        → HasCleanEntries Missed entries
        → walk_entries hit show entries path ≡ []
    HasCleanEntries-walk_entries end path h = refl
    HasCleanEntries-walk_entries (entry k v rest) path (p, q, h) =
        rw (p, IsClean-walk v (at_key path k) q) (HasCleanEntries-walk_entries rest path h)

-- The scan finds nothing exactly if no key at any depth is hit, wherever it starts.
walk-eq-nil :
    (hit : Text → Json → Bool) (show : ℕ → Text) (v : Json) (path : Text)
    → (walk hit show v path ≡ []) ↔ IsClean (λ k w. hit k w ≡ false) v
walk-eq-nil hit show v path = (walk-IsClean hit show v path, IsClean-walk hit show v path)

-- A bundle passes the check for secrets exactly if no key in it, at any depth of its arrays and
-- objects, is `subjectSecret`, `dek`, `bidNonce`, `privateKey`, `mnemonic`, `secret`, `witness`,
-- `annualTurnover`, `relevantExperience`, `credentialValidUntil`, `issuerSigS`, `iv` or `wrapped`,
-- and every value under the key `share` is an object, an array or null. Other keys, such as one for
-- the amount of a losing bid, are let through.
pub assert_no_secrets-ok_iff :
    (show : ℕ → Text) (bundle : Json)
    → (assert_no_secrets show bundle ≡ ok tt) ↔ IsClean IsPublic bundle
unfolding assert_no_secrets find_forbidden_fields
assert_no_secrets-ok_iff show bundle =
    let (clean, empty) = walk-eq-nil is_forbidden show bundle [] in
    let missed = λ (k : Text) (v : Json). is_forbidden k v ≡ false in
    (
      λ h.
          IsClean-weaken missed IsPublic (λ k v. (is_forbidden-IsPublic k v).0) bundle
            (clean (
              elim (walk is_forbidden show bundle [])
                  as (λ hits.
                    (elim hits [ [] ↦ ok tt | ◌∷◌ hit rest ↦ err Error.forbidden_field ]) ≡ ok tt
                    → hits ≡ []) [ [] ↦ λ q. refl | ◌∷◌ hit rest ↦ λ q. cc ]
                h)),
      λ c.
          let c' = IsClean-weaken IsPublic missed (λ k v. (is_forbidden-IsPublic k v).1) bundle c in
          rw (assert_no_secrets, empty c') refl,
    )
