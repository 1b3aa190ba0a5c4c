-- ===== src/Evidence/Forbidden.antt =====
-- The keys that the scan of services/evidence/src/bundle.mjs lets through, without its own list.
use fairproof_bcolbd.Prelude.{
  ◌++◌, ◌&&◌, ◌≡◌, ◌≢◌, ◌↔◌, ◌⊎◌, inl, inr, refl, sym, subst, Bool, true, false, not, List, [], ◌∷◌,
  All, Bool-cases,
}
use fairproof_bcolbd.Prelude.Texts.{text_eq, eq_of_text_eq, ne_of_text_eq}
use fairproof_bcolbd.Field.{Text}
use fairproof_bcolbd.Platform.{codes}
use fairproof_bcolbd.Encoding.{
  Json, null, boolean, integer, fraction, non_finite, bigint, string, array, object, undefined,
  other,
}
use fairproof_bcolbd.Evidence.{includes, is_object, forbidden_keys, is_forbidden}

-- The names of keys, nonces and secrets, which a bundle must not carry at all.
abbrev key_names : List Text
key_names =
    codes "subjectSecret"
    ∷ codes "dek"
    ∷ codes "bidNonce"
    ∷ codes "privateKey"
    ∷ codes "mnemonic"
    ∷ codes "secret"
    ∷ []

-- The names of witnesses, of a credential's attributes and of what is sealed with a key.
abbrev witness_names : List Text
witness_names =
    codes "witness"
    ∷ codes "annualTurnover"
    ∷ codes "relevantExperience"
    ∷ codes "credentialValidUntil"
    ∷ codes "issuerSigS"
    ∷ codes "iv"
    ∷ codes "wrapped"
    ∷ []

-- an object, an array or null
abbrev IsStructured : Json → Type 0
IsStructured null = Unit
IsStructured (array items) = Unit
IsStructured (object entries) = Unit
IsStructured _ = ⊥

-- The key has none of these names, and it is not `share` or its value is no scalar.
abbrev pub IsPublic : Text → Json → Type 0
IsPublic k v =
    All (λ name. name ≢ k) (key_names ++ witness_names) × ((codes "share" ≢ k) ⊎ IsStructured v)

All-of_includes : (xs : List Text) (k : Text) → includes xs k ≡ false → All (λ x. x ≢ k) xs
All-of_includes [] k h = tt
All-of_includes (x ∷ xs) k h = elim (Bool-cases (text_eq x k)) [
  | inl same ↦ let h' = rw same at h in absurd (cc)
  | inr differs ↦ (ne_of_text_eq x k differs, All-of_includes xs k (rw differs at h))
]

includes-of_All : (xs : List Text) (k : Text) → All (λ x. x ≢ k) xs → includes xs k ≡ false
includes-of_All [] k v = refl
includes-of_All (x ∷ xs) k (p, v) = elim (Bool-cases (text_eq x k)) [
  | inl same ↦ absurd (p (eq_of_text_eq x k same))
  | inr differs ↦ rw (differs, includes-of_All xs k v) refl
]

All-middle :
    {A : Type 0} (P : A → Type 0) (xs : List A) (y : A) (ys : List A)
    → All P (xs ++ y ∷ ys) ↔ (All P (xs ++ ys) × P y)
All-middle P [] y ys = (λ v. (v.1, v.0), λ v. (v.1, v.0))
All-middle P (x ∷ xs) y ys =
    let middle = All-middle P xs y ys in
    (λ v. ((v.0, (middle.0 v.1).0), (middle.0 v.1).1), λ v. (v.0.0, middle.1 (v.0.1, v.1)))

-- The list of the code has these names, and `share` between them.
includes-names :
    (k : Text)
    → (includes forbidden_keys k ≡ false)
      ↔ (All (λ name. name ≢ k) (key_names ++ witness_names) × (codes "share" ≢ k))
includes-names k =
    let middle = All-middle (λ name. name ≢ k) key_names (codes "share") witness_names in
    (
      λ h. middle.0 (All-of_includes forbidden_keys k h),
      λ v. includes-of_All forbidden_keys k (middle.1 v),
    )

IsStructured-cases : (v : Json) → (not (is_object v) ≡ false) ↔ IsStructured v
IsStructured-cases null = (λ h. tt, λ h. refl)
IsStructured-cases (array items) = (λ h. tt, λ h. refl)
IsStructured-cases (object entries) = (λ h. tt, λ h. refl)
IsStructured-cases (boolean b) = (λ h. cc, λ h. absurd h)
IsStructured-cases (integer n) = (λ h. cc, λ h. absurd h)
IsStructured-cases fraction = (λ h. cc, λ h. absurd h)
IsStructured-cases non_finite = (λ h. cc, λ h. absurd h)
IsStructured-cases (bigint n) = (λ h. cc, λ h. absurd h)
IsStructured-cases (string s) = (λ h. cc, λ h. absurd h)
IsStructured-cases undefined = (λ h. cc, λ h. absurd h)
IsStructured-cases other = (λ h. cc, λ h. absurd h)

-- `share` itself is none of the names.
share-IsPublic : (v : Json) → (is_forbidden (codes "share") v ≡ false) ↔ IsPublic (codes "share") v
unfolding is_forbidden
share-IsPublic v = (
  λ h. (
    All-of_includes (key_names ++ witness_names) (codes "share") refl,
    inr ((IsStructured-cases v).0 h),
  ),
  λ h. elim h.1 [
    | inl not_share ↦ absurd (not_share refl)
    | inr structured ↦ (IsStructured-cases v).1 structured
  ],
)

and_true : (b : Bool) → (b && true) ≡ false → b ≡ false
and_true true h = cc
and_true false h = refl

-- The code's test fails exactly on the public keys and values.
pub is_forbidden-IsPublic : (k : Text) (v : Json) → (is_forbidden k v ≡ false) ↔ IsPublic k v
unfolding is_forbidden
is_forbidden-IsPublic k v = elim (Bool-cases (text_eq k (codes "share"))) [
  | inl same ↦
      subst (λ (t : Text). (is_forbidden t v ≡ false) ↔ IsPublic t v)
        (sym (eq_of_text_eq k (codes "share") same)) (share-IsPublic v)
  | inr differs ↦
      let ne = ne_of_text_eq k (codes "share") differs in
      (
        λ h.
            let (names, share) =
              (includes-names k).0 (and_true (includes forbidden_keys k) (rw differs at h)) in
            (names, inl share),
        λ h. rw ((includes-names k).1 (h.0, λ e. ne (sym e))) refl,
      )
]
