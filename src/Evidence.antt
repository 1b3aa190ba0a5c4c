-- ===== src/Evidence.antt =====
-- The scans for secrets in an evidence bundle: findForbiddenFields of services/evidence/src/bundle.mjs,
-- which refuses to export a bundle, and defaultForbiddenScan of packages/verifier/src/verify.mjs. A
-- bundle is a JavaScript value; `show` writes the index of an element.
pub mod Forbidden
pub mod Scan
use fairproof_bcolbd.Prelude.{
  ℕ, suc, Bool, true, false, not, ◌&&◌, ◌||◌, List, [], ◌∷◌, ◌++◌, if◌then◌else◌, Result, ok, err,
  Error,
}
use fairproof_bcolbd.Prelude.Texts.{text_eq}
use fairproof_bcolbd.Field.{Text}
use fairproof_bcolbd.Platform.{codes}
use fairproof_bcolbd.Encoding.{Json, null, array, object, Items, nil, cons, Entries, end, entry}

-- `xs.includes(text)`
abbrev pub includes : List Text → Text → Bool
includes [] text = false
includes (x ∷ xs) text = text_eq x text || includes xs text

-- `typeof value === "object"`
abbrev pub is_object : Json → Bool
is_object null = true
is_object (array items) = true
is_object (object entries) = true
is_object _ = false

-- ``path ? `${path}.${key}` : key``
abbrev pub at_key : Text → Text → Text
at_key [] key = key
at_key (c ∷ path) key = (c ∷ path) ++ (codes "." ++ key)

unfoldable mutual
  -- the function `walk` of both scans: the paths at which `hit` holds of a key and its value
  pub walk : (Text → Json → Bool) → (ℕ → Text) → Json → Text → List Text
  walk hit show (array items) path = walk_items hit show items path 0
  walk hit show (object entries) path = walk_entries hit show entries path
  walk hit show _ path = []

  pub walk_items : (Text → Json → Bool) → (ℕ → Text) → Items → Text → ℕ → List Text
  walk_items hit show nil path i = []
  walk_items hit show (cons v items) path i =
      walk hit show v (path ++ (codes "[" ++ (show i ++ codes "]")))
      ++ walk_items hit show items path (suc i)

  pub walk_entries : (Text → Json → Bool) → (ℕ → Text) → Entries → Text → List Text
  walk_entries hit show end path = []
  walk_entries hit show (entry k v rest) path =
      (if hit k v then at_key path k ∷ [] else [])
      ++ (walk hit show v (at_key path k) ++ walk_entries hit show rest path)

abbrev pub forbidden_keys : List Text
forbidden_keys =
    codes "subjectSecret"
    ∷ codes "dek"
    ∷ codes "bidNonce"
    ∷ codes "privateKey"
    ∷ codes "mnemonic"
    ∷ codes "secret"
    ∷ codes "share"
    ∷ codes "witness"
    ∷ codes "annualTurnover"
    ∷ codes "relevantExperience"
    ∷ codes "credentialValidUntil"
    ∷ codes "issuerSigS"
    ∷ codes "iv"
    ∷ codes "wrapped"
    ∷ []

-- A `share` is forbidden as a scalar only.
unfoldable pub is_forbidden : Text → Json → Bool
is_forbidden k v =
    let share = text_eq k (codes "share") in
    includes forbidden_keys k && (not share || share && not (is_object v))

unfoldable pub find_forbidden_fields : (ℕ → Text) → Json → List Text
find_forbidden_fields show bundle = walk is_forbidden show bundle []

unfoldable pub assert_no_secrets : (ℕ → Text) → Json → Result (Unit {0})
assert_no_secrets show bundle = elim (find_forbidden_fields show bundle) [
  | [] ↦ ok tt
  | ◌∷◌ hit hits ↦ err Error.forbidden_field
]

abbrev pub scan_keys : List Text
scan_keys =
    codes "subjectSecret"
    ∷ codes "dek"
    ∷ codes "bidNonce"
    ∷ codes "privateKey"
    ∷ codes "mnemonic"
    ∷ codes "witness"
    ∷ codes "annualTurnover"
    ∷ codes "relevantExperience"
    ∷ codes "issuerSigS"
    ∷ codes "iv"
    ∷ codes "wrapped"
    ∷ codes "entropy"
    ∷ []

unfoldable pub default_forbidden_scan : (ℕ → Text) → Json → List Text
default_forbidden_scan show bundle = walk (λ k v. includes scan_keys k) show bundle []
