-- ===== src/Prelude/Outcome.antt =====
-- The errors that the code throws, one for each `throw`, and results that may be one of them. The
-- code never throws `out_of_rounds`: it stands for a loop of the model that has used up its rounds.
use mathlib.Core.Path.{◌≡◌, refl}
use mathlib.Core.Bool.{Bool, true, false}
use mathlib.Core.Option.{none, some}
use mathlib.Core.List.{List, [], ◌∷◌}

pub data Error : Type 0 where
  exceeds_256_bits not_hex hi_limb lo_limb negative_value does_not_fit : Error
  not_a_field_element exceeds_uint : Error
  arity_out_of_range : Error
  capacity_exhausted index_out_of_range too_many_leaves : Error
  wrapped_length iv_length tag_length signature_length bad_hex_data : Error
  xor_length dek_length not_in_subgroup scalar_range not_invertible : Error
  threshold_too_small threshold_exceeds_size secret_range coefficient_count : Error
  no_commitment index_zero not_in_index_set duplicate_indices nonce_range : Error
  non_finite_number non_integer_number unsupported_type : Error
  no_bids too_many_bids unsupported_policy index_gap inactive_slot : Error
  authentication_failed bad_json bad_number commitment_mismatch : Error
  replica_id_range too_many_replicas duplicate_replica no_quorum not_served : Error
  subject_mismatch schema_mismatch credential_mismatch key_length message_range : Error
  body_too_large ciphertext_too_short unknown_version length_mismatch : Error
  not_a_credential unknown_format missing_field type_error forbidden_field : Error
  out_of_rounds : Error

-- A value, or what was thrown instead.
pub data Result {ℓ} (Value : Type ℓ) : Type ℓ where
  ok : Value → Result Value
  err : Error → Result Value

infixl 5 ◌>>=◌ ◌>>◌
-- An error ends the chain.
abbrev pub ◌>>=◌ {ℓ κ} : {V : Type ℓ} {W : Type κ} → Result V → (V → Result W) → Result W
err thrown >>= rest = err thrown
ok value >>= rest = rest value

-- one statement after another
abbrev pub ◌>>◌ {ℓ} : {W : Type ℓ} → Result (Unit {0}) → Result W → Result W
first >> second = first >>= λ done. second

-- `if (test) throw e`
abbrev pub throw_if : Bool → Error → Result (Unit {0})
throw_if true e = err e
throw_if false e = ok tt

-- A chain that returns has returned in its first part.
pub >>=-eq-ok {ℓ κ} :
    {V : Type ℓ} {W : Type κ} (part : Result V) (rest : V → Result W) {w : W}
    → (part >>= rest) ≡ ok w
    → (v : V) × (part ≡ ok v) × (rest v ≡ ok w)
>>=-eq-ok (err thrown) rest h = cc
>>=-eq-ok (ok value) rest h = (value, refl, h)

pub >>=-cong {ℓ κ} :
    {V : Type ℓ} {W : Type κ} (part : Result V) (f g : V → Result W)
    → ((v : V) → f v ≡ g v)
    → (part >>= f) ≡ (part >>= g)
>>=-cong (err thrown) f g h = refl
>>=-cong (ok value) f g h = h value

pub >>=-assoc {ℓ κ μ} :
    {U : Type ℓ} {V : Type κ} {W : Type μ} (part : Result U) (f : U → Result V) (g : V → Result W)
    → (part >>= f >>= g) ≡ (part >>= λ u. f u >>= g)
>>=-assoc (err thrown) f g = refl
>>=-assoc (ok value) f g = refl

-- `xs.map(f)` for an `f` that may throw
abbrev pub map_ok {ℓ κ} : {A : Type ℓ} {B : Type κ} → (A → Result B) → List A → Result (List B)
map_ok f [] = ok []
map_ok f (x ∷ xs) = do y ← f x; ys ← map_ok f xs; ok (y ∷ ys)

pub ok-injective {ℓ} : {A : Type ℓ} {a b : A} → ok a ≡ ok b → a ≡ b
ok-injective h = cc

pub ok-ne-err {ℓ} : {A : Type ℓ} {a : A} {e : Error} → ok a ≡ err e → ⊥
ok-ne-err h = cc

-- A chain that goes on past a guard succeeds only where the guard does not fire.
pub throw_if-eq-ok {ℓ} :
    {B : Type ℓ} (b : Bool) (e : Error) (m : Result B) {a : B}
    → (throw_if b e >> m) ≡ ok a
    → (b ≡ false) × (m ≡ ok a)
throw_if-eq-ok true e m h = cc
throw_if-eq-ok false e m h = (refl, h)

pub none-ne-some {ℓ} : {A : Type ℓ} {a : A} → none ≡ some a → ⊥
none-ne-some h = cc

pub some-injective {ℓ} : {A : Type ℓ} {a b : A} → some a ≡ some b → a ≡ b
some-injective h = cc
