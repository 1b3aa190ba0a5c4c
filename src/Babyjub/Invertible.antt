-- ===== src/Babyjub/Invertible.antt =====
-- invModSubOrder of packages/crypto/src/babyjub.ts returns the inverse where there is one.
use fairproof_bcolbd.Prelude.{
  ℕ, zero, suc, ◌+◌, ◌*◌, ◌/◌, ◌%◌, ◌<◌, ◌≡◌, ◌⊎◌, refl, sym, ap, ◌∙◌, ◌↔◌, arith, ◌==◌,
  if◌then◌else◌, Bool-cases, inl, inr, some, ok, err, Error, ok-injective, ok-ne-err,
}
use fairproof_bcolbd.Prelude.Int.{ℤ, pos, negsuc}
use fairproof_bcolbd.Babyjub.{sub_order, euclid, residue, inv_mod_sub_order}
use fairproof_bcolbd.Babyjub.Inverse.{
  IsCoefficient, euclid_total, euclid-IsCoefficient, euclid_divides,
}

mod_eq : (x y i j : ℕ) → x + i * sub_order ≡ y + j * sub_order → x % sub_order ≡ y % sub_order
mod_eq x y i j h = omega arith

start-IsCoefficient : (a : ℕ) → IsCoefficient a sub_order (residue (pos a)) (pos 1)
start-IsCoefficient a = (0, a / sub_order, omega arith)

modulus-IsCoefficient : (a : ℕ) → IsCoefficient a sub_order sub_order (pos 0)
modulus-IsCoefficient a = (1, 0, omega arith)

cancel_pos :
    (a b p i j k : ℕ)
    → p ≡ b + k * sub_order
    → p * a + i * sub_order ≡ 1 + j * sub_order
    → a * b + (k * a + i) * sub_order ≡ 1 + j * sub_order
cancel_pos a b p i j k e h = let f = ap (λ (t : ℕ). t * a) e in grind arith

cancel_neg :
    (a b m i j c : ℕ)
    → b + m ≡ c * sub_order
    → i * sub_order ≡ 1 + m * a + j * sub_order
    → a * b + i * sub_order ≡ 1 + (c * a + j) * sub_order
cancel_neg a b m i j c e h = let f = ap (λ (t : ℕ). t * a) e in grind arith

residue-inverse : (a : ℕ) (t : ℤ) → IsCoefficient a sub_order 1 t → (a * residue t) % sub_order ≡ 1
residue-inverse a (pos p) (i, j, e) =
    let b = residue (pos p) in
    let k = p / sub_order in
    mod_eq (a * b) 1 (k * a + i) j (cancel_pos a b p i j k (omega arith) (omega (arith, e)))
residue-inverse a (negsuc m) (i, j, e) =
    let b = residue (negsuc m) in
    let c = (b + suc m) / sub_order in
    mod_eq (a * b) 1 i (c * a + j) (cancel_neg a b (suc m) i j c (omega arith) (omega (arith, e)))

residue-lt : (t : ℤ) → residue t < sub_order
residue-lt (pos p) = omega arith
residue-lt (negsuc m) = omega arith

multiple-one : (x y g : ℕ) → x * g ≡ y * g + 1 → g ≡ 1
multiple-one zero y g h = absurd (omega arith)
multiple-one (suc x) zero zero h = absurd (omega arith)
multiple-one (suc x) zero (suc g) h = grind arith
multiple-one (suc x) (suc y) g h = multiple-one x y g (omega arith)

inverse_unique :
    (a b c : ℕ)
    → (a * b) % sub_order ≡ 1
    → (a * c) % sub_order ≡ 1
    → b < sub_order
    → c < sub_order
    → b ≡ c
inverse_unique a b c e f small small' =
    let m = (a * b) / sub_order in
    let l = (a * c) / sub_order in
    let e' : a * b ≡ 1 + m * sub_order = omega arith in
    let f' : a * c ≡ 1 + l * sub_order = omega arith in
    let ec = ap (λ (t : ℕ). t * c) e' in
    let fb = ap (λ (t : ℕ). t * b) f' in
    let linear : b + b * l * sub_order ≡ c + c * m * sub_order = grind arith in
    let same = mod_eq b c (b * l) (c * m) linear in omega arith

divisor-one :
    (a b g k l : ℕ) → (a * b) % sub_order ≡ 1 → residue (pos a) ≡ k * g → sub_order ≡ l * g → g ≡ 1
divisor-one a b g k l h e f =
    let d = a / sub_order in
    let m = (a * b) / sub_order in
    let whole : a ≡ residue (pos a) + d * sub_order = omega arith in
    let product : a * b ≡ 1 + m * sub_order = omega arith in
    let dl : d * sub_order ≡ d * l * g = ap (λ (t : ℕ). d * t) f ∙ grind arith in
    let ml : m * sub_order ≡ m * l * g = ap (λ (t : ℕ). m * t) f ∙ grind arith in
    let factored : a ≡ (k + d * l) * g = whole ∙ grind arith in
    let left : a * b ≡ (k + d * l) * b * g = ap (λ (t : ℕ). t * b) factored ∙ grind arith in
    multiple-one ((k + d * l) * b) (m * l) g (sym left ∙ product ∙ omega (arith, ml))

inv-some :
    (a : ℕ) (g : ℕ) (t : ℤ)
    → euclid (suc sub_order) (residue (pos a)) sub_order (pos 1) (pos 0) ≡ some (g, t)
    → inv_mod_sub_order a ≡ (if g == 1 then ok (residue t) else err Error.not_invertible)
unfolding inv_mod_sub_order
inv-some a g t h = rw (inv_mod_sub_order, h) refl

-- `invModSubOrder` ends: its loop does not use up its rounds, and it returns a value or reports
-- that there is no inverse. It returns `b` exactly if `b` is the reduced inverse of `a`: below the
-- order of the subgroup, and with a product with `a` that leaves the remainder 1.
pub inv_mod_sub_order-ok_iff :
    (a b : ℕ)
    → ((inv_mod_sub_order a ≡ ok b) ↔ ((b < sub_order) × ((a * b) % sub_order ≡ 1)))
      × (((c : ℕ) × (inv_mod_sub_order a ≡ ok c))
          ⊎ (inv_mod_sub_order a ≡ err Error.not_invertible))
inv_mod_sub_order-ok_iff a b =
    let (g, t, found) =
      euclid_total (suc sub_order) (residue (pos a)) sub_order (pos 1) (pos 0) (omega arith) in
    let returned = inv-some a g t found in
    let bezout =
      euclid-IsCoefficient a sub_order (suc sub_order) (residue (pos a)) sub_order (pos 1) (pos 0) g
        t (start-IsCoefficient a) (modulus-IsCoefficient a) found in
    let (k, l, e, f) =
      euclid_divides (suc sub_order) (residue (pos a)) sub_order (pos 1) (pos 0) g t found in
    elim (Bool-cases (g == 1)) [
      | inl unit ↦
          let one : g ≡ 1 = ground arith in
          let inverse = residue-inverse a t (rw one at bezout) in
          let answer : inv_mod_sub_order a ≡ ok (residue t) = returned ∙ rw unit refl in
          (
            (
              λ h. let same = ok-injective (sym answer ∙ h) in rw (← same) (residue-lt t, inverse),
              λ h.
                  answer
                  ∙ ap (λ (x : ℕ). ok x)
                      (inverse_unique a (residue t) b inverse h.1 (residue-lt t) h.0),
            ),
            inl (residue t, answer),
          )
      | inr other ↦
          let answer : inv_mod_sub_order a ≡ err Error.not_invertible = returned ∙ rw other refl in
          (
            (
              λ h. absurd (ok-ne-err (sym h ∙ answer)),
              λ h. let one = divisor-one a b g k l h.1 e f in absurd (ground arith),
            ),
            inr answer,
          )
    ]
