-- ===== src/Examples/Curve.antt =====
-- A group of prime order that behaves as the protocol code assumes of the curve library: a multiple
-- of the generator is a point that shows its scalar.
use fairproof_bcolbd.Prelude.{
  ℕ, ◌+◌, ◌*◌, ◌/◌, ◌%◌, ◌<◌, ◌≡◌, refl, sym, ap, ap₂, ◌∙◌, arith, true, ◌==◌, if◌then◌else◌,
  Bool-cases, inl, inr,
}
use fairproof_bcolbd.Babyjub.{
  Point, Curve, sub_order, base8, points_equal, add_point, mul_point, mul_base, in_curve,
}
use fairproof_bcolbd.Babyjub.Group.{CurveLaws}

abbrev pub point_of : ℕ → Point
point_of k = record { x = k; y = 1 }

unfoldable pub scalar_of : Point → ℕ
scalar_of p = if points_equal p base8 then 1 else p.x

unfoldable pub sample_curve : Curve
unfolding scalar_of
sample_curve = record {
  add = λ p q. point_of ((scalar_of p + scalar_of q) % sub_order);
  mul_escalar = λ p e. point_of (scalar_of p * e % sub_order);
  on_curve = λ p. true;
}

scalar_of-point_of : (k : ℕ) → scalar_of (point_of k) ≡ k
unfolding scalar_of
scalar_of-point_of k = ground arith

mul_base-point_of : (a : ℕ) → mul_base sample_curve a ≡ point_of (a % sub_order)
unfolding mul_base mul_point sample_curve
mul_base-point_of a = elim (Bool-cases (a == 0)) [
  | inl e ↦ let z : a ≡ 0 = ground arith in rw z refl
  | inr e ↦ let one : 1 * a ≡ a = omega arith in rw e (ap (λ (t : ℕ). point_of (t % sub_order)) one)
]

product-mod : (a b : ℕ) → a % sub_order * b % sub_order ≡ a * b % sub_order
product-mod a b =
    let q = a / sub_order in
    let whole : a ≡ a % sub_order + q * sub_order = omega arith in
    let product : a * b ≡ a % sub_order * b + q * b * sub_order =
      ap (λ (t : ℕ). t * b) whole ∙ omega arith in
    omega (arith, product)

add-point_of :
    (a b : ℕ) → add_point sample_curve (point_of a) (point_of b) ≡ point_of ((a + b) % sub_order)
unfolding add_point sample_curve
add-point_of a b =
    ap₂ (λ (k l : ℕ). point_of ((k + l) % sub_order)) (scalar_of-point_of a) (scalar_of-point_of b)

mul-point_of : (a b : ℕ) → mul_point sample_curve (point_of a) b ≡ point_of (a * b % sub_order)
unfolding mul_point sample_curve
mul-point_of a b = elim (Bool-cases (b == 0)) [
  | inl e ↦
      let z : a * b % sub_order ≡ 0 = let b0 : b ≡ 0 = ground arith in rw b0 (omega arith) in
      rw (e, z) refl
  | inr e ↦ rw e (ap (λ (k : ℕ). point_of (k * b % sub_order)) (scalar_of-point_of a))
]

in_curve-point_of : (a : ℕ) → a < sub_order → in_curve sample_curve (point_of a) ≡ true
unfolding in_curve sample_curve
in_curve-point_of a h = ground arith

add-sample_curve :
    (a b : ℕ)
    → add_point sample_curve (mul_base sample_curve a) (mul_base sample_curve b)
      ≡ mul_base sample_curve (a + b)
add-sample_curve a b =
    let sum : (a % sub_order + b % sub_order) % sub_order ≡ (a + b) % sub_order = omega arith in
    ap₂ (add_point sample_curve) (mul_base-point_of a) (mul_base-point_of b)
    ∙ add-point_of (a % sub_order) (b % sub_order)
    ∙ ap point_of sum
    ∙ sym (mul_base-point_of (a + b))

mul-sample_curve :
    (a b : ℕ) → mul_point sample_curve (mul_base sample_curve a) b ≡ mul_base sample_curve (a * b)
mul-sample_curve a b =
    ap (λ (p : Point). mul_point sample_curve p b) (mul_base-point_of a)
    ∙ mul-point_of (a % sub_order) b
    ∙ ap point_of (product-mod a b)
    ∙ sym (mul_base-point_of (a * b))

in_curve-sample_curve : (a : ℕ) → in_curve sample_curve (mul_base sample_curve a) ≡ true
in_curve-sample_curve a =
    ap (in_curve sample_curve) (mul_base-point_of a)
    ∙ in_curve-point_of (a % sub_order) (omega arith)

pub sample_curve-CurveLaws : CurveLaws sample_curve
sample_curve-CurveLaws = record {
  add_mul = add-sample_curve;
  mul_mul = mul-sample_curve;
  order = mul_base-point_of sub_order;
  on_curve = in_curve-sample_curve;
}
