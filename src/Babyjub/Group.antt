-- ===== src/Babyjub/Group.antt =====
-- The subgroup that `BASE8` generates, for packages/crypto/src/babyjub.ts. What the library does
-- on it is stated by `CurveLaws`; the rest of the curve is left open.
use fairproof_bcolbd.Prelude.{
  ℕ, zero, suc, ◌+◌, ◌*◌, ◌/◌, ◌%◌, ◌^◌, ◌<◌, ◌≡◌, refl, sym, ap, ◌∙◌, arith, true,
}
use fairproof_bcolbd.Babyjub.{
  Point, Curve, sub_order, identity, points_equal, add_point, mul_point, mul_base, in_curve,
  is_in_prime_subgroup,
}

-- Addition and multiplication agree on the multiples of the generator, whose order is `SUB_ORDER`,
-- and those multiples are points of the curve.
pub record CurveLaws (c : Curve) : Type 0 where
  pub add_mul : (a b : ℕ) → add_point c (mul_base c a) (mul_base c b) ≡ mul_base c (a + b)
  pub mul_mul : (a b : ℕ) → mul_point c (mul_base c a) b ≡ mul_base c (a * b)
  pub order : mul_base c sub_order ≡ identity
  pub on_curve : (a : ℕ) → in_curve c (mul_base c a) ≡ true

module _ {c : Curve} (laws : CurveLaws c) where
  pub mul_base-zero : mul_base c 0 ≡ identity
  unfolding mul_base mul_point
  mul_base-zero = refl

  mul_base-add_order : (a : ℕ) → mul_base c (a + sub_order) ≡ mul_base c a
  mul_base-add_order a =
      let e : a + 0 ≡ a = omega arith in
      sym (laws.add_mul a sub_order)
      ∙ ap (add_point c (mul_base c a)) (laws.order ∙ sym mul_base-zero)
      ∙ laws.add_mul a 0
      ∙ ap (mul_base c) e

  pub mul_base_wrap : (k a : ℕ) → mul_base c (a + k * sub_order) ≡ mul_base c a
  mul_base_wrap zero a = let e : a + 0 * sub_order ≡ a = omega arith in ap (mul_base c) e
  mul_base_wrap (suc k) a =
      let e : a + suc k * sub_order ≡ a + k * sub_order + sub_order = omega arith in
      ap (mul_base c) e ∙ mul_base-add_order (a + k * sub_order) ∙ mul_base_wrap k a

  pub mul_base-mod : (a : ℕ) → mul_base c (a % sub_order) ≡ mul_base c a
  mul_base-mod a =
      let e : a % sub_order + a / sub_order * sub_order ≡ a = omega arith in
      sym (mul_base_wrap (a / sub_order) (a % sub_order)) ∙ ap (mul_base c) e

  -- A factor may be reduced.
  pub mul_base-mod_factor :
      (a b w : ℕ) → mul_base c (a + b % sub_order * w) ≡ mul_base c (a + b * w)
  mul_base-mod_factor a b w =
      let q = b / sub_order in
      let whole : b ≡ b % sub_order + q * sub_order = omega arith in
      let product : b * w ≡ b % sub_order * w + q * sub_order * w =
        ap (λ (t : ℕ). t * w) whole ∙ omega arith in
      let e : a + b % sub_order * w + q * w * sub_order ≡ a + b * w = omega arith in
      sym (mul_base_wrap (q * w) (a + b % sub_order * w)) ∙ ap (mul_base c) e

  -- The coordinates of a multiple of the generator fit 32 bytes.
  pub mul_base-lt : (a : ℕ) → ((mul_base c a).x < 256 ^ 32) × ((mul_base c a).y < 256 ^ 32)
  unfolding in_curve
  mul_base-lt a = let on = laws.on_curve a in ground arith

  pub mul_base-in_subgroup : (a : ℕ) → is_in_prime_subgroup c (mul_base c a) ≡ true
  unfolding is_in_prime_subgroup
  mul_base-in_subgroup a =
      let e : 0 + a * sub_order ≡ a * sub_order = omega arith in
      let back : mul_point c (mul_base c a) sub_order ≡ identity =
        laws.mul_mul a sub_order ∙ ap (mul_base c) (sym e) ∙ mul_base_wrap a 0 ∙ mul_base-zero in
      rw (laws.on_curve a, back) refl

pub points_equal_refl : (p : Point) → points_equal p p ≡ true
points_equal_refl p = ground arith
