-- ===== src/Babyjub.antt =====
-- packages/crypto/src/babyjub.ts: points, scalar multiplication and the subgroup check. A
-- coordinate or a scalar is a natural number, so that the guard of `mulPoint` against negative
-- scalars has nothing to refuse.
pub mod Group
pub mod Inverse
pub mod Invertible
use fairproof_bcolbd.Prelude.{
  ℕ, zero, suc, ◌+◌, ◌-◌, ◌*◌, ◌/◌, ◌%◌, ◌≡◌, Bool, true, false, ◌&&◌, ◌||◌, leb, ◌==◌,
  if◌then◌else◌, Result, ok, err, Error, Option, none, some,
}
use fairproof_bcolbd.Prelude.Int.{ℤ, pos, negsuc, sub_scaled}

pub record Point : Type 0 where
  pub x : ℕ
  pub y : ℕ

-- the circomlibjs curve behind `toF` and `fromF`
pub record Curve : Type 0 where
  pub add : Point → Point → Point
  pub mul_escalar : Point → ℕ → Point
  pub on_curve : Point → Bool

abbrev pub curve_prime : ℕ
curve_prime = 21888242871839275222246405745257275088548364400416034343698204186575808495617

abbrev pub sub_order : ℕ
sub_order = 2736030358979909402780800718157159386076813972158567259200215660948447373041

abbrev pub base8 : Point
base8 = record {
  x = 5299619240641551281634865583518297030282874472190772894086521144482721001553;
  y = 16950150798460657717958625567821834550301663161624707787222815936182638968203;
}

abbrev pub identity : Point
identity = record { x = 0; y = 1 }

abbrev pub points_equal : Point → Point → Bool
points_equal a b = a.x == b.x && a.y == b.y

unfoldable pub negate_point : Point → Point
negate_point p = record { x = if p.x == 0 then 0 else curve_prime - p.x; y = p.y }

module _ (c : Curve) where
  unfoldable pub add_point : Point → Point → Point
  add_point a b = c.add a b

  unfoldable pub mul_point : Point → ℕ → Point
  mul_point p e = if e == 0 then identity else c.mul_escalar p e

  unfoldable pub mul_base : ℕ → Point
  mul_base e = mul_point base8 e

  unfoldable pub in_curve : Point → Bool
  in_curve p = if leb curve_prime p.x || leb curve_prime p.y then false else c.on_curve p

  unfoldable pub is_in_prime_subgroup : Point → Bool
  is_in_prime_subgroup p =
      if in_curve p then points_equal (mul_point p sub_order) identity else false

-- The loop of `invModSubOrder`, with fuel: `r` falls in every round.
-- The remainders stay natural numbers, the Bézout coefficients do not.
unfoldable pub euclid : ℕ → ℕ → ℕ → ℤ → ℤ → Option (ℕ × ℤ)
euclid zero old_r r old_s s = none
euclid (suc fuel) old_r zero old_s s = some (old_r, old_s)
euclid (suc fuel) old_r (suc m) old_s s =
    let r : ℕ = suc m in let q = old_r / r in euclid fuel r (old_r - q * r) s (sub_scaled old_s q s)

-- `((v % SUB_ORDER) + SUB_ORDER) % SUB_ORDER`, where `%` keeps the sign of `v`
abbrev pub residue : ℤ → ℕ
residue (pos v) = (v % sub_order + sub_order) % sub_order
residue (negsuc n) = (sub_order - suc n % sub_order) % sub_order

unfoldable pub inv_mod_sub_order : ℕ → Result ℕ
inv_mod_sub_order a = elim (euclid (suc sub_order) (residue (pos a)) sub_order (pos 1) (pos 0)) [
  | none ↦ err Error.out_of_rounds
  | some (old_r, old_s) ↦ if old_r == 1 then ok (residue old_s) else err Error.not_invertible
]
