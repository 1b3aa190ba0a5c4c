-- ===== src/Vss/Interpolation/Division.antt =====
-- Division of the polynomials of packages/crypto/src/vss.ts by a linear factor, modulo SUB_ORDER.
use fairproof_bcolbd.Prelude.{ℕ, suc, ◌+◌, ◌*◌, ◌≤◌, ◌≡◌, refl, ap, arith, List, [], ◌∷◌, length}
use fairproof_bcolbd.Vss.Modular.{◌≅◌, of_eq, symm, ◌≫◌, add_cong, mul_cong_left, diff, add_diff}
use fairproof_bcolbd.Vss.Dealing.{polynomial}

-- the coefficients of `r + a * q`, for a `q` that is not longer
abbrev add_scaled : List ℕ → ℕ → List ℕ → List ℕ
add_scaled [] a q = []
add_scaled (x ∷ r) a [] = x ∷ r
add_scaled (x ∷ r) a (y ∷ q) = (x + a * y) ∷ add_scaled r a q

-- the coefficients of the quotient by `z - a`
abbrev pub quotient : List ℕ → ℕ → List ℕ
quotient [] a = []
quotient (c ∷ r) a = add_scaled r a (quotient r a)

length-add_scaled : (r : List ℕ) (a : ℕ) (q : List ℕ) → length (add_scaled r a q) ≡ length r
length-add_scaled [] a q = refl
length-add_scaled (x ∷ r) a [] = refl
length-add_scaled (x ∷ r) a (y ∷ q) = ap suc (length-add_scaled r a q)

length-quotient : (c : List ℕ) (a : ℕ) → length (quotient c a) ≤ length c
length-quotient [] a = omega arith
length-quotient (c ∷ r) a = omega (arith, length-add_scaled r a (quotient r a))

-- The quotient is shorter.
pub length-quotient_lt : (c : List ℕ) (a n : ℕ) → length c ≤ suc n → length (quotient c a) ≤ n
length-quotient_lt [] a n h = omega arith
length-quotient_lt (c ∷ r) a n h = omega (arith, length-add_scaled r a (quotient r a))

polynomial-add_scaled :
    (r : List ℕ) (a : ℕ) (q : List ℕ) (z : ℕ)
    → length q ≤ length r
    → polynomial (add_scaled r a q) z ≡ polynomial r z + a * polynomial q z
unfolding polynomial
polynomial-add_scaled [] a [] z h = omega arith
polynomial-add_scaled [] a (y ∷ q) z h = absurd (omega arith)
polynomial-add_scaled (x ∷ r) a [] z h = omega arith
polynomial-add_scaled (x ∷ r) a (y ∷ q) z h =
    let e = polynomial-add_scaled r a q z (omega arith) in rw e (grind arith)

-- A polynomial is its value at `a` and a multiple of `z - a`.
pub polynomial-quotient :
    (c : List ℕ) (a z : ℕ)
    → polynomial c z ≅ polynomial c a + diff z a * polynomial (quotient c a) z
unfolding polynomial
polynomial-quotient [] a z = of_eq (omega arith)
polynomial-quotient (c ∷ r) a z =
    let d = diff z a in
    let v = polynomial r z in
    let u = polynomial r a in
    let q = polynomial (quotient r a) z in
    let e = polynomial-add_scaled r a (quotient r a) z (length-quotient r a) in
    let step : a * v ≅ a * (u + d * q) = mul_cong_left a (polynomial-quotient r a z) in
    let whole : v * z + c ≅ u * a + c + d * (v + a * q) =
      add_cong (symm (mul_cong_left v (add_diff z a))) (of_eq {b = c} refl)
      ≫ of_eq {b = a * v + (v * d + c)} (grind arith)
      ≫ add_cong step (of_eq {b = v * d + c} refl)
      ≫ of_eq (grind arith) in
    rw e whole
