-- ===== src/Babyjub/Inverse.antt =====
-- invModSubOrder of packages/crypto/src/babyjub.ts: its loop ends, and it returns inverses.
use fairproof_bcolbd.Prelude.{
  ℕ, zero, suc, ◌+◌, ◌-◌, ◌*◌, ◌/◌, ◌≤◌, ◌<◌, ◌≡◌, refl, ap, ◌∙◌, arith, some, some-injective,
}
use fairproof_bcolbd.Prelude.Int.{ℤ, pos, negsuc, sub_scaled}
use fairproof_bcolbd.Babyjub.{euclid}

abbrev pub pos_part : ℤ → ℕ
pos_part (pos v) = v
pos_part (negsuc v) = 0

abbrev pub neg_part : ℤ → ℕ
neg_part (pos v) = 0
neg_part (negsuc v) = suc v

sub_scaled_parts :
    (x : ℤ) (q : ℕ) (y : ℤ)
    → pos_part (sub_scaled x q y) + neg_part x + q * pos_part y
      ≡ neg_part (sub_scaled x q y) + pos_part x + q * neg_part y
unfolding sub_scaled
sub_scaled_parts (pos a) q (pos b) = ground arith
sub_scaled_parts (pos a) q (negsuc b) = ground arith
sub_scaled_parts (negsuc a) q (pos b) = ground arith
sub_scaled_parts (negsuc a) q (negsuc b) = ground arith

remainder-lt : (a m : ℕ) → a - a / suc m * suc m < suc m
remainder-lt a m = grind arith

quotient-le : (a m : ℕ) → a / suc m * suc m ≤ a
quotient-le a m = grind arith

-- With more rounds than the remainder the loop ends.
pub euclid_total :
    (fuel old_r r : ℕ) (old_s s : ℤ)
    → r < fuel
    → (g : ℕ) × (t : ℤ) × (euclid fuel old_r r old_s s ≡ some (g, t))
unfolding euclid
euclid_total zero old_r r old_s s h = absurd (omega arith)
euclid_total (suc fuel) old_r zero old_s s h = (old_r, old_s, refl)
euclid_total (suc fuel) old_r (suc m) old_s s h =
    let lt = remainder-lt old_r m in
    euclid_total fuel (suc m) (old_r - old_r / suc m * suc m) s (sub_scaled old_s (old_r / suc m) s)
      (omega arith)

pair_eq : {A B : Type 0} {p q : A × B} → p ≡ q → (p.0 ≡ q.0) × (p.1 ≡ q.1)
pair_eq h = (ap (λ z. z.0) h, ap (λ z. z.1) h)

-- `s` is a Bézout coefficient of `a` for the remainder `r` modulo `n`.
abbrev pub IsCoefficient : ℕ → ℕ → ℕ → ℤ → Type 0
IsCoefficient a n r s = (i : ℕ) × (j : ℕ) × (pos_part s * a + i * n ≡ r + neg_part s * a + j * n)

scaled :
    (q a n p i r m j : ℕ)
    → p * a + i * n ≡ r + m * a + j * n
    → q * p * a + q * i * n ≡ q * r + q * m * a + q * j * n
scaled q a n p i r m j h = let e = ap (λ (t : ℕ). q * t) h in grind arith

scaled_parts :
    (x : ℤ) (q : ℕ) (y : ℤ) (a : ℕ)
    → pos_part (sub_scaled x q y) * a + neg_part x * a + q * pos_part y * a
      ≡ neg_part (sub_scaled x q y) * a + pos_part x * a + q * neg_part y * a
scaled_parts x q y a = let e = ap (λ (t : ℕ). t * a) (sub_scaled_parts x q y) in grind arith

step_linear :
    (p₀ n₀ p₁ n₁ p n i₀ j₀ i₁ j₁ r₀ r₁ d : ℕ)
    → p₀ + i₀ ≡ r₀ + n₀ + j₀
    → p₁ + i₁ ≡ r₁ + n₁ + j₁
    → p + n₀ + p₁ ≡ n + p₀ + n₁
    → r₁ + d ≡ r₀
    → p + (i₀ + j₁) ≡ d + n + (j₀ + i₁)
step_linear p₀ n₀ p₁ n₁ p n i₀ j₀ i₁ j₁ r₀ r₁ d e₀ e₁ e₂ e₃ = omega arith

IsCoefficient-step :
    (a n old_r m : ℕ) (old_s s : ℤ)
    → IsCoefficient a n old_r old_s
    → IsCoefficient a n (suc m) s
    → IsCoefficient a n (old_r - old_r / suc m * suc m) (sub_scaled old_s (old_r / suc m) s)
IsCoefficient-step a n old_r m old_s s (i₀, j₀, e₀) (i₁, j₁, e₁) =
    let q = old_r / suc m in
    let next = sub_scaled old_s q s in
    let e₁' = scaled q a n (pos_part s) i₁ (suc m) (neg_part s) j₁ e₁ in
    let left : old_r / suc m * suc m + (old_r - q * suc m) ≡ old_r =
      let le = quotient-le old_r m in omega arith in
    let sum =
      step_linear (pos_part old_s * a) (neg_part old_s * a) (q * pos_part s * a)
        (q * neg_part s * a) (pos_part next * a) (neg_part next * a) (i₀ * n) (j₀ * n) (q * i₁ * n)
        (q * j₁ * n) old_r (q * suc m) (old_r - q * suc m) e₀ e₁' (scaled_parts old_s q s a) left in
    (i₀ + q * j₁, j₀ + q * i₁, grind arith)

-- The loop returns a coefficient of what it returns as the remainder.
pub euclid-IsCoefficient :
    (a n fuel old_r r : ℕ) (old_s s : ℤ) (g : ℕ) (t : ℤ)
    → IsCoefficient a n old_r old_s
    → IsCoefficient a n r s
    → euclid fuel old_r r old_s s ≡ some (g, t)
    → IsCoefficient a n g t
unfolding euclid
euclid-IsCoefficient a n zero old_r r old_s s g t v w h = cc
euclid-IsCoefficient a n (suc fuel) old_r zero old_s s g t v w h =
    let (same, coefficient) = pair_eq (some-injective h) in rw (← same, ← coefficient) v
euclid-IsCoefficient a n (suc fuel) old_r (suc m) old_s s g t v w h =
    euclid-IsCoefficient a n fuel (suc m) _ s _ g t w (IsCoefficient-step a n old_r m old_s s v w) h

-- The loop returns a common divisor.
pub euclid_divides :
    (fuel old_r r : ℕ) (old_s s : ℤ) (g : ℕ) (t : ℤ)
    → euclid fuel old_r r old_s s ≡ some (g, t)
    → (k : ℕ) × (l : ℕ) × (old_r ≡ k * g) × (r ≡ l * g)
unfolding euclid
euclid_divides zero old_r r old_s s g t h = cc
euclid_divides (suc fuel) old_r zero old_s s g t h =
    let (same, _) = pair_eq (some-injective h) in (1, 0, omega (arith, same), omega arith)
euclid_divides (suc fuel) old_r (suc m) old_s s g t h =
    let (k, l, e, f) = euclid_divides fuel (suc m) _ s _ g t h in
    let le = quotient-le old_r m in
    let left : old_r ≡ old_r / suc m * suc m + l * g = omega (arith, f, le) in
    let whole : old_r ≡ (old_r / suc m * k + l) * g =
      left ∙ ap (λ (x : ℕ). old_r / suc m * x + l * g) e ∙ grind arith in
    (old_r / suc m * k + l, k, whole, e)
