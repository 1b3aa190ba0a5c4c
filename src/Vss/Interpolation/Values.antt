-- ===== src/Vss/Interpolation/Values.antt =====
-- What packages/crypto/src/vss.ts interpolates: the value of a polynomial of small degree.
use fairproof_bcolbd.Prelude.{
  ℕ, ◌+◌, ◌*◌, ◌≤◌, ◌≡◌, refl, ap, ◌∙◌, arith, List, [], ◌∷◌, All, length,
}
use fairproof_bcolbd.Vss.Modular.{
  ◌≅◌, of_eq, symm, ◌≫◌, add_cong, mul_cong_left, cancel, diff, diff_neg, diff_self,
}
use fairproof_bcolbd.Vss.Products.{sum, sum-cong, sum-add, sum-mul}
use fairproof_bcolbd.Vss.Dealing.{polynomial}
use fairproof_bcolbd.Vss.Interpolation.{Apart, Nodes, weight}
use fairproof_bcolbd.Vss.Interpolation.Unity.{sum-weight}
use fairproof_bcolbd.Vss.Interpolation.Division.{quotient, length-quotient_lt, polynomial-quotient}

All-Unit : (is : List ℕ) → All (λ i. Unit {0}) is
All-Unit [] = tt
All-Unit (i ∷ is) = (tt, All-Unit is)

module _ (w : ℕ → ℕ → ℕ) where
  -- The inverse of a difference times the opposite difference is -1.
  turned : (a i z : ℕ) → Apart w a i → diff a z * (w a i * diff i a) ≅ diff z a
  turned a i z p =
      let d = diff a z in
      let minus : w a i * diff i a + 1 ≅ 0 =
        add_cong (of_eq {b = w a i * diff i a} refl) (symm p.inverse)
        ≫ of_eq {b = w a i * (diff i a + diff a i)} (grind arith)
        ≫ mul_cong_left (w a i) (diff_neg i a)
        ≫ of_eq (omega arith) in
      cancel d (
        of_eq {b = d * (w a i * diff i a + 1)} (grind arith)
        ≫ mul_cong_left d minus
        ≫ of_eq {b = 0} (omega arith)
        ≫ symm (diff_neg z a))

  weighted-tail :
      (z a i v : ℕ) (is : List ℕ)
      → Apart w a i
      → weight w z (a ∷ is) i * (diff i a * v) ≅ diff z a * (weight w z is i * v)
  weighted-tail z a i v is p =
      let l = weight w z is i in
      let first : weight w z (a ∷ is) i ≡ diff a z * w a i * l = rw p.other refl in
      of_eq (ap (λ (t : ℕ). t * (diff i a * v)) first)
      ≫ of_eq {b = l * v * (diff a z * (w a i * diff i a))} (grind arith)
      ≫ mul_cong_left (l * v) (turned a i z p)
      ≫ of_eq (grind arith)

  split_value :
      (z a : ℕ) (c is : List ℕ)
      → sum (λ i. weight w z is i * polynomial c i) is
        ≅ polynomial c a * sum (weight w z is) is
          + sum (λ i. weight w z is i * (diff i a * polynomial (quotient c a) i)) is
  split_value z a c is =
      let rest = λ (i : ℕ). weight w z is i * (diff i a * polynomial (quotient c a) i) in
      sum-cong {P = λ i. Unit {0}} (λ i. weight w z is i * polynomial c i)
        (λ i. polynomial c a * weight w z is i + rest i) is
        (λ i p. mul_cong_left (weight w z is i) (polynomial-quotient c a i) ≫ of_eq (grind arith))
        (All-Unit is)
      ≫ of_eq (
          sum-add (λ i. polynomial c a * weight w z is i) rest is
          ∙ ap (λ (t : ℕ). t + sum rest is) (sum-mul (polynomial c a) (weight w z is) is))

  -- The weighted sum of the values of a polynomial at members, of at most as many coefficients as
  -- members, is its value.
  pub sum-weight-polynomial :
      (z : ℕ) (is c : List ℕ)
      → Nodes w is
      → length c ≤ length is
      → sum (λ i. weight w z is i * polynomial c i) is ≅ polynomial c z
  unfolding polynomial
  sum-weight-polynomial z [] [] v h = of_eq refl
  sum-weight-polynomial z [] (x ∷ c) v h = absurd (omega arith)
  sum-weight-polynomial z (a ∷ is) c (v, vs) h =
      let q = quotient c a in
      let all = weight w z (a ∷ is) in
      let value = polynomial c a in
      let head : all a * (diff a a * polynomial q a) ≅ 0 =
        of_eq {b = all a * polynomial q a * diff a a} (grind arith)
        ≫ mul_cong_left (all a * polynomial q a) (diff_self a)
        ≫ of_eq (omega arith) in
      let tail : sum (λ i. all i * (diff i a * polynomial q i)) is ≅ diff z a * polynomial q z =
        sum-cong {P = Apart w a} (λ i. all i * (diff i a * polynomial q i))
          (λ i. diff z a * (weight w z is i * polynomial q i)) is
          (λ i p. weighted-tail z a i (polynomial q i) is p) v
        ≫ of_eq (sum-mul (diff z a) (λ i. weight w z is i * polynomial q i) is)
        ≫ mul_cong_left (diff z a)
            (sum-weight-polynomial z is q vs (length-quotient_lt c a (length is) h)) in
      split_value z a c (a ∷ is)
      ≫ add_cong (mul_cong_left value (sum-weight w z a is (v, vs))) (add_cong head tail)
      ≫ of_eq {b = value + diff z a * polynomial q z} (omega arith)
      ≫ symm (polynomial-quotient c a z)
