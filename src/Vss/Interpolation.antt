-- ===== src/Vss/Interpolation.antt =====
-- Lagrange interpolation modulo SUB_ORDER, which packages/crypto/src/vss.ts reconstructs secrets by.
pub mod Unity
pub mod Division
pub mod Values
use fairproof_bcolbd.Prelude.{
  ℕ, ◌+◌, ◌*◌, ◌≡◌, refl, sym, ap, ◌∙◌, arith, true, false, List, [], ◌∷◌, ◌==◌, if◌then◌else◌, All,
  All-weaken, Bool-cases, inl, inr,
}
use fairproof_bcolbd.Vss.Modular.{
  ◌≅◌, of_eq, symm, ◌≫◌, add_cong, mul_cong, mul_cong_left, cancel, diff, diff_split, diff_neg,
  diff_self,
}
use fairproof_bcolbd.Vss.Products.{
  sum, product, product_but, sum-cong, sum-add, sum-mul, product-mul, product_but-mul,
  product-cong_one, product_but_absent,
}

pub All-zip : (P Q : ℕ → Type 0) (is : List ℕ) → All P is → All Q is → All (λ i. P i × Q i) is
All-zip P Q [] p q = tt
All-zip P Q (i ∷ is) (p, ps) (q, qs) = ((p, q), All-zip P Q is ps qs)

move_front : (x y b p : ℕ) → x * b ≡ p → x * (y * b) ≡ y * p
move_front x y b p h = let e = ap (λ (t : ℕ). y * t) h in grind arith

module _ (w : ℕ → ℕ → ℕ) where
  -- `w i j` inverts the difference of two members, which are not the same.
  pub record Apart (i j : ℕ) : Type 0 where
    pub other : (i == j) ≡ false
    pub other' : (j == i) ≡ false
    pub inverse : diff i j * w i j ≅ 1
    pub inverse' : diff j i * w j i ≅ 1

  abbrev pub Nodes : List ℕ → Type 0
  Nodes [] = Unit
  Nodes (a ∷ is) = All (Apart a) is × Nodes is

  -- the weight of the member `i` in the value at `z`
  abbrev pub weight : ℕ → List ℕ → ℕ → ℕ
  weight z is i = product_but i (λ j. diff j z * w j i) is

  abbrev pub inverses : List ℕ → ℕ → ℕ
  inverses is i = product_but i (λ j. w j i) is

  product_but-Apart :
      (a : ℕ) (f : ℕ → ℕ) (is : List ℕ) → All (Apart a) is → product_but a f is ≡ product f is
  product_but-Apart a f is v = product_but_absent a f is (λ j p. p.other') v

  pub product_but_self :
      (a : ℕ) (f : ℕ → ℕ) (is : List ℕ) → All (Apart a) is → product_but a f (a ∷ is) ≡ product f is
  product_but_self a f is v =
      let e : (a == a) ≡ true = ground arith in rw e (product_but-Apart a f is v)

  product_but_complete :
      (f : ℕ → ℕ) (is : List ℕ) → Nodes is → All (λ i. f i * product_but i f is ≡ product f is) is
  product_but_complete f [] v = tt
  product_but_complete f (a ∷ is) (v, vs) = (
    ap (λ (t : ℕ). f a * t) (product_but_self a f is v),
    All-weaken {P = λ i. Apart a i × (f i * product_but i f is ≡ product f is)}
        {Q = λ i. f i * product_but i f (a ∷ is) ≡ product f (a ∷ is)}
        (λ i h. rw h.0.other (move_front (f i) (f a) (product_but i f is) (product f is) h.1)) is
        (All-zip (Apart a) (λ i. f i * product_but i f is ≡ product f is) is v
          (product_but_complete f is vs)),
  )

  -- The inverses of the two differences of two members are opposite.
  pub inverse_neg : (i j : ℕ) → Apart i j → w i j + w j i ≅ 0
  inverse_neg i j p =
      let left : w i j ≅ w i j * (diff j i * w j i) =
        symm (mul_cong_left (w i j) p.inverse' ≫ of_eq (omega arith)) in
      let right : w j i ≅ w j i * (diff i j * w i j) =
        symm (mul_cong_left (w j i) p.inverse ≫ of_eq (omega arith)) in
      add_cong left right
      ≫ of_eq {b = w i j * w j i * (diff i j + diff j i)} (grind arith)
      ≫ mul_cong_left (w i j * w j i) (diff_neg i j)
      ≫ of_eq (omega arith)

  pub weight-inverses :
      (z : ℕ) (is : List ℕ)
      → Nodes is
      → All (λ i. diff i z * weight z is i ≡ product (λ j. diff j z) is * inverses is i) is
  weight-inverses z is v =
      All-weaken {P = λ i. diff i z * product_but i (λ j. diff j z) is ≡ product (λ j. diff j z) is}
        {Q = λ i. diff i z * weight z is i ≡ product (λ j. diff j z) is * inverses is i}
        (λ i h.
          rw (product_but-mul i (λ j. diff j z) (λ j. w j i) is)
            (let e = ap (λ (t : ℕ). t * inverses is i) h in grind arith))
        is (product_but_complete (λ j. diff j z) is v)
