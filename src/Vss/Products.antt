-- ===== src/Vss/Products.antt =====
-- Sums and products over the members of a committee, for packages/crypto/src/vss.ts.
use fairproof_bcolbd.Prelude.{
  ℕ, ◌+◌, ◌*◌, ◌≡◌, refl, arith, false, List, [], ◌∷◌, ◌==◌, if◌then◌else◌, All, Bool-cases, inl,
  inr,
}
use fairproof_bcolbd.Vss.Modular.{◌≅◌, of_eq, add_cong, mul_cong}

abbrev pub sum : (ℕ → ℕ) → List ℕ → ℕ
sum f [] = 0
sum f (i ∷ is) = f i + sum f is

abbrev pub product : (ℕ → ℕ) → List ℕ → ℕ
product f [] = 1
product f (j ∷ js) = f j * product f js

-- the product over the members but `i`
abbrev pub product_but : ℕ → (ℕ → ℕ) → List ℕ → ℕ
product_but i f [] = 1
product_but i f (j ∷ js) = if j == i then product_but i f js else f j * product_but i f js

pub sum-cong :
    {P : ℕ → Type 0} (f g : ℕ → ℕ) (is : List ℕ)
    → ((i : ℕ) → P i → f i ≅ g i)
    → All P is
    → sum f is ≅ sum g is
sum-cong f g [] h v = of_eq refl
sum-cong f g (i ∷ is) h (p, v) = add_cong (h i p) (sum-cong f g is h v)

pub sum-add : (f g : ℕ → ℕ) (is : List ℕ) → sum (λ i. f i + g i) is ≡ sum f is + sum g is
sum-add f g [] = refl
sum-add f g (i ∷ is) = let h = sum-add f g is in omega arith

pub sum-mul : (c : ℕ) (f : ℕ → ℕ) (is : List ℕ) → sum (λ i. c * f i) is ≡ c * sum f is
sum-mul c f [] = omega arith
sum-mul c f (i ∷ is) = let h = sum-mul c f is in grind arith

pub product-mul :
    (f g : ℕ → ℕ) (js : List ℕ) → product (λ j. f j * g j) js ≡ product f js * product g js
product-mul f g [] = refl
product-mul f g (j ∷ js) = let h = product-mul f g js in rw h (grind arith)

pub product_but-mul :
    (i : ℕ) (f g : ℕ → ℕ) (js : List ℕ)
    → product_but i (λ j. f j * g j) js ≡ product_but i f js * product_but i g js
product_but-mul i f g [] = refl
product_but-mul i f g (j ∷ js) = elim (Bool-cases (j == i)) [
  | inl e ↦ rw e (product_but-mul i f g js)
  | inr e ↦ rw (e, product_but-mul i f g js) (grind arith)
]

pub product-cong_one :
    {P : ℕ → Type 0} (f : ℕ → ℕ) (js : List ℕ)
    → ((j : ℕ) → P j → f j ≅ 1)
    → All P js
    → product f js ≅ 1
product-cong_one f [] h v = of_eq refl
product-cong_one f (j ∷ js) h (p, v) = mul_cong (h j p) (product-cong_one f js h v)

-- Leaving out what is not there changes nothing.
pub product_but_absent :
    {P : ℕ → Type 0} (i : ℕ) (f : ℕ → ℕ) (js : List ℕ)
    → ((j : ℕ) → P j → (j == i) ≡ false)
    → All P js
    → product_but i f js ≡ product f js
product_but_absent i f [] h v = refl
product_but_absent i f (j ∷ js) h (p, v) = rw (h j p, product_but_absent i f js h v) refl
