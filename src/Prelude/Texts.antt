-- ===== src/Prelude/Texts.antt =====
-- Equality of strings, which are lists of code units.
use Prim.Native.Nat.{ℕ}
use mathlib.Core.Path.{◌≡◌, refl, sym, ap, ap₂, ◌∙◌}
use mathlib.Core.Logic.{◌≢◌}
use mathlib.Core.Bool.{Bool, true, false, ◌&&◌}
use mathlib.Core.List.{List, [], ◌∷◌}
use native.Mathlib.Omega.{arith}
use fairproof_bcolbd.Prelude.Tests.{◌==◌}

-- `a === b` on strings
abbrev pub text_eq : List ℕ → List ℕ → Bool
text_eq [] [] = true
text_eq (a ∷ s) (b ∷ t) = a == b && text_eq s t
text_eq [] (b ∷ t) = false
text_eq (a ∷ s) [] = false

pub text_eq_refl : (s : List ℕ) → text_eq s s ≡ true
text_eq_refl [] = refl
text_eq_refl (a ∷ s) = ground (arith, text_eq_refl s)

pub ne_of_text_eq : (s t : List ℕ) → text_eq s t ≡ false → s ≢ t
ne_of_text_eq s t h e =
    let same : text_eq s t ≡ true = ap (text_eq s) (sym e) ∙ text_eq_refl s in cc

pub eq_of_text_eq : (s t : List ℕ) → text_eq s t ≡ true → s ≡ t
eq_of_text_eq [] [] h = refl
eq_of_text_eq [] (b ∷ t) h = cc
eq_of_text_eq (a ∷ s) [] h = cc
eq_of_text_eq (a ∷ s) (b ∷ t) h =
    let head : a ≡ b = ground arith in
    let tail : text_eq s t ≡ true = ground arith in
    ap₂ (λ (c : ℕ) (r : List ℕ). c ∷ r) head (eq_of_text_eq s t tail)
