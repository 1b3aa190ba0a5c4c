-- ===== src/Vss/Modular.antt =====
-- Congruence modulo SUB_ORDER, in which packages/crypto/src/vss.ts interpolates.
use native.Mathlib.Nat.{mul_comm}
use fairproof_bcolbd.Prelude.{ℕ, ◌+◌, ◌-◌, ◌*◌, ◌/◌, ◌%◌, ◌≡◌, ap, sym, ◌∙◌, arith}
use fairproof_bcolbd.Babyjub.{sub_order}

infix 4 ◌≅◌
pub record ◌≅◌ (a b : ℕ) : Type 0 where
  pub residues : a % sub_order ≡ b % sub_order

pub of_eq : {a b : ℕ} → a ≡ b → a ≅ b
of_eq h = record { residues = ap (λ (t : ℕ). t % sub_order) h }

pub symm : {a b : ℕ} → a ≅ b → b ≅ a
symm h = record { residues = sym h.residues }

infixl 5 ◌≫◌
-- one congruence after another
pub ◌≫◌ : {a b c : ℕ} → a ≅ b → b ≅ c → a ≅ c
h ≫ k = record { residues = h.residues ∙ k.residues }

pub add_cong : {a b c d : ℕ} → a ≅ b → c ≅ d → a + c ≅ b + d
add_cong h k = record { residues = omega (arith, h.residues, k.residues) }

pub mul_cong_left : (c : ℕ) {a b : ℕ} → a ≅ b → c * a ≅ c * b
mul_cong_left c {a} {b} h =
    let p = a / sub_order in
    let q = b / sub_order in
    let r = a % sub_order in
    let e : a ≡ r + p * sub_order = omega arith in
    let f : b ≡ r + q * sub_order = omega (arith, h.residues) in
    let e' : c * a ≡ c * r + c * p * sub_order = ap (λ (t : ℕ). c * t) e ∙ grind arith in
    let f' : c * b ≡ c * r + c * q * sub_order = ap (λ (t : ℕ). c * t) f ∙ grind arith in
    record { residues = omega arith }

pub mul_cong : {a b c d : ℕ} → a ≅ b → c ≅ d → a * c ≅ b * d
mul_cong {a} {b} {c} {d} h k =
    of_eq (mul_comm a c) ≫ mul_cong_left c h ≫ of_eq (mul_comm c b) ≫ mul_cong_left b k

pub cancel : (c : ℕ) {a b : ℕ} → a + c ≅ b + c → a ≅ b
cancel c h = record { residues = omega (arith, h.residues) }

pub mod_cong : (a : ℕ) → a % sub_order ≅ a
mod_cong a = record { residues = omega arith }

-- `a - b`, up to a multiple of SUB_ORDER
unfoldable pub diff : ℕ → ℕ → ℕ
diff a b = a + (sub_order - b % sub_order)

pub diff_split : (a b c : ℕ) → diff a c ≅ diff a b + diff b c
unfolding diff
diff_split a b c = record { residues = omega arith }

pub diff_neg : (a b : ℕ) → diff a b + diff b a ≅ 0
unfolding diff
diff_neg a b = record { residues = omega arith }

pub diff_self : (a : ℕ) → diff a a ≅ 0
unfolding diff
diff_self a = record { residues = omega arith }

pub add_diff : (a b : ℕ) → b + diff a b ≅ a
unfolding diff
add_diff a b = record { residues = omega arith }
