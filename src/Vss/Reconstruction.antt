-- ===== src/Vss/Reconstruction.antt =====
-- reconstructSecret of packages/crypto/src/vss.ts recovers the secret from any threshold of shares.
use fairproof_bcolbd.Prelude.{
  ℕ, ◌+◌, ◌*◌, ◌%◌, ◌≤◌, ◌<◌, ◌≡◌, refl, sym, ap, ◌∙◌, arith, true, false, List, [], ◌∷◌, map,
  length, length-map, ◌==◌, All, All-weaken, Bool-cases, inl, inr, contains, ok,
}
use fairproof_bcolbd.Babyjub.{sub_order}
use fairproof_bcolbd.Vss.{
  CommitteeShare, evaluate_polynomial, reconstruct_loop, reconstruct_secret, has_duplicate,
}
use fairproof_bcolbd.Vss.Modular.{◌≅◌, of_eq, ◌≫◌, add_cong, mul_cong, mod_cong}
use fairproof_bcolbd.Vss.Products.{sum}
use fairproof_bcolbd.Vss.Dealing.{polynomial, evaluate_polynomial-polynomial}
use fairproof_bcolbd.Vss.Interpolation.{weight}
use fairproof_bcolbd.Vss.Interpolation.Values.{sum-weight-polynomial}
use fairproof_bcolbd.Vss.Coefficients.{
  inverse_diff, Inverted, Nodes-Inverted, lagrange_coefficient-weight,
}
use fairproof_bcolbd.Vss.Small.{has_duplicate-Nodes}

abbrev pub indices_of : List CommitteeShare → List ℕ
indices_of shares = map (λ (s : CommitteeShare). s.index) shares

-- a share of the polynomial with the given coefficients, for an index of one byte
abbrev pub IsShareOf : List ℕ → CommitteeShare → Type 0
IsShareOf coefficients s = (s.share ≡ evaluate_polynomial coefficients s.index) × (s.index ≤ 255)

contains-later : (i a : ℕ) (is : List ℕ) → contains i is ≡ true → contains i (a ∷ is) ≡ true
contains-later i a is h = elim (Bool-cases (i == a)) [ inl e ↦ rw e refl | inr e ↦ rw e h ]

contains-All : (is : List ℕ) → All (λ i. contains i is ≡ true) is
contains-All [] = tt
contains-All (a ∷ is) =
    let self : (a == a) ≡ true = ground arith in
    (
      rw self refl,
      All-weaken {P = λ i. contains i is ≡ true} {Q = λ i. contains i (a ∷ is) ≡ true}
          (λ i h. contains-later i a is h) is (contains-All is),
    )

-- What the loop needs to know of a share.
record Usable (coefficients is : List ℕ) (s : CommitteeShare) : Type 0 where
  member : contains s.index is ≡ true
  bounded : s.index ≤ 255
  value : s.share ≅ polynomial coefficients s.index
  inverted : All (Inverted inverse_diff s.index) is

reconstruct_loop-sum :
    (coefficients is : List ℕ) (shares : List CommitteeShare) (acc : ℕ)
    → has_duplicate is ≡ false
    → acc < sub_order
    → All (Usable coefficients is) shares
    → (r : ℕ) × (reconstruct_loop is shares acc ≡ ok r)
      × (r < sub_order)
      × (r
          ≅ acc
            + sum (λ i. weight inverse_diff 0 is i * polynomial coefficients i) (indices_of shares))
unfolding reconstruct_loop
reconstruct_loop-sum coefficients is [] acc distinct small v =
    (acc, refl, small, of_eq (omega arith))
reconstruct_loop-sum coefficients is (s ∷ shares) acc distinct small (u, v) =
    let (k, found, same) =
      lagrange_coefficient-weight inverse_diff is s.index u.member distinct
        (let b = u.bounded in omega arith) u.inverted in
    let next = (acc + s.share * k) % sub_order in
    let (r, looped, bounded, total) =
      reconstruct_loop-sum coefficients is shares next distinct (omega arith) v in
    let later_sum =
      sum (λ i. weight inverse_diff 0 is i * polynomial coefficients i) (indices_of shares) in
    let l = weight inverse_diff 0 is s.index in
    let p = polynomial coefficients s.index in
    (
      r,
      rw found looped,
      bounded,
      total
          ≫ add_cong
              (mod_cong (acc + s.share * k)
                ≫ add_cong (of_eq {b = acc} refl) (mul_cong u.value same))
              (of_eq {b = later_sum} refl)
          ≫ of_eq {b = acc + (l * p + later_sum)} (grind arith),
    )

Usable-share :
    (coefficients is : List ℕ) (s : CommitteeShare)
    → IsShareOf coefficients s
    → contains s.index is ≡ true
    → All (Inverted inverse_diff s.index) is
    → Usable coefficients is s
Usable-share coefficients is s (e, small) member inverted = record {
  member = member;
  bounded = small;
  value =
      of_eq e
      ≫ of_eq (evaluate_polynomial-polynomial coefficients s.index)
      ≫ mod_cong (polynomial coefficients s.index);
  inverted = inverted;
}

shares-Usable :
    (coefficients is : List ℕ) (shares : List CommitteeShare)
    → All (IsShareOf coefficients) shares
    → All (λ i. contains i is ≡ true) (indices_of shares)
    → All (λ i. All (Inverted inverse_diff i) is) (indices_of shares)
    → All (Usable coefficients is) shares
shares-Usable coefficients is [] v m n = tt
shares-Usable coefficients is (s ∷ shares) (p, v) (m, ms) (n, ns) =
    (Usable-share coefficients is s p m n, shares-Usable coefficients is shares v ms ns)

indices-small :
    (coefficients : List ℕ) (shares : List CommitteeShare)
    → All (IsShareOf coefficients) shares
    → All (λ i. i ≤ 255) (indices_of shares)
indices-small coefficients [] v = tt
indices-small coefficients (s ∷ shares) (p, v) = (p.1, indices-small coefficients shares v)

-- Shares of one polynomial, for distinct one-byte indices and at least as many as the polynomial has
-- coefficients, reconstruct to the polynomial's value at 0.
pub reconstruct_secret-evaluate_polynomial :
    (coefficients : List ℕ) (shares : List CommitteeShare)
    → All (IsShareOf coefficients) shares
    → has_duplicate (indices_of shares) ≡ false
    → length coefficients ≤ length shares
    → reconstruct_secret shares ≡ ok (evaluate_polynomial coefficients 0)
unfolding reconstruct_secret
reconstruct_secret-evaluate_polynomial coefficients shares v distinct enough =
    let is = indices_of shares in
    let nodes = has_duplicate-Nodes is (indices-small coefficients shares v) distinct in
    let usable =
      shares-Usable coefficients is shares v (contains-All is)
        (Nodes-Inverted inverse_diff is nodes) in
    let (r, looped, small, total) =
      reconstruct_loop-sum coefficients is shares 0 distinct (omega arith) usable in
    let count : length is ≡ length shares = length-map shares (λ (s : CommitteeShare). s.index) in
    let value : r ≅ polynomial coefficients 0 =
      total
      ≫ of_eq (omega arith)
      ≫ sum-weight-polynomial inverse_diff 0 is coefficients nodes (omega arith) in
    let same : r ≡ polynomial coefficients 0 % sub_order = let e = value.residues in omega arith in
    looped ∙ ap (λ (t : ℕ). ok t) (same ∙ sym (evaluate_polynomial-polynomial coefficients 0))
