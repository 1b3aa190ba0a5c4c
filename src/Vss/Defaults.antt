-- ===== src/Vss/Defaults.antt =====
-- `dealCommitteeKey` of packages/crypto/src/vss.ts with coefficients that it draws itself.
use native.Mathlib.Nat.{pow-zero, pow-suc}
use fairproof_bcolbd.Prelude.{
  ℕ, zero, suc, ◌+◌, ◌-◌, ◌*◌, ◌%◌, ◌^◌, ◌≤◌, ◌<◌, ◌≡◌, refl, sym, ap, ap₂, ◌∙◌, arith, false, ◌||◌,
  List, [], ◌∷◌, map, ltb, leb, ==_iff, length, none, or_default, ok,
}
use fairproof_bcolbd.Babyjub.{Point, Curve, sub_order, mul_base}
use fairproof_bcolbd.Domains.{committee_threshold, committee_size}
use fairproof_bcolbd.Vss.{
  CommitteeShare, DealtCommitteeKey, DealParams, evaluate_polynomial, deal_shares,
  deal_committee_key, draw_all, key_of,
}
use fairproof_bcolbd.Vss.Dealing.{polynomial, evaluate_polynomial-polynomial}

-- `n` numbers in order, from `i` on
abbrev count_from : ℕ → ℕ → List ℕ
count_from i zero = []
count_from i (suc n) = i ∷ count_from (suc i) n

-- the sum of `a j * z ^ j` over the `n` numbers `j` from `i` on
abbrev power_sum : (ℕ → ℕ) → ℕ → ℕ → ℕ → ℕ
power_sum a z i zero = 0
power_sum a z i (suc n) = a i * z ^ i + power_sum a z (suc i) n

-- The share of member `z` of a secret, with the draws from number 1 on as the other coefficients.
abbrev drawn_share : (ℕ → ℕ) → ℕ → ℕ → ℕ → ℕ
drawn_share draw secret threshold z = (secret + power_sum draw z 1 (threshold - 1)) % sub_order

draw_all-count_from :
    (draw : ℕ → ℕ) (call n : ℕ) → draw_all draw call n ≡ map draw (count_from call n)
unfolding draw_all
draw_all-count_from draw call zero = refl
draw_all-count_from draw call (suc n) =
    ap (λ (rest : List ℕ). draw call ∷ rest) (draw_all-count_from draw (suc call) n)

length-draw_all : (draw : ℕ → ℕ) (call n : ℕ) → length (draw_all draw call n) ≡ n
unfolding draw_all
length-draw_all draw call zero = refl
length-draw_all draw call (suc n) = omega (arith, length-draw_all draw (suc call) n)

pow_one : (z : ℕ) → z ^ 1 ≡ z
pow_one z = pow-suc z 0 ∙ rw (pow-zero z) (omega arith)

horner_step : (p z w a : ℕ) → (p * z + a) * w ≡ a * w + p * (w * z)
horner_step p z w a = grind arith

-- The polynomial of the draws from number `call` on, shifted to their powers.
polynomial-draw_all :
    (draw : ℕ → ℕ) (z call n : ℕ)
    → polynomial (draw_all draw call n) z * z ^ call ≡ power_sum draw z call n
unfolding draw_all polynomial
polynomial-draw_all draw z call zero = omega arith
polynomial-draw_all draw z call (suc n) =
    horner_step (polynomial (draw_all draw (suc call) n) z) z (z ^ call) (draw call)
    ∙ ap (λ (w : ℕ). draw call * z ^ call + polynomial (draw_all draw (suc call) n) z * w)
        (sym (pow-suc z call))
    ∙ ap (λ (t : ℕ). draw call * z ^ call + t) (polynomial-draw_all draw z (suc call) n)

evaluate_polynomial-drawn_share :
    (draw : ℕ → ℕ) (secret threshold z : ℕ)
    → evaluate_polynomial (secret ∷ draw_all draw 1 (threshold - 1)) z
      ≡ drawn_share draw secret threshold z
unfolding polynomial
evaluate_polynomial-drawn_share draw secret threshold z =
    let p = polynomial (draw_all draw 1 (threshold - 1)) z in
    let sum : p * z ^ 1 ≡ power_sum draw z 1 (threshold - 1) =
      polynomial-draw_all draw z 1 (threshold - 1) in
    let turned : p * z + secret ≡ secret + p * z ^ 1 = rw (pow_one z) (omega arith) in
    evaluate_polynomial-polynomial (secret ∷ draw_all draw 1 (threshold - 1)) z
    ∙ ap (λ (t : ℕ). t % sub_order) (turned ∙ ap (λ (t : ℕ). secret + t) sum)

map-map :
    {A B C : Type 0} (f : A → B) (g : B → C) (xs : List A)
    → map g (map f xs) ≡ map (λ x. g (f x)) xs
map-map f g [] = refl
map-map f g (x ∷ xs) = ap (λ ys. g (f x) ∷ ys) (map-map f g xs)

module _ (c : Curve) where
  -- a member's share with its index and its public share
  abbrev pub member_share : ℕ → ℕ → CommitteeShare
  member_share i share = record { index = i; share = share; public_share = mul_base c share }

  deal_shares-map :
      (coefficients : List ℕ) (f : ℕ → ℕ) (i n : ℕ)
      → ((z : ℕ) → evaluate_polynomial coefficients z ≡ f z)
      → deal_shares c coefficients i n ≡ map (λ z. member_share z (f z)) (count_from i n)
  unfolding deal_shares
  deal_shares-map coefficients f i zero h = refl
  deal_shares-map coefficients f i (suc n) h =
      ap₂ (λ (s : CommitteeShare) (rest : List CommitteeShare). s ∷ rest)
        (ap (member_share i) (h i)) (deal_shares-map coefficients f (suc i) n h)

  deal_committee_key_drawn :
      (draw : ℕ → ℕ) (params : DealParams) (t n s : ℕ)
      → params.coefficients ≡ none
      → or_default params.threshold committee_threshold ≡ t
      → or_default params.size committee_size ≡ n
      → or_default params.secret (draw 0) ≡ s
      → 2 ≤ t
      → t ≤ n
      → 1 ≤ s
      → s < sub_order
      → deal_committee_key c draw params ≡ ok (key_of c t n s (draw_all draw 1 (t - 1)))
  unfolding deal_committee_key
  deal_committee_key_drawn draw params t n s drawn t_is n_is s_is low high pos small =
      let count : suc (length (draw_all draw 1 (t - 1))) ≡ t =
        omega (arith, length-draw_all draw 1 (t - 1)) in
      let counted = (==_iff (suc (length (draw_all draw 1 (t - 1)))) t).1 count in
      let a : ltb t 2 ≡ false = ground arith in
      let b : ltb n t ≡ false = ground arith in
      let d : (leb s 0 || leb sub_order s) ≡ false = ground arith in
      rw (drawn, t_is, n_is, s_is, a, b, d, counted) refl

  -- Without supplied coefficients `dealCommitteeKey` succeeds whenever the threshold t, supplied or
  -- by default, is at least 2 and at most the size, and the secret, supplied or drawn first, lies in
  -- [1, SUB_ORDER). The public key is the secret times the generator. The commitments are the secret
  -- and the draws with numbers j, 1 <= j < t, times the generator, in this order. The members are 1
  -- to the size, in order, and the share of member z is the secret plus the sum over these j of
  -- draw j times z to the power j, modulo SUB_ORDER; its public share is that times the generator.
  pub deal_committee_key-ok :
      (draw : ℕ → ℕ) (params : DealParams) (t n s : ℕ)
      → params.coefficients ≡ none
      → or_default params.threshold committee_threshold ≡ t
      → or_default params.size committee_size ≡ n
      → or_default params.secret (draw 0) ≡ s
      → 2 ≤ t
      → t ≤ n
      → 1 ≤ s
      → s < sub_order
      → (k : DealtCommitteeKey) × (deal_committee_key c draw params ≡ ok k)
        × (k.threshold ≡ t)
        × (k.size ≡ n)
        × (k.secret ≡ s)
        × (k.public_key ≡ mul_base c s)
        × (k.commitments ≡ mul_base c s ∷ map (λ j. mul_base c (draw j)) (count_from 1 (t - 1)))
        × (k.shares ≡ map (λ z. member_share z (drawn_share draw s t z)) (count_from 1 n))
  deal_committee_key-ok draw params t n s drawn t_is n_is s_is low high pos small = (
    key_of c t n s (draw_all draw 1 (t - 1)),
    deal_committee_key_drawn draw params t n s drawn t_is n_is s_is low high pos small,
    refl,
    refl,
    refl,
    refl,
    ap (λ (js : List ℕ). mul_base c s ∷ map (mul_base c) js) (draw_all-count_from draw 1 (t - 1))
        ∙ ap (λ (ps : List Point). mul_base c s ∷ ps)
            (map-map draw (mul_base c) (count_from 1 (t - 1))),
    deal_shares-map (s ∷ draw_all draw 1 (t - 1)) (drawn_share draw s t) 1 n
        (evaluate_polynomial-drawn_share draw s t),
  )
