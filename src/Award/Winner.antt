-- ===== src/Award/Winner.antt =====
-- The winner that `selectWinner` of packages/crypto/src/award.ts chooses.
use fairproof_bcolbd.Prelude.{
  ℕ, ◌≡◌, refl, ap, ◌∙◌, arith, Bool, true, false, ◌&&◌, ◌||◌, ltb, leb, List, [], ◌∷◌, All, Occurs,
  first, later, ok, if◌then◌else◌, ◌⊎◌, inl, inr, Bool-cases, subst,
}
use fairproof_bcolbd.Prelude.Int.{ℤ, pos, negsuc, ltb_ℤ, eq_ℤ, eq_ℤ_refl}
use fairproof_bcolbd.Award.{OpenedBid, better, reduce_better, select_winner}

-- `w` is at least as good as `b`: a lower amount, or the same amount and no later submission.
unfoldable pub precedes : OpenedBid → OpenedBid → Bool
precedes w b =
    ltb_ℤ w.bid_amount b.bid_amount
    || (eq_ℤ w.bid_amount b.bid_amount && leb w.submission_index b.submission_index)

-- The order on amounts and indices.
before : ℤ → ℕ → ℤ → ℕ → Bool
before a i b j = ltb_ℤ a b || (eq_ℤ a b && leb i j)

before_trans :
    (a : ℤ) (i : ℕ) (b : ℤ) (j : ℕ) (c : ℤ) (k : ℕ)
    → before a i b j ≡ true
    → before b j c k ≡ true
    → before a i c k ≡ true
unfolding before
before_trans (pos a) i (pos b) j (pos c) k h g = ground arith
before_trans (pos a) i (pos b) j (negsuc c) k h g = ground arith
before_trans (pos a) i (negsuc b) j (pos c) k h g = ground arith
before_trans (pos a) i (negsuc b) j (negsuc c) k h g = ground arith
before_trans (negsuc a) i (pos b) j (pos c) k h g = ground arith
before_trans (negsuc a) i (pos b) j (negsuc c) k h g = ground arith
before_trans (negsuc a) i (negsuc b) j (pos c) k h g = ground arith
before_trans (negsuc a) i (negsuc b) j (negsuc c) k h g = ground arith

precedes_trans :
    (u v w : OpenedBid) → precedes u v ≡ true → precedes v w ≡ true → precedes u w ≡ true
unfolding precedes before
precedes_trans u v w h g =
    before_trans u.bid_amount u.submission_index v.bid_amount v.submission_index w.bid_amount
      w.submission_index h g

precedes_refl : (b : OpenedBid) → precedes b b ≡ true
unfolding precedes
precedes_refl b = rw (eq_ℤ_refl b.bid_amount) (ground arith)

-- The test of `better` fails only where the old bid precedes, and passes only where the new does.
choose_before :
    (a : ℤ) (i : ℕ) (b : ℤ) (j : ℕ)
    → ((ltb_ℤ b a || (eq_ℤ b a && ltb j i)) ≡ true → before b j a i ≡ true)
      × ((ltb_ℤ b a || (eq_ℤ b a && ltb j i)) ≡ false → before a i b j ≡ true)
unfolding before
choose_before (pos a) i (pos b) j = (λ h. ground arith, λ h. ground arith)
choose_before (pos a) i (negsuc b) j = (λ h. ground arith, λ h. ground arith)
choose_before (negsuc a) i (pos b) j = (λ h. ground arith, λ h. ground arith)
choose_before (negsuc a) i (negsuc b) j = (λ h. ground arith, λ h. ground arith)

better_lem :
    (best b : OpenedBid)
    → better best b ≡ (
        if ltb_ℤ b.bid_amount best.bid_amount
          || (eq_ℤ b.bid_amount best.bid_amount && ltb b.submission_index best.submission_index)
        then b
        else best)
unfolding better
better_lem best b = ground arith

better-precedes :
    (best b : OpenedBid)
    → (precedes (better best b) best ≡ true)
      × (precedes (better best b) b ≡ true)
      × ((better best b ≡ best) ⊎ (better best b ≡ b))
unfolding precedes before
better-precedes best b =
    let t = choose_before best.bid_amount best.submission_index b.bid_amount b.submission_index in
    let test =
      ltb_ℤ b.bid_amount best.bid_amount
      || (eq_ℤ b.bid_amount best.bid_amount && ltb b.submission_index best.submission_index) in
    elim (Bool-cases test) [
      | inl e ↦
          let chosen : better best b ≡ b =
            better_lem best b ∙ ap (λ (x : Bool). if x then b else best) e in
          rw chosen (t.0 e, precedes_refl b, inr refl)
      | inr e ↦
          let chosen : better best b ≡ best =
            better_lem best b ∙ ap (λ (x : Bool). if x then b else best) e in
          rw chosen (precedes_refl best, t.1 e, inl refl)
    ]

Occurs-widen :
    (best b : OpenedBid) (bids : List OpenedBid) {r : OpenedBid}
    → Occurs r (best ∷ bids)
    → Occurs r (best ∷ b ∷ bids)
Occurs-widen best b bids first = first
Occurs-widen best b bids (later o) = later (later o)

Occurs-chosen :
    (m best b : OpenedBid) (bids : List OpenedBid) {r : OpenedBid}
    → (m ≡ best) ⊎ (m ≡ b)
    → Occurs r (m ∷ bids)
    → Occurs r (best ∷ b ∷ bids)
Occurs-chosen m best b bids {r} (inl e) o =
    Occurs-widen best b bids (subst (λ (x : OpenedBid). Occurs r (x ∷ bids)) e o)
Occurs-chosen m best b bids {r} (inr e) o =
    later (subst (λ (x : OpenedBid). Occurs r (x ∷ bids)) e o)

-- What is reduced precedes the first element and the others, and is one of them.
reduce_better-precedes :
    (best : OpenedBid) (bids : List OpenedBid)
    → All (λ b. precedes (reduce_better best bids) b ≡ true) (best ∷ bids)
      × Occurs (reduce_better best bids) (best ∷ bids)
unfolding reduce_better
reduce_better-precedes best [] = ((precedes_refl best, tt), first)
reduce_better-precedes best (b ∷ bids) =
    let m = better best b in
    let ((front, rest), occurs) = reduce_better-precedes m bids in
    let (over_best, over_b, chosen) = better-precedes best b in
    let r = reduce_better m bids in
    (
      (precedes_trans r m best front over_best, (precedes_trans r m b front over_b, rest)),
      Occurs-chosen m best b bids chosen occurs,
    )

-- On a list of bids that is not empty `selectWinner` returns one of the bids. Every bid of the list
-- has a higher amount, or the same amount and a submission index that is not lower.
pub select_winner-precedes :
    (b : OpenedBid) (bids : List OpenedBid)
    → (w : OpenedBid) × (select_winner (b ∷ bids) ≡ ok w)
      × Occurs w (b ∷ bids)
      × All (λ x. precedes w x ≡ true) (b ∷ bids)
unfolding select_winner
select_winner-precedes b bids =
    let t = reduce_better-precedes b bids in (reduce_better b bids, refl, t.1, t.0)
