-- ===== src/Vss/Threshold.antt =====
-- What a threshold of the members can do with the shares that packages/crypto/src/vss.ts dealt them.
use fairproof_bcolbd.Prelude.{
  ℕ, zero, suc, ◌+◌, ◌≤◌, ◌<◌, ◌≡◌, refl, ap, ◌∙◌, subst, sym, arith, false, List, ◌∷◌, map, length,
  All, All-weaken, All-Occurs, Occurs, Option, or_default, ok, ◌>>=◌,
}
use fairproof_bcolbd.Field.{Bytes}
use fairproof_bcolbd.Field.Bytes.{IsBytes}
use fairproof_bcolbd.Platform.{Ethers, EthersLaws}
use fairproof_bcolbd.Domains.{Domains, load_domains}
use fairproof_bcolbd.Babyjub.{Curve, sub_order, mul_base}
use fairproof_bcolbd.Babyjub.Group.{CurveLaws}
use fairproof_bcolbd.Elgamal.{Encapsulation, encapsulate, unwrap_dek}
use fairproof_bcolbd.Vss.{
  CommitteeShare, DealParams, DealtCommitteeKey, evaluate_polynomial, deal_shares,
  deal_committee_key, reconstruct_secret, combine_in_exponent, has_duplicate,
}
use fairproof_bcolbd.Vss.Dealing.{polynomial, evaluate_polynomial-polynomial, deal-key_of}
use fairproof_bcolbd.Vss.Exponent.{part_of}
use fairproof_bcolbd.Vss.Opening.{unwrap_dek-combine_in_exponent}
use fairproof_bcolbd.Vss.Reconstruction.{
  indices_of, IsShareOf, reconstruct_secret-evaluate_polynomial,
}

-- Shares of distinct members, of a dealt key, as many as the threshold.
pub record Chosen (k : DealtCommitteeKey) (shares : List CommitteeShare) : Type 0 where
  pub dealt : All (λ s. Occurs s k.shares) shares
  pub distinct : has_duplicate (indices_of shares) ≡ false
  pub enough : k.threshold ≤ length shares

pub deal_shares-IsShareOf :
    (c : Curve) (coefficients : List ℕ) (i n : ℕ)
    → i + n ≤ 256
    → All (IsShareOf coefficients) (deal_shares c coefficients i n)
unfolding deal_shares
deal_shares-IsShareOf c coefficients i zero h = tt
deal_shares-IsShareOf c coefficients i (suc n) h =
    ((refl, omega arith), deal_shares-IsShareOf c coefficients (suc i) n (omega arith))

pub evaluate_polynomial_zero :
    (secret : ℕ) (extra : List ℕ)
    → secret < sub_order
    → evaluate_polynomial (secret ∷ extra) 0 ≡ secret
unfolding polynomial
evaluate_polynomial_zero secret extra h =
    evaluate_polynomial-polynomial (secret ∷ extra) 0 ∙ omega arith

module _ {c : Curve} (laws : CurveLaws c) where
  -- The shares of any threshold of distinct members of a dealt committee, of at most 255 members and
  -- in any order, reconstruct to the secret.
  pub reconstruct_secret-deal :
      (draw : ℕ → ℕ) (params : DealParams) (k : DealtCommitteeKey) (shares : List CommitteeShare)
      → deal_committee_key c draw params ≡ ok k
      → k.size ≤ 255
      → Chosen k shares
      → reconstruct_secret shares ≡ ok k.secret
  reconstruct_secret-deal draw params k shares h bounded chosen =
      let (extra, dealt, _, _, _, range, count) = deal-key_of laws draw params k h in
      let coefficients = k.secret ∷ extra in
      let all : All (IsShareOf coefficients) k.shares =
        subst (λ (d : DealtCommitteeKey). All (IsShareOf coefficients) d.shares) (sym dealt)
          (deal_shares-IsShareOf c coefficients 1 k.size (omega arith)) in
      let mine : All (IsShareOf coefficients) shares =
        All-weaken {P = λ s. Occurs s k.shares} {Q = IsShareOf coefficients}
          (λ s o. All-Occurs (IsShareOf coefficients) s k.shares all o) shares chosen.dealt in
      let enough = chosen.enough in
      reconstruct_secret-evaluate_polynomial coefficients shares mine chosen.distinct (omega arith)
      ∙ ap (λ (t : ℕ). ok t) (evaluate_polynomial_zero k.secret extra range)

  -- A key that was encapsulated to the public key of a dealt committee, of at most 255 members, is
  -- recovered by any threshold of distinct members: their decryption shares of the ephemeral point,
  -- combined in the exponent, unwrap it. The data-encryption key has 32 bytes and the scalar is in
  -- [1, SUB_ORDER).
  pub unwrap_dek-deal :
      {e : Ethers} (ethers_laws : EthersLaws e) (domains : Domains) (draw : ℕ → ℕ)
      (params : DealParams) (k : DealtCommitteeKey) (shares : List CommitteeShare) (random : ℕ)
      (dek : Bytes) (scalar : Option ℕ)
      → deal_committee_key c draw params ≡ ok k
      → k.size ≤ 255
      → Chosen k shares
      → load_domains e ≡ ok domains
      → length dek ≡ 32
      → IsBytes dek
      → 1 ≤ or_default scalar random
      → or_default scalar random < sub_order
      → (enc : Encapsulation) × (encapsulate e domains c random k.public_key dek scalar ≡ ok enc)
        × ((combine_in_exponent c (map (part_of c enc.ephemeral) shares) >>= λ shared.
              unwrap_dek e domains c enc.wrapped shared)
            ≡ ok dek)
  unwrap_dek-deal {e} ethers_laws domains draw params k shares random dek scalar h bounded chosen
        loaded len small lo hi =
      let (_, dealt, _, _, _, _, _) = deal-key_of laws draw params k h in
      let public : k.public_key ≡ mul_base c k.secret =
        ap (λ (d : DealtCommitteeKey). d.public_key) dealt in
      let (enc, sealed, opened) =
        unwrap_dek-combine_in_exponent ethers_laws domains laws k.secret random dek scalar shares
          loaded len small lo hi (reconstruct_secret-deal draw params k shares h bounded chosen) in
      (enc, ap (λ p. encapsulate e domains c random p dek scalar) public ∙ sealed, opened)
