-- ===== src/Examples/Committee.antt =====
-- The theorems on the opening committee at concrete inputs.
use fairproof_bcolbd.Prelude.{
  ℕ, zero, suc, ◌+◌, ◌≤◌, ◌<◌, ◌≡◌, refl, arith, true, not, [], ◌∷◌, ◌==◌, length, replicate, All,
  none, some, ok,
}
use fairproof_bcolbd.Prelude.Int.{sub_scaled}
use fairproof_bcolbd.Field.{Bytes}
use fairproof_bcolbd.Field.Bytes.{IsBytes}
use fairproof_bcolbd.Babyjub.{
  sub_order, mul_base, mul_point, add_point, in_curve, is_in_prime_subgroup, inv_mod_sub_order,
  euclid,
}
use fairproof_bcolbd.Domains.{Domains}
use fairproof_bcolbd.Domains.Loading.{loaded, load_domains-ok}
use fairproof_bcolbd.Vss.{
  DealParams, DealtCommitteeKey, deal_committee_key, key_of, verify_share, verify_dealing,
  share_problems, off_curve_problems, key_problems, reconstruction_problems, expected_public_share,
  sum_commitments, reconstruct_secret, reconstruct_loop, lagrange_coefficient, lagrange_loop,
  deal_shares, evaluate_polynomial,
}
use fairproof_bcolbd.Vss.Dealing.{deal-verify_share}
use fairproof_bcolbd.Vss.Checking.{verify_dealing_sound}
use fairproof_bcolbd.Vss.Defaults.{member_share, deal_committee_key-ok}
use fairproof_bcolbd.Elgamal.{Encapsulation, encapsulate, unwrap_dek, decryption_share}
use fairproof_bcolbd.Elgamal.Recovery.{unwrap_dek-encapsulate}
use fairproof_bcolbd.Dleq.{DleqProof, prove_dleq, verify_dleq}
use fairproof_bcolbd.Dleq.Completeness.{verify_dleq-prove_dleq}
use fairproof_bcolbd.Examples.Ethers.{sample_ethers, sample_ethers-EthersLaws}
use fairproof_bcolbd.Examples.Curve.{sample_curve, scalar_of, sample_curve-CurveLaws}

-- two of three, with a given polynomial
abbrev pub dealing : DealParams
dealing = record {
  threshold = some 2;
  size = some 3;
  secret = some 5;
  coefficients = some (7 ∷ []);
}

abbrev pub key : DealtCommitteeKey
key = key_of sample_curve 2 3 5 (7 ∷ [])

pub dealing-key : deal_committee_key sample_curve (λ call. call) dealing ≡ ok key
unfolding deal_committee_key
dealing-key = refl

deal-verify_share_example :
    (length key.shares ≡ 3)
    × (length key.commitments ≡ 2)
    × (2 ≤ 2)
    × (2 ≤ 3)
    × (1 ≤ 5)
    × (5 < sub_order)
    × (key.public_key ≡ mul_base sample_curve 5)
    × All
        (λ s.
          (1 ≤ s.index) × (verify_share sample_curve s key.commitments ≡ ok (not (s.share == 0))))
        key.shares
deal-verify_share_example =
    deal-verify_share sample_curve-CurveLaws (λ call. call) dealing key dealing-key

abbrev pub sample_loaded : Domains
sample_loaded = loaded sample_ethers-EthersLaws

verify_dleq-prove_dleq_example :
    (proof : DleqProof) × (prove_dleq sample_ethers sample_loaded sample_curve 11 5
        (mul_base sample_curve 9)
        none
      ≡ ok proof)
    × (verify_dleq sample_ethers sample_loaded sample_curve
          (mul_base sample_curve 5)
          (mul_base sample_curve 9)
          (decryption_share sample_curve 5 (mul_base sample_curve 9))
          proof
        ≡ ok (not (proof.z == 0)))
verify_dleq-prove_dleq_example =
    verify_dleq-prove_dleq sample_ethers-EthersLaws sample_curve-CurveLaws sample_loaded 11 5 9 none
      (load_domains-ok sample_ethers-EthersLaws) (omega arith) (omega arith) (omega arith)
      (omega arith)

abbrev pub dek : Bytes
dek = replicate 32 200

All-replicate : (n : ℕ) → IsBytes (replicate n 200)
All-replicate zero = tt
All-replicate (suc n) = (omega arith, All-replicate n)

pub dek-IsBytes : IsBytes dek
dek-IsBytes = All-replicate 32

unwrap_dek-encapsulate_example :
    (enc : Encapsulation) × (encapsulate sample_ethers sample_loaded sample_curve 11
        (mul_base sample_curve 5)
        dek
        none
      ≡ ok enc)
    × (enc.ephemeral ≡ mul_base sample_curve 11)
    × (length enc.wrapped ≡ 32)
    × (unwrap_dek sample_ethers sample_loaded sample_curve enc.wrapped
          (mul_point sample_curve enc.ephemeral 5)
        ≡ ok dek)
unwrap_dek-encapsulate_example =
    unwrap_dek-encapsulate sample_ethers-EthersLaws sample_loaded sample_curve-CurveLaws 5 11 dek
      none (load_domains-ok sample_ethers-EthersLaws) refl dek-IsBytes (omega arith) (omega arith)

key-verified : verify_dealing sample_curve key ≡ ok []
unfolding verify_dealing share_problems off_curve_problems key_problems reconstruction_problems
    verify_share expected_public_share sum_commitments reconstruct_secret reconstruct_loop
    lagrange_coefficient lagrange_loop inv_mod_sub_order euclid deal_shares evaluate_polynomial
    mul_base mul_point add_point in_curve is_in_prime_subgroup sample_curve scalar_of sub_scaled
key-verified = refl

verify_dealing_sound_example :
    (length key.commitments ≡ 2)
    × (length key.shares ≡ 3)
    × (is_in_prime_subgroup sample_curve key.public_key ≡ true)
    × All (λ s. verify_share sample_curve s key.commitments ≡ ok true) key.shares
verify_dealing_sound_example = verify_dealing_sound sample_curve key key-verified

-- every parameter by default
abbrev defaults : DealParams
defaults = record { threshold = none; size = none; secret = none; coefficients = none }

deal_committee_key-ok_example :
    (k : DealtCommitteeKey) × (deal_committee_key sample_curve (λ call. call + 17) defaults ≡ ok k)
    × (k.threshold ≡ 3)
    × (k.size ≡ 5)
    × (k.secret ≡ 17)
    × (k.public_key ≡ mul_base sample_curve 17)
    × (k.commitments
        ≡ mul_base sample_curve 17 ∷ mul_base sample_curve 18 ∷ mul_base sample_curve 19 ∷ [])
    × (k.shares
        ≡ member_share sample_curve 1 54
          ∷ member_share sample_curve 2 129
          ∷ member_share sample_curve 3 242
          ∷ member_share sample_curve 4 393
          ∷ member_share sample_curve 5 582
          ∷ [])
deal_committee_key-ok_example =
    deal_committee_key-ok sample_curve (λ call. call + 17) defaults 3 5 17 refl refl refl refl
      (omega arith) (omega arith) (omega arith) (omega arith)
