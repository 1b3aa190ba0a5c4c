-- ===== src/Examples/Openings.antt =====
-- The theorems on inverses and on opening by the committee at concrete inputs.
use fairproof_bcolbd.Prelude.{
  ℕ, [], ◌*◌, ◌%◌, ◌<◌, ◌≡◌, ◌↔◌, ◌⊎◌, refl, arith, err, Error, List, map, none, some, ok, take,
  ◌>>=◌, ◌≢◌, All, first, later,
}
use fairproof_bcolbd.Prelude.Int.{ℤ, pos}
use fairproof_bcolbd.Babyjub.{sub_order, inv_mod_sub_order, euclid}
use fairproof_bcolbd.Babyjub.Inverse.{euclid_total}
use fairproof_bcolbd.Babyjub.Invertible.{inv_mod_sub_order-ok_iff}
use fairproof_bcolbd.Domains.Loading.{load_domains-ok}
use fairproof_bcolbd.Vss.{
  CommitteeShare, reconstruct_secret, combine_in_exponent, deal_shares, evaluate_polynomial,
  verify_dealing,
}
use fairproof_bcolbd.Elgamal.{Encapsulation, encapsulate, unwrap_dek}
use fairproof_bcolbd.Vss.Exponent.{part_of}
use fairproof_bcolbd.Vss.Threshold.{Chosen, reconstruct_secret-deal, unwrap_dek-deal}
use fairproof_bcolbd.Vss.Consistency.{verify_dealing-deal}
use fairproof_bcolbd.Examples.Ethers.{sample_ethers, sample_ethers-EthersLaws}
use fairproof_bcolbd.Examples.Curve.{sample_curve, sample_curve-CurveLaws}
use fairproof_bcolbd.Examples.Committee.{dealing, dealing-key, key, dek, dek-IsBytes, sample_loaded}

euclid_total_example : (g : ℕ) × (t : ℤ) × (euclid 13 9 12 (pos 1) (pos 0) ≡ some (g, t))
euclid_total_example = euclid_total 13 9 12 (pos 1) (pos 0) (omega arith)

inv_mod_sub_order-ok_iff_example :
    ((inv_mod_sub_order 2
        ≡ ok 1368015179489954701390400359078579693038406986079283629600107830474223686521)
      ↔ ((1368015179489954701390400359078579693038406986079283629600107830474223686521 < sub_order)
          × ((2 * 1368015179489954701390400359078579693038406986079283629600107830474223686521)
                % sub_order
              ≡ 1)))
    × (((c : ℕ) × (inv_mod_sub_order 2 ≡ ok c)) ⊎ (inv_mod_sub_order 2 ≡ err Error.not_invertible))
inv_mod_sub_order-ok_iff_example =
    inv_mod_sub_order-ok_iff 2
      1368015179489954701390400359078579693038406986079283629600107830474223686521

-- two of the three members
abbrev shares : List CommitteeShare
shares = take 2 key.shares

shares-Chosen : Chosen key shares
unfolding deal_shares
shares-Chosen = record { dealt = (first, (later first, tt)); distinct = refl; enough = omega arith }

reconstruct_secret-deal_example : reconstruct_secret shares ≡ ok 5
reconstruct_secret-deal_example =
    reconstruct_secret-deal sample_curve-CurveLaws (λ call. call) dealing key shares dealing-key
      (omega arith) shares-Chosen

unwrap_dek-deal_example :
    (enc : Encapsulation) × (encapsulate sample_ethers sample_loaded sample_curve 11 key.public_key
        dek none
      ≡ ok enc)
    × ((combine_in_exponent sample_curve (map (part_of sample_curve enc.ephemeral) shares)
          >>= λ shared. unwrap_dek sample_ethers sample_loaded sample_curve enc.wrapped shared)
        ≡ ok dek)
unwrap_dek-deal_example =
    unwrap_dek-deal sample_curve-CurveLaws sample_ethers-EthersLaws sample_loaded (λ call. call)
      dealing key shares 11 dek none dealing-key (omega arith) shares-Chosen
      (load_domains-ok sample_ethers-EthersLaws) refl dek-IsBytes (omega arith) (omega arith)

key-nonzero : All (λ s. s.share ≢ 0) key.shares
unfolding deal_shares evaluate_polynomial
key-nonzero = (omega arith, (omega arith, (omega arith, tt)))

verify_dealing-deal_example : verify_dealing sample_curve key ≡ ok []
verify_dealing-deal_example =
    verify_dealing-deal sample_curve-CurveLaws (λ call. call) dealing key dealing-key (omega arith)
      key-nonzero
