-- ===== src/Vss/Opening.antt =====
-- The opening of a bid's key by the committee: packages/crypto/src/elgamal.ts with
-- packages/crypto/src/vss.ts, whose combineInExponent stands for the secret that no member holds.
use fairproof_bcolbd.Prelude.{
  ℕ, ◌≤◌, ◌<◌, ◌≡◌, sym, ap, ◌∙◌, List, map, length, or_default, Option, Result, ok, ◌>>=◌,
}
use fairproof_bcolbd.Field.{Bytes}
use fairproof_bcolbd.Field.Bytes.{IsBytes}
use fairproof_bcolbd.Platform.{Ethers, EthersLaws}
use fairproof_bcolbd.Domains.{Domains, load_domains}
use fairproof_bcolbd.Babyjub.{Point, Curve, sub_order, mul_point, mul_base}
use fairproof_bcolbd.Babyjub.Group.{CurveLaws}
use fairproof_bcolbd.Elgamal.{Encapsulation, encapsulate, unwrap_dek}
use fairproof_bcolbd.Elgamal.Recovery.{unwrap_dek-encapsulate}
use fairproof_bcolbd.Vss.{CommitteeShare, reconstruct_secret, combine_in_exponent}
use fairproof_bcolbd.Vss.Exponent.{part_of, combine_in_exponent-reconstruct_secret}

-- A key that was encapsulated to the public key of `x` is recovered by members whose shares
-- reconstruct to `x`: their decryption shares of the ephemeral point, combined in the exponent, unwrap
-- it. The data-encryption key has 32 bytes and the scalar is in [1, SUB_ORDER).
pub unwrap_dek-combine_in_exponent :
    {e : Ethers} (laws : EthersLaws e) (domains : Domains) {c : Curve} (curve_laws : CurveLaws c)
    (x random : ℕ) (dek : Bytes) (scalar : Option ℕ) (shares : List CommitteeShare)
    → load_domains e ≡ ok domains
    → length dek ≡ 32
    → IsBytes dek
    → 1 ≤ or_default scalar random
    → or_default scalar random < sub_order
    → reconstruct_secret shares ≡ ok x
    → (enc : Encapsulation) × (encapsulate e domains c random (mul_base c x) dek scalar ≡ ok enc)
      × ((combine_in_exponent c (map (part_of c enc.ephemeral) shares) >>= λ shared.
            unwrap_dek e domains c enc.wrapped shared)
          ≡ ok dek)
unwrap_dek-combine_in_exponent {e} laws domains {c} curve_laws x random dek scalar shares loaded len
      small lo hi secret =
    let (enc, sealed, ephemeral, _, opened) =
      unwrap_dek-encapsulate laws domains curve_laws x random dek scalar loaded len small lo hi in
    let r = or_default scalar random in
    let shared : combine_in_exponent c (map (part_of c enc.ephemeral) shares)
        ≡ ok (mul_point c enc.ephemeral x) =
      ap (λ (p : Point). combine_in_exponent c (map (part_of c p) shares)) ephemeral
      ∙ combine_in_exponent-reconstruct_secret curve_laws r shares
      ∙ ap (λ (s : Result ℕ). s >>= λ y. ok (mul_point c (mul_base c r) y)) secret
      ∙ ap (λ (p : Point). ok (mul_point c p x)) (sym ephemeral) in
    (
      enc,
      sealed,
      ap (λ (s : Result Point). s >>= unwrap_dek e domains c enc.wrapped) shared ∙ opened,
    )
