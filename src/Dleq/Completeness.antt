-- ===== src/Dleq/Completeness.antt =====
-- Proofs of packages/crypto/src/dleq.ts are accepted.
use fairproof_bcolbd.Prelude.{
  ℕ, ◌+◌, ◌*◌, ◌/◌, ◌%◌, ◌^◌, ◌<◌, ◌≤◌, All, map_ok, ◌≡◌, refl, sym, ap, ◌∙◌, arith, true, false,
  not, ◌==◌, leb, List, [], ◌∷◌, Option, or_default, ok, Bool-cases, inl, inr,
}
use fairproof_bcolbd.Field.{Bytes, write_bytes, concat_bytes}
use fairproof_bcolbd.Field.Bytes.{to_bytes-eq-ok}
use fairproof_bcolbd.Platform.{Ethers, EthersLaws}
use fairproof_bcolbd.Domains.{Domains, load_domains}
use fairproof_bcolbd.Domains.Loading.{raw_dleq-bytes, parse_hex-keccak256}
use fairproof_bcolbd.Babyjub.{Point, Curve, sub_order, base8, add_point, mul_point, mul_base}
use fairproof_bcolbd.Babyjub.Group.{CurveLaws, mul_base_wrap, mul_base-lt, points_equal_refl}
use fairproof_bcolbd.Dleq.{
  DleqProof, dleq_challenge, prove_dleq, all_in_curve, verify_dleq, to_bytes32, equations_hold,
}
use fairproof_bcolbd.Elgamal.{decryption_share}

module _ {c : Curve} (laws : CurveLaws c) where
  -- The response in the exponent of any multiple of the generator.
  response :
      (r w challenge secret : ℕ)
      → mul_base c (r * ((w + challenge * secret % sub_order) % sub_order))
        ≡ add_point c (mul_base c (r * w)) (mul_point c (mul_base c (r * secret)) challenge)
  response r w challenge secret =
      let z = (w + challenge * secret % sub_order) % sub_order in
      let k = challenge * secret / sub_order + (w + challenge * secret % sub_order) / sub_order in
      let whole : z + k * sub_order ≡ w + challenge * secret = omega arith in
      let product : r * z + r * k * sub_order ≡ r * w + r * secret * challenge =
        omega (arith, ap (λ (t : ℕ). r * t) whole) in
      sym (mul_base_wrap laws (r * k) (r * z))
      ∙ ap (mul_base c) product
      ∙ sym (laws.add_mul (r * w) (r * secret * challenge))
      ∙ ap (add_point c (mul_base c (r * w))) (sym (laws.mul_mul (r * secret) challenge))

map_ok-to_bytes32 :
    (xs : List ℕ)
    → All (λ v. v < 256 ^ 32) xs
    → (out : List Bytes) × (map_ok to_bytes32 xs ≡ ok out)
map_ok-to_bytes32 [] h = ([], refl)
map_ok-to_bytes32 (x ∷ xs) (p, h) =
    let (out, e) = map_ok-to_bytes32 xs h in
    ((write_bytes 32 x []).0 ∷ out, rw (to_bytes-eq-ok x 32 p, e) refl)

module _ {e : Ethers} (ethers_laws : EthersLaws e) (domains : Domains) where
  -- The challenge over points whose coordinates fit 32 bytes is computed without an error.
  dleq_challenge-ok :
      (p₁ p₂ p₃ p₄ p₅ : Point)
      → load_domains e ≡ ok domains
      → All (λ p. (p.x < 256 ^ 32) × (p.y < 256 ^ 32)) (p₁ ∷ p₂ ∷ p₃ ∷ p₄ ∷ p₅ ∷ [])
      → (challenge : ℕ) × (dleq_challenge e domains p₁ p₂ p₃ p₄ p₅ ≡ ok challenge)
  unfolding dleq_challenge
  dleq_challenge-ok p₁ p₂ p₃ p₄ p₅ loaded h =
      let (domain, read) = raw_dleq-bytes ethers_laws domains loaded in
      let (coordinates, written) =
        map_ok-to_bytes32
          (base8.x ∷ base8.y ∷ p₁.x ∷ p₁.y ∷ p₂.x ∷ p₂.y ∷ p₃.x ∷ p₃.y ∷ p₄.x ∷ p₄.y ∷ p₅.x ∷ p₅.y
            ∷ [])
          (omega arith) in
      let digest = parse_hex-keccak256 ethers_laws (concat_bytes (domain ∷ coordinates)) in
      (
        ethers_laws.keccak_value (concat_bytes (domain ∷ coordinates)) % sub_order,
        rw (read, written, digest) refl,
      )

module _ {c : Curve} (laws : CurveLaws c) where
  -- Both equations hold of the response.
  equations_hold-response :
      (r w challenge secret : ℕ)
      → equations_hold c
          (mul_base c secret)
          (mul_base c r)
          (mul_point c (mul_base c r) secret)
          (record {
            a = mul_base c w;
            b = mul_point c (mul_base c r) w;
            z = (w + challenge * secret % sub_order) % sub_order;
          })
          challenge
        ≡ true
  equations_hold-response r w challenge secret =
      let z = (w + challenge * secret % sub_order) % sub_order in
      let one : (n : ℕ) → 1 * n ≡ n = λ n. omega arith in
      let first : mul_base c z
          ≡ add_point c (mul_base c w) (mul_point c (mul_base c secret) challenge) =
        rw (one z, one w, one secret) at (response laws 1 w challenge secret) in
      let second : mul_point c (mul_base c r) z
          ≡ add_point c (mul_point c (mul_base c r) w)
              (mul_point c (mul_point c (mul_base c r) secret) challenge) =
        rw (laws.mul_mul r z, laws.mul_mul r w, laws.mul_mul r secret)
          (response laws r w challenge secret) in
      rw (first, points_equal_refl (add_point c (mul_base c w) _), second, points_equal_refl) refl

module _ {e : Ethers} {c : Curve} (ethers_laws : EthersLaws e) (laws : CurveLaws c) where
  -- For an ephemeral point in the subgroup, and a secret and a nonce in [1, SUB_ORDER),
  -- `proveDleq` returns a proof. `verifyDleq` checks it against the prover's public share and
  -- decryption share without an error, and accepts it exactly if its response is not zero.
  pub verify_dleq-prove_dleq :
      (domains : Domains) (random secret r : ℕ) (nonce : Option ℕ)
      → load_domains e ≡ ok domains
      → 1 ≤ secret
      → secret < sub_order
      → 1 ≤ or_default nonce random
      → or_default nonce random < sub_order
      → (proof : DleqProof) × (prove_dleq e domains c random secret (mul_base c r) nonce ≡ ok proof)
        × (verify_dleq e domains c
              (mul_base c secret)
              (mul_base c r)
              (decryption_share c secret (mul_base c r))
              proof
            ≡ ok (not (proof.z == 0)))
  unfolding prove_dleq verify_dleq decryption_share
  verify_dleq-prove_dleq domains random secret r nonce loaded lo hi wlo whi =
      let w = or_default nonce random in
      let whole : secret % sub_order ≡ secret = omega arith in
      let d = mul_point c (mul_base c r) secret in
      let b = mul_point c (mul_base c r) w in
      let d_eq : d ≡ mul_base c (r * secret) = laws.mul_mul r secret in
      let b_eq : b ≡ mul_base c (r * w) = laws.mul_mul r w in
      let (k, challenged) =
        dleq_challenge-ok ethers_laws domains (mul_base c secret) (mul_base c r) d (mul_base c w) b
          loaded
          (
            mul_base-lt laws secret,
            (
              mul_base-lt laws r,
              (
                rw d_eq (mul_base-lt laws (r * secret)),
                (mul_base-lt laws w, (rw b_eq (mul_base-lt laws (r * w)), tt)),
              ),
            ),
          ) in
      let guards : (leb secret 0 ≡ false)
          × (leb sub_order secret ≡ false)
          × (leb w 0 ≡ false)
          × (leb sub_order w ≡ false) =
        ground arith in
      let z = (w + k * secret % sub_order) % sub_order in
      let on_curve : all_in_curve c (mul_base c secret ∷ mul_base c r ∷ d ∷ mul_base c w ∷ b ∷ [])
          ≡ true =
        rw
          (
            laws.on_curve secret,
            laws.on_curve r,
            d_eq,
            laws.on_curve (r * secret),
            laws.on_curve w,
            b_eq,
            laws.on_curve (r * w),
          )
          refl in
      (
        record { a = mul_base c w; b = b; z = z },
        rw (guards.0, guards.1, guards.2, guards.3, challenged) refl,
        elim (Bool-cases (z == 0)) [
          | inl none_left ↦
              let low : leb z 0 ≡ true = ground arith in rw (whole, on_curve, none_left, low) refl
          | inr some_left ↦
              let low : leb z 0 ≡ false = ground arith in
              let high : leb sub_order z ≡ false = ground arith in
              rw (whole, on_curve, some_left, low, high, challenged)
                (ap ok (equations_hold-response laws r w k secret))
        ],
      )
