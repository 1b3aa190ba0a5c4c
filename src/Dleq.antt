-- ===== src/Dleq.antt =====
-- packages/crypto/src/dleq.ts: Chaum-Pedersen proofs of discrete-logarithm equality.
pub mod Completeness
use fairproof_bcolbd.Prelude.{
  ℕ, ◌+◌, ◌*◌, ◌%◌, Bool, true, false, ◌&&◌, ◌||◌, not, List, [], ◌∷◌, leb, if◌then◌else◌, Option,
  or_default, Result, ok, err, Error, ◌>>=◌, ◌>>◌, throw_if, map_ok,
}
use fairproof_bcolbd.Prelude.Int.{ℤ, pos}
use fairproof_bcolbd.Field.{Bytes, hex, to_bytes, concat_bytes, parse_hex, strip_0x}
use fairproof_bcolbd.Platform.{Ethers}
use fairproof_bcolbd.Domains.{Domains}
use fairproof_bcolbd.Babyjub.{
  Point, Curve, sub_order, base8, points_equal, add_point, mul_point, mul_base, in_curve,
}

pub record DleqProof : Type 0 where
  pub a : Point
  pub b : Point
  pub z : ℕ

-- `toBytes(v, 32)`
abbrev pub to_bytes32 : ℕ → Result Bytes
to_bytes32 v = to_bytes (pos v) 32

module _ (e : Ethers) (domains : Domains) where
  unfoldable pub dleq_challenge : Point → Point → Point → Point → Point → Result ℕ
  dleq_challenge public_share ephemeral decryption_share commitment_a commitment_b = do
    domain ← e.get_bytes domains.raw_dleq
    coordinates ← map_ok to_bytes32 (
        base8.x ∷ base8.y ∷ public_share.x ∷ public_share.y ∷ ephemeral.x ∷ ephemeral.y
        ∷ decryption_share.x ∷ decryption_share.y ∷ commitment_a.x ∷ commitment_a.y ∷ commitment_b.x
        ∷ commitment_b.y ∷ [])
    digest ← parse_hex 0 (strip_0x (e.keccak256 (concat_bytes (domain ∷ coordinates))))
    ok (digest % sub_order)

module _ (c : Curve) where
  -- `for (const p of points) if (!inCurve(p)) return false`
  abbrev pub all_in_curve : List Point → Bool
  all_in_curve [] = true
  all_in_curve (p ∷ points) = in_curve c p && all_in_curve points

  -- the two equations
  abbrev pub equations_hold : Point → Point → Point → DleqProof → ℕ → Bool
  equations_hold public_share ephemeral decryption_share proof challenge =
      if not (
        points_equal (mul_base c proof.z)
          (add_point c proof.a (mul_point c public_share challenge)))
      then false
      else points_equal (mul_point c ephemeral proof.z)
          (add_point c proof.b (mul_point c decryption_share challenge))

module _ (e : Ethers) (domains : Domains) (c : Curve) where
  -- `random` is what `randomScalar` returns if no nonce is supplied.
  unfoldable pub prove_dleq : ℕ → ℕ → Point → Option ℕ → Result DleqProof
  prove_dleq random secret ephemeral nonce = do
    throw_if (leb secret 0 || leb sub_order secret) Error.secret_range
    let w = or_default nonce random
    throw_if (leb w 0 || leb sub_order w) Error.nonce_range
    let a = mul_base c w
    let b = mul_point c ephemeral w
    challenge ←
        dleq_challenge e domains (mul_base c secret) ephemeral (mul_point c ephemeral secret) a b
    ok (record { a = a; b = b; z = (w + challenge * secret % sub_order) % sub_order })

  unfoldable pub verify_dleq : Point → Point → Point → DleqProof → Result Bool
  verify_dleq public_share ephemeral decryption_share proof =
      if not (all_in_curve c (public_share ∷ ephemeral ∷ decryption_share ∷ proof.a ∷ proof.b ∷ []))
      then ok false
      else if leb proof.z 0 || leb sub_order proof.z
      then ok false
      else dleq_challenge e domains public_share ephemeral decryption_share proof.a proof.b
        >>= λ challenge.
            ok (equations_hold c public_share ephemeral decryption_share proof challenge)
