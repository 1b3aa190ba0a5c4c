-- ===== src/Vss/Exponent.antt =====
-- combineInExponent of packages/crypto/src/vss.ts does to points what reconstructSecret does to shares.
use fairproof_bcolbd.Prelude.{
  ℕ, ◌+◌, ◌*◌, ◌/◌, ◌%◌, ◌≡◌, refl, sym, ap, ap₂, ◌∙◌, arith, List, [], ◌∷◌, map, ok, ◌>>=◌,
  >>=-cong, >>=-assoc,
}
use fairproof_bcolbd.Babyjub.{Point, Curve, sub_order, identity, add_point, mul_point, mul_base}
use fairproof_bcolbd.Babyjub.Group.{CurveLaws, mul_base-zero, mul_base-mod}
use fairproof_bcolbd.Elgamal.{decryption_share}
use fairproof_bcolbd.Vss.{
  CommitteeShare, DecryptionPart, lagrange_coefficient, reconstruct_loop, reconstruct_secret,
  combine_loop, combine_in_exponent,
}

-- what each member contributes to the opening of an ephemeral point
abbrev pub part_of : Curve → Point → CommitteeShare → DecryptionPart
part_of c ephemeral s = record { index = s.index; point = decryption_share c s.share ephemeral }

map_indices :
    (c : Curve) (p : Point) (shares : List CommitteeShare)
    → map (λ (d : DecryptionPart). d.index) (map (part_of c p) shares)
      ≡ map (λ (s : CommitteeShare). s.index) shares
map_indices c p [] = refl
map_indices c p (s ∷ shares) = ap (λ (t : List ℕ). s.index ∷ t) (map_indices c p shares)

combined_scalar :
    (r acc s k : ℕ)
    → (r * acc + r * (s % sub_order) * k) % sub_order
      ≡ (r * ((acc + s * k) % sub_order)) % sub_order
combined_scalar r acc s k =
    let q = s / sub_order in
    let l = (acc + s * k) / sub_order in
    let m = (acc + s * k) % sub_order in
    let share : s ≡ s % sub_order + q * sub_order = omega arith in
    let sum : acc + s * k ≡ m + l * sub_order = omega arith in
    let expanded : s * k ≡ s % sub_order * k + q * k * sub_order =
      ap (λ (t : ℕ). t * k) share ∙ omega arith in
    let scaled : r * (acc + s * k) ≡ r * m + r * l * sub_order =
      ap (λ (t : ℕ). r * t) sum ∙ omega arith in
    let scaled' : r * (s * k) ≡ r * (s % sub_order) * k + r * q * k * sub_order =
      ap (λ (t : ℕ). r * t) expanded ∙ grind arith in
    let whole : r * acc + r * (s % sub_order) * k + r * q * k * sub_order
        ≡ r * m + r * l * sub_order =
      omega arith in
    omega arith

module _ {c : Curve} (laws : CurveLaws c) where
  mul_base_congruent : (a b : ℕ) → a % sub_order ≡ b % sub_order → mul_base c a ≡ mul_base c b
  mul_base_congruent a b h = sym (mul_base-mod laws a) ∙ ap (mul_base c) h ∙ mul_base-mod laws b

  combined_point :
      (r acc s k : ℕ)
      → add_point c (mul_base c (r * acc)) (mul_point c (decryption_share c s (mul_base c r)) k)
        ≡ mul_base c (r * ((acc + s * k) % sub_order))
  unfolding decryption_share
  combined_point r acc s k =
      let share : mul_point c (mul_point c (mul_base c r) (s % sub_order)) k
          ≡ mul_base c (r * (s % sub_order) * k) =
        ap (λ (p : Point). mul_point c p k) (laws.mul_mul r (s % sub_order))
        ∙ laws.mul_mul (r * (s % sub_order)) k in
      ap (add_point c (mul_base c (r * acc))) share
      ∙ laws.add_mul (r * acc) (r * (s % sub_order) * k)
      ∙ mul_base_congruent _ _ (combined_scalar r acc s k)

  combine_loop-reconstruct_loop :
      (r : ℕ) (indices : List ℕ) (shares : List CommitteeShare) (acc : ℕ)
      → combine_loop c indices (map (part_of c (mul_base c r)) shares) (mul_base c (r * acc))
        ≡ (reconstruct_loop indices shares acc >>= λ x. ok (mul_base c (r * x)))
  unfolding combine_loop reconstruct_loop
  combine_loop-reconstruct_loop r indices [] acc = refl
  combine_loop-reconstruct_loop r indices (s ∷ shares) acc =
      let rest = λ (k : ℕ). (acc + s.share * k) % sub_order in
      >>=-cong (lagrange_coefficient indices s.index) _ _ (λ k.
        ap (combine_loop c indices (map (part_of c (mul_base c r)) shares))
          (combined_point r acc s.share k)
        ∙ combine_loop-reconstruct_loop r indices shares (rest k))
      ∙ sym (
          >>=-assoc (lagrange_coefficient indices s.index)
            (λ k. reconstruct_loop indices shares (rest k)) (λ x. ok (mul_base c (r * x))))

  -- Combining the members' decryption shares of an ephemeral point `r * G` gives the point's multiple
  -- by what `reconstructSecret` computes from the members' shares, and fails where it fails.
  pub combine_in_exponent-reconstruct_secret :
      (r : ℕ) (shares : List CommitteeShare)
      → combine_in_exponent c (map (part_of c (mul_base c r)) shares)
        ≡ (reconstruct_secret shares >>= λ x. ok (mul_point c (mul_base c r) x))
  unfolding combine_in_exponent reconstruct_secret
  combine_in_exponent-reconstruct_secret r shares =
      let indices = map (λ (s : CommitteeShare). s.index) shares in
      let start : mul_base c (r * 0) ≡ identity =
        let z : r * 0 ≡ 0 = omega arith in ap (mul_base c) z ∙ mul_base-zero laws in
      ap₂ (λ (is : List ℕ) (p : Point). combine_loop c is (map (part_of c (mul_base c r)) shares) p)
        (map_indices c (mul_base c r) shares) (sym start)
      ∙ combine_loop-reconstruct_loop r indices shares 0
      ∙ >>=-cong (reconstruct_loop indices shares 0) _ _
          (λ x. ap (λ (p : Point). ok p) (sym (laws.mul_mul r x)))
