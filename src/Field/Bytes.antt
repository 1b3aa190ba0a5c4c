-- ===== src/Field/Bytes.antt =====
-- toBytes, concatBytes and toBigInt of packages/crypto/src/field.ts on byte strings.
use fairproof_bcolbd.Prelude.{
  ℕ, zero, suc, ◌+◌, ◌*◌, ◌/◌, ◌%◌, ◌^◌, ◌≤◌, ◌<◌, ◌≡◌, refl, ap, ap₂, ◌∙◌, ◌↔◌, inl, inr, arith,
  [], ◌∷◌, ◌++◌, length, ok, err, Error, Bool-cases, ◌==◌, All, ok-injective, ok-ne-err, sym,
}
use mathlib.Core.List.{append-nil}
use native.Mathlib.Nat.{pow-suc}
use fairproof_bcolbd.Prelude.Int.{ℤ, pos, negsuc, pos-injective}
use fairproof_bcolbd.Field.{Bytes, bytes, of_bytes, to_bigint, write_bytes, to_bytes}

-- every element is a byte
abbrev pub IsBytes : Bytes → Type 0
IsBytes bs = All (λ b. b < 256) bs

of_bytes-append :
    (acc : ℕ) (xs ys : Bytes) → of_bytes acc (xs ++ ys) ≡ of_bytes (of_bytes acc xs) ys
unfolding of_bytes
of_bytes-append acc [] ys = refl
of_bytes-append acc (x ∷ xs) ys = of_bytes-append (acc * 256 + x) xs ys

-- Writing and reading, with what was written before and what does not fit.
of_bytes-write_bytes :
    (n v : ℕ) (out : Bytes)
    → of_bytes (write_bytes n v out).1 (write_bytes n v out).0 ≡ of_bytes v out
unfolding write_bytes of_bytes
of_bytes-write_bytes zero v out = refl
of_bytes-write_bytes (suc n) v out =
    of_bytes-write_bytes n (v / 256) (v % 256 ∷ out) ∙ ap (λ (t : ℕ). of_bytes t out) (omega arith)

length-write_bytes : (n v : ℕ) (out : Bytes) → length (write_bytes n v out).0 ≡ n + length out
unfolding write_bytes
length-write_bytes zero v out = omega arith
length-write_bytes (suc n) v out = omega (arith, length-write_bytes n (v / 256) (v % 256 ∷ out))

write_bytes-IsBytes : (n v : ℕ) (out : Bytes) → IsBytes out → IsBytes (write_bytes n v out).0
unfolding write_bytes
write_bytes-IsBytes zero v out h = h
write_bytes-IsBytes (suc n) v out h =
    write_bytes-IsBytes n (v / 256) (v % 256 ∷ out) (omega arith, h)

-- What is left is zero exactly when the value fits.
write_bytes-fits : (n v : ℕ) (out : Bytes) → ((write_bytes n v out).1 ≡ 0) ↔ (v < 256 ^ n)
unfolding write_bytes
write_bytes-fits zero v out = (λ e. omega arith, λ h. omega arith)
write_bytes-fits (suc n) v out =
    let (to, from) = write_bytes-fits n (v / 256) (v % 256 ∷ out) in
    (λ e. omega (arith, to e, pow-suc 256 n), λ h. from (omega (arith, pow-suc 256 n)))

-- Reading and writing again.
write_bytes-of_bytes :
    (bs : Bytes) (k acc : ℕ) (tail : Bytes)
    → IsBytes bs
    → write_bytes (length bs + k) (of_bytes acc bs) tail ≡ write_bytes k acc (bs ++ tail)
unfolding of_bytes write_bytes
write_bytes-of_bytes [] k acc tail h =
    let e : 0 + k ≡ k = omega arith in ap (λ (m : ℕ). write_bytes m acc tail) e
write_bytes-of_bytes (b ∷ bs) k acc tail (p, h) =
    let shift : suc (length bs) + k ≡ length bs + suc k = omega arith in
    let rest : (acc * 256 + b) / 256 ≡ acc = omega arith in
    let byte : (acc * 256 + b) % 256 ≡ b = omega arith in
    ap (λ (m : ℕ). write_bytes m (of_bytes (acc * 256 + b) bs) tail) shift
    ∙ write_bytes-of_bytes bs (suc k) (acc * 256 + b) tail h
    ∙ ap₂ (λ (a d : ℕ). write_bytes k a (d ∷ bs ++ tail)) rest byte

module _ (v : ℕ) (n : ℕ) where
  pub to_bytes-eq-ok : v < 256 ^ n → to_bytes (pos v) n ≡ ok (write_bytes n v []).0
  unfolding to_bytes
  to_bytes-eq-ok h = rw ((write_bytes-fits n v []).1 h)

  pub to_bytes-eq-err : 256 ^ n ≤ v → to_bytes (pos v) n ≡ err Error.does_not_fit
  unfolding to_bytes
  to_bytes-eq-err h =
      let (to, from) = write_bytes-fits n v [] in
      elim (Bool-cases ((write_bytes n v []).1 == 0)) [
        | inl e ↦ absurd (omega (arith, to (ground arith)))
        | inr e ↦ rw e
      ]

-- What a call of `toBytes` returns: the bytes of the value, most significant first, of the asked
-- length, exactly if the value is not negative and fits.
pub to_bytes-ok_iff :
    (v : ℤ) (n : ℕ) (out : Bytes)
    → (to_bytes v n ≡ ok out) ↔ ((length out ≡ n) × IsBytes out × (to_bigint (bytes out) ≡ ok v))
unfolding to_bytes to_bigint of_bytes write_bytes
to_bytes-ok_iff (negsuc k) n out = (λ h. cc, λ h. let e = h.2 in cc)
to_bytes-ok_iff (pos v) n out = (forth, back)
  where
    forth :
        to_bytes (pos v) n ≡ ok out
        → (length out ≡ n) × IsBytes out × (to_bigint (bytes out) ≡ ok (pos v))
    forth h = elim (Bool-cases ((write_bytes n v []).1 == 0)) [
      | inl e ↦
          let z : (write_bytes n v []).1 ≡ 0 = ground arith in
          let same : (write_bytes n v []).0 ≡ out = ok-injective (rw e at h) in
          let value : of_bytes 0 (write_bytes n v []).0 ≡ v =
            rw z at (of_bytes-write_bytes n v []) in
          rw (← same)
            (omega (arith, length-write_bytes n v []), write_bytes-IsBytes n v [] tt, rw value refl)
      | inr e ↦ absurd (ok-ne-err (sym (rw e at h)))
    ]

    back :
        (length out ≡ n) × IsBytes out × (to_bigint (bytes out) ≡ ok (pos v))
        → to_bytes (pos v) n ≡ ok out
    back (e, small, value) =
        let v_eq : v ≡ of_bytes 0 out = sym (pos-injective (ok-injective value)) in
        let len : length out + 0 ≡ n = omega arith in
        let back_again : write_bytes n v [] ≡ (out ++ [], 0) =
          rw (← len, v_eq) (write_bytes-of_bytes out 0 0 [] small) in
        rw (back_again, append-nil) refl
