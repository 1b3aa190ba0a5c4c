-- ===== src/Ciphertext/Accepts.antt =====
-- What parseCiphertextBytes of apps/dashboard/src/lib/ciphertext.ts accepts: canonical bytes only.
use fairproof_bcolbd.Prelude.{
  ℕ, zero, suc, ◌+◌, ◌≤◌, ◌≡◌, refl, sym, ap, ◌∙◌, arith, false, not, ltb, ◌==◌, ==_iff, [], ◌∷◌,
  ◌++◌, length, drop, get_or, take-append-drop, ok, throw_if-eq-ok, ok-injective,
}
use fairproof_bcolbd.Prelude.Int.{pos}
use fairproof_bcolbd.Field.{Bytes, to_bytes, to_bigint, concat_bytes}
use fairproof_bcolbd.Field.Bytes.{IsBytes, to_bytes-ok_iff}
use fairproof_bcolbd.Encoding.{CiphertextParts, ciphertext_version, canonical_ciphertext_bytes}
use fairproof_bcolbd.Ciphertext.{parse_ciphertext_bytes, be_big_int, subarray, fixed}

length-subarray : (bs : Bytes) (at n : ℕ) → at + n ≤ length bs → length (subarray bs at n) ≡ n
length-subarray bs zero zero h = refl
length-subarray [] zero (suc n) h = absurd (omega arith)
length-subarray (b ∷ bs) zero (suc n) h = ap suc (length-subarray bs zero n (omega arith))
length-subarray [] (suc at) n h = absurd (omega arith)
length-subarray (b ∷ bs) (suc at) n h = length-subarray bs at n (omega arith)

subarray-IsBytes : (bs : Bytes) (at n : ℕ) → IsBytes bs → IsBytes (subarray bs at n)
subarray-IsBytes bs zero zero h = tt
subarray-IsBytes [] zero (suc n) h = tt
subarray-IsBytes (b ∷ bs) zero (suc n) (p, h) = (p, subarray-IsBytes bs zero n h)
subarray-IsBytes [] (suc at) zero h = tt
subarray-IsBytes [] (suc at) (suc n) h = tt
subarray-IsBytes (b ∷ bs) (suc at) n (p, h) = subarray-IsBytes bs at n h

-- A subarray and what follows it.
subarray-drop : (bs : Bytes) (at n j : ℕ) → j ≡ at + n → subarray bs at n ++ drop j bs ≡ drop at bs
subarray-drop bs zero n j e = let e' : j ≡ n = omega arith in rw e' (take-append-drop n bs)
subarray-drop [] (suc at) zero j e = let e' : j ≡ suc at = omega arith in rw e' refl
subarray-drop [] (suc at) (suc n) j e = let e' : j ≡ suc (at + suc n) = omega arith in rw e' refl
subarray-drop (b ∷ bs) (suc at) n zero e = absurd (omega arith)
subarray-drop (b ∷ bs) (suc at) n (suc j) e = subarray-drop bs at n j (omega arith)

drop_all : (bs : Bytes) (n : ℕ) → length bs ≤ n → drop n bs ≡ []
drop_all [] zero h = refl
drop_all [] (suc n) h = refl
drop_all (b ∷ bs) zero h = absurd (omega arith)
drop_all (b ∷ bs) (suc n) h = drop_all bs n (omega arith)

to_bytes-subarray :
    (bs : Bytes) (at n : ℕ)
    → IsBytes bs
    → at + n ≤ length bs
    → to_bytes (pos (be_big_int (subarray bs at n))) n ≡ ok (subarray bs at n)
unfolding be_big_int to_bigint
to_bytes-subarray bs at n small fits =
    (to_bytes-ok_iff (pos (be_big_int (subarray bs at n))) n (subarray bs at n)).1
      (length-subarray bs at n fits, subarray-IsBytes bs at n small, refl)

eq_of_not_eq : (a b : ℕ) → not (a == b) ≡ false → a ≡ b
eq_of_not_eq a b h = ground arith

-- The object that the parser builds, with `n` bytes of AES ciphertext.
abbrev cut : Bytes → ℕ → CiphertextParts
cut content n = record {
  r_x = pos (be_big_int (subarray content 1 32));
  r_y = pos (be_big_int (subarray content 33 32));
  wrapped = subarray content 65 32;
  iv = subarray content 97 12;
  ct = subarray content 113 n;
  tag = subarray content (113 + n) 16;
}

join_step :
    (bs rest : Bytes) (at n j : ℕ)
    → j ≡ at + n
    → rest ≡ drop j bs
    → subarray bs at n ++ rest ≡ drop at bs
join_step bs rest at n j e h =
    ap (λ (t : Bytes). subarray bs at n ++ t) h ∙ subarray-drop bs at n j e

head-drop : (bs : Bytes) (v : ℕ) → get_or bs 0 0 ≡ v → 1 ≤ length bs → v ∷ drop 1 bs ≡ bs
head-drop [] v e h = absurd (omega arith)
head-drop (b ∷ bs) v e h = ap (λ (c : ℕ). c ∷ bs) (sym e)

-- The pieces joined are the whole.
cut-joined :
    (content : Bytes) (n : ℕ)
    → get_or content 0 0 ≡ ciphertext_version
    → 113 + n + 16 ≡ length content
    → concat_bytes (
        (ciphertext_version ∷ [])
        ∷ subarray content 1 32
        ∷ subarray content 33 32
        ∷ subarray content 65 32
        ∷ subarray content 97 12
        ∷ subarray content 109 4
        ∷ subarray content 113 n
        ∷ subarray content (113 + n) 16
        ∷ [])
      ≡ content
unfolding concat_bytes
cut-joined content n version size =
    let tag =
      join_step content [] (113 + n) 16 (129 + n) (omega arith)
        (sym (drop_all content (129 + n) (omega arith))) in
    let ct = join_step content _ 113 n (113 + n) refl tag in
    let len = join_step content _ 109 4 113 (omega arith) ct in
    let iv = join_step content _ 97 12 109 (omega arith) len in
    let wrapped = join_step content _ 65 32 97 (omega arith) iv in
    let y = join_step content _ 33 32 65 (omega arith) wrapped in
    let x = join_step content _ 1 32 33 (omega arith) y in
    ap (λ (t : Bytes). ciphertext_version ∷ t) x
    ∙ head-drop content ciphertext_version version (omega arith)

-- Bytes that `parseCiphertextBytes` accepts are the canonical bytes of the object that it returns.
pub canonical-parse_ciphertext_bytes :
    (content : Bytes) (parts : CiphertextParts)
    → IsBytes content
    → parse_ciphertext_bytes content ≡ ok parts
    → canonical_ciphertext_bytes parts ≡ ok content
unfolding parse_ciphertext_bytes canonical_ciphertext_bytes
canonical-parse_ciphertext_bytes content parts small h =
    let n = be_big_int (subarray content 109 4) in
    let (_, h₁) = throw_if-eq-ok (ltb (length content) fixed) _ _ h in
    let (v, h₂) = throw_if-eq-ok (not (get_or content 0 0 == ciphertext_version)) _ _ h₁ in
    let (s, h₃) = throw_if-eq-ok (not (113 + n + 16 == length content)) _ _ h₂ in
    let version : get_or content 0 0 ≡ ciphertext_version = eq_of_not_eq _ _ v in
    let size : 113 + n + 16 ≡ length content = eq_of_not_eq _ _ s in
    let wl = (==_iff _ 32).1 (length-subarray content 65 32 (omega arith)) in
    let il = (==_iff _ 12).1 (length-subarray content 97 12 (omega arith)) in
    let tl = (==_iff _ 16).1 (length-subarray content (113 + n) 16 (omega arith)) in
    let cl = length-subarray content 113 n (omega arith) in
    let x = to_bytes-subarray content 1 32 small (omega arith) in
    let y = to_bytes-subarray content 33 32 small (omega arith) in
    let len = to_bytes-subarray content 109 4 small (omega arith) in
    ap canonical_ciphertext_bytes (sym (ok-injective h₃))
    ∙ rw (wl, il, tl, x, y, cl, len) (ap (λ (t : Bytes). ok t) (cut-joined content n version size))
