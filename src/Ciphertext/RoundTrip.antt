-- ===== src/Ciphertext/RoundTrip.antt =====
-- canonicalCiphertextBytes of packages/crypto/src/encoding.ts and parseCiphertextBytes of
-- apps/dashboard/src/lib/ciphertext.ts are inverse to each other.
use fairproof_bcolbd.Prelude.{
  ℕ, zero, suc, ◌+◌, ◌≤◌, ◌≡◌, refl, ap, ◌∙◌, arith, false, ltb, ==_iff, List, [], ◌∷◌, ◌++◌,
  length, get_or, ok, ok-injective,
}
use fairproof_bcolbd.Prelude.Int.{ℤ, pos, pos-injective}
use fairproof_bcolbd.Field.{Bytes, bytes, to_bigint, concat_bytes}
use fairproof_bcolbd.Encoding.{CiphertextParts, ciphertext_version, canonical_ciphertext_bytes}
use fairproof_bcolbd.Encoding.Layout.{Layout, canonical-Layout, length-canonical_ciphertext_bytes}
use fairproof_bcolbd.Ciphertext.{parse_ciphertext_bytes, be_big_int, subarray, fixed}

subarray_skip :
    (xs ys : Bytes) (at n m : ℕ) → at ≡ length xs + n → subarray (xs ++ ys) at m ≡ subarray ys n m
subarray_skip [] ys at n m e = let e' : at ≡ n = omega arith in rw e' refl
subarray_skip (x ∷ xs) ys zero n m e = absurd (omega arith)
subarray_skip (x ∷ xs) ys (suc at) n m e = subarray_skip xs ys at n m (omega arith)

subarray_head : (xs ys : Bytes) (m : ℕ) → m ≡ length xs → subarray (xs ++ ys) 0 m ≡ xs
subarray_head [] ys zero e = refl
subarray_head [] ys (suc m) e = absurd (omega arith)
subarray_head (x ∷ xs) ys zero e = absurd (omega arith)
subarray_head (x ∷ xs) ys (suc m) e =
    ap (λ (t : Bytes). x ∷ t) (subarray_head xs ys m (omega arith))

total_length : List Bytes → ℕ
total_length [] = 0
total_length (part ∷ parts) = length part + total_length parts

-- A part of a concatenation is the subarray at the length of what stands before it.
subarray-concat_bytes :
    (before : List Bytes) (part : Bytes) (rest : List Bytes) (at m : ℕ)
    → at ≡ total_length before
    → m ≡ length part
    → subarray (concat_bytes (before ++ part ∷ rest)) at m ≡ part
unfolding concat_bytes total_length
subarray-concat_bytes [] part rest at m e f = rw e (subarray_head part (concat_bytes rest) m f)
subarray-concat_bytes (b ∷ before) part rest at m e f =
    subarray_skip b (concat_bytes (before ++ part ∷ rest)) at (total_length before) m e
    ∙ subarray-concat_bytes before part rest (total_length before) m refl f

be_big_int-value : (bs : Bytes) (v : ℤ) → to_bigint (bytes bs) ≡ ok v → pos (be_big_int bs) ≡ v
unfolding be_big_int to_bigint
be_big_int-value bs v h = ok-injective h

piece :
    (before : List Bytes) (part : Bytes) (rest : List Bytes) (at m : ℕ) (out : Bytes)
    → out ≡ concat_bytes (before ++ part ∷ rest)
    → at ≡ total_length before
    → m ≡ length part
    → subarray out at m ≡ part
piece before part rest at m out joined e f =
    ap (λ (t : Bytes). subarray t at m) joined ∙ subarray-concat_bytes before part rest at m e f

not_ltb : (a b : ℕ) → b ≤ a → ltb a b ≡ false
not_ltb a b h = ground arith

-- The pieces that the parser cuts out of a layout.
record Pieces (parts : CiphertextParts) (out : Bytes) : Type 0 where
  x : pos (be_big_int (subarray out 1 32)) ≡ parts.r_x
  y : pos (be_big_int (subarray out 33 32)) ≡ parts.r_y
  wrapped : subarray out 65 32 ≡ parts.wrapped
  iv : subarray out 97 12 ≡ parts.iv
  count : be_big_int (subarray out 109 4) ≡ length parts.ct
  ct : subarray out 113 (length parts.ct) ≡ parts.ct
  tag : subarray out (113 + length parts.ct) 16 ≡ parts.tag

Layout-Pieces : (parts : CiphertextParts) (out : Bytes) → Layout parts out → Pieces parts out
unfolding concat_bytes total_length
Layout-Pieces parts out l =
    let v = ciphertext_version ∷ [] in
    let n = length parts.ct in
    let lx = l.x_length in
    let ly = l.y_length in
    let lw = l.wrapped_length in
    let li = l.iv_length in
    let ll = l.len_length in
    let lt = l.tag_length in
    let end = parts.ct ∷ parts.tag ∷ [] in
    let mid = parts.wrapped ∷ parts.iv ∷ l.len ∷ end in
    let big = λ (b : Bytes). pos (be_big_int b) in
    record {
      x =
          ap big (piece (v ∷ []) l.x (l.y ∷ mid) 1 32 out l.joined (omega arith) (omega arith))
          ∙ be_big_int-value l.x _ l.x_value;
      y =
          ap big (piece (v ∷ l.x ∷ []) l.y mid 33 32 out l.joined (omega arith) (omega arith))
          ∙ be_big_int-value l.y _ l.y_value;
      wrapped =
          piece (v ∷ l.x ∷ l.y ∷ []) parts.wrapped (parts.iv ∷ l.len ∷ end) 65 32 out l.joined
            (omega arith) (omega arith);
      iv =
          piece (v ∷ l.x ∷ l.y ∷ parts.wrapped ∷ []) parts.iv (l.len ∷ end) 97 12 out l.joined
            (omega arith) (omega arith);
      count =
          ap be_big_int (
            piece (v ∷ l.x ∷ l.y ∷ parts.wrapped ∷ parts.iv ∷ []) l.len end 109 4 out l.joined
              (omega arith) (omega arith))
          ∙ pos-injective (be_big_int-value l.len _ l.len_value);
      ct =
          piece (v ∷ l.x ∷ l.y ∷ parts.wrapped ∷ parts.iv ∷ l.len ∷ []) parts.ct (parts.tag ∷ [])
            113 n out l.joined (omega arith) refl;
      tag =
          piece (v ∷ l.x ∷ l.y ∷ parts.wrapped ∷ parts.iv ∷ l.len ∷ parts.ct ∷ []) parts.tag []
            (113 + n) 16 out l.joined (omega arith) (omega arith);
    }

-- `parseCiphertextBytes` reads every ciphertext object back from its canonical bytes.
pub parse-canonical_ciphertext_bytes :
    (parts : CiphertextParts) (out : Bytes)
    → canonical_ciphertext_bytes parts ≡ ok out
    → parse_ciphertext_bytes out ≡ ok parts
unfolding parse_ciphertext_bytes
parse-canonical_ciphertext_bytes parts out h =
    let l = canonical-Layout parts out h in
    let p = Layout-Pieces parts out l in
    let size = length-canonical_ciphertext_bytes parts out h in
    let long = not_ltb (length out) fixed (omega arith) in
    let version : get_or out 0 0 ≡ 1 = ap (λ (t : Bytes). get_or t 0 0) l.joined in
    let first = (==_iff (get_or out 0 0) 1).1 version in
    let complete = (==_iff (113 + length parts.ct + 16) (length out)).1 (omega arith) in
    rw (long, first, p.count, complete)
      (λ j. ok (record {
        r_x = p.x j;
        r_y = p.y j;
        wrapped = p.wrapped j;
        iv = p.iv j;
        ct = p.ct j;
        tag = p.tag j;
      }))
