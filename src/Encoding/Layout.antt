-- ===== src/Encoding/Layout.antt =====
-- The canonical byte layout of packages/crypto/src/encoding.ts.
use fairproof_bcolbd.Prelude.{
  ◌+◌, ◌≡◌, refl, sym, ap, ◌∙◌, arith, not, ◌==◌, [], ◌∷◌, ◌++◌, length, length-append, ok,
  throw_if-eq-ok, >>=-eq-ok, ok-injective, append-injective,
}
use fairproof_bcolbd.Prelude.Int.{pos, pos-injective}
use fairproof_bcolbd.Field.{Bytes, bytes, to_bytes, to_bigint, concat_bytes}
use fairproof_bcolbd.Field.Bytes.{to_bytes-ok_iff}
use fairproof_bcolbd.Encoding.{CiphertextParts, ciphertext_version, canonical_ciphertext_bytes}

-- The layout of a successful call: the byte strings of the fields and their lengths.
pub record Layout (parts : CiphertextParts) (out : Bytes) : Type 0 where
  pub x : Bytes
  pub y : Bytes
  pub len : Bytes
  pub wrapped_length : length parts.wrapped ≡ 32
  pub iv_length : length parts.iv ≡ 12
  pub tag_length : length parts.tag ≡ 16
  pub x_length : length x ≡ 32
  pub y_length : length y ≡ 32
  pub len_length : length len ≡ 4
  pub x_value : to_bigint (bytes x) ≡ ok parts.r_x
  pub y_value : to_bigint (bytes y) ≡ ok parts.r_y
  pub len_value : to_bigint (bytes len) ≡ ok (pos (length parts.ct))
  pub joined :
      out
      ≡ (ciphertext_version ∷ [])
        ++ (x ++ (y ++ (parts.wrapped ++ (parts.iv ++ (len ++ (parts.ct ++ (parts.tag ++ [])))))))

pub canonical-Layout :
    (parts : CiphertextParts) (out : Bytes)
    → canonical_ciphertext_bytes parts ≡ ok out
    → Layout parts out
unfolding canonical_ciphertext_bytes concat_bytes
canonical-Layout parts out h =
    let (w, h₁) = throw_if-eq-ok (not (length parts.wrapped == 32)) _ _ h in
    let (i, h₂) = throw_if-eq-ok (not (length parts.iv == 12)) _ _ h₁ in
    let (t, h₃) = throw_if-eq-ok (not (length parts.tag == 16)) _ _ h₂ in
    let (x, xe, h₄) = >>=-eq-ok (to_bytes parts.r_x 32) _ h₃ in
    let (y, ye, h₅) = >>=-eq-ok (to_bytes parts.r_y 32) _ h₄ in
    let (len, le, h₆) = >>=-eq-ok (to_bytes (pos (length parts.ct)) 4) _ h₅ in
    let (xl, _, xv) = (to_bytes-ok_iff parts.r_x 32 x).0 xe in
    let (yl, _, yv) = (to_bytes-ok_iff parts.r_y 32 y).0 ye in
    let (ll, _, lv) = (to_bytes-ok_iff (pos (length parts.ct)) 4 len).0 le in
    record {
      x = x;
      y = y;
      len = len;
      wrapped_length = ground arith;
      iv_length = ground arith;
      tag_length = ground arith;
      x_length = xl;
      y_length = yl;
      len_length = ll;
      x_value = xv;
      y_value = yv;
      len_value = lv;
      joined = sym (ok-injective h₆);
    }

-- The canonical bytes of a ciphertext object are 129 more than its AES ciphertext.
pub length-canonical_ciphertext_bytes :
    (parts : CiphertextParts) (out : Bytes)
    → canonical_ciphertext_bytes parts ≡ ok out
    → length out ≡ 129 + length parts.ct
length-canonical_ciphertext_bytes parts out h =
    let l = canonical-Layout parts out h in
    ap length l.joined
    ∙ omega (
      arith,
      l.wrapped_length,
      l.iv_length,
      l.tag_length,
      l.x_length,
      l.y_length,
      l.len_length,
      length-append l.x _,
      length-append l.y _,
      length-append parts.wrapped _,
      length-append parts.iv _,
      length-append l.len _,
      length-append parts.ct _,
      length-append parts.tag [],
    )

-- The canonical bytes determine the ciphertext object: two objects that are encoded to the same
-- bytes are equal in every field.
pub canonical_ciphertext_bytes-injective :
    (p q : CiphertextParts) (out : Bytes)
    → canonical_ciphertext_bytes p ≡ ok out
    → canonical_ciphertext_bytes q ≡ ok out
    → p ≡ q
canonical_ciphertext_bytes-injective p q out hp hq =
    let l = canonical-Layout p out hp in
    let m = canonical-Layout q out hq in
    let (_, e₁) =
      append-injective (ciphertext_version ∷ []) (ciphertext_version ∷ []) _ _ refl
        (sym l.joined ∙ m.joined) in
    let (x, e₂) = append-injective l.x m.x _ _ (l.x_length ∙ sym m.x_length) e₁ in
    let (y, e₃) = append-injective l.y m.y _ _ (l.y_length ∙ sym m.y_length) e₂ in
    let (w, e₄) =
      append-injective p.wrapped q.wrapped _ _ (l.wrapped_length ∙ sym m.wrapped_length) e₃ in
    let (i, e₅) = append-injective p.iv q.iv _ _ (l.iv_length ∙ sym m.iv_length) e₄ in
    let (len, e₆) = append-injective l.len m.len _ _ (l.len_length ∙ sym m.len_length) e₅ in
    let count : length p.ct ≡ length q.ct =
      pos-injective
        (ok-injective (sym l.len_value ∙ ap (λ b. to_bigint (bytes b)) len ∙ m.len_value)) in
    let (c, e₇) = append-injective p.ct q.ct _ _ count e₆ in
    let (t, _) = append-injective p.tag q.tag [] [] (l.tag_length ∙ sym m.tag_length) e₇ in
    let rx : p.r_x ≡ q.r_x =
      ok-injective (sym l.x_value ∙ ap (λ b. to_bigint (bytes b)) x ∙ m.x_value) in
    let ry : p.r_y ≡ q.r_y =
      ok-injective (sym l.y_value ∙ ap (λ b. to_bigint (bytes b)) y ∙ m.y_value) in
    λ j. record { r_x = rx j; r_y = ry j; wrapped = w j; iv = i j; ct = c j; tag = t j }
