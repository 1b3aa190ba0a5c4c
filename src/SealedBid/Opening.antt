-- ===== src/SealedBid/Opening.antt =====
-- Opening what packages/crypto/src/sealedbid.ts sealed.
use mathlib.Core.List.{append-nil}
use fairproof_bcolbd.Prelude.{
  ℕ, ◌-◌, ◌≡◌, refl, sym, ap, ◌∙◌, arith, not, [], ◌++◌, length, take, drop, take-append-drop, some,
  or_default, ok, throw_if-eq-ok, >>=-eq-ok, ok-injective, subst,
}
use fairproof_bcolbd.Prelude.Int.{ℤ, pos, eq_ℤ, eq_ℤ_refl, eq_of_eq_ℤ}
use fairproof_bcolbd.Field.{Bytes, Text, concat_bytes}
use fairproof_bcolbd.Field.Bytes.{IsBytes}
use fairproof_bcolbd.Platform.{Ethers, EthersLaws, Poseidon}
use fairproof_bcolbd.Domains.{Domains, load_domains}
use fairproof_bcolbd.Poseidon.{bid_commitment}
use fairproof_bcolbd.Babyjub.{Point, Curve, mul_base, mul_point}
use fairproof_bcolbd.Babyjub.Group.{CurveLaws}
use fairproof_bcolbd.Encoding.{
  CiphertextParts, jcs_canonicalize, ciphertext_hash, ciphertext_hash_field,
  canonical_ciphertext_bytes,
}
use fairproof_bcolbd.Elgamal.{Encapsulation, encapsulate, unwrap_dek}
use fairproof_bcolbd.Elgamal.Recovery.{unwrap_dek-encapsulate, encapsulate_guards}
use fairproof_bcolbd.SealedBid.{
  Platform, BidPayload, SealedBid, SealParams, OpenParams, Draws, payload_json, aes_gcm_encrypt,
  aes_gcm_decrypt, seal_bid, open_sealed_bid,
}

-- GCM decryption inverts encryption under one key and IV, and `JSON.parse` inverts the
-- canonicalization of a payload behind the text codecs.
pub record PlatformLaws (w : Platform) : Type 0 where
  pub gcm : (dek iv m : Bytes) → w.decrypt dek iv (w.encrypt dek iv m) ≡ some m
  pub parse :
      (p : BidPayload) (s : Text)
      → jcs_canonicalize w.json (payload_json p) ≡ ok s
      → w.parse_payload (w.decode_text (w.encode_text s)) ≡ ok p

-- Splitting the tag off and putting it back loses nothing.
aes_gcm_decrypt-encrypt :
    (w : Platform)
    → PlatformLaws w
    → (dek iv m : Bytes)
    → aes_gcm_decrypt w dek iv (aes_gcm_encrypt w dek iv m).0 (aes_gcm_encrypt w dek iv m).1 ≡ ok m
unfolding aes_gcm_encrypt aes_gcm_decrypt concat_bytes
aes_gcm_decrypt-encrypt w laws dek iv m =
    let sealed = w.encrypt dek iv m in
    let n = length sealed - 16 in
    let whole : take n sealed ++ (drop n sealed ++ []) ≡ sealed =
      ap (λ (l : Bytes). take n sealed ++ l) (append-nil (drop n sealed))
      ∙ take-append-drop n sealed in
    rw (whole, aes_gcm_decrypt) (rw (laws.gcm dek iv m, aes_gcm_decrypt) refl)

-- What a successful call of `sealBid` has computed on the way.
pub record SealedFrom (w : Platform) (e : Ethers) (hash : Poseidon) (domains : Domains) (c : Curve)
    (draws : Draws) (params : SealParams) (sealed : SealedBid) : Type 0 where
  pub text : Text
  pub enc : Encapsulation
  pub amount : ℤ
  pub nonce : ℤ
  pub canonical : jcs_canonicalize w.json (payload_json params.payload) ≡ ok text
  pub encapsulated :
      encapsulate e domains c draws.scalar params.tender_public_key
        (or_default params.dek draws.dek)
        params.ephemeral_scalar
      ≡ ok enc
  pub amount_eq : w.big_int params.payload.amount_minor_unit ≡ ok amount
  pub nonce_eq : w.big_int params.payload.bid_nonce ≡ ok nonce
  pub committed :
      bid_commitment hash domains amount nonce params.tender_id_field params.nullifier
      ≡ ok sealed.bid_commitment
  pub ciphertext_eq : sealed.ciphertext ≡ record {
    r_x = pos enc.ephemeral.x;
    r_y = pos enc.ephemeral.y;
    wrapped = enc.wrapped;
    iv = or_default params.iv draws.iv;
    ct =
        (aes_gcm_encrypt w
          (or_default params.dek draws.dek)
          (or_default params.iv draws.iv)
          (w.encode_text text)).0;
    tag =
        (aes_gcm_encrypt w
          (or_default params.dek draws.dek)
          (or_default params.iv draws.iv)
          (w.encode_text text)).1;
  }

seal_bid-SealedFrom :
    (w : Platform) (e : Ethers) (hash : Poseidon) (domains : Domains) (c : Curve) (draws : Draws)
    (params : SealParams) (sealed : SealedBid)
    → seal_bid w e hash domains c draws params ≡ ok sealed
    → SealedFrom w e hash domains c draws params sealed
unfolding seal_bid
seal_bid-SealedFrom w e hash domains c draws params sealed h =
    let (text, canonical, h₁) =
      >>=-eq-ok (jcs_canonicalize w.json (payload_json params.payload)) _ h in
    let (enc, wrapped, h₂) =
      >>=-eq-ok
        (encapsulate e domains c draws.scalar params.tender_public_key
          (or_default params.dek draws.dek) params.ephemeral_scalar)
        _ h₁ in
    let (amount, amount_eq, h₃) = >>=-eq-ok (w.big_int params.payload.amount_minor_unit) _ h₂ in
    let (nonce, nonce_eq, h₄) = >>=-eq-ok (w.big_int params.payload.bid_nonce) _ h₃ in
    let (commitment, committed, h₅) =
      >>=-eq-ok (bid_commitment hash domains amount nonce params.tender_id_field params.nullifier) _
        h₄ in
    let (digest, _, h₆) = >>=-eq-ok (ciphertext_hash e domains _) _ h₅ in
    let (digest_field, _, h₇) = >>=-eq-ok (ciphertext_hash_field e domains _) _ h₆ in
    let (bytes, _, h₈) = >>=-eq-ok (canonical_ciphertext_bytes _) _ h₇ in
    record {
      text = text;
      enc = enc;
      amount = amount;
      nonce = nonce;
      canonical = canonical;
      encapsulated = wrapped;
      amount_eq = amount_eq;
      nonce_eq = nonce_eq;
      committed = committed ∙ ap (λ (s : SealedBid). ok s.bid_commitment) (ok-injective h₈);
      ciphertext_eq = ap (λ (s : SealedBid). s.ciphertext) (sym (ok-injective h₈));
    }

module _ {w : Platform} (platform_laws : PlatformLaws w) where
  -- Opening, from the parts of the ciphertext.
  open-parts :
      (e : Ethers) (hash : Poseidon) (domains : Domains) (c : Curve) (x y commitment tender nul : ℤ)
      (wrapped iv dek : Bytes) (shared : Point) (payload : BidPayload) (text : Text)
      (amount nonce : ℤ)
      → unwrap_dek e domains c wrapped shared ≡ ok dek
      → jcs_canonicalize w.json (payload_json payload) ≡ ok text
      → w.big_int payload.amount_minor_unit ≡ ok amount
      → w.big_int payload.bid_nonce ≡ ok nonce
      → bid_commitment hash domains amount nonce tender nul ≡ ok commitment
      → open_sealed_bid w e hash domains c (record {
        ciphertext = record {
          r_x = x;
          r_y = y;
          wrapped = wrapped;
          iv = iv;
          ct = (aes_gcm_encrypt w dek iv (w.encode_text text)).0;
          tag = (aes_gcm_encrypt w dek iv (w.encode_text text)).1;
        };
        shared = shared;
        expected_commitment = commitment;
        tender_id_field = tender;
        nullifier = nul;
      })
        ≡ ok (payload, amount, nonce)
  unfolding open_sealed_bid
  open-parts e hash domains c x y commitment tender nul wrapped iv dek shared payload text amount
        nonce opened canonical amount_eq nonce_eq committed =
      rw
        (
          opened,
          aes_gcm_decrypt-encrypt w platform_laws dek iv (w.encode_text text),
          platform_laws.parse payload text canonical,
          amount_eq,
          nonce_eq,
          committed,
          eq_ℤ_refl commitment,
        )
        refl

  module _ {e : Ethers} {c : Curve} (ethers_laws : EthersLaws e) (curve_laws : CurveLaws c) where
    -- A bid that is sealed to the committee key `x * G` with a key of bytes opens with the shared
    -- point `x * R`, where `R` is the ephemeral point whose coordinates the ciphertext carries,
    -- and with the commitment that sealing returned: the payload comes back, with the integers
    -- that its amount and nonce stand for.
    pub open-seal :
        (hash : Poseidon) (domains : Domains) (draws : Draws) (params : SealParams)
        (sealed : SealedBid) (x : ℕ)
        → load_domains e ≡ ok domains
        → IsBytes (or_default params.dek draws.dek)
        → params.tender_public_key ≡ mul_base c x
        → seal_bid w e hash domains c draws params ≡ ok sealed
        → (r : Point) × (amount : ℤ) × (nonce : ℤ) × (sealed.ciphertext.r_x ≡ pos r.x)
          × (sealed.ciphertext.r_y ≡ pos r.y)
          × (w.big_int params.payload.amount_minor_unit ≡ ok amount)
          × (w.big_int params.payload.bid_nonce ≡ ok nonce)
          × (open_sealed_bid w e hash domains c (record {
            ciphertext = sealed.ciphertext;
            shared = mul_point c r x;
            expected_commitment = sealed.bid_commitment;
            tender_id_field = params.tender_id_field;
            nullifier = params.nullifier;
          })
              ≡ ok (params.payload, amount, nonce))
    open-seal hash domains draws params sealed x loaded small key h =
        let f = seal_bid-SealedFrom w e hash domains c draws params sealed h in
        let dek = or_default params.dek draws.dek in
        let iv = or_default params.iv draws.iv in
        let (dek_len, lo, hi) =
          encapsulate_guards ethers_laws domains curve_laws draws.scalar params.tender_public_key
            dek params.ephemeral_scalar f.enc f.encapsulated in
        let (enc', wrapped', _, _, unwrapped) =
          unwrap_dek-encapsulate ethers_laws domains curve_laws x draws.scalar dek
            params.ephemeral_scalar loaded dek_len small lo hi in
        let same : enc' ≡ f.enc = ok-injective (
          sym wrapped'
          ∙ ap (λ (k : Point). encapsulate e domains c draws.scalar k dek params.ephemeral_scalar)
              (sym key)
          ∙ f.encapsulated) in
        let opened : unwrap_dek e domains c f.enc.wrapped (mul_point c f.enc.ephemeral x) ≡ ok dek =
          subst
            (λ (n : Encapsulation).
              unwrap_dek e domains c n.wrapped (mul_point c n.ephemeral x) ≡ ok dek)
            same unwrapped in
        (
          f.enc.ephemeral,
          f.amount,
          f.nonce,
          ap (λ (t : CiphertextParts). t.r_x) f.ciphertext_eq,
          ap (λ (t : CiphertextParts). t.r_y) f.ciphertext_eq,
          f.amount_eq,
          f.nonce_eq,
          ap
                (λ (t : CiphertextParts). open_sealed_bid w e hash domains c (record {
                  ciphertext = t;
                  shared = mul_point c f.enc.ephemeral x;
                  expected_commitment = sealed.bid_commitment;
                  tender_id_field = params.tender_id_field;
                  nullifier = params.nullifier;
                }))
                f.ciphertext_eq
              ∙ open-parts e hash domains c (pos f.enc.ephemeral.x) (pos f.enc.ephemeral.y)
                  sealed.bid_commitment params.tender_id_field params.nullifier f.enc.wrapped iv dek
                  (mul_point c f.enc.ephemeral x) params.payload f.text f.amount f.nonce opened
                  f.canonical f.amount_eq f.nonce_eq f.committed,
        )

-- What `openSealedBid` returns is bound to the commitment that the chain holds: the returned amount
-- commits, with the returned nonce, the tender and the nullifier, to the
-- expected value. Amount and nonce are the integers of the returned payload.
pub open_sealed_bid-committed :
    (w : Platform) (e : Ethers) (hash : Poseidon) (domains : Domains) (c : Curve)
    (params : OpenParams) (payload : BidPayload) (amount nonce : ℤ)
    → open_sealed_bid w e hash domains c params ≡ ok (payload, amount, nonce)
    → (bid_commitment hash domains amount nonce params.tender_id_field params.nullifier
        ≡ ok params.expected_commitment)
      × (w.big_int payload.amount_minor_unit ≡ ok amount)
      × (w.big_int payload.bid_nonce ≡ ok nonce)
unfolding open_sealed_bid
open_sealed_bid-committed w e hash domains c params payload amount nonce h =
    let (dek, _, h₁) =
      >>=-eq-ok (unwrap_dek e domains c params.ciphertext.wrapped params.shared) _ h in
    let (plaintext, _, h₂) =
      >>=-eq-ok
        (aes_gcm_decrypt w dek params.ciphertext.iv params.ciphertext.ct params.ciphertext.tag) _
        h₁ in
    let (p, _, h₃) = >>=-eq-ok (w.parse_payload (w.decode_text plaintext)) _ h₂ in
    let (a, a_eq, h₄) = >>=-eq-ok (w.big_int p.amount_minor_unit) _ h₃ in
    let (n, n_eq, h₅) = >>=-eq-ok (w.big_int p.bid_nonce) _ h₄ in
    let (r, r_eq, h₆) =
      >>=-eq-ok (bid_commitment hash domains a n params.tender_id_field params.nullifier) _ h₅ in
    let (matches, h₇) = throw_if-eq-ok (not (eq_ℤ r params.expected_commitment)) _ _ h₆ in
    let same : r ≡ params.expected_commitment =
      eq_of_eq_ℤ r params.expected_commitment (ground arith) in
    let triple = ok-injective h₇ in
    subst
      (λ (t : BidPayload × ℤ × ℤ).
        (bid_commitment hash domains t.1 t.2 params.tender_id_field params.nullifier
          ≡ ok params.expected_commitment)
        × (w.big_int t.0.amount_minor_unit ≡ ok t.1)
        × (w.big_int t.0.bid_nonce ≡ ok t.2))
      triple (r_eq ∙ ap ok same, a_eq, n_eq)
