-- ===== src/Examples/Bundles.antt =====
-- The theorems on evidence bundles at concrete inputs.
use fairproof_bcolbd.Prelude.{◌≡◌, ◌≢◌, ◌↔◌, refl, [], ◌∷◌, ok}
use fairproof_bcolbd.Platform.{codes}
use fairproof_bcolbd.Encoding.{Json, string, array, object, nil, cons, end, entry}
use fairproof_bcolbd.Evidence.{
  is_forbidden, find_forbidden_fields, assert_no_secrets, walk, walk_items, walk_entries,
}
use fairproof_bcolbd.Evidence.Forbidden.{IsPublic}
use fairproof_bcolbd.Evidence.Scan.{IsClean, assert_no_secrets-ok_iff}

-- a public decryption share, and beside it a nonce
abbrev bundle : Json
bundle = object (
    entry (codes "openings")
      (array (
        cons
          (object (
            entry (codes "share") (object (entry (codes "x") (string (codes "1")) end))
              (entry (codes "bidNonce") (string (codes "2")) end)))
          nil))
      end)

assert_no_secrets-ok_iff_example :
    (assert_no_secrets (λ n. n ∷ []) bundle ≡ ok tt) ↔ IsClean IsPublic bundle
assert_no_secrets-ok_iff_example = assert_no_secrets-ok_iff (λ n. n ∷ []) bundle

nonce_refused : assert_no_secrets (λ n. n ∷ []) bundle ≢ ok tt
unfolding assert_no_secrets find_forbidden_fields walk walk_items walk_entries is_forbidden
nonce_refused h = cc

-- the amount of a losing bid under a policy that conceals it
abbrev losing_amount : Json
losing_amount = object (
    entry (codes "disclosurePolicy") (string (codes "2")) (
      entry (codes "bids")
        (array (cons (object (entry (codes "bidAmount") (string (codes "700")) end)) nil)) end))

losing_amount_passes : assert_no_secrets (λ n. n ∷ []) losing_amount ≡ ok tt
unfolding assert_no_secrets find_forbidden_fields walk walk_items walk_entries is_forbidden
losing_amount_passes = refl
