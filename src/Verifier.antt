-- ===== src/Verifier.antt =====
-- packages/verifier/src/verify.mjs: the report, the call of the Groth16 verifier and the receipt root
-- that the verifier recomputes. The checks of verifyBundle themselves are left out.
pub mod Root
use fairproof_bcolbd.Prelude.{
  ℕ, suc, ◌+◌, Bool, true, false, List, [], ◌∷◌, ◌++◌, Option, none, some, Result, ok, err, length,
  replicate, map_ok, ◌>>=◌, ◌-◌, ◌^◌, if◌then◌else◌,
}
use fairproof_bcolbd.Prelude.Int.{ℤ}
use fairproof_bcolbd.Prelude.Sort.{sort_by}
use fairproof_bcolbd.Field.{Text}
use fairproof_bcolbd.Platform.{Ethers, Poseidon, codes}
use fairproof_bcolbd.Domains.{Domains, receipt_tree_depth}
use fairproof_bcolbd.Encoding.{StorageReceipt, receipt_leaf}
use fairproof_bcolbd.Merkle.{root_from_leaves}

-- one entry of `checks`, whose `ok` is `null` for a skipped one
pub record Check : Type 0 where
  pub id : Text
  pub ok : Option Bool
  pub claim : Text
  pub derived : Text
  pub note : Option Text

abbrev pub Report : Type 0
Report = List Check

-- `add`, with what it returns
unfoldable pub add : Report → Text → Bool → Text → Text → Option Text → Bool × Report
add r id passed claim derived note = (
  passed,
  r ++ record { id = id; ok = some passed; claim = claim; derived = derived; note = note } ∷ [],
)

unfoldable pub pass : Report → Text → Text → Text → Option Text → Bool × Report
pass r id claim derived note = add r id true claim derived note

unfoldable pub fail : Report → Text → Text → Text → Option Text → Bool × Report
fail r id claim derived note = add r id false claim derived note

unfoldable pub skip : Report → Text → Text → Text → Report
skip r id claim why =
    r ++ record { id = id; ok = none; claim = claim; derived = why; note = none } ∷ []

abbrev pub has_failed : Check → Bool
has_failed c = elim c.ok [ none ↦ false | some true ↦ false | some false ↦ true ]

unfoldable pub failures : Report → List Check
failures [] = []
failures (c ∷ r) = let rest = failures r in if has_failed c then c ∷ rest else rest

unfoldable pub passed : Report → ℕ
passed [] = 0
passed (c ∷ r) = elim c.ok [ none ↦ 0 | some true ↦ 1 | some false ↦ 0 ] + passed r

unfoldable pub skipped : Report → ℕ
skipped [] = 0
skipped (c ∷ r) = elim c.ok [ none ↦ 1 | some b ↦ 0 ] + skipped r

-- a proof in the order of the bundle, and one in the order of snarkjs
pub record Proof : Type 0 where
  pub a : Text × Text
  pub b : (Text × Text) × (Text × Text)
  pub c : Text × Text

pub record SnarkProof : Type 0 where
  pub pi_a : List Text
  pub pi_b : List (List Text)
  pub pi_c : List Text

abbrev pub snark_proof : Proof → SnarkProof
snark_proof p = record {
  pi_a = p.a.0 ∷ p.a.1 ∷ codes "1" ∷ [];
  pi_b = (p.b.0.1 ∷ p.b.0.0 ∷ []) ∷ (p.b.1.1 ∷ p.b.1.0 ∷ []) ∷ (codes "1" ∷ codes "0" ∷ []) ∷ [];
  pi_c = p.c.0 ∷ p.c.1 ∷ codes "1" ∷ [];
}

-- `snarkjs.groth16.verify` is a parameter. The reason of a refusal is left out.
unfoldable pub verify_groth16 :
    {Key : Type 0}
    → (Key → List Text → SnarkProof → Result Bool)
    → Option Key
    → List Text
    → Proof
    → Bool
verify_groth16 verify none public_signals p = false
verify_groth16 verify (some vkey) public_signals p =
    elim (verify vkey public_signals (snark_proof p)) [ err reason ↦ false | ok b ↦ b ]

module _ (e : Ethers) (domains : Domains) where
  unfoldable pub storage_receipt_root_from : Poseidon → List StorageReceipt → Result ℤ
  storage_receipt_root_from hash receipts = do
    leaves ←
        map_ok (receipt_leaf e domains) (sort_by (λ (r : StorageReceipt). r.replica_id) receipts)
    root_from_leaves hash domains
        (leaves ++ replicate (2 ^ receipt_tree_depth - length leaves) domains.padding)
        receipt_tree_depth
