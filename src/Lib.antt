-- ===== src/Lib.antt =====
-- Verification library of the FairProof protocol code, packages/crypto/src, and of code around it:
-- sealed-bid tenders whose bids are encrypted to a committee, committed to on chain, stored by
-- replicas, and awarded by a witness for a circuit.
--
-- The parts, by file, with the source they model. A function keeps its name in snake case, an
-- interface keeps its name and its fields.
--
--   Field        packages/crypto/src/field.ts: digests, limbs, hex strings and byte strings
--   Domains      packages/crypto/src/domains.ts: the constants, derived when the module is loaded
--   Poseidon     packages/crypto/src/poseidon.ts: commitments, nullifiers, credential digests
--   Merkle       packages/crypto/src/merkle.ts: the incremental tree (proof is called prove here)
--   Babyjub      packages/crypto/src/babyjub.ts: points, scalars, the subgroup check
--   Vss          packages/crypto/src/vss.ts: Feldman sharing of the committee key
--   Elgamal      packages/crypto/src/elgamal.ts: encapsulation of the data-encryption key
--   Dleq         packages/crypto/src/dleq.ts: proofs of discrete-logarithm equality
--   Encoding     packages/crypto/src/encoding.ts: canonical bytes, receipts, JCS
--   Award        packages/crypto/src/award.ts: the winner and the award witness
--   SealedBid    packages/crypto/src/sealedbid.ts: sealing, opening, receipt root and quorum
--   Storage      packages/crypto/src/storage.ts: the client of the replicas
--   Witness      packages/crypto/src/witness.ts: issuer registry, revocation, eligibility witness
--   Eddsa        packages/crypto/src/eddsa.ts: issuer signatures
--   Identity     packages/crypto/src/identity.ts: the winner-identity witness
--   Store        services/ciphertext-store/src/server.mjs: one replica of the ciphertext store
--   Ciphertext   apps/dashboard/src/lib/ciphertext.ts: reading a ciphertext object
--   Attestation  apps/dashboard/src/lib/attestation.ts: issuing, checking and handing over credentials
--   Browser      apps/dashboard/src/lib/vault.ts and receipts.ts: what the browser keeps
--   Evidence     services/evidence/src/bundle.mjs and packages/verifier/src/verify.mjs: scans for secrets
--   Verifier     packages/verifier/src/verify.mjs: the report, the Groth16 call and the receipt root
--   Platform     what the code takes from ethers and circomlibjs
--   Prelude      the shared names: errors and results, integers, lists, sorting
--   Examples     concrete libraries, and the theorems at concrete inputs
--
-- How they interact: sealing a bid (SealedBid) canonicalizes the payload (Encoding), encrypts it,
-- wraps the key for the committee (Elgamal over Babyjub) and commits to the amount (Poseidon). The
-- replicas' receipts (Storage) are put under a root (SealedBid over Merkle). The members of the
-- committee, whose shares Vss deals, give decryption shares with proofs (Dleq); the opened bids go into
-- the award witness (Award over Merkle), and the winner publishes an identity witness (Identity) that
-- agrees with the eligibility witness (Witness). The client of the replicas (Storage) and a replica
-- (Store) are separate programs with separate definitions of the hashes; Store.Client states what makes
-- them agree.
--
-- Correspondence. A bigint is an integer, except for coordinates and scalars of the curve, which are
-- natural numbers. A byte is a number below 256 and a string a list of code units. A throw is an error
-- of Prelude.Outcome, one constructor for each throw, without the message's text. An object that a
-- method changes is passed and returned. Awaiting is sequential, since the code awaits each call before
-- the next one; the parallel requests of an upload are independent functions of the endpoint.
--
-- Parameters, not under the sources: the Poseidon instance, the curve, EdDSA, keccak256 and
-- recoverAddress, AES-GCM, the text codecs and JSON, the network and the random draws. What the proofs
-- rely on is stated by EthersLaws (Platform), LowerLaws (Platform.Hashes), CurveLaws (Babyjub.Group),
-- PlatformLaws (SealedBid.Opening), WalletLaws and SameConstants (Store.Client), EddsaLaws
-- (Attestation.Signing), TransportLaws (Attestation.Handover) and Keeps (Browser.Entries); Examples has
-- instances of all of them. A replica's file system is a list of files by name that does not fail.
--
-- Bounds and fuel. The trees, the slots and the bits of an id are structural recursion over the rounds
-- that are left. The Euclidean loop of invModSubOrder is the one function with fuel, SUB_ORDER + 1
-- rounds, as the remainder falls in every round from at most SUB_ORDER (Babyjub.Inverse); using them up
-- would be the model's own error, out_of_rounds. Random scalars are drawn by recursion over the blocks of bytes. Theorems on reconstruction are for indices of
-- one byte, whose differences are all inverted by computation (Vss.Small); the protocol's committee has
-- 5 members.
--
-- Not modelled: initPoseidon, initBabyjub, initEddsa and the guards against a missing instance; the
-- generation of random bytes; timers and messages; sockets and headers of the replicas; the export of
-- an evidence bundle from the chain; the checks of the verifier's verifyBundle; the pages and the other
-- libraries of the dashboard (apps/dashboard), the circuits, the contracts and the scripts.
pub mod Prelude
pub mod Field
pub mod Platform
pub mod Domains
pub mod Poseidon
pub mod Merkle
pub mod Babyjub
pub mod Vss
pub mod Elgamal
pub mod Dleq
pub mod Encoding
pub mod Award
pub mod SealedBid
pub mod Storage
pub mod Store
pub mod Ciphertext
pub mod Attestation
pub mod Browser
pub mod Evidence
pub mod Verifier
pub mod Witness
pub mod Eddsa
pub mod Identity
mod Examples
