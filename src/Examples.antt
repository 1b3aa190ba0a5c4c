-- ===== src/Examples.antt =====
-- Concrete libraries that meet the assumed behaviour, and the theorems at concrete inputs.
mod Ethers
mod Curve
mod Platform
mod Encodings
mod Ciphertexts
mod Attestations
mod Browsers
mod Bundles
mod Trees
mod Committee
mod Openings
mod Bids
mod Receipts
mod Replicas
mod Sealing
mod Identities
