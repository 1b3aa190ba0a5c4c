-- ===== src/Platform.antt =====
-- What the code takes from its libraries and from the platform: hashing and byte strings of
-- `ethers`, the Poseidon instance of `circomlibjs`, and the documented behaviour that the proofs
-- rely on.
pub mod Hashes
pub mod Inputs
use Prim.Native.String.{String}
use Prim.Native.Char.{code}
use fairproof_bcolbd.Prelude.{ℕ, ◌≡◌, ◌<◌, ◌^◌, List, [], ◌∷◌, Result, ok}
use fairproof_bcolbd.Prelude.Int.{ℤ, pos}
use fairproof_bcolbd.Field.{Bytes, Text, to_hex32, to_bytes}

-- the code units of an ASCII literal
abbrev pub codes : String → Text
codes String.[] = []
codes (String.◌∷◌ c s) = code c ∷ codes s

-- `keccak256`, `getBytes`, `toUtf8Bytes` and `recoverAddress` of ethers, and `toLowerCase`
pub record Ethers : Type 0 where
  pub keccak256 : Bytes → Text
  pub get_bytes : Text → Result Bytes
  pub to_utf8_bytes : Text → Bytes
  pub recover_address : Text → Text → Result Text
  pub to_lower_case : Text → Text

-- `keccak256` returns 32 bytes as a hex string, and `getBytes` reads such a string.
pub record EthersLaws (e : Ethers) : Type 0 where
  pub keccak_value : Bytes → ℕ
  pub keccak_fits : (bs : Bytes) → keccak_value bs < 2 ^ 256
  pub keccak_hex : (bs : Bytes) → to_hex32 (pos (keccak_value bs)) ≡ ok (e.keccak256 bs)
  pub get_bytes_hex :
      (v : ℕ) (s : Text) → to_hex32 (pos v) ≡ ok s → e.get_bytes s ≡ to_bytes (pos v) 32

-- `poseidonInstance` behind `F.toObject`, once `initPoseidon` has set it
abbrev pub Poseidon : Type 0
Poseidon = List ℤ → ℤ
