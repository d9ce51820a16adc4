-- ===== src/Hashes.antt =====
-- The hash functions of the `sha2` and `sha3` crates, which the program only calls. A hasher that
-- is updated in parts hashes the concatenation of the parts.
use atlas_faucet.Prelude.{◌≡◌, Bytes, IsByte, All, length}

pub record Hashes : Type 0 where
  pub sha256 : Bytes → Bytes
  pub keccak256 : Bytes → Bytes

-- Both return 32 bytes.
pub record IsHashes (h : Hashes) : Type 0 where
  pub length-sha256 : (m : Bytes) → length (h.sha256 m) ≡ 32
  pub sha256-IsByte : (m : Bytes) → All IsByte (h.sha256 m)
  pub length-keccak256 : (m : Bytes) → length (h.keccak256 m) ≡ 32
  pub keccak256-IsByte : (m : Bytes) → All IsByte (h.keccak256 m)
