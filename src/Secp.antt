-- ===== src/Secp.antt =====
-- What the program uses of the `secp256k1` crate. Keys and signatures are abstract.
use atlas_faucet.Prelude.{ℕ, ◌≡◌, Bytes, IsByte, All, Option, some, length}

pub record Secp : Type 1 where
  pub SecretKey : Type 0
  pub PublicKey : Type 0
  pub Signature : Type 0
  -- `SecretKey::from_byte_array`
  pub secret_key : Bytes → Option SecretKey
  -- `PublicKey::from_secret_key`
  pub public_key : SecretKey → PublicKey
  pub serialize_uncompressed : PublicKey → Bytes
  -- `sign_ecdsa_recoverable`, and `serialize_compact`: the recovery id and 64 bytes.
  pub sign : Bytes → SecretKey → ℕ × Bytes
  -- `RecoveryId::try_from` and `RecoverableSignature::from_compact`
  pub from_compact : Bytes → ℕ → Option Signature
  -- `recover_ecdsa`
  pub recover : Bytes → Signature → Option PublicKey

-- A signature is 64 bytes, is read back from its compact form, and yields the signer's key.
pub record IsSecp (s : Secp) : Type 0 where
  pub length-sign : (hash : Bytes) (key : s.SecretKey) → length (s.sign hash key).1 ≡ 64
  pub sign-IsByte : (hash : Bytes) (key : s.SecretKey) → All IsByte (s.sign hash key).1
  pub recover-sign :
      (hash : Bytes) (key : s.SecretKey)
      → (signature : s.Signature) × (s.from_compact (s.sign hash key).1 (s.sign hash key).0
          ≡ some signature)
        × (s.recover hash signature ≡ some (s.public_key key))
