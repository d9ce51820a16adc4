-- ===== src/Prelude/Words.antt =====
-- The unsigned integer types: their bounds, casts and saturating operations.
use Prim.Native.Nat.{ℕ, ◌+◌, ◌-◌, ◌*◌, ◌/◌, ◌%◌, ◌^◌, ◌<◌}
use mathlib.Core.List.{[], ◌∷◌}
use atlas_faucet.Prelude.Tests.{ltb, if◌then◌else◌}
use atlas_faucet.Prelude.Lists.{Bytes}

abbrev pub IsU32 : ℕ → Type 0
IsU32 n = n < 2 ^ 32

abbrev pub IsU64 : ℕ → Type 0
IsU64 n = n < 2 ^ 64

abbrev pub IsU128 : ℕ → Type 0
IsU128 n = n < 2 ^ 128

-- `n as u32` and `n as u64`.
abbrev pub as_u32 : ℕ → ℕ
as_u32 n = n % 2 ^ 32

abbrev pub as_u64 : ℕ → ℕ
as_u64 n = n % 2 ^ 64

-- `u64::saturating_add`; `u64::saturating_sub` is the subtraction of ℕ.
abbrev pub saturating_add_u64 : ℕ → ℕ → ℕ
saturating_add_u64 a b = if ltb (a + b) (2 ^ 64) then a + b else 2 ^ 64 - 1

-- `u128::saturating_add` and `u128::saturating_mul`.
abbrev pub saturating_add_u128 : ℕ → ℕ → ℕ
saturating_add_u128 a b = if ltb (a + b) (2 ^ 128) then a + b else 2 ^ 128 - 1

abbrev pub saturating_mul_u128 : ℕ → ℕ → ℕ
saturating_mul_u128 a b = if ltb (a * b) (2 ^ 128) then a * b else 2 ^ 128 - 1

-- `u32::to_le_bytes`
unfoldable pub le_bytes_u32 : ℕ → Bytes
le_bytes_u32 n = n % 256 ∷ n / 2 ^ 8 % 256 ∷ n / 2 ^ 16 % 256 ∷ n / 2 ^ 24 % 256 ∷ []
