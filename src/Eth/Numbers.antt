-- ===== src/Eth/Numbers.antt =====
-- Big-endian numbers: `minimal_be`, `be_to_u64`, `be_to_u128` and the padding of a signature.
use native.Mathlib.Nat.{
  pow-suc, div-add-mod, div-div-eq-div-mul, mul-le-mul_left, mul-le-mul_right, pow-le-pow_right,
  mod-eq_of_lt,
}
use native.Mathlib.Decide.{dec_le}
use atlas_faucet.Prelude.{
  ℕ, zero, suc, ◌+◌, ◌*◌, ◌/◌, ◌%◌, ◌^◌, ◌≤◌, ◌<◌, ◌≡◌, refl, ap, ◌∙◌, [], ◌∷◌, Bytes, IsByte, All,
  arith, length,
}
use atlas_faucet.Prelude.Bits.{bit_or_byte}
use atlas_faucet.Prelude.Powers.{be_value, pow-pos_256}
use atlas_faucet.Eth.Rlp.{strip_leading_zeros, be_bytes, minimal_be, be_loop, be_to_u64, be_to_u128}

pub be_bytes-IsByte : (n v : ℕ) → All IsByte (be_bytes n v)
unfolding be_bytes
be_bytes-IsByte zero v = tt
be_bytes-IsByte (suc n) v = (omega arith, be_bytes-IsByte n v)

pub length-be_bytes : (n v : ℕ) → length (be_bytes n v) ≡ n
unfolding be_bytes
length-be_bytes zero v = refl
length-be_bytes (suc n) v = ap suc (length-be_bytes n v)

mod_split : (m v : ℕ) → v / m % 256 * m + v % m ≡ v % (m * 256)
mod_split m v = omega (
  arith,
  div-add-mod v m,
  ap (λ (t : ℕ). t * m) (div-add-mod (v / m) 256),
  div-add-mod v (m * 256),
  ap (λ (t : ℕ). t * (m * 256)) (div-div-eq-div-mul v m 256),
)

be_value-be_bytes : (n v : ℕ) → be_value (be_bytes n v) ≡ v % 256 ^ n
unfolding be_bytes be_value
be_value-be_bytes zero v = omega arith
be_value-be_bytes (suc n) v =
    rw (length-be_bytes n v, be_value-be_bytes n v, pow-suc 256 n) (mod_split (256 ^ n) v)

be_value-strip : (bs : Bytes) → be_value (strip_leading_zeros bs) ≡ be_value bs
unfolding be_value strip_leading_zeros
be_value-strip [] = refl
be_value-strip (b ∷ bs) = ground (arith, be_value-strip bs)

pub strip-IsByte : (bs : Bytes) → All IsByte bs → All IsByte (strip_leading_zeros bs)
unfolding strip_leading_zeros
strip-IsByte [] h = tt
strip-IsByte (b ∷ bs) h = ground (arith, strip-IsByte bs h.1)

pub length-strip : (bs : Bytes) → length (strip_leading_zeros bs) ≤ length bs
unfolding strip_leading_zeros
length-strip [] = omega arith
length-strip (b ∷ bs) = ground (arith, length-strip bs)

minimal_be-value : (v : ℕ) → v < 2 ^ 128 → be_value (minimal_be v) ≡ v
unfolding minimal_be be_value
minimal_be-value v h = ground (arith, be_value-strip (be_bytes 16 v), be_value-be_bytes 16 v)

pub minimal_be-IsByte : (v : ℕ) → All IsByte (minimal_be v)
unfolding minimal_be
minimal_be-IsByte v = ground (arith, strip-IsByte (be_bytes 16 v) (be_bytes-IsByte 16 v))

pub length-minimal_be : (v : ℕ) → length (minimal_be v) ≤ 16
unfolding minimal_be
length-minimal_be v = ground (arith, length-strip (be_bytes 16 v), length-be_bytes 16 v)

-- Shifting in the bytes gives their number, as long as it fits the type.
be_loop-value :
    (k acc : ℕ) (bytes : Bytes)
    → All IsByte bytes
    → acc * 256 ^ length bytes + be_value bytes < 256 ^ suc k
    → be_loop (256 ^ suc k) acc bytes ≡ acc * 256 ^ length bytes + be_value bytes
unfolding be_loop be_value
be_loop-value k acc [] h fits = omega arith
be_loop-value k acc (b ∷ bytes) h fits =
    let p = 256 ^ length bytes in
    let scale = ap (λ (t : ℕ). acc * t) (pow-suc 256 (length bytes)) in
    let regroup : (acc * 256 + b) * p + be_value bytes
        ≡ acc * 256 ^ suc (length bytes) + (b * p + be_value bytes) =
      omega (arith, scale) in
    let small : acc * 256 < 256 ^ suc k =
      omega (arith, fits, scale, mul-le-mul_left (acc * 256) (pow-pos_256 (length bytes))) in
    rw (mod-eq_of_lt small, bit_or_byte acc b h.0)
      (be_loop-value k (acc * 256 + b) bytes h.1 (omega (arith, regroup, fits)) ∙ regroup)

pub be_to_u64-value :
    (bytes : Bytes) → All IsByte bytes → be_value bytes < 2 ^ 64 → be_to_u64 bytes ≡ be_value bytes
unfolding be_to_u64
be_to_u64-value bytes h fits = be_loop-value 7 0 bytes h (omega (arith, fits)) ∙ omega arith

pub be_to_u128-value :
    (bytes : Bytes)
    → All IsByte bytes
    → be_value bytes < 2 ^ 128
    → be_to_u128 bytes ≡ be_value bytes
unfolding be_to_u128
be_to_u128-value bytes h fits = be_loop-value 15 0 bytes h (omega (arith, fits)) ∙ omega arith

-- The minimal big-endian form of a number of the type reads back.
pub be_to_u64-minimal_be : (v : ℕ) → v < 2 ^ 64 → be_to_u64 (minimal_be v) ≡ v
be_to_u64-minimal_be v h =
    let value = minimal_be-value v (omega arith) in
    be_to_u64-value (minimal_be v) (minimal_be-IsByte v) (omega (arith, value)) ∙ value

pub be_to_u128-minimal_be : (v : ℕ) → v < 2 ^ 128 → be_to_u128 (minimal_be v) ≡ v
be_to_u128-minimal_be v h =
    let value = minimal_be-value v h in
    be_to_u128-value (minimal_be v) (minimal_be-IsByte v) (omega (arith, value)) ∙ value

-- The first byte is not zero, so no shorter byte string spells the same number.
abbrev pub IsMinimal : Bytes → Type 0
IsMinimal [] = Unit {0}
IsMinimal (b ∷ bytes) = 0 < b

strip-IsMinimal : (bs : Bytes) → IsMinimal (strip_leading_zeros bs)
unfolding strip_leading_zeros
strip-IsMinimal [] = tt
strip-IsMinimal (b ∷ bs) = ground (arith, strip-IsMinimal bs)

pub minimal_be-IsMinimal : (v : ℕ) → IsMinimal (minimal_be v)
unfolding minimal_be
minimal_be-IsMinimal v = ground (arith, strip-IsMinimal (be_bytes 16 v))

-- Of a number below 2^128, `minimal_be` keeps the number, has no leading zero byte, and has at
-- most 16 bytes.
pub minimal_be_lem :
    (v : ℕ)
    → v < 2 ^ 128
    → (be_value (minimal_be v) ≡ v)
      × IsMinimal (minimal_be v)
      × All IsByte (minimal_be v)
      × (length (minimal_be v) ≤ 16)
minimal_be_lem v h =
    (minimal_be-value v h, minimal_be-IsMinimal v, minimal_be-IsByte v, length-minimal_be v)

-- A minimal byte string of a number below 256 ^ k has at most k bytes.
pub IsMinimal-length :
    (k : ℕ) (bytes : Bytes)
    → All IsByte bytes
    → IsMinimal bytes
    → be_value bytes < 256 ^ k
    → length bytes ≤ k
unfolding be_value
IsMinimal-length k [] h m fits = omega arith
IsMinimal-length k (b ∷ bytes) h m fits = elim (dec_le (length (b ∷ bytes)) k) [
  | yes le ↦ le
  | no gt ↦
      let more : 256 ^ k ≤ 256 ^ length bytes = pow-le-pow_right (omega arith) (omega arith) in
      absurd (omega (arith, more, fits, mul-le-mul_right (256 ^ length bytes) m))
]
