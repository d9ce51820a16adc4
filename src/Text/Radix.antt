-- ===== src/Text/Radix.antt =====
-- `from_str_radix`: bounds of what it returns, and the digits that it accepts.
use atlas_faucet.Prelude.{
  ℕ, ◌+◌, ◌*◌, ◌<◌, ◌≡◌, ◌≢◌, some, [], ◌∷◌, Bytes, ok, arith, Option-cases, inl, inr,
}
use atlas_faucet.Text.{to_digit, radix_loop, from_str_radix}

pub radix_loop-lt :
    (base bound acc : ℕ) (s : Bytes) (v : ℕ)
    → acc < bound
    → radix_loop base bound acc s ≡ ok v
    → v < bound
unfolding radix_loop
radix_loop-lt base bound acc [] v h e = ground arith
radix_loop-lt base bound acc (c ∷ s) v h e = elim (Option-cases (to_digit base c)) [
  | inl miss ↦ ground arith
  | inr (d, hit) ↦ ground (arith, radix_loop-lt base bound (acc * base + d) s v)
]

-- A parsed number fits the type.
pub from_str_radix-lt :
    (base bound : ℕ) (s : Bytes) (v : ℕ)
    → 0 < bound
    → from_str_radix base bound s ≡ ok v
    → v < bound
unfolding from_str_radix
from_str_radix-lt base bound [] v h e = cc
from_str_radix-lt base bound (c ∷ []) v h e = ground (arith, radix_loop-lt base bound 0 (c ∷ []) v)
from_str_radix-lt base bound (c ∷ d ∷ s) v h e =
    ground (arith, radix_loop-lt base bound 0 (d ∷ s) v, radix_loop-lt base bound 0 (c ∷ d ∷ s) v)

-- A text that does not begin with a sign goes to the loop.
pub from_str_radix_unsigned :
    (base bound c : ℕ) (s : Bytes)
    → c ≢ 43
    → c ≢ 45
    → from_str_radix base bound (c ∷ s) ≡ radix_loop base bound 0 (c ∷ s)
unfolding from_str_radix
from_str_radix_unsigned base bound c [] plus minus = ground arith
from_str_radix_unsigned base bound c (d ∷ s) plus minus = ground arith

-- One round on a digit.
pub radix_loop_step :
    (base bound acc c d : ℕ) (s : Bytes)
    → to_digit base c ≡ some d
    → acc * base + d < bound
    → radix_loop base bound acc (c ∷ s) ≡ radix_loop base bound (acc * base + d) s
unfolding radix_loop
radix_loop_step base bound acc c d s hit fits = ground arith
