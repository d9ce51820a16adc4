-- ===== src/Prelude/Bits.antt =====
-- `|` and `^` on machine words: when they are zero, and `|` of a shifted word and a byte.
use Prim.Native.Nat.{
  ℕ, zero, suc, ◌+◌, ◌*◌, ◌/◌, ◌%◌, ◌^◌, ◌≤◌, ◌<◌, max, digits, differ, bit_or, bit_xor,
  bit_or-bitwise, bit_xor-bitwise,
}
use mathlib.Core.Path.{◌≡◌, refl, ap}
use native.Mathlib.Nat.{pow-suc}
use native.Mathlib.Omega.{arith}

-- The digit recursion of both operations, whose result does not depend on spare fuel.
module _ (f : ℕ → ℕ → ℕ) where
  abbrev by_digits : ℕ → ℕ → ℕ → ℕ
  by_digits = digits (λ y. y) f

  spare_fuel : (k n a b : ℕ) → a ≤ k → k ≤ n → by_digits n a b ≡ by_digits k a b
  spare_fuel zero zero zero b p q = refl
  spare_fuel zero (suc n) zero b p q = refl
  spare_fuel zero n (suc a) b p q = absurd (omega arith)
  spare_fuel (suc k) zero a b p q = absurd (omega arith)
  spare_fuel (suc k) (suc n) zero b p q = refl
  spare_fuel (suc k) (suc n) (suc a) b p q =
      rw (spare_fuel k n (suc a / 2) (b / 2) (omega arith) (omega arith))

  by_digits-suc :
      (a b : ℕ)
      → by_digits (suc a) (suc a) b
        ≡ by_digits (suc a / 2) (suc a / 2) (b / 2) * 2 + f (suc a % 2) (b % 2)
  by_digits-suc a b =
      omega (arith, spare_fuel (suc a / 2) a (suc a / 2) (b / 2) (omega arith) (omega arith))

pub bit_or_digit : (a b : ℕ) → bit_or a b ≡ bit_or (a / 2) (b / 2) * 2 + max (a % 2) (b % 2)
bit_or_digit zero b = omega (arith, bit_or-bitwise 0 b, bit_or-bitwise 0 (b / 2))
bit_or_digit (suc a) b = simp bit_or-bitwise (by_digits-suc max a b)

pub bit_xor_digit : (a b : ℕ) → bit_xor a b ≡ bit_xor (a / 2) (b / 2) * 2 + differ (a % 2) (b % 2)
bit_xor_digit zero b = omega (arith, bit_xor-bitwise 0 b, bit_xor-bitwise 0 (b / 2))
bit_xor_digit (suc a) b = simp bit_xor-bitwise (by_digits-suc differ a b)

differ_self : (a : ℕ) → differ a a ≡ 0
differ_self zero = refl
differ_self (suc a) = differ_self a

differ-eq_zero : (a b : ℕ) → differ a b ≡ 0 → a ≡ b
differ-eq_zero zero b e = omega arith
differ-eq_zero (suc a) zero e = e
differ-eq_zero (suc a) (suc b) e = omega (arith, differ-eq_zero a b e)

-- Induction goes from the halves to the whole, under a bound on the sum.
or_below : (k a b : ℕ) → a + b ≤ k → bit_or a b ≡ 0 → (a ≡ 0) × (b ≡ 0)
or_below k zero b h e = (refl, omega (arith, bit_or-bitwise 0 b))
or_below zero (suc a) b h e = absurd (omega arith)
or_below (suc k) (suc a) b h e =
    let ih = or_below k (suc a / 2) (b / 2) (omega arith) (omega (arith, bit_or_digit (suc a) b)) in
    omega (arith, bit_or_digit (suc a) b, ih.0, ih.1)

xor_below : (k a b : ℕ) → a + b ≤ k → bit_xor a b ≡ 0 → a ≡ b
xor_below k zero b h e = omega (arith, bit_xor-bitwise 0 b)
xor_below zero (suc a) b h e = absurd (omega arith)
xor_below (suc k) (suc a) b h e =
    let ih =
      xor_below k (suc a / 2) (b / 2) (omega arith) (omega (arith, bit_xor_digit (suc a) b)) in
    let low : differ (suc a % 2) (b % 2) ≡ 0 = omega (arith, bit_xor_digit (suc a) b) in
    omega (arith, ih, differ-eq_zero (suc a % 2) (b % 2) low)

xor_self_below : (k a : ℕ) → a ≤ k → bit_xor a a ≡ 0
xor_self_below k zero h = refl
xor_self_below zero (suc a) h = absurd (omega arith)
xor_self_below (suc k) (suc a) h = omega (
  arith,
  bit_xor_digit (suc a) (suc a),
  xor_self_below k (suc a / 2) (omega arith),
  differ_self (suc a % 2),
)

pub bit_or-eq_zero : (a b : ℕ) → bit_or a b ≡ 0 → (a ≡ 0) × (b ≡ 0)
bit_or-eq_zero a b = or_below (a + b) a b (omega arith)

pub bit_xor-eq_zero : (a b : ℕ) → bit_xor a b ≡ 0 → a ≡ b
bit_xor-eq_zero a b = xor_below (a + b) a b (omega arith)

pub bit_xor_self : (a : ℕ) → bit_xor a a ≡ 0
bit_xor_self a = xor_self_below a a (omega arith)

or_zero_below : (k a : ℕ) → a ≤ k → bit_or a 0 ≡ a
or_zero_below k zero h = refl
or_zero_below zero (suc a) h = absurd (omega arith)
or_zero_below (suc k) (suc a) h =
    omega (arith, bit_or_digit (suc a) 0, or_zero_below k (suc a / 2) (omega arith))

-- `(q << k) | r` is a sum where `r` has `k` bits.
bit_or_shifted : (k q r : ℕ) → r < 2 ^ k → bit_or (q * 2 ^ k) r ≡ q * 2 ^ k + r
bit_or_shifted zero q r h = ground (arith, or_zero_below q q (omega arith))
bit_or_shifted (suc k) q r h =
    let twice : q * 2 ^ suc k ≡ 2 * (q * 2 ^ k) =
      omega (arith, ap (λ (t : ℕ). q * t) (pow-suc 2 k)) in
    ground (arith, twice, pow-suc 2 k, bit_or_digit (q * 2 ^ suc k) r, bit_or_shifted k q (r / 2))

pub bit_or_byte : (q b : ℕ) → b < 256 → bit_or (q * 256) b ≡ q * 256 + b
bit_or_byte q b h = bit_or_shifted 8 q b h
