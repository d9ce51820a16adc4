-- ===== src/Prelude/Powers.antt =====
-- Powers of two and of 256, and big-endian numbers.
use Prim.Native.Nat.{ℕ, zero, suc, ◌+◌, ◌*◌, ◌^◌, ◌≤◌, ◌<◌}
use mathlib.Core.Path.{◌≡◌, refl, ap}
use mathlib.Core.List.{[], ◌∷◌, ◌++◌}
use native.Mathlib.Nat.{pow-zero, pow-suc, one-le-pow, mul-le-mul_right, pow-le-pow_right}
use native.Mathlib.Omega.{arith}
use atlas_faucet.Prelude.Lists.{length, length-append, Bytes, IsByte, All}

pub pow-add : (n a b : ℕ) → n ^ (a + b) ≡ n ^ a * n ^ b
pow-add n zero b =
    let e : 0 + b ≡ b = omega arith in
    omega (arith, ap (λ (t : ℕ). t * n ^ b) (pow-zero n), ap (λ (t : ℕ). n ^ t) e)
pow-add n (suc a) b =
    let e : suc a + b ≡ suc (a + b) = omega arith in
    omega (
      arith,
      ap (λ (t : ℕ). n ^ t) e,
      pow-suc n (a + b),
      ap (λ (t : ℕ). t * n ^ b) (pow-suc n a),
      ap (λ (t : ℕ). n * t) (pow-add n a b),
    )

pub pow_256 : (n : ℕ) → 256 ^ n ≡ 2 ^ (8 * n)
pow_256 zero = refl
pow_256 (suc n) =
    let e : 8 * suc n ≡ 8 + 8 * n = omega arith in
    omega (arith, ap (λ (t : ℕ). 2 ^ t) e, pow-suc 256 n, pow-add 2 8 (8 * n), pow_256 n)

pub pow-pos : (n : ℕ) → 0 < 2 ^ n
pow-pos n = one-le-pow n 2 (omega arith)

pub pow-pos_256 : (n : ℕ) → 0 < 256 ^ n
pow-pos_256 n = one-le-pow n 256 (omega arith)

pub pow_mono : (a b : ℕ) → a ≤ b → 2 ^ a ≤ 2 ^ b
pow_mono a b h = pow-le-pow_right (omega arith) h

-- The number whose big-endian bytes these are.
unfoldable pub be_value : Bytes → ℕ
be_value [] = 0
be_value (b ∷ bs) = b * 256 ^ length bs + be_value bs

pub be_value-lt : (bs : Bytes) → All IsByte bs → be_value bs < 256 ^ length bs
unfolding be_value
be_value-lt [] h = omega arith
be_value-lt (b ∷ bs) h =
    omega
      (arith, be_value-lt bs h.1, pow-suc 256 (length bs), mul-le-mul_right (256 ^ length bs) h.0)

pub be_value-append :
    (xs ys : Bytes) → be_value (xs ++ ys) ≡ be_value xs * 256 ^ length ys + be_value ys
unfolding be_value
be_value-append [] ys = omega arith
be_value-append (x ∷ xs) ys = omega (
  arith,
  be_value-append xs ys,
  ap (λ (t : ℕ). x * 256 ^ t) (length-append xs ys),
  ap (λ (t : ℕ). x * t) (pow-add 256 (length xs) (length ys)),
)
