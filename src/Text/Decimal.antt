-- ===== src/Text/Decimal.antt =====
-- The decimal form of a number: its characters, and that it reads back.
use atlas_faucet.Prelude.{
  ℕ, zero, suc, ◌+◌, ◌/◌, ◌%◌, ◌≤◌, ◌<◌, ◌≡◌, ◌≢◌, refl, sym, ap, ◌∙◌, some, [], ◌∷◌, ◌++◌,
  append_assoc, append-nil, Bytes, ok, arith, All, All-append, length-append,
}
use atlas_faucet.Text.{to_digit, radix_loop, from_str_radix, decimal_loop, to_decimal}
use atlas_faucet.Text.Radix.{radix_loop_step, from_str_radix_unsigned}

abbrev pub IsDecimal : ℕ → Type 0
IsDecimal c = (48 ≤ c) × (c ≤ 57)

to_digit_decimal : (d : ℕ) → d < 10 → to_digit 10 (48 + d) ≡ some d
unfolding to_digit
to_digit_decimal d h = ground arith

pub decimal_loop-IsDecimal : (fuel n : ℕ) → All IsDecimal (decimal_loop fuel n)
unfolding decimal_loop
decimal_loop-IsDecimal zero n = tt
decimal_loop-IsDecimal (suc fuel) n =
    let rest =
      All-append IsDecimal (decimal_loop fuel (n / 10)) ((48 + n % 10) ∷ [])
        (decimal_loop-IsDecimal fuel (n / 10)) ((omega arith), tt) in
    ground (arith, rest)

pub to_decimal-IsDecimal : (n : ℕ) → All IsDecimal (to_decimal n)
unfolding to_decimal
to_decimal-IsDecimal n = decimal_loop-IsDecimal (suc n) n

to_decimal-ne-nil : (n : ℕ) → to_decimal n ≢ []
unfolding to_decimal
to_decimal-ne-nil n e = ground (arith, length-append (decimal_loop n (n / 10)) ((48 + n % 10) ∷ []))

radix_loop-decimal_loop :
    (bound fuel n : ℕ) (s : Bytes)
    → n < fuel
    → n < bound
    → radix_loop 10 bound 0 (decimal_loop fuel n ++ s) ≡ radix_loop 10 bound n s
unfolding decimal_loop
radix_loop-decimal_loop bound zero n s h fits = absurd (omega arith)
radix_loop-decimal_loop bound (suc fuel) n s h fits = ground (
  arith,
  append_assoc (decimal_loop fuel (n / 10)) ((48 + n % 10) ∷ []) s,
  radix_loop-decimal_loop bound fuel (n / 10) ((48 + n % 10) ∷ s),
  to_digit_decimal (n % 10),
  to_digit_decimal n,
  radix_loop_step 10 bound (n / 10) (48 + n % 10) (n % 10) s,
  radix_loop_step 10 bound 0 (48 + n) n s,
)

unsigned-decimal :
    (bound : ℕ) (s : Bytes)
    → s ≢ []
    → All IsDecimal s
    → from_str_radix 10 bound s ≡ radix_loop 10 bound 0 s
unsigned-decimal bound [] h d = absurd (h refl)
unsigned-decimal bound (c ∷ s) h d =
    from_str_radix_unsigned 10 bound c s (omega arith) (omega arith)

-- A number below the bound of its type reads back from its decimal form.
pub from_str_radix-to_decimal :
    (bound n : ℕ) → n < bound → from_str_radix 10 bound (to_decimal n) ≡ ok n
from_str_radix-to_decimal bound n h =
    unsigned-decimal bound (to_decimal n) (to_decimal-ne-nil n) (to_decimal-IsDecimal n)
    ∙ ap (radix_loop 10 bound 0) (sym (append-nil (to_decimal n)))
    ∙ (unfold to_decimal radix_loop in radix_loop-decimal_loop bound (suc n) n [] (omega arith) h)

-- So two numbers with the same decimal form are equal.
pub to_decimal-injective : (m n : ℕ) → to_decimal m ≡ to_decimal n → m ≡ n
to_decimal-injective m n e =
    let l = from_str_radix-to_decimal (m + n + 1) m (omega arith) in
    let r = from_str_radix-to_decimal (m + n + 1) n (omega arith) in
    cc (ap (from_str_radix 10 (m + n + 1)) e, l, r)
