-- ===== src/Text.antt =====
-- What the program uses of Rust's `str` and integer types: `trim`, `strip_prefix`,
-- `starts_with`, `from_str_radix`, `parse` and the decimal `Display`. A `str` is its UTF-8 bytes.
pub mod Trim
pub mod Radix
pub mod Decimal
pub mod Replace
use atlas_faucet.Prelude.{
  ℕ, zero, suc, ◌+◌, ◌-◌, ◌*◌, ◌/◌, ◌%◌, Bool, true, false, ◌&&◌, ◌||◌, Option, none, some, List,
  [], ◌∷◌, ◌++◌, reverse, Bytes, Result, ok, err, ltb, leb, ◌==◌, if◌then◌else◌,
}

-- `u8::is_ascii_whitespace` with the vertical tab, which `char::is_whitespace` has.
ascii_white : ℕ → Bool
ascii_white a = (leb 9 a && leb a 13) || a == 32

-- U+0085 and U+00A0.
white_pair : ℕ → ℕ → Bool
white_pair a b = a == 0xc2 && (b == 0x85 || b == 0xa0)

-- U+1680, U+2000 to U+200A, U+2028, U+2029, U+202F, U+205F and U+3000.
white_triple : ℕ → ℕ → ℕ → Bool
white_triple a b c =
    (a == 0xe1 && b == 0x9a && c == 0x80)
    || (a == 0xe2
        && b == 0x80
        && ((leb 0x80 c && leb c 0x8a) || c == 0xa8 || c == 0xa9 || c == 0xaf))
    || (a == 0xe2 && b == 0x81 && c == 0x9f)
    || (a == 0xe3 && b == 0x80 && c == 0x80)

-- The bytes of the white-space character that the text begins with, 0 if it begins with another.
white_front : Bytes → ℕ
unfolding ascii_white white_pair white_triple
white_front [] = 0
white_front (a ∷ []) = if ascii_white a then 1 else 0
white_front (a ∷ b ∷ []) = if ascii_white a then 1 else if white_pair a b then 2 else 0
white_front (a ∷ b ∷ c ∷ rest) =
    if ascii_white a then 1 else if white_pair a b then 2 else if white_triple a b c then 3 else 0

-- The same at the end of a text that is given from its last byte on.
white_back : Bytes → ℕ
unfolding ascii_white white_pair white_triple
white_back [] = 0
white_back (c ∷ []) = if ascii_white c then 1 else 0
white_back (c ∷ b ∷ []) = if ascii_white c then 1 else if white_pair b c then 2 else 0
white_back (c ∷ b ∷ a ∷ rest) =
    if ascii_white c then 1 else if white_pair b c then 2 else if white_triple a b c then 3 else 0

-- Drops `k` bytes, and then one white-space character after another.
skip_white : (Bytes → ℕ) → ℕ → Bytes → Bytes
skip_white white k [] = []
skip_white white (suc k) (x ∷ xs) = skip_white white k xs
skip_white white zero (x ∷ xs) = elim (white (x ∷ xs)) [
  | zero ↦ x ∷ xs
  | suc k ↦ skip_white white k xs
]

-- `str::trim`
unfoldable pub trim : Bytes → Bytes
unfolding skip_white white_front white_back
trim s = reverse (skip_white white_back 0 (reverse (skip_white white_front 0 s)))

-- `str::strip_prefix`
unfoldable pub strip_prefix : Bytes → Bytes → Option Bytes
strip_prefix [] s = some s
strip_prefix (p ∷ ps) [] = none
strip_prefix (p ∷ ps) (c ∷ s) = if p == c then strip_prefix ps s else none

-- `str::starts_with`
unfoldable pub starts_with : Bytes → Bytes → Bool
starts_with [] s = true
starts_with (p ∷ ps) [] = false
starts_with (p ∷ ps) (c ∷ s) = p == c && starts_with ps s

-- `std::num::IntErrorKind`, as far as unsigned types give it.
pub data IntError : Type 0 where
  no_digits invalid_digit pos_overflow : IntError

-- `char::to_digit`, on a byte. Bases up to 16.
unfoldable pub to_digit : ℕ → ℕ → Option ℕ
to_digit base c =
    let low =
      if leb b'0' c && leb c b'9'
      then some (c - b'0')
      else if leb b'a' c && leb c b'f'
      then some (c - b'a' + 10)
      else if leb b'A' c && leb c b'F'
      then some (c - b'A' + 10)
      else none in
    elim low [ none ↦ none | some d ↦ if ltb d base then some d else none ]

-- The loop of `from_str_radix` on an unsigned type whose values lie below `bound`.
unfoldable pub radix_loop : ℕ → ℕ → ℕ → Bytes → Result IntError ℕ
unfolding to_digit
radix_loop base bound acc [] = ok acc
radix_loop base bound acc (c ∷ s) = elim (to_digit base c) [
  | none ↦ err invalid_digit
  | some d ↦
      let rest = radix_loop base bound (acc * base + d) s in
      if ltb (acc * base + d) bound then rest else err pos_overflow
]

-- `uN::from_str_radix`: one leading `+` is accepted, but no sign alone.
unfoldable pub from_str_radix : ℕ → ℕ → Bytes → Result IntError ℕ
unfolding radix_loop
from_str_radix base bound [] = err no_digits
from_str_radix base bound (c ∷ []) =
    if c == b'+' || c == b'-' then err invalid_digit else radix_loop base bound 0 (c ∷ [])
from_str_radix base bound (c ∷ d ∷ s) =
    if c == b'+' then radix_loop base bound 0 (d ∷ s) else radix_loop base bound 0 (c ∷ d ∷ s)

-- `Display` of an unsigned integer. `suc n` rounds are enough for `n`.
unfoldable pub decimal_loop : ℕ → ℕ → Bytes
decimal_loop zero n = []
decimal_loop (suc fuel) n =
    let front = decimal_loop fuel (n / 10) in
    if ltb n 10 then (b'0' + n) ∷ [] else front ++ ((b'0' + n % 10) ∷ [])

unfoldable pub to_decimal : ℕ → Bytes
unfolding decimal_loop
to_decimal n = decimal_loop (suc n) n
