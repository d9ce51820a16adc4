-- ===== src/Util/Hex.antt =====
-- What `decode_hex_body`, `decode_flexible_hex` and `decode_fixed_hex` read back.
use atlas_faucet.Prelude.{
  ℕ, ◌+◌, ◌*◌, ◌/◌, ◌%◌, ◌<◌, ◌≡◌, ◌≢◌, refl, ap, ◌∙◌, true, some, [], ◌∷◌, Bytes, IsByte, All, ok,
  arith, ltb, ◌==◌, if◌then◌else◌, length, passes, passes-true, ==_iff,
}
use atlas_faucet.Text.{to_digit, radix_loop, from_str_radix, strip_prefix}
use atlas_faucet.Text.Trim.{IsGraphic, trim_graphic}
use atlas_faucet.Text.Radix.{radix_loop_step, from_str_radix_unsigned}
use atlas_faucet.Util.Defs.{
  hex_digit, hex_lower, prefixed_hex, decode_pair, decode_pairs, decode_hex_body, strip_0x,
  decode_flexible_hex, decode_fixed_hex,
}

-- The text spells the bytes, two hexadecimal digits of either case to a byte.
abbrev pub Spells : Bytes → Bytes → Type 0
Spells [] [] = Unit {0}
Spells [] (c ∷ s) = ⊥
Spells (b ∷ bytes) [] = ⊥
Spells (b ∷ bytes) (c ∷ []) = ⊥
Spells (b ∷ bytes) (c ∷ d ∷ s) =
    (to_digit 16 c ≡ some (b / 16)) × (to_digit 16 d ≡ some (b % 16)) × Spells bytes s

-- The characters that are hexadecimal digits.
pub to_digit-IsGraphic :
    (c d : ℕ) → to_digit 16 c ≡ some d → IsGraphic c × (c < 103) × (c ≢ 43) × (c ≢ 45) × (c ≢ 88)
unfolding to_digit
to_digit-IsGraphic c d e = ground arith

pub decode_pair_lem :
    (index b c d : ℕ)
    → IsByte b
    → to_digit 16 c ≡ some (b / 16)
    → to_digit 16 d ≡ some (b % 16)
    → decode_pair index c d ≡ ok b
unfolding decode_pair radix_loop
decode_pair_lem index b c d h hi lo =
    let cs = to_digit-IsGraphic c (b / 16) hi in
    let ds = to_digit-IsGraphic d (b % 16) lo in
    let parsed : from_str_radix 16 256 (c ∷ d ∷ []) ≡ ok b =
      from_str_radix_unsigned 16 256 c (d ∷ []) cs.2 cs.3
      ∙ radix_loop_step 16 256 0 c (b / 16) (d ∷ []) hi (omega arith)
      ∙ radix_loop_step 16 256 (0 * 16 + b / 16) d (b % 16) [] lo (omega arith)
      ∙ ap ok (omega arith) in
    ground (arith, cs, ds, parsed)

pub decode_pairs_lem :
    (index : ℕ) (bytes s : Bytes)
    → All IsByte bytes
    → Spells bytes s
    → decode_pairs index s ≡ ok bytes
unfolding decode_pairs
decode_pairs_lem index [] [] h sp = refl
decode_pairs_lem index [] (c ∷ s) h sp = absurd sp
decode_pairs_lem index (b ∷ bytes) [] h sp = absurd sp
decode_pairs_lem index (b ∷ bytes) (c ∷ []) h sp = absurd sp
decode_pairs_lem index (b ∷ bytes) (c ∷ d ∷ s) h sp =
    rw (decode_pair_lem index b c d h.0 sp.0 sp.1, decode_pairs_lem (index + 2) bytes s h.1 sp.2)

pub Spells-length : (bytes s : Bytes) → Spells bytes s → length s ≡ 2 * length bytes
Spells-length [] [] sp = refl
Spells-length [] (c ∷ s) sp = absurd sp
Spells-length (b ∷ bytes) [] sp = absurd sp
Spells-length (b ∷ bytes) (c ∷ []) sp = absurd sp
Spells-length (b ∷ bytes) (c ∷ d ∷ s) sp = omega (arith, Spells-length bytes s sp.2)

pub Spells-IsGraphic : (bytes s : Bytes) → Spells bytes s → All IsGraphic s
Spells-IsGraphic [] [] sp = tt
Spells-IsGraphic [] (c ∷ s) sp = absurd sp
Spells-IsGraphic (b ∷ bytes) [] sp = absurd sp
Spells-IsGraphic (b ∷ bytes) (c ∷ []) sp = absurd sp
Spells-IsGraphic (b ∷ bytes) (c ∷ d ∷ s) sp = (
  (to_digit-IsGraphic c (b / 16) sp.0).0,
  ((to_digit-IsGraphic d (b % 16) sp.1).0, Spells-IsGraphic bytes s sp.2),
)

decode_hex_body_spelled :
    (bytes s : Bytes) → All IsByte bytes → Spells bytes s → decode_hex_body s ≡ ok bytes
unfolding decode_hex_body
decode_hex_body_spelled bytes s h sp =
    ground (arith, Spells-length bytes s sp, decode_pairs_lem 0 bytes s h sp)

strip_0x_spelled : (bytes s : Bytes) → Spells bytes s → strip_0x s ≡ s
unfolding strip_0x strip_prefix
strip_0x_spelled [] [] sp = refl
strip_0x_spelled [] (c ∷ s) sp = absurd sp
strip_0x_spelled (b ∷ bytes) [] sp = absurd sp
strip_0x_spelled (b ∷ bytes) (c ∷ []) sp = absurd sp
strip_0x_spelled (b ∷ bytes) (c ∷ d ∷ s) sp = ground (arith, to_digit-IsGraphic d (b % 16) sp.1)

-- A text that spells some bytes is decoded to them, with either prefix or none.
pub decode_flexible_hex_spelled :
    (bytes s : Bytes)
    → All IsByte bytes
    → Spells bytes s
    → (decode_flexible_hex s ≡ ok bytes)
      × (decode_flexible_hex (b'0' ∷ b'x' ∷ s) ≡ ok bytes)
      × (decode_flexible_hex (b'0' ∷ b'X' ∷ s) ≡ ok bytes)
unfolding decode_flexible_hex strip_prefix
decode_flexible_hex_spelled bytes s h sp =
    let g = Spells-IsGraphic bytes s sp in
    let body = decode_hex_body_spelled bytes s h sp in
    (
      rw (trim_graphic s g, strip_0x_spelled bytes s sp) body,
      rw (trim_graphic (b'0' ∷ b'x' ∷ s) (omega arith, (omega arith, g))) body,
      rw (trim_graphic (b'0' ∷ b'X' ∷ s) (omega arith, (omega arith, g))) body,
    )

pub decode_fixed_hex_spelled :
    (bytes s : Bytes)
    → All IsByte bytes
    → Spells bytes s
    → (decode_fixed_hex s (length bytes) ≡ ok bytes)
      × (decode_fixed_hex (b'0' ∷ b'x' ∷ s) (length bytes) ≡ ok bytes)
unfolding decode_fixed_hex
decode_fixed_hex_spelled bytes s h sp =
    let both = decode_flexible_hex_spelled bytes s h sp in
    (rw both.0 (ground arith), rw both.1 (ground arith))

abbrev digit_char : ℕ → ℕ
digit_char n = if ltb n 10 then 48 + n else 87 + n

hex_digit_table : passes (λ n. hex_digit n == digit_char n) 16 ≡ true
unfolding hex_digit passes
hex_digit_table = refl

pub hex_digit-eq : (n : ℕ) → n < 16 → hex_digit n ≡ (if ltb n 10 then 48 + n else 87 + n)
hex_digit-eq n h =
    (==_iff _ _).0 (passes-true (λ n. hex_digit n == digit_char n) 16 n h hex_digit_table)

pub hex_digit_lem : (n : ℕ) → n < 16 → to_digit 16 (hex_digit n) ≡ some n
unfolding to_digit
hex_digit_lem n h = ground (arith, hex_digit-eq n h)

pub hex_lower-Spells : (bytes : Bytes) → All IsByte bytes → Spells bytes (hex_lower bytes)
unfolding hex_lower
hex_lower-Spells [] h = tt
hex_lower-Spells (b ∷ bytes) h = (
  hex_digit_lem (b / 16) (omega arith),
  hex_digit_lem (b % 16) (omega arith),
  hex_lower-Spells bytes h.1,
)

pub length-hex_lower : (bytes : Bytes) → length (hex_lower bytes) ≡ 2 * length bytes
unfolding hex_lower
length-hex_lower [] = refl
length-hex_lower (b ∷ bytes) = omega (arith, length-hex_lower bytes)

-- Bytes written by `hex_lower` or `prefixed_hex` are read back by `decode_fixed_hex` at their
-- number, and by `decode_flexible_hex`.
pub decode_fixed_hex-hex_lower :
    (bytes : Bytes)
    → All IsByte bytes
    → (decode_hex_body (hex_lower bytes) ≡ ok bytes)
      × (decode_flexible_hex (prefixed_hex bytes) ≡ ok bytes)
      × (decode_fixed_hex (hex_lower bytes) (length bytes) ≡ ok bytes)
      × (decode_fixed_hex (prefixed_hex bytes) (length bytes) ≡ ok bytes)
unfolding prefixed_hex
decode_fixed_hex-hex_lower bytes h =
    let sp = hex_lower-Spells bytes h in
    let fixed = decode_fixed_hex_spelled bytes (hex_lower bytes) h sp in
    (
      decode_hex_body_spelled bytes (hex_lower bytes) h sp,
      (decode_flexible_hex_spelled bytes (hex_lower bytes) h sp).1,
      fixed.0,
      fixed.1,
    )

pub hex_lower-injective :
    (xs ys : Bytes) → All IsByte xs → All IsByte ys → hex_lower xs ≡ hex_lower ys → xs ≡ ys
hex_lower-injective xs ys hx hy e = cc (
  (decode_fixed_hex-hex_lower xs hx).0,
  (decode_fixed_hex-hex_lower ys hy).0,
  ap decode_hex_body e,
)
