-- ===== src/Util/Reads.antt =====
-- What `decode_hex_body` accepts.
use atlas_faucet.Prelude.{
  ℕ, ◌+◌, ◌*◌, ◌/◌, ◌%◌, ◌<◌, ◌≡◌, ◌↔◌, refl, some, [], ◌∷◌, Bytes, IsByte, All, ok, Result-cases,
  arith, ◌⊎◌, inl, inr, length, Option-cases,
}
use atlas_faucet.Text.{to_digit, radix_loop, from_str_radix}
use atlas_faucet.Text.Radix.{radix_loop_step}
use atlas_faucet.Util.Hex.{to_digit-IsGraphic, decode_pair_lem}
use atlas_faucet.Util.Defs.{decode_pair, decode_pairs, decode_hex_body}

-- What a pair of characters is read as: two hexadecimal digits, or one behind a plus sign.
abbrev pub ReadsPair : ℕ → ℕ → ℕ → Type 0
ReadsPair b c d =
    ((to_digit 16 c ≡ some (b / 16)) × (to_digit 16 d ≡ some (b % 16)))
    ⊎ ((c ≡ b'+') × (to_digit 16 d ≡ some b))

abbrev pub Reads : Bytes → Bytes → Type 0
Reads [] [] = Unit {0}
Reads [] (c ∷ s) = ⊥
Reads (b ∷ bytes) [] = ⊥
Reads (b ∷ bytes) (c ∷ []) = ⊥
Reads (b ∷ bytes) (c ∷ d ∷ s) = ReadsPair b c d × Reads bytes s

to_digit-lt : (c d : ℕ) → to_digit 16 c ≡ some d → d < 16
unfolding to_digit
to_digit-lt c d e = ground arith

decode_pair_plus : (index b d : ℕ) → to_digit 16 d ≡ some b → decode_pair index b'+' d ≡ ok b
unfolding decode_pair from_str_radix
decode_pair_plus index b d e =
    let lt = to_digit-lt d b e in
    ground
      (arith, lt, to_digit-IsGraphic d b e, radix_loop_step 16 256 0 d b [] e (omega (arith, lt)))

decode_pair-ReadsPair : (index b c d : ℕ) → decode_pair index c d ≡ ok b → ReadsPair b c d
unfolding decode_pair from_str_radix radix_loop
decode_pair-ReadsPair index b c d e = elim (Option-cases (to_digit 16 d)) [
  | inl miss ↦ ground arith
  | inr (lo, hit) ↦ ground (arith, to_digit-lt d lo hit, to_digit-lt c)
]

ReadsPair-IsByte : (b c d : ℕ) → ReadsPair b c d → IsByte b
ReadsPair-IsByte b c d (inl h) = omega (arith, to_digit-lt c (b / 16) h.0)
ReadsPair-IsByte b c d (inr h) = omega (arith, to_digit-lt d b h.1)

decode_pair_read : (index b c d : ℕ) → ReadsPair b c d → decode_pair index c d ≡ ok b
decode_pair_read index b c d (inl h) =
    decode_pair_lem index b c d (ReadsPair-IsByte b c d (inl h)) h.0 h.1
decode_pair_read index b c d (inr h) = rw (h.0) (decode_pair_plus index b d h.1)

decode_pairs_read : (index : ℕ) (bytes s : Bytes) → Reads bytes s → decode_pairs index s ≡ ok bytes
unfolding decode_pairs
decode_pairs_read index [] [] r = refl
decode_pairs_read index [] (c ∷ s) r = absurd r
decode_pairs_read index (b ∷ bytes) [] r = absurd r
decode_pairs_read index (b ∷ bytes) (c ∷ []) r = absurd r
decode_pairs_read index (b ∷ bytes) (c ∷ d ∷ s) r =
    rw (decode_pair_read index b c d r.0, decode_pairs_read (index + 2) bytes s r.1)

pub Reads-length : (bytes s : Bytes) → Reads bytes s → length s ≡ 2 * length bytes
Reads-length [] [] r = refl
Reads-length [] (c ∷ s) r = absurd r
Reads-length (b ∷ bytes) [] r = absurd r
Reads-length (b ∷ bytes) (c ∷ []) r = absurd r
Reads-length (b ∷ bytes) (c ∷ d ∷ s) r = omega (arith, Reads-length bytes s r.1)

pub Reads-IsByte : (bytes s : Bytes) → Reads bytes s → All IsByte bytes
Reads-IsByte [] [] r = tt
Reads-IsByte [] (c ∷ s) r = absurd r
Reads-IsByte (b ∷ bytes) [] r = absurd r
Reads-IsByte (b ∷ bytes) (c ∷ []) r = absurd r
Reads-IsByte (b ∷ bytes) (c ∷ d ∷ s) r = (ReadsPair-IsByte b c d r.0, Reads-IsByte bytes s r.1)

decode_pairs-Reads :
    (index : ℕ) (s bytes : Bytes)
    → length s % 2 ≡ 0
    → decode_pairs index s ≡ ok bytes
    → Reads bytes s
unfolding decode_pairs
decode_pairs-Reads index [] [] h e = tt
decode_pairs-Reads index [] (b ∷ bytes) h e = cc
decode_pairs-Reads index (c ∷ []) bytes h e = absurd (omega arith)
decode_pairs-Reads index (c ∷ d ∷ s) [] h e = elim (Result-cases (decode_pair index c d)) [
  | inl (b, first) ↦ elim (Result-cases (decode_pairs (index + 2) s)) [
    | inl (rest, more) ↦ ground arith
    | inr (x, more) ↦ ground arith
  ]
  | inr (x, first) ↦ ground arith
]
decode_pairs-Reads index (c ∷ d ∷ s) (b ∷ bytes) h e = elim (Result-cases (decode_pair index c d)) [
  | inl (b', first) ↦ elim (Result-cases (decode_pairs (index + 2) s)) [
    | inl (rest, more) ↦
        let same : (b ≡ b') × (bytes ≡ rest) = ground arith in
        (
          decode_pair-ReadsPair index b c d (ground (arith, same)),
          decode_pairs-Reads (index + 2) s bytes (omega arith) (ground (arith, same)),
        )
    | inr (x, more) ↦ ground arith
  ]
  | inr (x, first) ↦ ground arith
]

-- `decode_hex_body` accepts exactly the texts that spell bytes in pairs of hexadecimal digits, of
-- either case, where the first digit of a pair may also be a plus sign; and returns those bytes.
pub decode_hex_body_iff : (s bytes : Bytes) → (decode_hex_body s ≡ ok bytes) ↔ Reads bytes s
unfolding decode_hex_body
decode_hex_body_iff s bytes = (
  λ e. decode_pairs-Reads 0 s bytes (ground arith) (ground arith),
  λ r. ground (arith, Reads-length bytes s r, decode_pairs_read 0 bytes s r),
)
