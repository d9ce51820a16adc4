-- ===== src/Util/Address.antt =====
-- `parse_address` and `checksum_address`.
use atlas_faucet.Prelude.{
  ℕ, ◌+◌, ◌/◌, ◌%◌, ◌<◌, ◌≡◌, true, some, [], ◌∷◌, Bytes, IsByte, codes, All, ok, Result-cases,
  arith, ◌⊎◌, inl, inr, length,
}
use atlas_faucet.Text.{to_digit, trim, starts_with}
use atlas_faucet.Text.Trim.{trim_graphic}
use atlas_faucet.Util.Hex.{
  Spells, Spells-IsGraphic, decode_fixed_hex_spelled, hex_digit-eq, hex_lower-Spells,
}
use atlas_faucet.Util.Defs.{
  hex_digit, hex_lower, prefixed_hex, decode_hex_body, strip_0x, decode_flexible_hex,
  decode_fixed_hex, parse_address, checksum_char, checksum_loop, checksum_address,
}
use atlas_faucet.Util.Reads.{decode_hex_body_iff, Reads-IsByte}

-- An address: twenty bytes.
abbrev pub IsAddress : Bytes → Type 0
IsAddress a = (length a ≡ 20) × All IsByte a

parse_address_spelled :
    (a s : Bytes) → IsAddress a → Spells a s → parse_address (b'0' ∷ b'x' ∷ s) ≡ ok a
unfolding parse_address starts_with
parse_address_spelled a s h sp =
    let g = Spells-IsGraphic a s sp in
    rw (trim_graphic (b'0' ∷ b'x' ∷ s) (omega arith, (omega arith, g)))
      (rw (← h.0) ((decode_fixed_hex_spelled a s h.1 sp).1))

-- An address reads back from its lowercase form.
pub parse_address-prefixed_hex : (a : Bytes) → IsAddress a → parse_address (prefixed_hex a) ≡ ok a
unfolding prefixed_hex
parse_address-prefixed_hex a h = parse_address_spelled a (hex_lower a) h (hex_lower-Spells a h.1)

checksum_char_lem :
    (hash : Bytes) (index n : ℕ)
    → n < 16
    → to_digit 16 (checksum_char hash index (hex_digit n)) ≡ some n
unfolding checksum_char to_digit
checksum_char_lem hash index n h = ground (arith, hex_digit-eq n h)

checksum_loop-Spells :
    (hash : Bytes) (index : ℕ) (a : Bytes)
    → All IsByte a
    → Spells a (checksum_loop hash index (hex_lower a))
unfolding checksum_loop hex_lower
checksum_loop-Spells hash index [] h = tt
checksum_loop-Spells hash index (b ∷ a) h = (
  checksum_char_lem hash index (b / 16) (omega arith),
  checksum_char_lem hash (index + 1) (b % 16) (omega arith),
  checksum_loop-Spells hash (index + 1 + 1) a h.1,
)

-- An address reads back from its checksummed form, whatever the hash function is.
pub parse_address-checksum_address :
    (keccak256 : Bytes → Bytes) (a : Bytes)
    → IsAddress a
    → parse_address (checksum_address keccak256 a) ≡ ok a
unfolding checksum_address
parse_address-checksum_address keccak256 a h =
    parse_address_spelled a _ h (checksum_loop-Spells (keccak256 (hex_lower a)) 0 a h.1)

pub decode_fixed_hex-ok :
    (value : Bytes) (n : ℕ) (bytes : Bytes)
    → decode_fixed_hex value n ≡ ok bytes
    → (length bytes ≡ n) × All IsByte bytes
unfolding decode_fixed_hex decode_flexible_hex
decode_fixed_hex-ok value n bytes e =
    elim (Result-cases (decode_hex_body (strip_0x (trim value)))) [
      | inl (read, first) ↦
          let same : (length read ≡ n) × (read ≡ bytes) = ground arith in
          rw (← same.1) (
            same.0,
            Reads-IsByte read (strip_0x (trim value)) ((decode_hex_body_iff _ read).0 first),
          )
      | inr (x, first) ↦ ground arith
    ]

-- What `parse_address` returns is an address, and the text began with a prefix.
pub parse_address-IsAddress :
    (value a : Bytes)
    → parse_address value ≡ ok a
    → IsAddress a
      × ((starts_with (codes "0x") (trim value) ≡ true)
          ⊎ (starts_with (codes "0X") (trim value) ≡ true))
unfolding parse_address
parse_address-IsAddress value a e = ground (arith, decode_fixed_hex-ok (trim value) 20 a)
