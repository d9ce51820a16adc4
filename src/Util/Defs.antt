-- ===== src/Util/Defs.antt =====
-- The functions of src/util.rs. `byte >> 4` and `byte & 0x0f` are `/ 16` and `% 16`.
use Prim.Native.Nat.{bit_or, bit_xor}
use atlas_faucet.Prelude.{
  ℕ, ◌+◌, ◌-◌, ◌/◌, ◌%◌, Bool, false, ◌&&◌, ◌||◌, none, some, [], ◌∷◌, Bytes, codes, Result, ok,
  err, ◌>>=◌, map_err, ltb, leb, ◌==◌, if◌then◌else◌, length, get_or,
}
use atlas_faucet.Text.{trim, strip_prefix, starts_with, IntError, from_str_radix}

abbrev hex_table : Bytes
hex_table = codes "0123456789abcdef"

-- An entry of `HEX`. The code's indices are nibbles, below 16.
unfoldable pub hex_digit : ℕ → ℕ
hex_digit nibble = get_or hex_table nibble 0

unfoldable pub hex_lower : Bytes → Bytes
hex_lower [] = []
hex_lower (byte ∷ bytes) = hex_digit (byte / 16) ∷ hex_digit (byte % 16) ∷ hex_lower bytes

unfoldable pub prefixed_hex : Bytes → Bytes
prefixed_hex bytes = b'0' ∷ b'x' ∷ hex_lower bytes

-- The error texts, by what they interpolate.
pub data HexError : Type 0 where
  odd_length : ℕ → HexError
  invalid_utf8 : HexError
  invalid_byte : ℕ → IntError → HexError
  wrong_length : ℕ → ℕ → HexError
  not_prefixed : HexError

-- `std::str::from_utf8` on two bytes: two ASCII characters, or one character of two bytes.
unfoldable pub utf8_pair : ℕ → ℕ → Bool
utf8_pair a b = (ltb a 0x80 && ltb b 0x80) || (leb 0xc2 a && leb a 0xdf && leb 0x80 b && leb b 0xbf)

-- One round of the loop: the two bytes from `index` on.
unfoldable pub decode_pair : ℕ → ℕ → ℕ → Result HexError ℕ
unfolding utf8_pair
decode_pair index a b =
    if utf8_pair a b
    then map_err (invalid_byte index) (from_str_radix 16 256 (a ∷ b ∷ []))
    else err invalid_utf8

-- The loop from `index` on. A single byte does not remain, since the length is even.
unfoldable pub decode_pairs : ℕ → Bytes → Result HexError Bytes
decode_pairs index [] = ok []
decode_pairs index (a ∷ []) = ok []
decode_pairs index (a ∷ b ∷ chars) = do
  byte ← decode_pair index a b
  bytes ← decode_pairs (index + 2) chars
  ok (byte ∷ bytes)

unfoldable pub decode_hex_body : Bytes → Result HexError Bytes
decode_hex_body hex =
    if length hex % 2 == 0 then decode_pairs 0 hex else err (odd_length (length hex))

-- `strip_prefix("0x").or_else(strip_prefix("0X")).unwrap_or(trimmed)`
unfoldable pub strip_0x : Bytes → Bytes
strip_0x s = elim (strip_prefix (codes "0x") s) [
  | some body ↦ body
  | none ↦ elim (strip_prefix (codes "0X") s) [ some body ↦ body | none ↦ s ]
]

unfoldable pub decode_flexible_hex : Bytes → Result HexError Bytes
unfolding strip_0x
decode_flexible_hex value = decode_hex_body (strip_0x (trim value))

unfoldable pub decode_fixed_hex : Bytes → ℕ → Result HexError Bytes
decode_fixed_hex value expected_bytes = do
  bytes ← decode_flexible_hex value
  if length bytes == expected_bytes
      then ok bytes
      else err (wrong_length expected_bytes (length bytes))

unfoldable pub parse_address : Bytes → Result HexError Bytes
parse_address value =
    let trimmed = trim value in
    if starts_with (codes "0x") trimmed || starts_with (codes "0X") trimmed
    then decode_fixed_hex trimmed 20
    else err not_prefixed

-- `u8::leading_zeros`
unfoldable pub byte_leading_zeros : ℕ → ℕ
byte_leading_zeros b =
    if leb 128 b
    then 0
    else if leb 64 b
    then 1
    else if leb 32 b
    then 2
    else if leb 16 b
    then 3
    else if leb 8 b
    then 4
    else if leb 4 b
    then 5
    else if leb 2 b
    then 6
    else if leb 1 b
    then 7
    else 8

unfoldable pub zeros_loop : ℕ → Bytes → ℕ
zeros_loop count [] = count
zeros_loop count (byte ∷ hash) =
    if byte == 0 then zeros_loop (count + 8) hash else count + byte_leading_zeros byte

unfoldable pub leading_zero_bits : Bytes → ℕ
unfolding zeros_loop byte_leading_zeros
leading_zero_bits hash = zeros_loop 0 hash

-- The loop over `left.iter().zip(right.iter())`.
unfoldable pub diff_loop : ℕ → Bytes → Bytes → ℕ
diff_loop diff [] right = diff
diff_loop diff (a ∷ left) [] = diff
diff_loop diff (a ∷ left) (b ∷ right) = diff_loop (bit_or diff (bit_xor a b)) left right

unfoldable pub constant_time_eq : Bytes → Bytes → Bool
unfolding diff_loop
constant_time_eq left right =
    if length left == length right then diff_loop 0 left right == 0 else false

unfoldable pub is_ascii_digit : ℕ → Bool
is_ascii_digit c = leb b'0' c && leb c b'9'

unfoldable pub to_ascii_uppercase : ℕ → ℕ
to_ascii_uppercase c = if leb b'a' c && leb c b'z' then c - 32 else c

-- `index % 2 == 0 ? hash[index / 2] >> 4 : hash[index / 2] & 0x0f`
unfoldable pub hash_nibble : Bytes → ℕ → ℕ
hash_nibble hash index =
    if index % 2 == 0 then get_or hash (index / 2) 0 / 16 else get_or hash (index / 2) 0 % 16

unfoldable pub checksum_char : Bytes → ℕ → ℕ → ℕ
unfolding is_ascii_digit to_ascii_uppercase hash_nibble
checksum_char hash index ch =
    if is_ascii_digit ch
    then ch
    else if leb 8 (hash_nibble hash index)
    then to_ascii_uppercase ch
    else ch

-- The loop over `lower.chars().enumerate()`.
unfoldable pub checksum_loop : Bytes → ℕ → Bytes → Bytes
checksum_loop hash index [] = []
checksum_loop hash index (ch ∷ lower) =
    checksum_char hash index ch ∷ checksum_loop hash (index + 1) lower

unfoldable pub checksum_address : (Bytes → Bytes) → Bytes → Bytes
unfolding checksum_loop
checksum_address keccak256 address =
    let lower = hex_lower address in b'0' ∷ b'x' ∷ checksum_loop (keccak256 lower) 0 lower
