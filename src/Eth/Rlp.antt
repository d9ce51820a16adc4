-- ===== src/Eth/Rlp.antt =====
-- RLP encoding and decoding. Arithmetic on `usize` and `u8` wraps, as in a release build.
use Prim.Native.Nat.{bit_or}
use atlas_faucet.Prelude.{
  ℕ, zero, suc, ◌+◌, ◌-◌, ◌*◌, ◌/◌, ◌%◌, ◌^◌, Bool, true, false, ◌&&◌, Option, none, some, List, [],
  ◌∷◌, ◌++◌, Bytes, Result, ok, err, ◌>>=◌, ok_or, ltb, leb, ◌==◌, if◌then◌else◌, length, take,
  drop, get_elem?,
}
use atlas_faucet.Prelude.Words.{as_u64}

-- `bytes.iter().position(|&b| b != 0).unwrap_or(bytes.len())`
unfoldable pub first_nonzero : Bytes → ℕ
first_nonzero [] = 0
first_nonzero (b ∷ bs) = if b == 0 then suc (first_nonzero bs) else 0

unfoldable pub strip_leading_zeros : Bytes → Bytes
unfolding first_nonzero
strip_leading_zeros bytes = drop (first_nonzero bytes) bytes

-- The `n` low bytes, highest first: `u128::to_be_bytes` for 16.
unfoldable pub be_bytes : ℕ → ℕ → Bytes
be_bytes zero value = []
be_bytes (suc n) value = value / 256 ^ n % 256 ∷ be_bytes n value

unfoldable pub minimal_be : ℕ → Bytes
unfolding be_bytes strip_leading_zeros
minimal_be value = if value == 0 then [] else strip_leading_zeros (be_bytes 16 value)

unfoldable pub rlp_length_prefix : ℕ → ℕ → Bytes
rlp_length_prefix len short_base =
    let len_bytes = minimal_be len in
    if leb len 55
    then ((short_base + len % 256) % 256) ∷ []
    else ((short_base + 55 + length len_bytes % 256) % 256) ∷ len_bytes

-- The early return for a single byte below 0x80.
unfoldable pub is_own_code : Bytes → Bool
is_own_code [] = false
is_own_code (b ∷ []) = ltb b 0x80
is_own_code (b ∷ c ∷ bytes) = false

unfoldable pub rlp_bytes : Bytes → Bytes
unfolding is_own_code
rlp_bytes bytes =
    if is_own_code bytes then bytes else rlp_length_prefix (length bytes) 0x80 ++ bytes

-- The loop that extends `payload` by each item.
unfoldable pub concat : List Bytes → Bytes
concat [] = []
concat (item ∷ items) = item ++ concat items

unfoldable pub rlp_list : List Bytes → Bytes
rlp_list items = rlp_length_prefix (length (concat items)) 0xc0 ++ concat items

unfoldable pub rlp_uint : ℕ → Bytes
rlp_uint value = rlp_bytes (minimal_be value)

-- `acc = (acc << 8) | b` in a type of `bound` values.
unfoldable pub be_loop : ℕ → ℕ → Bytes → ℕ
be_loop bound acc [] = acc
be_loop bound acc (b ∷ bytes) = be_loop bound (bit_or (acc * 256 % bound) b) bytes

unfoldable pub be_to_u64 : Bytes → ℕ
unfolding be_loop
be_to_u64 bytes = be_loop (2 ^ 64) 0 bytes

unfoldable pub be_to_u128 : Bytes → ℕ
unfolding be_loop
be_to_u128 bytes = be_loop (2 ^ 128) 0 bytes

unfoldable pub be_to_usize : Bytes → ℕ
unfolding be_to_u64
be_to_usize bytes = be_to_u64 bytes

-- The texts of the decoder's errors. `no_fuel` stands for a loop that does not end.
pub data RlpError : Type 0 where
  empty_input not_a_list truncated_list_length truncated_payload : RlpError
  truncated_item truncated_short truncated_length truncated_long nested_list no_fuel : RlpError

-- `input.get(start..end)`
unfoldable pub slice : Bytes → ℕ → ℕ → Option Bytes
slice input start end =
    if leb start end && leb end (length input)
    then some (take (end - start) (drop start input))
    else none

-- An item and the index just past it, or an error, from the bytes `start..end`.
unfoldable pub take_item : Bytes → ℕ → ℕ → RlpError → Result RlpError (Bytes × ℕ)
unfolding slice
take_item input start end error = do bytes ← ok_or (slice input start end) error; ok (bytes, end)

-- `rlp_decode_string` behind the prefix byte.
unfoldable pub decode_prefixed : Bytes → ℕ → ℕ → Result RlpError (Bytes × ℕ)
decode_prefixed input pos prefix =
    if ltb prefix 0x80
    then ok (prefix ∷ [], pos + 1)
    else if leb prefix 0xb7
    then take_item input (pos + 1) (pos + 1 + (prefix - 0x80)) truncated_short
    else if leb prefix 0xbf
    then (do
      let len_end = pos + 1 + (prefix - 0xb7)
      len_bytes ← ok_or (slice input (pos + 1) len_end) truncated_length
      take_item input len_end (as_u64 (len_end + be_to_usize len_bytes)) truncated_long)
    else err nested_list

unfoldable pub rlp_decode_string : Bytes → ℕ → Result RlpError (Bytes × ℕ)
rlp_decode_string input pos = do
  prefix ← ok_or (get_elem? input pos) truncated_item
  decode_prefixed input pos prefix

-- The `while cursor < end` loop.
unfoldable pub decode_loop : ℕ → Bytes → ℕ → ℕ → Result RlpError (List Bytes)
decode_loop zero input cursor end = if ltb cursor end then err no_fuel else ok []
decode_loop (suc fuel) input cursor end = elim (ltb cursor end) [
  | false ↦ ok []
  | true ↦ elim (rlp_decode_string input cursor) [
    | err e ↦ err e
    | ok (item, next) ↦ elim (decode_loop fuel input next end) [
      | err e ↦ err e
      | ok items ↦ ok (item ∷ items)
    ]
  ]
]

-- Where the payload of a list begins, and its length.
unfoldable pub list_header : Bytes → ℕ → Result RlpError (ℕ × ℕ)
unfolding be_to_usize
list_header input prefix =
    if leb prefix 0xf7
    then ok (1, prefix - 0xc0)
    else if ltb (length input) (1 + (prefix - 0xf7))
    then err truncated_list_length
    else ok (1 + (prefix - 0xf7), be_to_usize (take (prefix - 0xf7) (drop 1 input)))

-- The rest of `rlp_decode_flat_list` behind the header. A byte is used up in each round.
unfoldable pub decode_payload : Bytes → ℕ × ℕ → Result RlpError (List Bytes)
decode_payload input (payload_start, payload_len) =
    let end = as_u64 (payload_start + payload_len) in
    if ltb (length input) end
    then err truncated_payload
    else decode_loop (length input) input payload_start end

unfoldable pub rlp_decode_flat_list : Bytes → Result RlpError (List Bytes)
unfolding list_header decode_payload
rlp_decode_flat_list [] = err empty_input
rlp_decode_flat_list (prefix ∷ rest) =
    if ltb prefix 0xc0
    then err not_a_list
    else (do header ← list_header (prefix ∷ rest) prefix; decode_payload (prefix ∷ rest) header)
