-- ===== src/Eth/Progress.antt =====
-- The decoder on any input: its loop ends, and what it returns lies in the input.
use atlas_faucet.Prelude.{
  ℕ, zero, suc, ◌+◌, ◌-◌, ◌≤◌, ◌<◌, ◌≡◌, ◌≢◌, some, [], ◌∷◌, Bytes, arith, length, get_elem?, inl,
  inr, Option-cases, ok, err, Result-cases,
}
use atlas_faucet.Prelude.Words.{as_u64}
use atlas_faucet.Eth.Rlp.{
  RlpError, truncated_short, truncated_long, no_fuel, slice, be_to_usize, take_item,
  decode_prefixed, rlp_decode_string, decode_loop, list_header, decode_payload,
  rlp_decode_flat_list,
}

take_item-ok :
    (input : Bytes) (start end : ℕ) (x : RlpError) (item : Bytes) (next : ℕ)
    → take_item input start end x ≡ ok (item, next)
    → (next ≡ end) × (start ≤ end) × (end ≤ length input)
unfolding take_item slice
take_item-ok input start end x item next e = ground arith

get_elem?-lt : (bs : Bytes) (i b : ℕ) → get_elem? bs i ≡ some b → i < length bs
get_elem?-lt [] i b e = absurd (cc)
get_elem?-lt (x ∷ bs) zero b e = omega arith
get_elem?-lt (x ∷ bs) (suc i) b e = omega (arith, get_elem?-lt bs i b e)

decode_prefixed-ok :
    (input : Bytes) (pos prefix : ℕ) (item : Bytes) (next : ℕ)
    → pos < length input
    → decode_prefixed input pos prefix ≡ ok (item, next)
    → (pos < next) × (next ≤ length input)
unfolding decode_prefixed
decode_prefixed-ok input pos prefix item next h e =
    let mid = pos + 1 + (prefix - 0xb7) in
    elim (Option-cases (slice input (pos + 1) mid)) [
      | inl miss ↦ ground (
        arith,
        take_item-ok input (pos + 1) (pos + 1 + (prefix - 0x80)) truncated_short item next,
      )
      | inr (len, hit) ↦ ground (
        arith,
        take_item-ok input (pos + 1) (pos + 1 + (prefix - 0x80)) truncated_short item next,
        take_item-ok input mid (as_u64 (mid + be_to_usize len)) truncated_long item next,
      )
    ]

-- The index that `rlp_decode_string` returns with an item lies behind the item's start and
-- within the input.
pub rlp_decode_string-ok :
    (input : Bytes) (pos : ℕ) (item : Bytes) (next : ℕ)
    → rlp_decode_string input pos ≡ ok (item, next)
    → (pos < next) × (next ≤ length input)
rlp_decode_string-ok input pos item next e = elim (Option-cases (get_elem? input pos)) [
  | inl miss ↦ unfold rlp_decode_string in ground arith
  | inr (prefix, hit) ↦
      decode_prefixed-ok input pos prefix item next (get_elem?-lt input pos prefix hit)
        (unfold rlp_decode_string in ground arith)
]

take_item-ne-no_fuel :
    (input : Bytes) (start end : ℕ) (x : RlpError)
    → x ≢ no_fuel
    → take_item input start end x ≢ err no_fuel
unfolding take_item slice
take_item-ne-no_fuel input start end x ne e = ground arith

decode_prefixed-ne-no_fuel :
    (input : Bytes) (pos prefix : ℕ) → decode_prefixed input pos prefix ≢ err no_fuel
unfolding decode_prefixed
decode_prefixed-ne-no_fuel input pos prefix e =
    let mid = pos + 1 + (prefix - 0xb7) in
    elim (Option-cases (slice input (pos + 1) mid)) [
      | inl miss ↦
          ground (
            arith,
            take_item-ne-no_fuel input (pos + 1) (pos + 1 + (prefix - 0x80)) truncated_short,
          )
      | inr (len, hit) ↦ ground (
        arith,
        take_item-ne-no_fuel input (pos + 1) (pos + 1 + (prefix - 0x80)) truncated_short,
        take_item-ne-no_fuel input mid (as_u64 (mid + be_to_usize len)) truncated_long,
      )
    ]

rlp_decode_string-ne-no_fuel : (input : Bytes) (pos : ℕ) → rlp_decode_string input pos ≢ err no_fuel
unfolding rlp_decode_string
rlp_decode_string-ne-no_fuel input pos e = elim (Option-cases (get_elem? input pos)) [
  | inl miss ↦ ground arith
  | inr (prefix, hit) ↦ ground (arith, decode_prefixed-ne-no_fuel input pos prefix)
]

decode_loop-ne-no_fuel :
    (fuel : ℕ) (input : Bytes) (cursor end : ℕ)
    → length input ≤ cursor + fuel
    → end ≤ length input
    → decode_loop fuel input cursor end ≢ err no_fuel
unfolding decode_loop
decode_loop-ne-no_fuel zero input cursor end enough le e = ground arith
decode_loop-ne-no_fuel (suc fuel) input cursor end enough le e =
    elim (Result-cases (rlp_decode_string input cursor)) [
      | inl ((item, next), first) ↦
          let step = rlp_decode_string-ok input cursor item next first in
          ground (arith, first, decode_loop-ne-no_fuel fuel input next end (omega (arith, step)) le)
      | inr (x, first) ↦ ground (arith, first, rlp_decode_string-ne-no_fuel input cursor)
    ]

decode_payload-ne-no_fuel :
    (input : Bytes) (start len : ℕ) → decode_payload input (start, len) ≢ err no_fuel
unfolding decode_payload
decode_payload-ne-no_fuel input start len e =
    ground (
      arith,
      decode_loop-ne-no_fuel (length input) input start (as_u64 (start + len)) (omega arith),
    )

list_header-ne-no_fuel : (input : Bytes) (prefix : ℕ) → list_header input prefix ≢ err no_fuel
unfolding list_header
list_header-ne-no_fuel input prefix e = ground arith

-- On every input the decoder ends: its loop never runs out of fuel.
pub rlp_decode_flat_list-ne-no_fuel : (input : Bytes) → rlp_decode_flat_list input ≢ err no_fuel
unfolding rlp_decode_flat_list
rlp_decode_flat_list-ne-no_fuel [] e = cc
rlp_decode_flat_list-ne-no_fuel (prefix ∷ rest) e =
    elim (Result-cases (list_header (prefix ∷ rest) prefix)) [
      | inl ((start, len), first) ↦
          ground (arith, first, decode_payload-ne-no_fuel (prefix ∷ rest) start len)
      | inr (x, first) ↦ ground (arith, first, list_header-ne-no_fuel (prefix ∷ rest) prefix)
    ]
