-- ===== src/Eth/Lists.antt =====
-- `rlp_decode_flat_list` on a list of encoded items.
use atlas_faucet.Prelude.{
  ℕ, ◌+◌, ◌-◌, ◌^◌, ◌≤◌, ◌<◌, ◌≡◌, refl, List, [], ◌∷◌, ◌++◌, map, append-nil, Bytes, arith, length,
  length-append, take, take-append, inl, inr, ok,
}
use atlas_faucet.Prelude.Words.{as_u64}
use atlas_faucet.Eth.Rlp.{
  minimal_be, rlp_length_prefix, rlp_bytes, rlp_list, be_to_usize, list_header, decode_payload,
  rlp_decode_flat_list,
}
use atlas_faucet.Eth.Numbers.{be_to_u64-minimal_be}
use atlas_faucet.Eth.Encode.{rlp_length_prefix_cases}
use atlas_faucet.Eth.Decode.{encoded, length-encoded, decode_loop-encoded}

-- Behind a header of `pre`, the payload is decoded to its items.
decode_payload-encoded :
    (items : List Bytes) (pre : Bytes) (start : ℕ)
    → start ≡ length pre
    → length pre + length (encoded items) + 9 < 2 ^ 64
    → decode_payload (pre ++ encoded items) (start, length (encoded items)) ≡ ok items
unfolding decode_payload
decode_payload-encoded items pre start hs fits =
    let total = length-append pre (encoded items) in
    let end = as_u64 (length pre + length (encoded items)) in
    let loop =
      decode_loop-encoded items pre [] (length (pre ++ encoded items)) end (omega arith)
        (omega arith) (omega (arith, total, length-encoded items (omega arith))) in
    let loop' = rw (append-nil (encoded items)) at loop in rw hs (ground (arith, total, loop'))

long_header :
    (len payload : Bytes) (p : ℕ)
    → be_to_usize len ≡ length payload
    → 1 ≤ length len
    → p ≡ 0xf7 + length len
    → list_header (p ∷ (len ++ payload)) p ≡ ok (1 + length len, length payload)
unfolding list_header
long_header len payload p value lo is =
    let taken : take (p - 0xf7) (len ++ payload) ≡ len = take-append len payload (omega arith) in
    ground (arith, taken, value, length-append len payload)

flat_list_at :
    (items : List Bytes) (p start : ℕ) (pre : Bytes)
    → 0xc0 ≤ p
    → list_header (p ∷ (pre ++ encoded items)) p ≡ ok (start, length (encoded items))
    → start ≡ 1 + length pre
    → length (encoded items) + 18 < 2 ^ 64
    → length pre ≤ 8
    → rlp_decode_flat_list (p ∷ (pre ++ encoded items)) ≡ ok items
unfolding rlp_decode_flat_list
flat_list_at items p start pre hp header hs fits small =
    ground (arith, header, decode_payload-encoded items (p ∷ pre) start (omega arith) (omega arith))

-- A list of byte strings is decoded to those byte strings, if its encoding fits the address
-- space.
pub rlp_decode_flat_list-rlp_list :
    (items : List Bytes)
    → length (rlp_list (map rlp_bytes items)) + 18 < 2 ^ 64
    → rlp_decode_flat_list (rlp_list (map rlp_bytes items)) ≡ ok items
unfolding rlp_list
rlp_decode_flat_list-rlp_list items fits =
    let n = length (encoded items) in
    let total = length-append (rlp_length_prefix n 0xc0) (encoded items) in
    elim (rlp_length_prefix_cases n 0xc0 (omega (arith, total)) (omega arith)) [
      | inl (short, p) ↦ rw p (
          flat_list_at items (0xc0 + n) 1 [] (omega arith) (unfold list_header in ground arith) refl
            (omega (arith, total)) (omega arith))
      | inr (long, lo, hi, p) ↦
          let value : be_to_usize (minimal_be n) ≡ n =
            unfold be_to_usize in be_to_u64-minimal_be n (omega (arith, total)) in
          rw p (
            flat_list_at items (0xc0 + 55 + length (minimal_be n)) (1 + length (minimal_be n))
              (minimal_be n) (omega arith)
              (long_header (minimal_be n) (encoded items) _ value lo (omega arith)) refl
              (omega (arith, total)) hi)
    ]
