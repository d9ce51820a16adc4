-- ===== src/Eth/Decode.antt =====
-- The decoder on what the encoder writes: one item, the loop, and a whole list.
use atlas_faucet.Prelude.{
  ℕ, zero, suc, ◌+◌, ◌-◌, ◌^◌, ◌≤◌, ◌<◌, ◌≡◌, refl, sym, ap, ◌∙◌, some, List, [], ◌∷◌, ◌++◌, map,
  append_assoc, Bytes, arith, length, length-append, inl, inr, Result, ok,
}
use atlas_faucet.Eth.Rlp.{
  RlpError, truncated_short, truncated_long, minimal_be, rlp_length_prefix, rlp_bytes, concat,
  slice, be_to_usize, take_item, decode_prefixed, rlp_decode_string, decode_loop,
}
use atlas_faucet.Eth.Numbers.{be_to_u64-minimal_be}
use atlas_faucet.Eth.Encode.{
  rlp_length_prefix_cases, rlp_bytes_cases, get_elem?-append, slice-append, rlp_bytes-pos,
}

-- The bytes `mid` at their place in the input are taken as the item.
take_item-append :
    (pre mid post : Bytes) (start end : ℕ) (x : RlpError)
    → start ≡ length pre
    → end ≡ length pre + length mid
    → take_item (pre ++ (mid ++ post)) start end x ≡ ok (mid, end)
unfolding take_item
take_item-append pre mid post start end x hs he = rw (slice-append pre mid post start end hs he)

-- The same where the input is written with the byte before the item.
take_item_behind :
    (pre item post : Bytes) (p start end : ℕ) (x : RlpError)
    → start ≡ length pre + 1
    → end ≡ length pre + 1 + length item
    → take_item (pre ++ (p ∷ (item ++ post))) start end x ≡ ok (item, end)
take_item_behind pre item post p start end x hs he =
    rw (append_assoc pre (p ∷ []) (item ++ post)) at (
      take_item-append (pre ++ (p ∷ [])) item post start end x
        (omega (arith, length-append pre (p ∷ []))) (omega (arith, length-append pre (p ∷ []))))

short_item :
    (pre item post : Bytes) (p : ℕ)
    → length item ≤ 55
    → p ≡ 0x80 + length item
    → decode_prefixed (pre ++ (p ∷ (item ++ post))) (length pre) p
      ≡ ok (item, length pre + suc (length item))
unfolding decode_prefixed
short_item pre item post p short is = ground (
  arith,
  take_item_behind pre item post p (length pre + 1) (length pre + 1 + (p - 0x80)) truncated_short,
)

regroup :
    (pre len item post : Bytes) (p : ℕ)
    → (pre ++ (p ∷ [])) ++ (len ++ (item ++ post)) ≡ pre ++ (p ∷ ((len ++ item) ++ post))
regroup pre len item post p =
    append_assoc pre (p ∷ []) (len ++ (item ++ post))
    ∙ ap (λ (s : Bytes). pre ++ (p ∷ s)) (sym (append_assoc len item post))

-- The bytes of the length, and then the item behind them.
long_slices :
    (pre len item post : Bytes) (p mid end : ℕ)
    → mid ≡ length pre + 1 + length len
    → end ≡ mid + length item
    → (slice (pre ++ (p ∷ ((len ++ item) ++ post))) (length pre + 1) mid ≡ some len)
      × (take_item (pre ++ (p ∷ ((len ++ item) ++ post))) mid end truncated_long ≡ ok (item, end))
long_slices pre len item post p mid end hm he =
    let one = length-append pre (p ∷ []) in
    let two = length-append (pre ++ (p ∷ [])) len in
    let whole = regroup pre len item post p in
    (
      rw whole at (
          slice-append (pre ++ (p ∷ [])) len (item ++ post) (length pre + 1) mid
            (omega (arith, one)) (omega (arith, one))),
      rw whole at (
          rw (append_assoc (pre ++ (p ∷ [])) len (item ++ post)) at (
            take_item-append ((pre ++ (p ∷ [])) ++ len) item post mid end truncated_long
              (omega (arith, one, two)) (omega (arith, one, two)))),
    )

long_item :
    (pre len item post : Bytes) (p : ℕ)
    → length pre + (9 + length item) < 2 ^ 64
    → be_to_usize len ≡ length item
    → 1 ≤ length len
    → length len ≤ 8
    → p ≡ 0xb7 + length len
    → decode_prefixed (pre ++ (p ∷ ((len ++ item) ++ post))) (length pre) p
      ≡ ok (item, length pre + suc (length len + length item))
unfolding decode_prefixed
long_item pre len item post p fits value lo hi is =
    let mid = length pre + 1 + (p - 0xb7) in
    let parts = long_slices pre len item post p mid (mid + length item) (omega arith) refl in
    ground (arith, parts.0, parts.1, value)

decode_at :
    (pre s : Bytes) (p : ℕ) (r : Result RlpError (Bytes × ℕ))
    → decode_prefixed (pre ++ (p ∷ s)) (length pre) p ≡ r
    → rlp_decode_string (pre ++ (p ∷ s)) (length pre) ≡ r
decode_at pre s p r e = unfold rlp_decode_string in rw (get_elem?-append pre s p) e

-- An encoded item is decoded at its place, up to the index just past it, if that fits the
-- address space.
pub rlp_decode_string-rlp_bytes :
    (pre item post : Bytes)
    → length pre + (9 + length item) < 2 ^ 64
    → rlp_decode_string (pre ++ (rlp_bytes item ++ post)) (length pre)
      ≡ ok (item, length pre + length (rlp_bytes item))
rlp_decode_string-rlp_bytes pre item post fits = elim (rlp_bytes_cases item) [
  | inl (b, is, low, e) ↦
      rw (e, is) (decode_at pre post b _ (unfold decode_prefixed in ground arith))
  | inr e ↦ rw e (elim (rlp_length_prefix_cases (length item) 0x80 (omega arith) (omega arith)) [
    | inl (short, p) ↦
        rw p (decode_at pre (item ++ post) _ _ (short_item pre item post _ short refl))
    | inr (long, lo, hi, p) ↦ rw p (
        decode_at pre _ _ _ (
          rw (length-append (minimal_be (length item)) item) (
            long_item pre (minimal_be (length item)) item post _ fits
              (unfold be_to_usize in be_to_u64-minimal_be (length item) (omega arith)) lo hi refl)))
  ])
]

length-le-rlp_bytes : (item : Bytes) → length item ≤ length (rlp_bytes item)
length-le-rlp_bytes item = elim (rlp_bytes_cases item) [
  | inl (b, is, low, e) ↦ rw (e, is) (omega arith)
  | inr e ↦ rw e (omega (arith, length-append (rlp_length_prefix (length item) 0x80) item))
]

abbrev pub encoded : List Bytes → Bytes
encoded items = concat (map rlp_bytes items)

pub length-encoded :
    (items : List Bytes) → length (encoded items) < 2 ^ 64 → length items ≤ length (encoded items)
unfolding concat
length-encoded [] fits = omega arith
length-encoded (item ∷ items) fits =
    let total = length-append (rlp_bytes item) (encoded items) in
    let pos = rlp_bytes-pos item (omega (arith, total, length-le-rlp_bytes item)) in
    omega (arith, total, pos, length-encoded items (omega (arith, total)))

-- One round of the loop on an item.
decode_loop_step :
    (fuel : ℕ) (input item : Bytes) (items : List Bytes) (cursor next end : ℕ)
    → cursor < end
    → rlp_decode_string input cursor ≡ ok (item, next)
    → decode_loop fuel input next end ≡ ok items
    → decode_loop (suc fuel) input cursor end ≡ ok (item ∷ items)
unfolding decode_loop
decode_loop_step fuel input item items cursor next end lt e rest = ground arith

decode_loop_end :
    (fuel : ℕ) (input : Bytes) (cursor end : ℕ)
    → end ≤ cursor
    → decode_loop fuel input cursor end ≡ ok []
unfolding decode_loop
decode_loop_end zero input cursor end le = ground arith
decode_loop_end (suc fuel) input cursor end le = ground arith

pub decode_loop-encoded :
    (items : List Bytes) (pre post : Bytes) (fuel end : ℕ)
    → end ≡ length pre + length (encoded items)
    → end + 9 < 2 ^ 64
    → length items ≤ fuel
    → decode_loop fuel (pre ++ (encoded items ++ post)) (length pre) end ≡ ok items
decode_loop-encoded [] pre post fuel end he fits enough =
    decode_loop_end fuel _ _ end (unfold concat in omega arith)
decode_loop-encoded (item ∷ items) pre post zero end he fits enough = absurd (omega arith)
decode_loop-encoded (item ∷ items) pre post (suc fuel) end he fits enough =
    let code = rlp_bytes item in
    let more = length-le-rlp_bytes item in
    let total : length (encoded (item ∷ items)) ≡ length code + length (encoded items) =
      unfold concat in length-append code (encoded items) in
    let pos = rlp_bytes-pos item (omega (arith, more, total)) in
    let joined = length-append pre code in
    let at : pre ++ (code ++ (encoded items ++ post)) ≡ pre ++ (encoded (item ∷ items) ++ post) =
      unfold concat in ap (◌++◌ pre) (sym (append_assoc code (encoded items) post)) in
    let first =
      rlp_decode_string-rlp_bytes pre item (encoded items ++ post) (omega (arith, more, total)) in
    let rest =
      decode_loop-encoded items (pre ++ code) post fuel end (omega (arith, joined, total)) fits
        (omega arith) in
    rw (← at) (
      decode_loop_step fuel _ item items (length pre) (length pre + length code) end
        (omega (arith, total, pos)) first
        (rw (← joined, ← append_assoc pre code (encoded items ++ post)) rest))
