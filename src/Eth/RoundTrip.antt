-- ===== src/Eth/RoundTrip.antt =====
-- A signed transfer is recovered by `recover_legacy_transfer`.
use atlas_faucet.Prelude.{
  ℕ, suc, ◌-◌, ◌*◌, ◌≤◌, ◌≡◌, refl, List, [], ◌∷◌, ◌++◌, map, Bytes, IsByte, All, All-append, arith,
  ◌==◌, length, length-append, replicate, inl, inr, Bool-cases, ok,
}
use atlas_faucet.Eth.Rlp.{strip_leading_zeros, rlp_length_prefix, rlp_bytes, concat, rlp_list}
use atlas_faucet.Eth.Numbers.{minimal_be-IsByte, length-strip}
use atlas_faucet.Eth.Encode.{rlp_length_prefix_cases, rlp_bytes_cases}
use atlas_faucet.Eth.Signing.{left_pad_into}

-- The encoders write bytes.
rlp_length_prefix-IsByte : (len base : ℕ) → All IsByte (rlp_length_prefix len base)
unfolding rlp_length_prefix
rlp_length_prefix-IsByte len base = ground (arith, minimal_be-IsByte len)

rlp_bytes-IsByte : (item : Bytes) → All IsByte item → All IsByte (rlp_bytes item)
rlp_bytes-IsByte item h = elim (rlp_bytes_cases item) [
  | inl (b, is, low, e) ↦ rw (e) (omega (arith, low), tt)
  | inr e ↦ rw e (All-append IsByte _ item (rlp_length_prefix-IsByte (length item) 0x80) h)
]

concat-IsByte :
    (items : List Bytes) → All (All IsByte) items → All IsByte (concat (map rlp_bytes items))
unfolding concat
concat-IsByte [] h = tt
concat-IsByte (item ∷ items) h =
    All-append IsByte _ _ (rlp_bytes-IsByte item h.0) (concat-IsByte items h.1)

pub rlp_list-IsByte :
    (items : List Bytes) → All (All IsByte) items → All IsByte (rlp_list (map rlp_bytes items))
unfolding rlp_list
rlp_list-IsByte items h =
    All-append IsByte _ _ (rlp_length_prefix-IsByte _ 0xc0) (concat-IsByte items h)

-- Items of up to 32 bytes have short encodings.
length-rlp_bytes-le : (item : Bytes) → length item ≤ 32 → length (rlp_bytes item) ≤ 33
length-rlp_bytes-le item h = elim (rlp_bytes_cases item) [
  | inl (b, is, low, e) ↦ rw e (omega arith)
  | inr e ↦
      rw (e, length-append (rlp_length_prefix (length item) 0x80) item)
        (elim (rlp_length_prefix_cases (length item) 0x80 (omega arith) (omega arith)) [
          | inl (short, p) ↦ rw p (omega arith)
          | inr (long, lo, hi, p) ↦ absurd (omega arith)
        ])
]

length-concat-le :
    (items : List Bytes)
    → All (λ i. length i ≤ 32) items
    → length (concat (map rlp_bytes items)) ≤ 33 * length items
unfolding concat
length-concat-le [] h = omega arith
length-concat-le (item ∷ items) h = omega (
  arith,
  length-append (rlp_bytes item) (concat (map rlp_bytes items)),
  length-rlp_bytes-le item h.0,
  length-concat-le items h.1,
)

pub length-rlp_list-le :
    (items : List Bytes)
    → All (λ i. length i ≤ 32) items
    → length items ≡ 9
    → length (rlp_list (map rlp_bytes items)) ≤ 400
unfolding rlp_list
length-rlp_list-le items h nine =
    let n = length (concat (map rlp_bytes items)) in
    let le = length-concat-le items h in
    rw (length-append (rlp_length_prefix n 0xc0) (concat (map rlp_bytes items)))
      (elim (rlp_length_prefix_cases n 0xc0 (omega (arith, le)) (omega arith)) [
        | inl (short, p) ↦ rw p (omega (arith, le))
        | inr (long, lo, hi, p) ↦ rw p (omega (arith, le))
      ])

-- Stripping the leading zeros and padding to the old length are inverse.
pad_strip :
    (bs : Bytes)
    → replicate (length bs - length (strip_leading_zeros bs)) 0 ++ strip_leading_zeros bs ≡ bs
unfolding strip_leading_zeros
pad_strip [] = refl
pad_strip (b ∷ bs) =
    let short = length-strip bs in
    let more : suc (length bs) - length (strip_leading_zeros bs)
        ≡ suc (length bs - length (strip_leading_zeros bs)) =
      omega (arith, short) in
    let none_left : suc (length bs) - suc (length bs) ≡ 0 = omega arith in
    elim (Bool-cases (b == 0)) [
      | inl zeros ↦
          let zero_byte : 0 ≡ b = ground arith in rw zeros (rw more (cc (pad_strip bs, zero_byte)))
      | inr other ↦ rw other (rw none_left refl)
    ]

pub left_pad_into-strip_leading_zeros :
    (n : ℕ) (bs : Bytes) → length bs ≡ n → left_pad_into n (strip_leading_zeros bs) ≡ ok bs
unfolding left_pad_into
left_pad_into-strip_leading_zeros n bs e = rw (← e) (ground (arith, pad_strip bs, length-strip bs))
