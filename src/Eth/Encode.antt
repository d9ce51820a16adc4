-- ===== src/Eth/Encode.antt =====
-- The shapes of encoded items and lists, and their slices.
use atlas_faucet.Prelude.{
  ℕ, ◌+◌, ◌-◌, ◌^◌, ◌≤◌, ◌<◌, ◌≡◌, refl, sym, some, [], ◌∷◌, ◌++◌, Bytes, arith, ltb, leb, length,
  length-append, take, drop, take-append, drop-append, get_elem?, ◌⊎◌, inl, inr, Bool-cases,
}
use atlas_faucet.Prelude.Powers.{be_value}
use atlas_faucet.Eth.Rlp.{minimal_be, rlp_length_prefix, rlp_bytes, slice}
use atlas_faucet.Eth.Numbers.{minimal_be_lem, IsMinimal-length}

-- The number of length bytes of a long item.
length_of_length :
    (len : ℕ)
    → len < 2 ^ 64
    → 55 < len
    → (1 ≤ length (minimal_be len)) × (length (minimal_be len) ≤ 8)
length_of_length len fits long =
    let m = minimal_be_lem len (omega arith) in
    (
      nonempty (minimal_be len) m.0,
      IsMinimal-length 8 (minimal_be len) m.2 m.1 (omega (arith, m.0)),
    )
  where
    nonempty : (bytes : Bytes) → be_value bytes ≡ len → 1 ≤ length bytes
    nonempty [] e = unfold be_value in omega (arith, e)
    nonempty (b ∷ bytes) e = omega arith

-- The two forms of a length prefix.
pub rlp_length_prefix_cases :
    (len base : ℕ)
    → len < 2 ^ 64
    → base ≤ 0xc0
    → ((len ≤ 55) × (rlp_length_prefix len base ≡ (base + len) ∷ []))
      ⊎ ((55 < len)
          × (1 ≤ length (minimal_be len))
          × (length (minimal_be len) ≤ 8)
          × (rlp_length_prefix len base ≡ (base + 55 + length (minimal_be len)) ∷ minimal_be len))
unfolding rlp_length_prefix
rlp_length_prefix_cases len base fits b = elim (Bool-cases (leb len 55)) [
  | inl short ↦ inl (ground (arith), ground arith)
  | inr long ↦
      let n = length_of_length len fits (ground arith) in
      inr (ground arith, n.0, n.1, ground (arith, n))
]

-- A single low byte is its own code; every other string has a length prefix.
pub rlp_bytes_cases :
    (item : Bytes)
    → ((b : ℕ) × (item ≡ b ∷ []) × (b < 0x80) × (rlp_bytes item ≡ b ∷ []))
      ⊎ (rlp_bytes item ≡ rlp_length_prefix (length item) 0x80 ++ item)
unfolding rlp_bytes
rlp_bytes_cases [] = inr refl
rlp_bytes_cases (b ∷ []) = elim (Bool-cases (ltb b 0x80)) [
  | inl low ↦ inl (b, refl, ground arith, ground arith)
  | inr high ↦ inr (ground arith)
]
rlp_bytes_cases (b ∷ c ∷ item) = inr refl

pub get_elem?-append : (pre s : Bytes) (x : ℕ) → get_elem? (pre ++ (x ∷ s)) (length pre) ≡ some x
get_elem?-append [] s x = refl
get_elem?-append (y ∷ pre) s x = get_elem?-append pre s x

pub slice-append :
    (pre mid post : Bytes) (start end : ℕ)
    → start ≡ length pre
    → end ≡ length pre + length mid
    → slice (pre ++ (mid ++ post)) start end ≡ some mid
unfolding slice
slice-append pre mid post start end hs he =
    let total = length-append pre (mid ++ post) in
    let rest = length-append mid post in
    let cut : drop start (pre ++ (mid ++ post)) ≡ mid ++ post =
      drop-append pre (mid ++ post) (sym hs) in
    let kept : take (end - start) (mid ++ post) ≡ mid = take-append mid post (omega arith) in
    rw (cut, kept) (ground (arith, total, rest))

pub rlp_bytes-pos : (item : Bytes) → length item < 2 ^ 64 → 1 ≤ length (rlp_bytes item)
rlp_bytes-pos item fits = elim (rlp_bytes_cases item) [
  | inl (b, is, low, e) ↦ rw e (omega arith)
  | inr e ↦
      rw (e, length-append (rlp_length_prefix (length item) 0x80) item)
        (elim (rlp_length_prefix_cases (length item) 0x80 fits (omega arith)) [
          | inl (short, p) ↦ rw p (omega arith)
          | inr (long, lo, hi, p) ↦ rw p (omega arith)
        ])
]
