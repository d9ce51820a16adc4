-- ===== src/Util/Zeros.antt =====
-- `leading_zero_bits` against the number that the hash spells, most significant byte first.
use native.Mathlib.Decide.{dec_le}
use native.Mathlib.Nat.{pow-suc, mul-le-mul_right}
use atlas_faucet.Prelude.{
  ℕ, suc, ◌+◌, ◌-◌, ◌*◌, ◌^◌, ◌≤◌, ◌<◌, ◌≡◌, ◌↔◌, sym, ap, ◌∙◌, [], ◌∷◌, Bytes, IsByte, All, arith,
  length, inl, inr, Bool-cases, ◌==◌,
}
use atlas_faucet.Prelude.Powers.{pow-add, pow_256, pow-pos, pow_mono, be_value, be_value-lt}
use atlas_faucet.Util.Defs.{byte_leading_zeros, zeros_loop, leading_zero_bits}

zeros_loop-shift : (count : ℕ) (hash : Bytes) → zeros_loop count hash ≡ count + zeros_loop 0 hash
unfolding zeros_loop
zeros_loop-shift count [] = omega arith
zeros_loop-shift count (b ∷ hash) =
    ground (arith, zeros_loop-shift (count + 8) hash, zeros_loop-shift 8 hash)

-- A byte with `c` leading zeros has its highest one at bit `8 - c - 1`.
byte_leading_zeros_lem :
    (b : ℕ)
    → IsByte b
    → 0 < b
    → (byte_leading_zeros b ≤ 8)
      × (b < 2 ^ (8 - byte_leading_zeros b))
      × (2 ^ (8 - byte_leading_zeros b) ≤ 2 * b)
unfolding byte_leading_zeros
byte_leading_zeros_lem b h pos = ground arith

-- `k` bits remain behind the leading zeros, and the number reaches the highest of them.
abbrev Remain : Bytes → ℕ → Type 0
Remain hash k =
    (zeros_loop 0 hash + k ≡ 8 * length hash)
    × (be_value hash < 2 ^ k)
    × (2 ^ k ≤ 2 * be_value hash + 1)

Remain-nonzero :
    (b : ℕ) (hash : Bytes)
    → IsByte b
    → 0 < b
    → All IsByte hash
    → Remain (b ∷ hash) (8 - byte_leading_zeros b + 8 * length hash)
unfolding zeros_loop be_value
Remain-nonzero b hash hb pos h =
    let m = 8 - byte_leading_zeros b in
    let p = 256 ^ length hash in
    let top = byte_leading_zeros_lem b hb pos in
    let scale : 2 ^ (m + 8 * length hash) ≡ 2 ^ m * p =
      pow-add 2 m (8 * length hash) ∙ ap (λ (t : ℕ). 2 ^ m * t) (sym (pow_256 (length hash))) in
    let above = mul-le-mul_right p top.1 in
    let below = mul-le-mul_right p top.2 in
    (
      ground (arith, top),
      omega (arith, be_value-lt hash h, scale, above),
      omega (arith, scale, below),
    )

remain : (hash : Bytes) → All IsByte hash → (k : ℕ) × Remain hash k
unfolding zeros_loop be_value
remain [] h = (0, omega arith)
remain (b ∷ hash) h = elim (Bool-cases (b == 0)) [
  | inl e ↦ let (k, r) = remain hash h.1 in (k, ground (arith, zeros_loop-shift 8 hash))
  | inr e ↦
      (8 - byte_leading_zeros b + 8 * length hash, Remain-nonzero b hash h.0 (ground arith) h.1)
]

-- A hash has at least `bits` leading zero bits exactly when its number is below two to the
-- number of the remaining bits.
pub leading_zero_bits_iff :
    (hash : Bytes) (bits rest : ℕ)
    → All IsByte hash
    → bits + rest ≡ 8 * length hash
    → (bits ≤ leading_zero_bits hash) ↔ (be_value hash < 2 ^ rest)
unfolding leading_zero_bits
leading_zero_bits_iff hash bits rest h e =
    let (k, r) = remain hash h in
    (
      λ le. omega (arith, r, pow_mono k rest (omega (arith, r))),
      λ below. ground (arith, r, above k r below),
    )
  where
    above : (k : ℕ) → Remain hash k → be_value hash < 2 ^ rest → bits ≤ zeros_loop 0 hash
    above k r below = elim (dec_le bits (zeros_loop 0 hash)) [
      | yes le ↦ le
      | no gt ↦
          let more = pow_mono (suc rest) k (omega (arith, r)) in
          absurd (omega (arith, more, r, pow-suc 2 rest, pow-pos rest))
    ]
