-- ===== src/Config/Validate.antt =====
-- What a validated configuration promises to the rest of the program.
use atlas_faucet.Prelude.{
  ℕ, ◌^◌, ◌≤◌, ◌<◌, ◌≡◌, ◌↔◌, Option, some, [], ◌∷◌, Bytes, ok, arith, Result-cases, Option-cases,
  inl, inr,
}
use atlas_faucet.Prelude.Words.{IsU128}
use atlas_faucet.Text.{trim, from_str_radix}
use atlas_faucet.Text.Radix.{from_str_radix-lt}
use atlas_faucet.Config.{Config, drip_wei, parse_gas_price, gas_price_wei, validate}

-- A configuration is valid exactly when the two numbers of the proof of work are in their ranges
-- and the two amounts can be read.
pub validate_iff :
    (config : Config)
    → (validate config ≡ ok tt) ↔ (
        (0 < config.pow_bits)
        × (config.pow_bits ≤ 28)
        × (0 < config.pow_puzzles)
        × (config.pow_puzzles ≤ 100000)
        × ((drip : ℕ) × (drip_wei config ≡ ok drip))
        × ((price : Option ℕ) × (gas_price_wei config ≡ ok price)))
unfolding validate
validate_iff config = (
  λ e. elim (Result-cases (drip_wei config)) [
    | inl (drip, read) ↦ elim (Result-cases (gas_price_wei config)) [
      | inl (price, priced) ↦
          let ranges : (0 < config.pow_bits)
              × (config.pow_bits ≤ 28)
              × (0 < config.pow_puzzles)
              × (config.pow_puzzles ≤ 100000) =
            ground (arith, read, priced) in
          (ranges.0, ranges.1, ranges.2, ranges.3, (drip, read), (price, priced))
      | inr (x, bad) ↦ absurd (ground (arith, read, bad))
    ]
    | inr (x, bad) ↦ absurd (ground (arith, bad))
  ],
  λ (a, b, c, d, (drip, read), (price, priced)). ground (arith, read, priced),
)

-- The amounts fit a u128.
pub drip_wei-lt : (config : Config) (drip : ℕ) → drip_wei config ≡ ok drip → IsU128 drip
unfolding drip_wei
drip_wei-lt config drip e =
    elim (Result-cases (from_str_radix 10 (2 ^ 128) (trim config.faucet_drip_wei))) [
      | inl (n, read) ↦ ground (
        arith,
        read,
        from_str_radix-lt 10 (2 ^ 128) (trim config.faucet_drip_wei) n (omega arith) read,
      )
      | inr (x, bad) ↦ ground (arith, bad)
    ]

parse_gas_price-lt :
    (value : Bytes) (price : ℕ) → parse_gas_price value ≡ ok (some price) → IsU128 price
unfolding parse_gas_price
parse_gas_price-lt [] price e = cc
parse_gas_price-lt (c ∷ value) price e =
    elim (Result-cases (from_str_radix 10 (2 ^ 128) (c ∷ value))) [
      | inl (n, read) ↦
          ground (arith, read, from_str_radix-lt 10 (2 ^ 128) (c ∷ value) n (omega arith) read)
      | inr (x, bad) ↦ ground (arith, bad)
    ]

pub gas_price_wei-lt :
    (config : Config) (price : ℕ) → gas_price_wei config ≡ ok (some price) → IsU128 price
unfolding gas_price_wei
gas_price_wei-lt config price e = elim (Option-cases config.faucet_gas_price_wei) [
  | inl unset ↦ ground (arith, unset)
  | inr (value, set) ↦ ground (arith, set, parse_gas_price-lt (trim value) price)
]
