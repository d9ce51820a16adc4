-- ===== src/Rpc/Laws.antt =====
-- What the calls leave in the history, and what they return.
use atlas_faucet.Prelude.{
  ℕ, suc, ◌+◌, ◌*◌, ◌/◌, ◌%◌, ◌^◌, ◌≤◌, ◌<◌, ◌≡◌, ◌↔◌, refl, ap, ◌∙◌, none, some, [], ◌∷◌, Bytes,
  IsByte, All, codes, bytes_eq, Result, ok, err, ◌>>=◌, map_err, if◌then◌else◌, arith, length, ◌⊎◌,
  inl, inr, Option-cases, Result-cases,
}
use native.Mathlib.Nat.{pow-suc, mul-le-mul_left}
use atlas_faucet.Prelude.Powers.{be_value, pow-pos_256}
use atlas_faucet.World.{Value, null, string, posts, sleeps, History, World}
use atlas_faucet.Text.{strip_prefix, from_str_radix, radix_loop}
use atlas_faucet.Text.Radix.{from_str_radix-lt, from_str_radix_unsigned, radix_loop_step}
use atlas_faucet.Util.{hex_lower, hex_digit, prefixed_hex}
use atlas_faucet.Util.Hex.{hex_digit-eq, hex_digit_lem}
use atlas_faucet.Rpc.{
  RpcError, unparseable, get, as_str, error_member, read_body, parse_hex, parse_hex_u64,
  parse_hex_u128, eth_send_raw_transaction, only, call, transaction_count, gas_price, balance,
  send_raw_transaction, transaction_receipt,
}

-- The number of raw transactions that were posted.
unfoldable pub sends : History → ℕ
unfolding bytes_eq
sends [] = 0
sends (sleeps ms ∷ past) = sends past
sends (posts method params ∷ past) =
    if bytes_eq method eth_send_raw_transaction then suc (sends past) else sends past

-- A reply is a result exactly when its text is JSON, has no error member but null, and has a
-- result member, which is the result.
pub read_body_iff :
    (w : World) (method text : Bytes) (result : Value)
    → (read_body w method text ≡ ok result) ↔ (
        (value : Value) × (w.from_str text ≡ some value)
        × ((get (codes "error") value ≡ none) ⊎ (get (codes "error") value ≡ some null))
        × (get (codes "result") value ≡ some result))
unfolding read_body error_member
read_body_iff w method text result = (
  elim (Option-cases (w.from_str text)) [
    | inl miss ↦ λ e. ground (arith)
    | inr (value, hit) ↦ λ e. ground (arith)
  ],
  λ (value, read, clean, found). ground (arith),
)

parse_hex-lt :
    (bound : ℕ) (method : Bytes) (value : Value) (n : ℕ)
    → 0 < bound
    → parse_hex bound method value ≡ ok n
    → n < bound
unfolding parse_hex
parse_hex-lt bound method value n pos e = elim (Option-cases (as_str value)) [
  | inl miss ↦ ground (arith)
  | inr (text, hit) ↦ elim (Option-cases (strip_prefix (codes "0x") text)) [
    | inl bare ↦
        ground (
          arith,
          from_str_radix-lt 16 bound text n pos,
          Result-cases (from_str_radix 16 bound text),
        )
    | inr (rest, prefixed) ↦
        ground (
          arith,
          from_str_radix-lt 16 bound rest n pos,
          Result-cases (from_str_radix 16 bound rest),
        )
  ]
]

quantity-lt :
    (bound : ℕ) (method : Bytes) (reply : Result RpcError Value) (n : ℕ)
    → 0 < bound
    → (reply >>= λ v. parse_hex bound method v) ≡ ok n
    → n < bound
quantity-lt bound method (ok v) n pos e = parse_hex-lt bound method v n pos e
quantity-lt bound method (err x) n pos e = cc

radix_loop-hex_lower :
    (bound acc : ℕ) (bytes : Bytes)
    → All IsByte bytes
    → acc * 256 ^ length bytes + be_value bytes < bound
    → radix_loop 16 bound acc (hex_lower bytes) ≡ ok (acc * 256 ^ length bytes + be_value bytes)
unfolding hex_lower be_value
radix_loop-hex_lower bound acc [] h fits = unfold radix_loop in ap ok (omega arith)
radix_loop-hex_lower bound acc (b ∷ bytes) h fits =
    let power = 256 ^ length bytes in
    let high = acc * 16 + b / 16 in
    let next = high * 16 + b % 16 in
    let split : next ≡ acc * 256 + b = omega arith in
    let scaled : next * power ≡ acc * 256 ^ suc (length bytes) + b * power =
      ap (λ (t : ℕ). t * power) split
      ∙ omega (arith, ap (λ (t : ℕ). acc * t) (pow-suc 256 (length bytes))) in
    let below : next * 1 ≤ next * power = mul-le-mul_left next (pow-pos_256 (length bytes)) in
    radix_loop_step 16 bound acc _ (b / 16) _ (hex_digit_lem (b / 16) (omega arith)) (omega (arith))
    ∙ radix_loop_step 16 bound high _ (b % 16) _ (hex_digit_lem (b % 16) (omega arith))
        (omega (arith))
    ∙ radix_loop-hex_lower bound next bytes h.1 (omega (arith))
    ∙ ap ok (omega (arith))

-- A quantity that the node writes as the prefixed hexadecimal digits of one or more big-endian
-- bytes is read as their number, if it fits the type.
pub parse_hex-prefixed_hex :
    (bound : ℕ) (method bytes : Bytes) (b : ℕ)
    → All IsByte (b ∷ bytes)
    → be_value (b ∷ bytes) < bound
    → parse_hex bound method (string (prefixed_hex (b ∷ bytes))) ≡ ok (be_value (b ∷ bytes))
unfolding parse_hex prefixed_hex strip_prefix hex_lower
parse_hex-prefixed_hex bound method bytes b h fits =
    rw
      (from_str_radix_unsigned 16 bound (hex_digit (b / 16)) (hex_digit (b % 16) ∷ hex_lower bytes)
        (ground (arith, hex_digit-eq (b / 16) (omega arith)))
        (ground (arith, hex_digit-eq (b / 16) (omega arith))))
      (ap (map_err (unparseable method _))
          (radix_loop-hex_lower bound 0 (b ∷ bytes) h (omega arith))
        ∙ ap ok (omega arith))

module _ (w : World) where
  -- No call posts a raw transaction but `send_raw_transaction`, which posts its argument last,
  -- whatever comes back.
  pub gas_price_lem :
      (past : History) (n : ℕ)
      → (sends (gas_price w past).1 ≡ sends past) × ((gas_price w past).0 ≡ ok n → n < 2 ^ 128)
  unfolding gas_price parse_hex_u128 sends call
  gas_price_lem past n = (refl, quantity-lt _ _ _ n (omega arith))

  pub balance_lem :
      (address : Bytes) (past : History) (n : ℕ)
      → (sends (balance w address past).1 ≡ sends past)
        × ((balance w address past).0 ≡ ok n → n < 2 ^ 128)
  unfolding balance parse_hex_u128 sends call
  balance_lem address past n = (refl, quantity-lt _ _ _ n (omega arith))

  pub transaction_count_lem :
      (address : Bytes) (past : History) (n : ℕ)
      → (sends (transaction_count w address past).1 ≡ sends past)
        × ((transaction_count w address past).0 ≡ ok n → n < 2 ^ 64)
  unfolding transaction_count parse_hex_u64 sends call
  transaction_count_lem address past n = (refl, quantity-lt _ _ _ n (omega arith))

  pub send_raw_transaction_lem :
      (raw : Bytes) (past : History)
      → ((send_raw_transaction w raw past).1 ≡ posts eth_send_raw_transaction (only raw) ∷ past)
        × (sends (send_raw_transaction w raw past).1 ≡ suc (sends past))
  unfolding send_raw_transaction call sends
  send_raw_transaction_lem raw past = (refl, refl)

  pub sends-transaction_receipt :
      (tx_hash : Bytes) (past : History) → sends (transaction_receipt w tx_hash past).1 ≡ sends past
  unfolding transaction_receipt call sends
  sends-transaction_receipt tx_hash past = refl
