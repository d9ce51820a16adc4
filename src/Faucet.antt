-- ===== src/Faucet.antt =====
-- src/faucet.rs: the dispenser. The semaphore is a state of its own; the lock that serializes
-- `submit` is in the model of the server, where claims interleave.
pub mod Submit
pub mod Receipt
pub mod Service
use atlas_faucet.Prelude.{
  ℕ, zero, suc, ◌+◌, ◌-◌, ◌*◌, ◌^◌, Bool, true, false, ◌&&◌, not, Option, none, some, List, [], ◌∷◌,
  Bytes, codes, bytes_eq, Result, ok, err, ◌>>=◌, map_err, ok_or, if◌then◌else◌, ltb, leb, ◌==◌,
  max,
}
use atlas_faucet.Prelude.Words.{saturating_add_u128, saturating_mul_u128}
use atlas_faucet.Text.{from_str_radix}
use atlas_faucet.Hashes.{Hashes}
use atlas_faucet.Secp.{Secp}
use atlas_faucet.Semaphore.{Semaphore}
use atlas_faucet.World.{Value, Event, sleeps, History, World}
use atlas_faucet.Util.{prefixed_hex}
use atlas_faucet.Eth.{FaucetSigner, LegacyTransfer, sign_legacy_transfer}
use atlas_faucet.Rpc
use atlas_faucet.Rpc.{RpcError, as_str, get}

pub record ReceiptOutcome : Type 0 where
  pub mined : Bool
  pub transferred : Bool
  pub block_number : Option ℕ

pub record DispenseReceipt : Type 0 where
  pub tx_hash : Bytes
  pub amount_wei : ℕ
  pub mined : Bool
  pub transferred : Bool
  pub block_number : Option ℕ

pub data DispenseError : Type 0 where
  rpc_failed : RpcError → DispenseError
  insufficient_funds : ℕ → ℕ → DispenseError

-- `str::trim_start_matches("0x")`
unfoldable pub trim_start_0x : Bytes → Bytes
trim_start_0x [] = []
trim_start_0x (a ∷ []) = a ∷ []
trim_start_0x (a ∷ b ∷ rest) = if a == b'0' && b == b'x' then trim_start_0x rest else a ∷ b ∷ rest

unfoldable pub parse_block_number : Bytes → Option ℕ
unfolding trim_start_0x
parse_block_number hex = elim (from_str_radix 16 (2 ^ 64) (trim_start_0x hex)) [
  | ok n ↦ some n
  | err e ↦ none
]

unfoldable pub string_member : Bytes → Value → Option Bytes
string_member key value = elim (get key value) [ none ↦ none | some v ↦ as_str v ]

-- The outcome that a receipt describes. A missing status counts as success.
unfoldable pub read_receipt : Value → ReceiptOutcome
unfolding string_member parse_block_number
read_receipt receipt = record {
  mined = true;
  transferred = elim (string_member (codes "status") receipt) [
    | none ↦ true
    | some status ↦ not (bytes_eq status (codes "0x0"))
  ];
  block_number = elim (string_member (codes "blockNumber") receipt) [
    | none ↦ none
    | some hex ↦ parse_block_number hex
  ];
}

abbrev pub not_mined : ReceiptOutcome
not_mined = record { mined = false; transferred = false; block_number = none }

-- `Ok(Some(receipt))`
unfoldable pub found_receipt : Result RpcError (Option Value) → Option Value
found_receipt (ok v) = v
found_receipt (err e) = none

-- The end of a round, with the receipt that it found and the outcome of the rounds after it.
unfoldable pub poll_round :
    World
    → ℕ
    → Option Value
    → History
    → Option ReceiptOutcome × History
    → Option ReceiptOutcome × History
unfolding read_receipt
poll_round w deadline (some receipt) now rest = (some (read_receipt receipt), now)
poll_round w deadline none now rest =
    if leb deadline (w.instant now) then (some not_mined, now) else rest

-- The polling loop. A result of `none` stands for a loop that does not end.
unfoldable pub poll_loop : World → ℕ → Bytes → ℕ → History → Option ReceiptOutcome × History
unfolding found_receipt poll_round
poll_loop w zero tx_hash deadline past = (none, past)
poll_loop w (suc fuel) tx_hash deadline past =
    let (reply, now) = Rpc.transaction_receipt w tx_hash past in
    poll_round w deadline (found_receipt reply) now
      (poll_loop w fuel tx_hash deadline (sleeps 500 ∷ now))

module _ (h : Hashes) (s : Secp) where
  pub record Faucet : Type 0 where
    pub signer : FaucetSigner h s
    pub chain_id : ℕ
    pub drip_wei : ℕ
    pub gas_limit : ℕ
    pub gas_price_override : Option ℕ
    -- In seconds.
    pub receipt_timeout : ℕ
    pub capacity : ℕ

  -- `Faucet::new`, less the semaphore and the lock that it makes.
  unfoldable pub new_faucet : FaucetSigner h s → ℕ → ℕ → ℕ → Option ℕ → ℕ → ℕ → Faucet
  new_faucet signer chain_id drip_wei gas_limit gas_price_override receipt_timeout capacity =
      record {
        signer = signer;
        chain_id = chain_id;
        drip_wei = drip_wei;
        gas_limit = gas_limit;
        gas_price_override = gas_price_override;
        receipt_timeout = receipt_timeout;
        capacity = capacity;
      }

  unfoldable pub address_hex : FaucetSigner h s → Bytes
  address_hex signer = prefixed_hex signer.address

  -- A round for each half second of the timeout, and one more.
  unfoldable pub await_receipt : World → Faucet → Bytes → History → Option ReceiptOutcome × History
  unfolding poll_loop
  await_receipt w f tx_hash past =
      if f.receipt_timeout == 0
      then (some not_mined, past)
      else poll_loop w (suc (2 * f.receipt_timeout)) tx_hash
          (w.instant past + 1000 * f.receipt_timeout) past

  -- The gas price: the override, or the node's, at least 1.
  unfoldable pub choose_gas_price : World → Option ℕ → History → Result DispenseError ℕ × History
  choose_gas_price w (some price) past = (ok price, past)
  choose_gas_price w none past =
      let (reply, now) = Rpc.gas_price w past in
      (map_err rpc_failed reply >>= λ price. ok (max price 1), now)

  abbrev pub needed_wei : Faucet → ℕ → ℕ
  needed_wei f gas_price =
      saturating_add_u128 f.drip_wei (saturating_mul_u128 gas_price f.gas_limit)

  abbrev pub transfer : Faucet → ℕ → ℕ → Bytes → LegacyTransfer
  transfer f nonce gas_price to = record {
    chain_id = f.chain_id;
    nonce = nonce;
    gas_price = gas_price;
    gas_limit = f.gas_limit;
    to = to;
    value = f.drip_wei;
  }

  -- The parts of `submit`, the last one first, each from the reply that it needs.
  unfoldable pub broadcast :
      World → Faucet → Bytes → ℕ → ℕ → History → Result DispenseError Bytes × History
  broadcast w f to gas_price nonce past =
      let signed = sign_legacy_transfer h s f.signer (transfer f nonce gas_price to) in
      let (reply, now) = Rpc.send_raw_transaction w signed.raw past in
      (map_err rpc_failed reply, now)

  -- From the nonce on.
  unfoldable pub with_nonce :
      World
      → Faucet
      → Bytes
      → ℕ
      → Result RpcError ℕ × History
      → Result DispenseError Bytes × History
  unfolding broadcast
  with_nonce w f to gas_price (err e, now) = (err (rpc_failed e), now)
  with_nonce w f to gas_price (ok nonce, now) = broadcast w f to gas_price nonce now

  -- From the balance on.
  unfoldable pub with_balance :
      World
      → Faucet
      → Bytes
      → ℕ
      → Result RpcError ℕ × History
      → Result DispenseError Bytes × History
  unfolding with_nonce
  with_balance w f to gas_price (err e, now) = (err (rpc_failed e), now)
  with_balance w f to gas_price (ok balance, now) =
      if ltb balance (needed_wei f gas_price)
      then (err (insufficient_funds balance (needed_wei f gas_price)), now)
      else with_nonce w f to gas_price (Rpc.transaction_count w (address_hex f.signer) now)

  -- From the gas price on.
  unfoldable pub with_gas_price :
      World
      → Faucet
      → Bytes
      → Result DispenseError ℕ × History
      → Result DispenseError Bytes × History
  unfolding with_balance
  with_gas_price w f to (err e, now) = (err e, now)
  with_gas_price w f to (ok gas_price, now) =
      with_balance w f to gas_price (Rpc.balance w (address_hex f.signer) now)

  unfoldable pub submit : World → Faucet → Bytes → History → Result DispenseError Bytes × History
  unfolding with_gas_price choose_gas_price
  submit w f to past = with_gas_price w f to (choose_gas_price w f.gas_price_override past)

  abbrev pub receipt_of : Faucet → Bytes → ReceiptOutcome → DispenseReceipt
  receipt_of f tx_hash outcome = record {
    tx_hash = tx_hash;
    amount_wei = f.drip_wei;
    mined = outcome.mined;
    transferred = outcome.transferred;
    block_number = outcome.block_number;
  }

  module _ (sem : Semaphore) where
    unfoldable pub in_flight : Faucet → sem.Permits → ℕ
    in_flight f permits = f.capacity - sem.available_permits permits

    unfoldable pub try_admit : sem.Permits → Option sem.Permits
    try_admit permits = sem.try_acquire permits
