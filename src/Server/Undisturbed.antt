-- ===== src/Server/Undisturbed.antt =====
-- `submit` where no other claim moves: its requests, one after the other under the lock.
use atlas_faucet.Prelude.{
  ltb, ℕ, ◌≡◌, refl, Bool, true, false, Option, some, List, [], ◌∷◌, Bytes, Result, ok, err,
}
use atlas_faucet.Hashes.{Hashes}
use atlas_faucet.Secp.{Secp}
use atlas_faucet.Semaphore.{Semaphore}
use atlas_faucet.World.{History, World}
use atlas_faucet.Pow.{VerifiedChallenge, PowKeeper}
use atlas_faucet.Rpc
use atlas_faucet.Rpc.{RpcError}
use atlas_faucet.Faucet.{
  DispenseError, rpc_failed, insufficient_funds, address_hex, needed_wei, choose_gas_price,
  broadcast, with_nonce, with_balance, with_gas_price, submit,
}
use atlas_faucet.Server.{ClaimRequest, AppState, Shared}
use atlas_faucet.Server.Phases.{
  Phase, submitting, funding, counting, sending, leaving, failing, on_gas_price, on_funds,
  on_balance, on_count, on_sent, advance, Reaches, steps, goes,
}

module _ (h : Hashes) (s : Secp) (sem : Semaphore) (w : World)
    (from_slice : Bytes → Option ClaimRequest) (app : AppState h s) (rest : List Phase)
    (first : Shared h s sem × List Phase) where
  -- A state with a free lock.
  abbrev pub free : PowKeeper → sem.Permits → History → Shared h s sem
  free keeper permits past = record {
    keeper = keeper;
    permits = permits;
    locked = false;
    past = past;
  }

  abbrev pub At : Shared h s sem → Phase → Type 0
  At shared phase = Reaches h s sem w from_slice app first (shared, phase ∷ rest)

  pub then :
      (shared : Shared h s sem) (phase : Phase) (later : Shared h s sem) (next : Phase)
      → At shared phase
      → advance h s sem w from_slice app shared phase ≡ some (later, next)
      → At later next
  then shared phase later next here e =
      goes first (shared, phase ∷ rest) (later, next ∷ rest) here
        (steps shared [] phase rest later next e)

  module _ (v : VerifiedChallenge) where
    -- What `submit` makes of its requests, at the phase that follows.
    abbrev pub Submitted :
        ℕ → PowKeeper → sem.Permits → Result DispenseError Bytes × History → Type 0
    Submitted now keeper permits (ok tx_hash, sent) =
        At (free keeper permits sent) (leaving v tx_hash)
    Submitted now keeper permits (err e, sent) = At (free keeper permits sent) (failing v now e)

    -- A state with the lock taken.
    abbrev pub held : PowKeeper → sem.Permits → History → Shared h s sem
    held keeper permits past = record (free keeper permits past) { locked = true }

    module _ (now : ℕ) (keeper : PowKeeper) (permits : sem.Permits) where
      broadcast_alone :
          (gas_price nonce : ℕ) (past : History) (r : Result DispenseError Bytes × History)
          → broadcast h s w app.faucet v.address gas_price nonce past ≡ r
          → At (held keeper permits past) (sending v now gas_price nonce)
          → Submitted now keeper permits r
      broadcast_alone gas_price nonce past (ok tx_hash, sent) e here =
          then _ (sending v now gas_price nonce) (free keeper permits sent) (leaving v tx_hash) here
            (unfold advance on_sent in rw e refl)
      broadcast_alone gas_price nonce past (err x, sent) e here =
          then _ (sending v now gas_price nonce) (free keeper permits sent) (failing v now x) here
            (unfold advance on_sent in rw e refl)

      nonce_alone :
          (gas_price : ℕ) (past : History) (r : Result RpcError ℕ × History)
          → Rpc.transaction_count w (address_hex h s app.faucet.signer) past ≡ r
          → At (held keeper permits past) (counting v now gas_price)
          → Submitted now keeper permits (with_nonce h s w app.faucet v.address gas_price r)
      unfolding with_nonce
      nonce_alone gas_price past (ok nonce, asked) e here =
          broadcast_alone gas_price nonce asked _ refl (
            then _ (counting v now gas_price) (held keeper permits asked)
              (sending v now gas_price nonce) here (unfold advance on_count in rw e refl))
      nonce_alone gas_price past (err x, asked) e here =
          then _ (counting v now gas_price) (free keeper permits asked)
            (failing v now (rpc_failed x)) here (unfold advance on_count in rw e refl)

      funds_alone :
          (gas_price balance : ℕ) (past asked : History) (short : Bool)
          → Rpc.balance w (address_hex h s app.faucet.signer) past ≡ (ok balance, asked)
          → ltb balance (needed_wei h s app.faucet gas_price) ≡ short
          → At (held keeper permits past) (funding v now gas_price)
          → Submitted now keeper permits
              (with_balance h s w app.faucet v.address gas_price (ok balance, asked))
      unfolding with_balance
      funds_alone gas_price balance past asked true e tested here = rw tested (
          then _ (funding v now gas_price) (free keeper permits asked)
            (failing v now (insufficient_funds balance (needed_wei h s app.faucet gas_price))) here
            (unfold advance on_balance on_funds in rw (e, tested) refl))
      funds_alone gas_price balance past asked false e tested here = rw tested (
          nonce_alone gas_price asked _ refl (
            then _ (funding v now gas_price) (held keeper permits asked) (counting v now gas_price)
              here (unfold advance on_balance on_funds in rw (e, tested) refl)))

      balance_alone :
          (gas_price : ℕ) (past : History) (r : Result RpcError ℕ × History)
          → Rpc.balance w (address_hex h s app.faucet.signer) past ≡ r
          → At (held keeper permits past) (funding v now gas_price)
          → Submitted now keeper permits (with_balance h s w app.faucet v.address gas_price r)
      unfolding with_balance
      balance_alone gas_price past (ok balance, asked) e here =
          funds_alone gas_price balance past asked _ e refl here
      balance_alone gas_price past (err x, asked) e here =
          then _ (funding v now gas_price) (free keeper permits asked)
            (failing v now (rpc_failed x)) here (unfold advance on_balance in rw e refl)

      price_alone :
          (past : History) (r : Result DispenseError ℕ × History)
          → choose_gas_price h s w app.faucet.gas_price_override past ≡ r
          → At (held keeper permits past) (submitting v now)
          → Submitted now keeper permits (with_gas_price h s w app.faucet v.address r)
      unfolding with_gas_price
      price_alone past (ok gas_price, asked) e here = balance_alone gas_price asked _ refl (
          then _ (submitting v now) (held keeper permits asked) (funding v now gas_price) here
            (unfold advance on_gas_price in rw e refl))
      price_alone past (err x, asked) e here =
          then _ (submitting v now) (free keeper permits asked) (failing v now x) here
            (unfold advance on_gas_price in rw e refl)

      -- With the lock, and the other claims at rest, the requests are those of `submit`.
      pub submit_alone :
          (past : History)
          → At (held keeper permits past) (submitting v now)
          → Submitted now keeper permits (submit h s w app.faucet v.address past)
      unfolding submit
      submit_alone past here = price_alone past _ refl here
