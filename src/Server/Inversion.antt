-- ===== src/Server/Inversion.antt =====
-- `advance` and the relation of its steps.
use atlas_faucet.Prelude.{
  ap, ltb, ℕ, ◌≡◌, arith, refl, Bool, true, false, Option, none, some, Bytes, Result, ok, err,
}
use atlas_faucet.Hashes.{Hashes}
use atlas_faucet.Secp.{Secp}
use atlas_faucet.Semaphore.{Semaphore}
use atlas_faucet.World.{History, World}
use atlas_faucet.Pow.{VerifiedChallenge, consume_salt, try_begin_claim}
use atlas_faucet.Rpc
use atlas_faucet.Rpc.{RpcError}
use atlas_faucet.Faucet.{
  ReceiptOutcome, DispenseError, address_hex, needed_wei, choose_gas_price, broadcast,
  await_receipt, try_admit,
}
use atlas_faucet.Server.{ClaimRequest, Response, AppState, authenticate, Shared}
use atlas_faucet.Server.Phases.{
  Phase, arrived, reserving, admitting, burning, queueing, submitting, funding, counting, sending,
  leaving, failing, reusing, awaiting, refusing, undoing, unburning, replied, on_authentication,
  on_reservation, on_consume, on_gas_price, on_funds, on_balance, on_count, on_sent, on_parsing,
  on_admission, on_lock, on_receipt, advance,
}
use atlas_faucet.Server.Ends.{authenticate-err}
use atlas_faucet.Server.Advances.{
  Advances, rejects, accepts, reserves, cools, admits, crowds, burns, reuses, locks, prices,
  unpriced, funds, underfunded, unfunded, counts, uncounted, pays, fails, leaves, gives_up, drops,
  confirms, refuses, undoes, unburns,
}

module _ (h : Hashes) (s : Secp) (sem : Semaphore) (w : World)
    (from_slice : Bytes → Option ClaimRequest) (app : AppState h s) where
  Advances-some :
      (shared : Shared h s sem) (phase : Phase) (x r : Shared h s sem × Phase)
      → some x ≡ some r
      → Advances h s sem w from_slice app shared phase x.0 x.1
      → Advances h s sem w from_slice app shared phase r.0 r.1
  Advances-some shared phase x r e moved = let same : x ≡ r = cc in rw⁻¹ same moved

  authenticated :
      (shared : Shared h s sem) (body : Bytes) (now : ℕ) (request : ClaimRequest)
      (r : Result Response VerifiedChallenge)
      → from_slice body ≡ some request
      → authenticate h s shared.keeper request now ≡ r
      → Advances h s sem w from_slice app shared (arrived body now) shared (on_authentication now r)
  unfolding on_authentication
  authenticated shared body now request (ok v) parsed e = accepts shared body now request v parsed e
  authenticated shared body now request (err response) parsed e =
      rejects shared body now response (authenticate-err h s shared.keeper request now response e)

  parsed :
      (shared : Shared h s sem) (body : Bytes) (now : ℕ) (r : Option ClaimRequest)
      → from_slice body ≡ r
      → Advances h s sem w from_slice app shared
          (arrived body now)
          shared
          (on_parsing h s sem w from_slice app shared now r)
  unfolding on_parsing
  parsed shared body now none e = rejects shared body now _ (λ bad. omega arith)
  parsed shared body now (some request) e = authenticated shared body now request _ e refl

  reserved :
      (shared : Shared h s sem) (v : VerifiedChallenge) (now : ℕ) (r : Result ℕ (Unit {0}))
      → (try_begin_claim shared.keeper v.address app.cooldown_secs now).1 ≡ r
      → Advances h s sem w from_slice app shared
          (reserving v now)
          (record shared {
            keeper = (try_begin_claim shared.keeper v.address app.cooldown_secs now).0;
          })
          (on_reservation v now r)
  unfolding on_reservation
  reserved shared v now (ok done) e = reserves shared v now e
  reserved shared v now (err remaining) e = cools shared v now remaining e

  admitted :
      (shared : Shared h s sem) (v : VerifiedChallenge) (now : ℕ) (r : Option sem.Permits)
      → sem.try_acquire shared.permits ≡ r
      → let next = on_admission h s sem w from_slice app v now shared r in
        Advances h s sem w from_slice app shared (admitting v now) next.0 next.1
  unfolding on_admission
  admitted shared v now (some permits) e = admits shared v now permits e
  admitted shared v now none e = crowds shared v now e

  consumed :
      (shared : Shared h s sem) (v : VerifiedChallenge) (now : ℕ) (fresh : Bool)
      → (consume_salt shared.keeper v.salt v.expires_at now).1 ≡ fresh
      → Advances h s sem w from_slice app shared
          (burning v now)
          (record shared { keeper = (consume_salt shared.keeper v.salt v.expires_at now).0 })
          (on_consume v now fresh)
  unfolding on_consume
  consumed shared v now true e = burns shared v now e
  consumed shared v now false e = reuses shared v now e

  locked :
      (shared : Shared h s sem) (v : VerifiedChallenge) (now : ℕ) (taken : Bool)
      (r : Shared h s sem × Phase)
      → shared.locked ≡ taken
      → on_lock h s sem w from_slice app v now shared taken ≡ some r
      → Advances h s sem w from_slice app shared (queueing v now) r.0 r.1
  unfolding on_lock
  locked shared v now true r free e = cc
  locked shared v now false r free e = Advances-some shared _ _ r e (locks shared v now free)

  priced :
      (shared : Shared h s sem) (v : VerifiedChallenge) (now : ℕ)
      (r : Result DispenseError ℕ × History)
      → choose_gas_price h s w app.faucet.gas_price_override shared.past ≡ r
      → let next = on_gas_price h s sem w from_slice app v now shared r in
        Advances h s sem w from_slice app shared (submitting v now) next.0 next.1
  unfolding on_gas_price
  priced shared v now (ok gas_price, past) e =
      rw⁻¹ (ap (λ x. x.1) e) (prices shared v now gas_price (ap (λ x. x.0) e))
  priced shared v now (err x, past) e =
      rw⁻¹ (ap (λ x. x.1) e) (unpriced shared v now x (ap (λ x. x.0) e))

  funded :
      (shared : Shared h s sem) (v : VerifiedChallenge) (now gas_price balance : ℕ) (short : Bool)
      → (Rpc.balance w (address_hex h s app.faucet.signer) shared.past).0 ≡ ok balance
      → ltb balance (needed_wei h s app.faucet gas_price) ≡ short
      → let past = (Rpc.balance w (address_hex h s app.faucet.signer) shared.past).1 in
        let next = on_funds h s sem w from_slice app v now gas_price balance shared past short in
        Advances h s sem w from_slice app shared (funding v now gas_price) next.0 next.1
  unfolding on_funds
  funded shared v now gas_price balance true e tested =
      underfunded shared v now gas_price balance e tested
  funded shared v now gas_price balance false e tested =
      funds shared v now gas_price balance e tested

  balanced :
      (shared : Shared h s sem) (v : VerifiedChallenge) (now gas_price : ℕ)
      (r : Result RpcError ℕ × History)
      → Rpc.balance w (address_hex h s app.faucet.signer) shared.past ≡ r
      → let next = on_balance h s sem w from_slice app v now gas_price shared r in
        Advances h s sem w from_slice app shared (funding v now gas_price) next.0 next.1
  unfolding on_balance
  balanced shared v now gas_price (ok balance, past) e =
      rw⁻¹ (ap (λ x. x.1) e) (funded shared v now gas_price balance _ (ap (λ x. x.0) e) refl)
  balanced shared v now gas_price (err x, past) e =
      rw⁻¹ (ap (λ x. x.1) e) (unfunded shared v now gas_price x (ap (λ x. x.0) e))

  counted :
      (shared : Shared h s sem) (v : VerifiedChallenge) (now gas_price : ℕ)
      (r : Result RpcError ℕ × History)
      → Rpc.transaction_count w (address_hex h s app.faucet.signer) shared.past ≡ r
      → let next = on_count h s sem w from_slice app v now gas_price shared r in
        Advances h s sem w from_slice app shared (counting v now gas_price) next.0 next.1
  unfolding on_count
  counted shared v now gas_price (ok nonce, past) e =
      rw⁻¹ (ap (λ x. x.1) e) (counts shared v now gas_price nonce (ap (λ x. x.0) e))
  counted shared v now gas_price (err x, past) e =
      rw⁻¹ (ap (λ x. x.1) e) (uncounted shared v now gas_price x (ap (λ x. x.0) e))

  sent :
      (shared : Shared h s sem) (v : VerifiedChallenge) (now gas_price nonce : ℕ)
      (r : Result DispenseError Bytes × History)
      → broadcast h s w app.faucet v.address gas_price nonce shared.past ≡ r
      → let next = on_sent h s sem w from_slice app v now shared r in
        Advances h s sem w from_slice app shared (sending v now gas_price nonce) next.0 next.1
  unfolding on_sent
  sent shared v now gas_price nonce (ok tx_hash, past) e =
      rw⁻¹ (ap (λ x. x.1) e) (pays shared v now gas_price nonce tx_hash (ap (λ x. x.0) e))
  sent shared v now gas_price nonce (err x, past) e =
      rw⁻¹ (ap (λ x. x.1) e) (fails shared v now gas_price nonce x (ap (λ x. x.0) e))

  confirmed :
      (shared : Shared h s sem) (v : VerifiedChallenge) (tx_hash : Bytes)
      (o : Option ReceiptOutcome × History) (r : Shared h s sem × Phase)
      → await_receipt h s w app.faucet tx_hash shared.past ≡ o
      → on_receipt h s sem w from_slice app v tx_hash shared o ≡ some r
      → Advances h s sem w from_slice app shared (awaiting v tx_hash) r.0 r.1
  unfolding on_receipt
  confirmed shared v tx_hash (none, past) r ended e = cc
  confirmed shared v tx_hash (some outcome, past) r ended e =
      Advances-some shared _ _ r e (confirms shared v tx_hash outcome past ended)

  -- Every step is one of these.
  pub advance-Advances :
      (shared : Shared h s sem) (phase : Phase) (r : Shared h s sem × Phase)
      → advance h s sem w from_slice app shared phase ≡ some r
      → Advances h s sem w from_slice app shared phase r.0 r.1
  unfolding advance
  advance-Advances shared (arrived body now) r e =
      Advances-some shared _ _ r e (parsed shared body now _ refl)
  advance-Advances shared (reserving v now) r e =
      Advances-some shared _ _ r e (reserved shared v now _ refl)
  advance-Advances shared (admitting v now) r e =
      Advances-some shared _ _ r e (admitted shared v now _ (unfold try_admit in refl))
  advance-Advances shared (burning v now) r e =
      Advances-some shared _ _ r e (consumed shared v now _ refl)
  advance-Advances shared (queueing v now) r e = locked shared v now shared.locked r refl e
  advance-Advances shared (submitting v now) r e =
      Advances-some shared _ _ r e (priced shared v now _ refl)
  advance-Advances shared (funding v now gas_price) r e =
      Advances-some shared _ _ r e (balanced shared v now gas_price _ refl)
  advance-Advances shared (counting v now gas_price) r e =
      Advances-some shared _ _ r e (counted shared v now gas_price _ refl)
  advance-Advances shared (sending v now gas_price nonce) r e =
      Advances-some shared _ _ r e (sent shared v now gas_price nonce _ refl)
  advance-Advances shared (leaving v tx_hash) r e =
      Advances-some shared _ _ r e (leaves shared v tx_hash)
  advance-Advances shared (failing v now x) r e =
      Advances-some shared _ _ r e (gives_up shared v now x)
  advance-Advances shared (reusing v now) r e = Advances-some shared _ _ r e (drops shared v now)
  advance-Advances shared (awaiting v tx_hash) r e = confirmed shared v tx_hash _ r refl e
  advance-Advances shared (refusing v now response) r e =
      Advances-some shared _ _ r e (refuses shared v now response)
  advance-Advances shared (undoing v now x) r e =
      Advances-some shared _ _ r e (undoes shared v now x)
  advance-Advances shared (unburning v x) r e = Advances-some shared _ _ r e (unburns shared v x)
  advance-Advances shared (replied response) r e = cc
