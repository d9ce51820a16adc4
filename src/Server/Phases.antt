-- ===== src/Server/Phases.antt =====
-- Claims that interleave. A claim is a task that other claims may overtake between any two of its
-- accesses to what they share; each access is one step. A step that is not possible, as that of a
-- claim that waits for the lock, is `none`.
use atlas_faucet.Prelude.{
  ℕ, Bool, true, false, Option, none, some, List, ◌∷◌, ◌++◌, ◌≡◌, Bytes, codes, Result, ok, err,
  ltb,
}
use atlas_faucet.Hashes.{Hashes}
use atlas_faucet.Secp.{Secp}
use atlas_faucet.Semaphore.{Semaphore}
use atlas_faucet.World.{History, World}
use atlas_faucet.Pow.{VerifiedChallenge, consume_salt, release_salt, try_begin_claim, release_claim}
use atlas_faucet.Rpc
use atlas_faucet.Rpc.{RpcError}
use atlas_faucet.Faucet.{
  ReceiptOutcome, DispenseError, rpc_failed, insufficient_funds, address_hex, needed_wei,
  choose_gas_price, broadcast, await_receipt, try_admit,
}
use atlas_faucet.Server.{
  ClaimRequest, invalid_body, Response, error_response, busy_response, cooldown_response,
  dispense_error_response, reused_response, AppState, authenticate, Shared,
}
use atlas_faucet.Server.Claim.{dispensed_response}

-- Where a claim stands, with what it holds in its variables. The number is the time that it read.
pub data Phase : Type 0 where
  -- The body is to be parsed and authenticated.
  arrived : Bytes → ℕ → Phase
  -- Before `try_begin_claim`, `try_admit` and `consume_salt`.
  reserving admitting burning : VerifiedChallenge → ℕ → Phase
  -- Before the lock, and with the lock in `submit`: before the gas price, before the balance,
  -- before the count of transactions, and before the transaction is sent. The numbers after the
  -- time are the gas price and the nonce.
  queueing submitting : VerifiedChallenge → ℕ → Phase
  funding counting : VerifiedChallenge → ℕ → ℕ → Phase
  sending : VerifiedChallenge → ℕ → ℕ → ℕ → Phase
  -- `submit` is over and the lock is free: before the drop of the permit.
  leaving : VerifiedChallenge → Bytes → Phase
  failing : VerifiedChallenge → ℕ → DispenseError → Phase
  reusing : VerifiedChallenge → ℕ → Phase
  -- The wait for the receipt.
  awaiting : VerifiedChallenge → Bytes → Phase
  -- Before `release_claim`, and before `release_salt`.
  refusing : VerifiedChallenge → ℕ → Response → Phase
  undoing : VerifiedChallenge → ℕ → DispenseError → Phase
  unburning : VerifiedChallenge → DispenseError → Phase
  replied : Response → Phase

-- Where a claim goes on the outcome of its step.
unfoldable pub on_authentication : ℕ → Result Response VerifiedChallenge → Phase
on_authentication now (ok verified) = reserving verified now
on_authentication now (err response) = replied response

unfoldable pub on_reservation : VerifiedChallenge → ℕ → Result ℕ (Unit {0}) → Phase
on_reservation verified now (ok done) = admitting verified now
on_reservation verified now (err remaining) = replied (cooldown_response remaining)

unfoldable pub on_consume : VerifiedChallenge → ℕ → Bool → Phase
on_consume verified now true = queueing verified now
on_consume verified now false = reusing verified now

module _ (h : Hashes) (s : Secp) (sem : Semaphore) (w : World)
    (from_slice : Bytes → Option ClaimRequest) (app : AppState h s) where
  unfoldable pub on_parsing : Shared h s sem → ℕ → Option ClaimRequest → Phase
  unfolding on_authentication
  on_parsing shared now none = replied (error_response 400 (codes "BAD_REQUEST") invalid_body)
  on_parsing shared now (some request) =
      on_authentication now (authenticate h s shared.keeper request now)

  unfoldable pub on_admission :
      VerifiedChallenge → ℕ → Shared h s sem → Option sem.Permits → Shared h s sem × Phase
  on_admission verified now shared (some permits) =
      (record shared { permits = permits }, burning verified now)
  on_admission verified now shared none =
      (shared, refusing verified now (busy_response app.faucet.capacity))

  -- The lock is taken when it is free.
  unfoldable pub on_lock :
      VerifiedChallenge → ℕ → Shared h s sem → Bool → Option (Shared h s sem × Phase)
  on_lock verified now shared true = none
  on_lock verified now shared false =
      some (record shared { locked = true }, submitting verified now)

  -- `submit` goes on from each reply, or ends with an error and gives the lock back.
  unfoldable pub on_gas_price :
      VerifiedChallenge
      → ℕ
      → Shared h s sem
      → Result DispenseError ℕ × History
      → Shared h s sem × Phase
  on_gas_price verified now shared (ok gas_price, past) =
      (record shared { past = past }, funding verified now gas_price)
  on_gas_price verified now shared (err e, past) =
      (record shared { locked = false; past = past }, failing verified now e)

  unfoldable pub on_funds :
      VerifiedChallenge → ℕ → ℕ → ℕ → Shared h s sem → History → Bool → Shared h s sem × Phase
  on_funds verified now gas_price balance shared past true = (
    record shared { locked = false; past = past },
    failing verified now (insufficient_funds balance (needed_wei h s app.faucet gas_price)),
  )
  on_funds verified now gas_price balance shared past false =
      (record shared { past = past }, counting verified now gas_price)

  unfoldable pub on_balance :
      VerifiedChallenge
      → ℕ
      → ℕ
      → Shared h s sem
      → Result RpcError ℕ × History
      → Shared h s sem × Phase
  unfolding on_funds
  on_balance verified now gas_price shared (ok balance, past) =
      on_funds verified now gas_price balance shared past
        (ltb balance (needed_wei h s app.faucet gas_price))
  on_balance verified now gas_price shared (err e, past) =
      (record shared { locked = false; past = past }, failing verified now (rpc_failed e))

  unfoldable pub on_count :
      VerifiedChallenge
      → ℕ
      → ℕ
      → Shared h s sem
      → Result RpcError ℕ × History
      → Shared h s sem × Phase
  on_count verified now gas_price shared (ok nonce, past) =
      (record shared { past = past }, sending verified now gas_price nonce)
  on_count verified now gas_price shared (err e, past) =
      (record shared { locked = false; past = past }, failing verified now (rpc_failed e))

  unfoldable pub on_sent :
      VerifiedChallenge
      → ℕ
      → Shared h s sem
      → Result DispenseError Bytes × History
      → Shared h s sem × Phase
  on_sent verified now shared (ok tx_hash, past) =
      (record shared { locked = false; past = past }, leaving verified tx_hash)
  on_sent verified now shared (err e, past) =
      (record shared { locked = false; past = past }, failing verified now e)

  unfoldable pub on_receipt :
      VerifiedChallenge
      → Bytes
      → Shared h s sem
      → Option ReceiptOutcome × History
      → Option (Shared h s sem × Phase)
  on_receipt verified tx_hash shared (none, past) = none
  on_receipt verified tx_hash shared (some outcome, past) = some (
    record shared { past = past },
    replied (dispensed_response h s sem w from_slice app verified tx_hash outcome),
  )

  -- The next step of a claim.
  unfoldable pub advance : Shared h s sem → Phase → Option (Shared h s sem × Phase)
  unfolding on_parsing on_reservation on_admission on_consume on_lock on_gas_price on_balance
      on_count on_sent on_receipt
  advance shared (arrived body now) = some (shared, on_parsing shared now (from_slice body))
  advance shared (reserving verified now) =
      let (keeper, began) = try_begin_claim shared.keeper verified.address app.cooldown_secs now in
      some (record shared { keeper = keeper }, on_reservation verified now began)
  advance shared (admitting verified now) =
      some (on_admission verified now shared (try_admit h s sem shared.permits))
  advance shared (burning verified now) =
      let (keeper, fresh) = consume_salt shared.keeper verified.salt verified.expires_at now in
      some (record shared { keeper = keeper }, on_consume verified now fresh)
  advance shared (queueing verified now) = on_lock verified now shared shared.locked
  advance shared (submitting verified now) = some (
      on_gas_price verified now shared
        (choose_gas_price h s w app.faucet.gas_price_override shared.past))
  advance shared (funding verified now gas_price) = some (
      on_balance verified now gas_price shared
        (Rpc.balance w (address_hex h s app.faucet.signer) shared.past))
  advance shared (counting verified now gas_price) = some (
      on_count verified now gas_price shared
        (Rpc.transaction_count w (address_hex h s app.faucet.signer) shared.past))
  advance shared (sending verified now gas_price nonce) = some (
      on_sent verified now shared
        (broadcast h s w app.faucet verified.address gas_price nonce shared.past))
  advance shared (leaving verified tx_hash) =
      some (record shared { permits = sem.add_permit shared.permits }, awaiting verified tx_hash)
  advance shared (failing verified now e) =
      some (record shared { permits = sem.add_permit shared.permits }, undoing verified now e)
  advance shared (reusing verified now) = some (
    record shared { permits = sem.add_permit shared.permits },
    refusing verified now reused_response,
  )
  advance shared (awaiting verified tx_hash) =
      on_receipt verified tx_hash shared (await_receipt h s w app.faucet tx_hash shared.past)
  advance shared (refusing verified now response) = some (
    record shared { keeper = release_claim shared.keeper verified.address now },
    replied response,
  )
  advance shared (undoing verified now e) = some (
    record shared { keeper = release_claim shared.keeper verified.address now },
    unburning verified e,
  )
  advance shared (unburning verified e) = some (
    record shared { keeper = release_salt shared.keeper verified.salt },
    replied (dispense_error_response e),
  )
  advance shared (replied response) = none

  -- Any claim may step, and new claims arrive.
  abbrev pub System : Type 0
  System = Shared h s sem × List Phase

  pub data Step : System → System → Type 0 where
    arrives :
        (shared : Shared h s sem) (claims : List Phase) (body : Bytes) (now : ℕ)
        → Step (shared, claims) (shared, arrived body now ∷ claims)
    steps :
        (shared : Shared h s sem) (front : List Phase) (phase : Phase) (rest : List Phase)
        (later : Shared h s sem) (next : Phase)
        → advance shared phase ≡ some (later, next)
        → Step (shared, front ++ (phase ∷ rest)) (later, front ++ (next ∷ rest))

  pub data Reaches : System → System → Type 0 where
    stays : (system : System) → Reaches system system
    goes :
        (first middle last : System) → Reaches first middle → Step middle last → Reaches first last
