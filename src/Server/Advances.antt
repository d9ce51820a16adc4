-- ===== src/Server/Advances.antt =====
-- The steps of a claim, one by one: what `advance` does, as a relation with a constructor for each
-- outcome of each phase.
use atlas_faucet.Prelude.{ltb, ℕ, ◌≡◌, ◌≢◌, true, false, Option, none, some, Bytes, ok, err}
use atlas_faucet.Hashes.{Hashes}
use atlas_faucet.Secp.{Secp}
use atlas_faucet.Semaphore.{Semaphore}
use atlas_faucet.World.{History, World}
use atlas_faucet.Pow.{VerifiedChallenge, consume_salt, release_salt, try_begin_claim, release_claim}
use atlas_faucet.Rpc
use atlas_faucet.Rpc.{RpcError}
use atlas_faucet.Faucet.{
  ReceiptOutcome, DispenseError, rpc_failed, insufficient_funds, address_hex, needed_wei,
  choose_gas_price, broadcast, await_receipt,
}
use atlas_faucet.Server.{
  ClaimRequest, Response, busy_response, cooldown_response, dispense_error_response,
  reused_response, AppState, authenticate, Shared,
}
use atlas_faucet.Server.Claim.{dispensed_response}
use atlas_faucet.Server.Phases.{
  Phase, arrived, reserving, admitting, burning, queueing, submitting, funding, counting, sending,
  leaving, failing, reusing, awaiting, refusing, undoing, unburning, replied,
}

module _ (h : Hashes) (s : Secp) (sem : Semaphore) (w : World)
    (from_slice : Bytes → Option ClaimRequest) (app : AppState h s) where
  pub data Advances : Shared h s sem → Phase → Shared h s sem → Phase → Type 0 where
    rejects :
        (shared : Shared h s sem) (body : Bytes) (now : ℕ) (response : Response)
        → response.status ≢ 200
        → Advances shared (arrived body now) shared (replied response)
    accepts :
        (shared : Shared h s sem) (body : Bytes) (now : ℕ) (request : ClaimRequest)
        (v : VerifiedChallenge)
        → from_slice body ≡ some request
        → authenticate h s shared.keeper request now ≡ ok v
        → Advances shared (arrived body now) shared (reserving v now)
    reserves :
        (shared : Shared h s sem) (v : VerifiedChallenge) (now : ℕ)
        → (try_begin_claim shared.keeper v.address app.cooldown_secs now).1 ≡ ok tt
        → Advances shared
            (reserving v now)
            (record shared {
              keeper = (try_begin_claim shared.keeper v.address app.cooldown_secs now).0;
            })
            (admitting v now)
    cools :
        (shared : Shared h s sem) (v : VerifiedChallenge) (now remaining : ℕ)
        → (try_begin_claim shared.keeper v.address app.cooldown_secs now).1 ≡ err remaining
        → Advances shared
            (reserving v now)
            (record shared {
              keeper = (try_begin_claim shared.keeper v.address app.cooldown_secs now).0;
            })
            (replied (cooldown_response remaining))
    admits :
        (shared : Shared h s sem) (v : VerifiedChallenge) (now : ℕ) (permits : sem.Permits)
        → sem.try_acquire shared.permits ≡ some permits
        → Advances shared (admitting v now) (record shared { permits = permits }) (burning v now)
    crowds :
        (shared : Shared h s sem) (v : VerifiedChallenge) (now : ℕ)
        → sem.try_acquire shared.permits ≡ none
        → Advances shared
            (admitting v now)
            shared
            (refusing v now (busy_response app.faucet.capacity))
    burns :
        (shared : Shared h s sem) (v : VerifiedChallenge) (now : ℕ)
        → (consume_salt shared.keeper v.salt v.expires_at now).1 ≡ true
        → Advances shared
            (burning v now)
            (record shared { keeper = (consume_salt shared.keeper v.salt v.expires_at now).0 })
            (queueing v now)
    reuses :
        (shared : Shared h s sem) (v : VerifiedChallenge) (now : ℕ)
        → (consume_salt shared.keeper v.salt v.expires_at now).1 ≡ false
        → Advances shared
            (burning v now)
            (record shared { keeper = (consume_salt shared.keeper v.salt v.expires_at now).0 })
            (reusing v now)
    locks :
        (shared : Shared h s sem) (v : VerifiedChallenge) (now : ℕ)
        → shared.locked ≡ false
        → Advances shared (queueing v now) (record shared { locked = true }) (submitting v now)
    prices :
        (shared : Shared h s sem) (v : VerifiedChallenge) (now gas_price : ℕ)
        → (choose_gas_price h s w app.faucet.gas_price_override shared.past).0 ≡ ok gas_price
        → Advances shared
            (submitting v now)
            (record shared {
              past = (choose_gas_price h s w app.faucet.gas_price_override shared.past).1;
            })
            (funding v now gas_price)
    unpriced :
        (shared : Shared h s sem) (v : VerifiedChallenge) (now : ℕ) (e : DispenseError)
        → (choose_gas_price h s w app.faucet.gas_price_override shared.past).0 ≡ err e
        → Advances shared
            (submitting v now)
            (record shared {
              locked = false;
              past = (choose_gas_price h s w app.faucet.gas_price_override shared.past).1;
            })
            (failing v now e)
    funds :
        (shared : Shared h s sem) (v : VerifiedChallenge) (now gas_price balance : ℕ)
        → (Rpc.balance w (address_hex h s app.faucet.signer) shared.past).0 ≡ ok balance
        → ltb balance (needed_wei h s app.faucet gas_price) ≡ false
        → Advances shared
            (funding v now gas_price)
            (record shared {
              past = (Rpc.balance w (address_hex h s app.faucet.signer) shared.past).1;
            })
            (counting v now gas_price)
    underfunded :
        (shared : Shared h s sem) (v : VerifiedChallenge) (now gas_price balance : ℕ)
        → (Rpc.balance w (address_hex h s app.faucet.signer) shared.past).0 ≡ ok balance
        → ltb balance (needed_wei h s app.faucet gas_price) ≡ true
        → Advances shared
            (funding v now gas_price)
            (record shared {
              locked = false;
              past = (Rpc.balance w (address_hex h s app.faucet.signer) shared.past).1;
            })
            (failing v now (insufficient_funds balance (needed_wei h s app.faucet gas_price)))
    unfunded :
        (shared : Shared h s sem) (v : VerifiedChallenge) (now gas_price : ℕ) (e : RpcError)
        → (Rpc.balance w (address_hex h s app.faucet.signer) shared.past).0 ≡ err e
        → Advances shared
            (funding v now gas_price)
            (record shared {
              locked = false;
              past = (Rpc.balance w (address_hex h s app.faucet.signer) shared.past).1;
            })
            (failing v now (rpc_failed e))
    counts :
        (shared : Shared h s sem) (v : VerifiedChallenge) (now gas_price nonce : ℕ)
        → (Rpc.transaction_count w (address_hex h s app.faucet.signer) shared.past).0 ≡ ok nonce
        → Advances shared
            (counting v now gas_price)
            (record shared {
              past = (Rpc.transaction_count w (address_hex h s app.faucet.signer) shared.past).1;
            })
            (sending v now gas_price nonce)
    uncounted :
        (shared : Shared h s sem) (v : VerifiedChallenge) (now gas_price : ℕ) (e : RpcError)
        → (Rpc.transaction_count w (address_hex h s app.faucet.signer) shared.past).0 ≡ err e
        → Advances shared
            (counting v now gas_price)
            (record shared {
              locked = false;
              past = (Rpc.transaction_count w (address_hex h s app.faucet.signer) shared.past).1;
            })
            (failing v now (rpc_failed e))
    pays :
        (shared : Shared h s sem) (v : VerifiedChallenge) (now gas_price nonce : ℕ)
        (tx_hash : Bytes)
        → (broadcast h s w app.faucet v.address gas_price nonce shared.past).0 ≡ ok tx_hash
        → Advances shared
            (sending v now gas_price nonce)
            (record shared {
              locked = false;
              past = (broadcast h s w app.faucet v.address gas_price nonce shared.past).1;
            })
            (leaving v tx_hash)
    fails :
        (shared : Shared h s sem) (v : VerifiedChallenge) (now gas_price nonce : ℕ)
        (e : DispenseError)
        → (broadcast h s w app.faucet v.address gas_price nonce shared.past).0 ≡ err e
        → Advances shared
            (sending v now gas_price nonce)
            (record shared {
              locked = false;
              past = (broadcast h s w app.faucet v.address gas_price nonce shared.past).1;
            })
            (failing v now e)
    leaves :
        (shared : Shared h s sem) (v : VerifiedChallenge) (tx_hash : Bytes)
        → Advances shared
            (leaving v tx_hash)
            (record shared { permits = sem.add_permit shared.permits })
            (awaiting v tx_hash)
    gives_up :
        (shared : Shared h s sem) (v : VerifiedChallenge) (now : ℕ) (e : DispenseError)
        → Advances shared
            (failing v now e)
            (record shared { permits = sem.add_permit shared.permits })
            (undoing v now e)
    drops :
        (shared : Shared h s sem) (v : VerifiedChallenge) (now : ℕ)
        → Advances shared
            (reusing v now)
            (record shared { permits = sem.add_permit shared.permits })
            (refusing v now reused_response)
    confirms :
        (shared : Shared h s sem) (v : VerifiedChallenge) (tx_hash : Bytes)
        (outcome : ReceiptOutcome) (past : History)
        → await_receipt h s w app.faucet tx_hash shared.past ≡ (some outcome, past)
        → Advances shared
            (awaiting v tx_hash)
            (record shared { past = past })
            (replied (dispensed_response h s sem w from_slice app v tx_hash outcome))
    refuses :
        (shared : Shared h s sem) (v : VerifiedChallenge) (now : ℕ) (response : Response)
        → Advances shared
            (refusing v now response)
            (record shared { keeper = release_claim shared.keeper v.address now })
            (replied response)
    undoes :
        (shared : Shared h s sem) (v : VerifiedChallenge) (now : ℕ) (e : DispenseError)
        → Advances shared
            (undoing v now e)
            (record shared { keeper = release_claim shared.keeper v.address now })
            (unburning v e)
    unburns :
        (shared : Shared h s sem) (v : VerifiedChallenge) (e : DispenseError)
        → Advances shared
            (unburning v e)
            (record shared { keeper = release_salt shared.keeper v.salt })
            (replied (dispense_error_response e))
