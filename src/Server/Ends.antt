-- ===== src/Server/Ends.antt =====
-- The ways in which a claim ends.
use atlas_faucet.Prelude.{
  ℕ, suc, ◌≡◌, ◌≢◌, ap, Option, some, Bytes, ok, err, arith, ◌⊎◌, inl, inr, Result-cases,
}
use atlas_faucet.Hashes.{Hashes, IsHashes}
use atlas_faucet.Secp.{Secp}
use atlas_faucet.Semaphore.{Semaphore}
use atlas_faucet.World.{History, World}
use atlas_faucet.Pow.{VerifiedChallenge, verify_solution, PowKeeper, verify_challenge}
use atlas_faucet.Util.Address.{IsAddress, parse_address-IsAddress}
use atlas_faucet.Pow.Envelope.{verify_challenge-Authentic}
use atlas_faucet.Pow.Undo.{SameFrom, Charged}
use atlas_faucet.Rpc.Laws.{sends}
use atlas_faucet.Faucet.{ReceiptOutcome, DispenseError, rpc_failed, insufficient_funds}
use atlas_faucet.Faucet.Submit.{Sent}
use atlas_faucet.Server.{
  ClaimRequest, Response, challenge_error_response, dispense_error_response, AppState, authenticate,
  Shared,
}
use atlas_faucet.Server.Claim.{dispensed_response}

module _ (h : Hashes) (s : Secp) where
  pub authenticate-ok :
      (keeper : PowKeeper) (request : ClaimRequest) (now : ℕ) (verified : VerifiedChallenge)
      → authenticate h s keeper request now ≡ ok verified
      → (verify_challenge h keeper request.challenge now ≡ ok verified)
        × (verify_solution h verified request.nonces ≡ ok tt)
  unfolding authenticate
  authenticate-ok keeper request now verified e =
      elim (Result-cases (verify_challenge h keeper request.challenge now)) [
        | inl (v, found) ↦ elim (Result-cases (verify_solution h v request.nonces)) [
          | inl (done, solved) ↦ ground arith
          | inr (x, unsolved) ↦ ground arith
        ]
        | inr (x, missing) ↦ ground arith
      ]

  pub authenticate-IsAddress :
      (lawful : IsHashes h) (keeper : PowKeeper) (request : ClaimRequest) (now : ℕ)
      (v : VerifiedChallenge)
      → authenticate h s keeper request now ≡ ok v
      → IsAddress v.address
  authenticate-IsAddress lawful keeper request now v authentic =
      (parse_address-IsAddress _ _
        (verify_challenge-Authentic h lawful keeper request.challenge now v
          (authenticate-ok keeper request now v authentic).0).addressed).0

  pub authenticate-err :
      (keeper : PowKeeper) (request : ClaimRequest) (now : ℕ) (response : Response)
      → authenticate h s keeper request now ≡ err response
      → response.status ≢ 200
  unfolding authenticate challenge_error_response
  authenticate-err keeper request now response e bad =
      elim (Result-cases (verify_challenge h keeper request.challenge now)) [
        | inl (v, found) ↦ elim (Result-cases (verify_solution h v request.nonces)) [
          | inl (done, solved) ↦ ground arith
          | inr (x, unsolved) ↦ ground arith
        ]
        | inr (x, missing) ↦ ground arith
      ]

pub dispense_error_response-status : (e : DispenseError) → (dispense_error_response e).status ≢ 200
unfolding dispense_error_response
dispense_error_response-status (rpc_failed e) bad = omega arith
dispense_error_response-status (insufficient_funds balance needed) bad = omega arith

pub sends-Sent :
    (h : Hashes) (s : Secp) (w : World) (app : AppState h s) (to : Bytes) (n : ℕ) (now : History)
    → Sent h s w app.faucet to n now
    → sends now ≡ suc n
unfolding sends
sends-Sent h s w app to n now sent = rw (sent.newest) (ap suc sent.once)

-- How a claim ends that is refused or that fails: with an error, and the keeper as before for
-- everyone who asks later. Nothing was posted, unless the answer to the transaction was no hash.
pub record Refused (h : Hashes) (s : Secp) (sem : Semaphore) (w : World) (app : AppState h s)
    (now : ℕ) (before : Shared h s sem) (r : Option Response × Shared h s sem) : Type 0 where
  pub response : Response
  pub replied : r.0 ≡ some response
  pub is_error : response.status ≢ 200
  pub undone : SameFrom app.cooldown_secs now before.keeper r.1.keeper
  pub posted :
      (sends r.1.past ≡ sends before.past)
      ⊎ ((to : Bytes) × Sent h s w app.faucet to (sends before.past) r.1.past)

-- How a claim ends that succeeds: the challenge was authentic and solved, one transaction pays
-- its address, and the keeper is charged with the address and the salt.
pub record Paid (h : Hashes) (s : Secp) (sem : Semaphore) (w : World)
    (from_slice : Bytes → Option ClaimRequest) (app : AppState h s) (body : Bytes) (now : ℕ)
    (before : Shared h s sem) (r : Option Response × Shared h s sem) : Type 0 where
  pub request : ClaimRequest
  pub verified : VerifiedChallenge
  pub tx_hash : Bytes
  pub outcome : ReceiptOutcome
  pub sent : History
  pub parsed : from_slice body ≡ some request
  pub authentic : verify_challenge h before.keeper request.challenge now ≡ ok verified
  pub solved : verify_solution h verified request.nonces ≡ ok tt
  pub replied : r.0 ≡ some (dispensed_response h s sem w from_slice app verified tx_hash outcome)
  pub charged : Charged verified app.cooldown_secs now before.keeper r.1.keeper
  pub paid : Sent h s w app.faucet verified.address (sends before.past) sent
  pub once : sends r.1.past ≡ suc (sends before.past)

-- Both ways, and what they share: the permit is back and the lock is as before.
pub record Settled (h : Hashes) (s : Secp) (sem : Semaphore) (w : World)
    (from_slice : Bytes → Option ClaimRequest) (app : AppState h s) (body : Bytes) (now : ℕ)
    (before : Shared h s sem) (r : Option Response × Shared h s sem) : Type 0 where
  pub permits : sem.available_permits r.1.permits ≡ sem.available_permits before.permits
  pub lock : r.1.locked ≡ before.locked
  pub ending : Refused h s sem w app now before r ⊎ Paid h s sem w from_slice app body now before r
