-- ===== src/Server/Finish.antt =====
-- A claim that no other claim overtakes, from its salt to its reply.
use atlas_faucet.Prelude.{
  ℕ, ◌≡◌, refl, Bool, true, false, Option, none, some, List, Bytes, Result, ok, err,
}
use atlas_faucet.Hashes.{Hashes}
use atlas_faucet.Secp.{Secp}
use atlas_faucet.Semaphore.{Semaphore}
use atlas_faucet.World.{History, World}
use atlas_faucet.Pow.{VerifiedChallenge, PowKeeper, consume_salt, release_salt, release_claim}
use atlas_faucet.Faucet.{ReceiptOutcome, DispenseError, await_receipt}
use atlas_faucet.Server.{
  ClaimRequest, Response, dispense_error_response, reused_response, AppState, Shared,
}
use atlas_faucet.Server.Claim.{dispensed_response, reply_dispensed, after_submit, after_consume}
use atlas_faucet.Server.Undisturbed.{free, At, then, Submitted, submit_alone}
use atlas_faucet.Server.Phases.{
  Phase, burning, queueing, submitting, leaving, failing, reusing, awaiting, refusing, undoing,
  unburning, replied, on_consume, on_lock, on_receipt, advance,
}

module _ (h : Hashes) (s : Secp) (sem : Semaphore) (w : World)
    (from_slice : Bytes → Option ClaimRequest) (app : AppState h s) (rest : List Phase)
    (first : Shared h s sem × List Phase) where
  -- The handler's result, where it replies.
  abbrev pub Replies : Option Response × Shared h s sem → Type 0
  Replies r =
      (response : Response)
      → r.0 ≡ some response
      → At h s sem w from_slice app rest first r.1 (replied response)

  module _ (v : VerifiedChallenge) where
    await_alone :
        (tx_hash : Bytes) (keeper : PowKeeper) (permits : sem.Permits) (past : History)
        (o : Option ReceiptOutcome × History)
        → await_receipt h s w app.faucet tx_hash past ≡ o
        → At h s sem w from_slice app rest first
            (free h s sem w from_slice app rest first keeper permits past)
            (awaiting v tx_hash)
        → Replies (
            reply_dispensed h s sem w from_slice app v tx_hash
              (free h s sem w from_slice app rest first keeper permits past)
              o)
    unfolding reply_dispensed
    await_alone tx_hash keeper permits past (none, late) e here response replied_e = cc
    await_alone tx_hash keeper permits past (some outcome, late) e here response replied_e =
        let same : dispensed_response h s sem w from_slice app v tx_hash outcome ≡ response = cc in
        then h s sem w from_slice app rest first
          (free h s sem w from_slice app rest first keeper permits past) (awaiting v tx_hash)
          (free h s sem w from_slice app rest first keeper permits late) (replied response) here
          (unfold advance on_receipt in rw (e, same) refl)

    dispense_alone :
        (now : ℕ) (keeper : PowKeeper) (permits : sem.Permits) (past : History)
        (r : Result DispenseError Bytes × History)
        → Submitted h s sem w from_slice app rest first v now keeper permits r
        → Replies (
            after_submit h s sem w from_slice app v now
              (free h s sem w from_slice app rest first keeper permits past)
              r)
    unfolding after_submit
    dispense_alone now keeper permits past (ok tx_hash, sent) left response replied_e =
        let dropped =
          then h s sem w from_slice app rest first _ (leaving v tx_hash)
            (free h s sem w from_slice app rest first keeper (sem.add_permit permits) sent)
            (awaiting v tx_hash) left (unfold advance in refl) in
        await_alone tx_hash keeper (sem.add_permit permits) sent
          (await_receipt h s w app.faucet tx_hash sent) refl dropped response replied_e
    dispense_alone now keeper permits past (err x, sent) failed response replied_e =
        let same : dispense_error_response x ≡ response = cc in
        let dropped =
          then h s sem w from_slice app rest first _ (failing v now x)
            (free h s sem w from_slice app rest first keeper (sem.add_permit permits) sent)
            (undoing v now x) failed (unfold advance in refl) in
        let undone =
          then h s sem w from_slice app rest first _ (undoing v now x)
            (free h s sem w from_slice app rest first (release_claim keeper v.address now)
              (sem.add_permit permits) sent)
            (unburning v x) dropped (unfold advance in refl) in
        rw⁻¹ same (
          then h s sem w from_slice app rest first _ (unburning v x)
            (free h s sem w from_slice app rest first
              (release_salt (release_claim keeper v.address now) v.salt) (sem.add_permit permits)
              sent)
            (replied (dispense_error_response x)) undone (unfold advance in refl))

    pub consume_alone :
        (now : ℕ) (keeper : PowKeeper) (permits : sem.Permits) (past : History)
        (r : PowKeeper × Bool)
        → consume_salt keeper v.salt v.expires_at now ≡ r
        → At h s sem w from_slice app rest first
            (free h s sem w from_slice app rest first keeper permits past)
            (burning v now)
        → Replies (
            after_consume h s sem w from_slice app v now
              (free h s sem w from_slice app rest first keeper permits past)
              r)
    unfolding after_consume
    consume_alone now keeper permits past (after, true) e here response replied_e =
        let queued =
          then h s sem w from_slice app rest first _ (burning v now)
            (free h s sem w from_slice app rest first after permits past) (queueing v now) here
            (unfold advance on_consume in rw e refl) in
        let locked =
          then h s sem w from_slice app rest first _ (queueing v now)
            (record (free h s sem w from_slice app rest first after permits past) { locked = true })
            (submitting v now) queued (unfold advance on_lock in refl) in
        dispense_alone now after permits past _
          (submit_alone h s sem w from_slice app rest first v now after permits past locked)
          response replied_e
    consume_alone now keeper permits past (after, false) e here response replied_e =
        let same : reused_response ≡ response = cc in
        let reused =
          then h s sem w from_slice app rest first _ (burning v now)
            (free h s sem w from_slice app rest first after permits past) (reusing v now) here
            (unfold advance on_consume in rw e refl) in
        let dropped =
          then h s sem w from_slice app rest first _ (reusing v now)
            (free h s sem w from_slice app rest first after (sem.add_permit permits) past)
            (refusing v now reused_response) reused (unfold advance in refl) in
        rw⁻¹ same (
          then h s sem w from_slice app rest first _ (refusing v now reused_response)
            (free h s sem w from_slice app rest first (release_claim after v.address now)
              (sem.add_permit permits) past)
            (replied reused_response) dropped (unfold advance in refl))
