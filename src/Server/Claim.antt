-- ===== src/Server/Claim.antt =====
-- `claim_handler` and `dispense`, run without other claims in between: the handler's six steps,
-- each from the state that the one before leaves. No reply stands for a receipt loop that does
-- not end.
use atlas_faucet.Prelude.{ℕ, Bool, true, false, Option, none, some, Bytes, codes, Result, ok, err}
use atlas_faucet.Hashes.{Hashes}
use atlas_faucet.Secp.{Secp}
use atlas_faucet.Semaphore.{Semaphore}
use atlas_faucet.World.{History, World}
use atlas_faucet.Util.{checksum_address}
use atlas_faucet.Pow.{
  VerifiedChallenge, PowKeeper, consume_salt, release_salt, try_begin_claim, release_claim,
}
use atlas_faucet.Faucet.{
  ReceiptOutcome, DispenseError, await_receipt, submit, receipt_of, try_admit,
}
use atlas_faucet.Server.{
  ClaimRequest, invalid_body, Response, dispensed, error_response, busy_response, cooldown_response,
  dispense_error_response, reused_response, AppState, authenticate, Shared,
}

module _ (h : Hashes) (s : Secp) (sem : Semaphore) (w : World)
    (from_slice : Bytes → Option ClaimRequest) (app : AppState h s) where
  unfoldable pub dispensed_response : VerifiedChallenge → Bytes → ReceiptOutcome → Response
  dispensed_response verified tx_hash outcome = record {
    status = 200;
    retry_after = none;
    body =
        dispensed (checksum_address h.keccak256 verified.address)
          (receipt_of h s app.faucet tx_hash outcome);
  }

  -- After the wait for the receipt.
  unfoldable pub reply_dispensed :
      VerifiedChallenge
      → Bytes
      → Shared h s sem
      → Option ReceiptOutcome × History
      → Option Response × Shared h s sem
  unfolding dispensed_response
  reply_dispensed verified tx_hash shared (none, past) = (none, record shared { past = past })
  reply_dispensed verified tx_hash shared (some outcome, past) =
      (some (dispensed_response verified tx_hash outcome), record shared { past = past })

  -- After `submit`: the permit is dropped, before the wait for the receipt on success, and by the
  -- return of the error.
  unfoldable pub after_submit :
      VerifiedChallenge
      → ℕ
      → Shared h s sem
      → Result DispenseError Bytes × History
      → Option Response × Shared h s sem
  unfolding reply_dispensed
  after_submit verified now shared (ok tx_hash, sent) =
      reply_dispensed verified tx_hash (record shared { permits = sem.add_permit shared.permits })
        (await_receipt h s w app.faucet tx_hash sent)
  after_submit verified now shared (err e, sent) = (
    some (dispense_error_response e),
    record shared {
      keeper = release_salt (release_claim shared.keeper verified.address now) verified.salt;
      permits = sem.add_permit shared.permits;
      past = sent;
    },
  )

  -- Step 6, and step 5's refusal.
  unfoldable pub after_consume :
      VerifiedChallenge → ℕ → Shared h s sem → PowKeeper × Bool → Option Response × Shared h s sem
  unfolding after_submit
  after_consume verified now shared (keeper, true) =
      after_submit verified now (record shared { keeper = keeper })
        (submit h s w app.faucet verified.address shared.past)
  after_consume verified now shared (keeper, false) = (
    some reused_response,
    record shared {
      keeper = release_claim keeper verified.address now;
      permits = sem.add_permit shared.permits;
    },
  )

  -- Step 5, and step 4's refusal.
  unfoldable pub after_admission :
      VerifiedChallenge → ℕ → Shared h s sem → Option sem.Permits → Option Response × Shared h s sem
  unfolding after_consume
  after_admission verified now shared (some permits) =
      after_consume verified now (record shared { permits = permits })
        (consume_salt shared.keeper verified.salt verified.expires_at now)
  after_admission verified now shared none = (
    some (busy_response app.faucet.capacity),
    record shared { keeper = release_claim shared.keeper verified.address now },
  )

  -- Step 4, and step 3's refusal.
  unfoldable pub after_reservation :
      VerifiedChallenge
      → ℕ
      → Shared h s sem
      → PowKeeper × Result ℕ (Unit {0})
      → Option Response × Shared h s sem
  unfolding after_admission
  after_reservation verified now shared (keeper, ok done) =
      after_admission verified now (record shared { keeper = keeper })
        (try_admit h s sem shared.permits)
  after_reservation verified now shared (keeper, err remaining) =
      (some (cooldown_response remaining), record shared { keeper = keeper })

  -- Step 3, and the refusals of steps 1 and 2.
  unfoldable pub after_authentication :
      ℕ → Shared h s sem → Result Response VerifiedChallenge → Option Response × Shared h s sem
  unfolding after_reservation
  after_authentication now shared (ok verified) =
      after_reservation verified now shared
        (try_begin_claim shared.keeper verified.address app.cooldown_secs now)
  after_authentication now shared (err response) = (some response, shared)

  unfoldable pub after_parsing :
      ℕ → Shared h s sem → Option ClaimRequest → Option Response × Shared h s sem
  unfolding after_authentication
  after_parsing now shared none =
      (some (error_response 400 (codes "BAD_REQUEST") invalid_body), shared)
  after_parsing now shared (some request) =
      after_authentication now shared (authenticate h s shared.keeper request now)

  unfoldable pub claim_handler : Bytes → ℕ → Shared h s sem → Option Response × Shared h s sem
  unfolding after_parsing
  claim_handler body now shared = after_parsing now shared (from_slice body)
