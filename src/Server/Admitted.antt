-- ===== src/Server/Admitted.antt =====
-- What a run of `claim_handler` leaves, from the reservation of its address on.
use atlas_faucet.Prelude.{
  ℕ, suc, ◌<◌, ◌≡◌, refl, sym, ap, ◌∙◌, Bool, true, false, Option, none, some, Bytes, Result, ok,
  err, arith, inl, inr,
}
use atlas_faucet.Hashes.{Hashes, IsHashes}
use atlas_faucet.Secp.{Secp, IsSecp}
use atlas_faucet.Semaphore.{Semaphore, IsSemaphore}
use atlas_faucet.World.{History, World, IsClock}
use atlas_faucet.Util.Address.{IsAddress}
use atlas_faucet.Pow.{VerifiedChallenge, PowKeeper, consume_salt, try_begin_claim}
use atlas_faucet.Pow.Undo.{
  SameFrom-release_claim, SameFrom-reused, SameFrom-release_salt, Charged-consume_salt,
}
use atlas_faucet.Rpc.Laws.{sends}
use atlas_faucet.Faucet.{ReceiptOutcome, DispenseError, await_receipt, submit}
use atlas_faucet.Faucet.Submit.{IsConfigured, Outcome, submit_lem}
use atlas_faucet.Faucet.Receipt.{await_receipt_lem}
use atlas_faucet.Server.{
  ClaimRequest, dispense_error_response, busy_response, AppState, authenticate, Shared,
}
use atlas_faucet.Server.Claim.{
  dispensed_response, reply_dispensed, after_submit, after_consume, after_admission,
}
use atlas_faucet.Server.Ends.{
  authenticate-ok, authenticate-IsAddress, dispense_error_response-status, sends-Sent, Settled,
}

module _ (h : Hashes) (lawful : IsHashes h) (s : Secp) (secp : IsSecp s) (sem : Semaphore)
    (counts : IsSemaphore sem) (w : World) (clock : IsClock w)
    (from_slice : Bytes → Option ClaimRequest) (app : AppState h s)
    (configured : IsConfigured h s secp app.faucet)
    (low : (hash : Bytes) → (s.sign hash app.faucet.signer.secret_key).0 < 2) (body : Bytes)
    (now : ℕ) (before : Shared h s sem) where
  reply_dispensed_lem :
      (verified : VerifiedChallenge) (tx_hash : Bytes) (shared : Shared h s sem)
      (o : ReceiptOutcome) (r : Option ReceiptOutcome × History)
      → r.0 ≡ some o
      → reply_dispensed h s sem w from_slice app verified tx_hash shared r ≡ (
        some (dispensed_response h s sem w from_slice app verified tx_hash o),
        record shared { past = r.1 },
      )
  unfolding reply_dispensed
  reply_dispensed_lem verified tx_hash shared o (none, past) e = cc
  reply_dispensed_lem verified tx_hash shared o (some x, past) e =
      let same : x ≡ o = cc in rw same refl

  module _ (request : ClaimRequest) (parsed : from_slice body ≡ some request)
      (verified : VerifiedChallenge)
      (authentic : authenticate h s before.keeper request now ≡ ok verified)
      (won : (try_begin_claim before.keeper verified.address app.cooldown_secs now).1 ≡ ok tt) where
    abbrev begun : PowKeeper
    begun = (try_begin_claim before.keeper verified.address app.cooldown_secs now).0

    abbrev burned : PowKeeper × Bool
    burned = consume_salt begun verified.salt verified.expires_at now

    recipient : IsAddress verified.address
    recipient = authenticate-IsAddress h s lawful before.keeper request now verified authentic

    after_submit_lem :
        (permits : sem.Permits) (r : Result DispenseError Bytes × History)
        → sem.available_permits before.permits ≡ suc (sem.available_permits permits)
        → burned.1 ≡ true
        → Outcome h lawful s secp w app.faucet configured low verified.address recipient
            (sends before.past)
            r
        → Settled h s sem w from_slice app body now before (
            after_submit h s sem w from_slice app verified now
              (record before { permits = permits; keeper = burned.0 })
              r)
    unfolding after_submit
    after_submit_lem permits (ok tx_hash, sent) held fresh (inl ((e, bad), count)) = cc
    after_submit_lem permits (ok tx_hash, sent) held fresh (inr paid) =
        let waited = await_receipt_lem h s w clock app.faucet tx_hash sent in
        let shared : Shared h s sem = record before {
          permits = sem.add_permit permits;
          keeper = burned.0;
        } in
        rw
          (reply_dispensed_lem verified tx_hash shared waited.outcome
            (await_receipt h s w app.faucet tx_hash sent) waited.ended)
          (record {
            permits = counts.available-add permits ∙ sym held;
            lock = refl;
            ending = inr (record {
              request = request;
              verified = verified;
              tx_hash = tx_hash;
              outcome = waited.outcome;
              sent = sent;
              parsed = parsed;
              authentic = (authenticate-ok h s before.keeper request now verified authentic).0;
              solved = (authenticate-ok h s before.keeper request now verified authentic).1;
              replied = refl;
              charged = Charged-consume_salt verified app.cooldown_secs now before.keeper won fresh;
              paid = paid;
              once =
                  waited.posted
                  ∙ sends-Sent h s w app verified.address (sends before.past) sent paid;
            });
          })
    after_submit_lem permits (err e, sent) held fresh posted = record {
      permits = counts.available-add permits ∙ sym held;
      lock = refl;
      ending = inl (record {
        response = dispense_error_response e;
        replied = refl;
        is_error = dispense_error_response-status e;
        undone = SameFrom-release_salt verified app.cooldown_secs now before.keeper won fresh;
        posted = elim posted [ inl x ↦ inl x.1 | inr x ↦ inr (verified.address, x) ];
      });
    }

    after_consume_lem :
        (permits : sem.Permits) (r : PowKeeper × Bool)
        → sem.available_permits before.permits ≡ suc (sem.available_permits permits)
        → burned ≡ r
        → Settled h s sem w from_slice app body now before (
            after_consume h s sem w from_slice app verified now
              (record before { permits = permits; keeper = begun })
              r)
    unfolding after_consume
    after_consume_lem permits (keeper, true) held e =
        let fields : (burned.0 ≡ keeper) × (burned.1 ≡ true) = (ap (λ x. x.0) e, ap (λ x. x.1) e) in
        rw⁻¹ fields.0 (
          after_submit_lem permits (submit h s w app.faucet verified.address before.past) held
            fields.1
            (submit_lem h lawful s secp w app.faucet configured low verified.address recipient
              before.past))
    after_consume_lem permits (keeper, false) held e =
        let fields : (burned.0 ≡ keeper) × (burned.1 ≡ false) =
          (ap (λ x. x.0) e, ap (λ x. x.1) e) in
        rw⁻¹ fields.0 (record {
          permits = counts.available-add permits ∙ sym held;
          lock = refl;
          ending = inl (record {
            response = _;
            replied = refl;
            is_error = λ bad. omega arith;
            undone = SameFrom-reused verified app.cooldown_secs now before.keeper won fields.1;
            posted = inl refl;
          });
        })

    pub after_admission_lem :
        (r : Option sem.Permits)
        → sem.try_acquire before.permits ≡ r
        → Settled h s sem w from_slice app body now before (
            after_admission h s sem w from_slice app verified now
              (record before { keeper = begun })
              r)
    unfolding after_admission busy_response
    after_admission_lem (some permits) e =
        after_consume_lem permits burned (counts.acquire-some before.permits permits e) refl
    after_admission_lem none e = record {
      permits = refl;
      lock = refl;
      ending = inl (record {
        response = _;
        replied = refl;
        is_error = λ bad. omega arith;
        undone = SameFrom-release_claim verified app.cooldown_secs now before.keeper won;
        posted = inl refl;
      });
    }
