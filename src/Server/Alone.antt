-- ===== src/Server/Alone.antt =====
-- A claim that no other claim overtakes: its steps are a run of `claim_handler`.
use atlas_faucet.Prelude.{
  ℕ, ◌≡◌, refl, sym, ap, subst, Bool, false, Option, none, some, List, ◌∷◌, Bytes, codes, Result,
  ok, err,
}
use atlas_faucet.Hashes.{Hashes}
use atlas_faucet.Secp.{Secp}
use atlas_faucet.Semaphore.{Semaphore}
use atlas_faucet.World.{History, World}
use atlas_faucet.Pow.{VerifiedChallenge, PowKeeper, consume_salt, try_begin_claim, release_claim}
use atlas_faucet.Faucet.{try_admit}
use atlas_faucet.Server.{
  ClaimRequest, invalid_body, Response, error_response, busy_response, cooldown_response, AppState,
  authenticate, Shared,
}
use atlas_faucet.Server.Claim.{
  after_admission, after_reservation, after_authentication, after_parsing, claim_handler,
}
use atlas_faucet.Server.Undisturbed.{free, At, then}
use atlas_faucet.Server.Finish.{Replies, consume_alone}
use atlas_faucet.Server.Phases.{
  Phase, arrived, reserving, admitting, burning, refusing, replied, on_authentication,
  on_reservation, on_parsing, on_admission, advance, Reaches, arrives, stays, goes,
}

module _ (h : Hashes) (s : Secp) (sem : Semaphore) (w : World)
    (from_slice : Bytes → Option ClaimRequest) (app : AppState h s) (rest : List Phase)
    (first : Shared h s sem × List Phase) where
  module _ (v : VerifiedChallenge) where
    admission_alone :
        (now : ℕ) (keeper : PowKeeper) (permits : sem.Permits) (past : History)
        (r : Option sem.Permits)
        → try_admit h s sem permits ≡ r
        → At h s sem w from_slice app rest first
            (free h s sem w from_slice app rest first keeper permits past)
            (admitting v now)
        → Replies h s sem w from_slice app rest first (
            after_admission h s sem w from_slice app v now
              (free h s sem w from_slice app rest first keeper permits past)
              r)
    unfolding after_admission
    admission_alone now keeper permits past (some taken) e here response replied_e =
        let admitted =
          then h s sem w from_slice app rest first _ (admitting v now)
            (free h s sem w from_slice app rest first keeper taken past) (burning v now) here
            (unfold advance on_admission in rw e refl) in
        consume_alone h s sem w from_slice app rest first v now keeper taken past
          (consume_salt keeper v.salt v.expires_at now) refl admitted response replied_e
    admission_alone now keeper permits past none e here response replied_e =
        let busy = busy_response app.faucet.capacity in
        let same : busy ≡ response = cc in
        let refused =
          then h s sem w from_slice app rest first _ (admitting v now)
            (free h s sem w from_slice app rest first keeper permits past) (refusing v now busy)
            here (unfold advance on_admission in rw e refl) in
        rw⁻¹ same (
          then h s sem w from_slice app rest first _ (refusing v now busy)
            (free h s sem w from_slice app rest first (release_claim keeper v.address now) permits
              past)
            (replied busy) refused (unfold advance in refl))

    reservation_alone :
        (now : ℕ) (keeper : PowKeeper) (permits : sem.Permits) (past : History)
        (r : PowKeeper × Result ℕ (Unit {0}))
        → try_begin_claim keeper v.address app.cooldown_secs now ≡ r
        → At h s sem w from_slice app rest first
            (free h s sem w from_slice app rest first keeper permits past)
            (reserving v now)
        → Replies h s sem w from_slice app rest first (
            after_reservation h s sem w from_slice app v now
              (free h s sem w from_slice app rest first keeper permits past)
              r)
    unfolding after_reservation
    reservation_alone now keeper permits past (after, ok done) e here response replied_e =
        let reserved =
          then h s sem w from_slice app rest first _ (reserving v now)
            (free h s sem w from_slice app rest first after permits past) (admitting v now) here
            (unfold advance on_reservation in rw e refl) in
        admission_alone now after permits past (try_admit h s sem permits) refl reserved response
          replied_e
    reservation_alone now keeper permits past (after, err remaining) e here response replied_e =
        let same : cooldown_response remaining ≡ response = cc in
        rw⁻¹ same (
          then h s sem w from_slice app rest first _ (reserving v now)
            (free h s sem w from_slice app rest first after permits past)
            (replied (cooldown_response remaining)) here
            (unfold advance on_reservation in rw e refl))

  authentication_alone :
      (body : Bytes) (now : ℕ) (keeper : PowKeeper) (permits : sem.Permits) (past : History)
      (r : Result Response VerifiedChallenge)
      → on_parsing h s sem w from_slice app
          (free h s sem w from_slice app rest first keeper permits past)
          now
          (from_slice body)
        ≡ on_authentication now r
      → At h s sem w from_slice app rest first
          (free h s sem w from_slice app rest first keeper permits past)
          (arrived body now)
      → Replies h s sem w from_slice app rest first (
          after_authentication h s sem w from_slice app now
            (free h s sem w from_slice app rest first keeper permits past)
            r)
  unfolding after_authentication on_authentication
  authentication_alone body now keeper permits past (ok verified) e here response replied_e =
      let read =
        then h s sem w from_slice app rest first _ (arrived body now)
          (free h s sem w from_slice app rest first keeper permits past) (reserving verified now)
          here (unfold advance in rw e refl) in
      reservation_alone verified now keeper permits past
        (try_begin_claim keeper verified.address app.cooldown_secs now) refl read response replied_e
  authentication_alone body now keeper permits past (err x) e here response replied_e =
      let same : x ≡ response = cc in
      rw⁻¹ same (
        then h s sem w from_slice app rest first _ (arrived body now)
          (free h s sem w from_slice app rest first keeper permits past) (replied x) here
          (unfold advance in rw e refl))

  parsing_alone :
      (body : Bytes) (now : ℕ) (keeper : PowKeeper) (permits : sem.Permits) (past : History)
      (r : Option ClaimRequest)
      → from_slice body ≡ r
      → At h s sem w from_slice app rest first
          (free h s sem w from_slice app rest first keeper permits past)
          (arrived body now)
      → Replies h s sem w from_slice app rest first (
          after_parsing h s sem w from_slice app now
            (free h s sem w from_slice app rest first keeper permits past)
            r)
  unfolding after_parsing
  parsing_alone body now keeper permits past (some request) e here response replied_e =
      authentication_alone body now keeper permits past (authenticate h s keeper request now)
        (unfold on_parsing in rw e refl) here response replied_e
  parsing_alone body now keeper permits past none e here response replied_e =
      let bad = error_response 400 (codes "BAD_REQUEST") invalid_body in
      let same : bad ≡ response = cc in
      rw⁻¹ same (
        then h s sem w from_slice app rest first _ (arrived body now)
          (free h s sem w from_slice app rest first keeper permits past) (replied bad) here
          (unfold advance on_parsing in rw e refl))

claim_alone :
    (h : Hashes) (s : Secp) (sem : Semaphore) (w : World) (from_slice : Bytes → Option ClaimRequest)
    (app : AppState h s) (rest : List Phase) (body : Bytes) (now : ℕ) (keeper : PowKeeper)
    (permits : sem.Permits) (past : History) (later : Shared h s sem) (response : Response)
    → claim_handler h s sem w from_slice app body now
        (record { keeper = keeper; permits = permits; locked = false; past = past })
      ≡ (some response, later)
    → Reaches h s sem w from_slice app
        (record { keeper = keeper; permits = permits; locked = false; past = past }, rest)
        (later, replied response ∷ rest)
unfolding claim_handler
claim_alone h s sem w from_slice app rest body now keeper permits past later response e =
    let shared : Shared h s sem = record {
      keeper = keeper;
      permits = permits;
      locked = false;
      past = past;
    } in
    let start : Reaches h s sem w from_slice app (shared, rest) (shared, arrived body now ∷ rest) =
      goes (shared, rest) (shared, rest) _ (stays (shared, rest)) (arrives shared rest body now) in
    let left : later ≡ (after_parsing h s sem w from_slice app now shared (from_slice body)).1 =
      sym (ap (λ x. x.1) e) in
    rw left (
      parsing_alone h s sem w from_slice app rest (shared, rest) body now keeper permits past
        (from_slice body) refl start response (ap (λ x. x.0) e))

-- What `claim_handler` replies and leaves is reached by the steps of the claim, from its arrival
-- at a free lock on, while all other claims stand still.
pub Reaches-claim_handler :
    (h : Hashes) (s : Secp) (sem : Semaphore) (w : World) (from_slice : Bytes → Option ClaimRequest)
    (app : AppState h s) (rest : List Phase) (body : Bytes) (now : ℕ)
    (shared later : Shared h s sem) (response : Response)
    → shared.locked ≡ false
    → claim_handler h s sem w from_slice app body now shared ≡ (some response, later)
    → Reaches h s sem w from_slice app (shared, rest) (later, replied response ∷ rest)
Reaches-claim_handler h s sem w from_slice app rest body now shared later response unlocked e =
    let same : ◌≡◌ {A = Shared h s sem}
        (record {
          keeper = shared.keeper;
          permits = shared.permits;
          locked = false;
          past = shared.past;
        })
        shared =
      ap
        (λ (b : Bool). record {
          keeper = shared.keeper;
          permits = shared.permits;
          locked = b;
          past = shared.past;
        })
        (sym unlocked) in
    subst
      (λ (state : Shared h s sem).
        claim_handler h s sem w from_slice app body now state ≡ (some response, later)
        → Reaches h s sem w from_slice app (state, rest) (later, replied response ∷ rest))
      same
      (claim_alone h s sem w from_slice app rest body now shared.keeper shared.permits shared.past
        later response)
      e
