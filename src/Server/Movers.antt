-- ===== src/Server/Movers.antt =====
-- Which claims can take a step: all but those that wait for the lock, and the holder of the lock.
use atlas_faucet.Prelude.{
  ℕ, ◌<◌, ◌≡◌, refl, ap, Bool, true, false, Option, none, some, List, [], ◌∷◌, ◌++◌, Bytes, arith,
  All, ◌⊎◌, inl, inr,
}
use atlas_faucet.Hashes.{Hashes}
use atlas_faucet.Secp.{Secp}
use atlas_faucet.Semaphore.{Semaphore}
use atlas_faucet.World.{History, World, IsClock}
use atlas_faucet.Pow.{VerifiedChallenge}
use atlas_faucet.Faucet.{ReceiptOutcome}
use atlas_faucet.Faucet.Receipt.{await_receipt_lem}
use atlas_faucet.Server.{ClaimRequest, Response, AppState, Shared}
use atlas_faucet.Server.Phases.{
  Phase, arrived, reserving, admitting, burning, queueing, submitting, funding, counting, sending,
  leaving, failing, reusing, awaiting, refusing, undoing, unburning, replied, on_lock, on_receipt,
  advance,
}
use atlas_faucet.Server.Weights.{locks_of, total}

abbrev pub IsReplied : Phase → Type 0
IsReplied phase = (response : Response) × (phase ≡ replied response)

module _ (h : Hashes) (s : Secp) (sem : Semaphore) (w : World)
    (from_slice : Bytes → Option ClaimRequest) (app : AppState h s) where
  -- A step that is possible.
  abbrev pub Ready : Shared h s sem → Phase → Type 0
  Ready shared phase =
      (r : Shared h s sem × Phase) × (advance h s sem w from_slice app shared phase ≡ some r)

  on_lock-Ready :
      (v : VerifiedChallenge) (now : ℕ) (shared : Shared h s sem) (locked : Bool)
      → (locked ≡ true)
        ⊎ ((r : Shared h s sem × Phase) × (on_lock h s sem w from_slice app v now shared locked
              ≡ some r))
  unfolding on_lock
  on_lock-Ready v now shared true = inl refl
  on_lock-Ready v now shared false = inr (_, refl)

  on_receipt-Ready :
      (v : VerifiedChallenge) (tx_hash : Bytes) (shared : Shared h s sem)
      (o : Option ReceiptOutcome × History) (outcome : ReceiptOutcome)
      → o.0 ≡ some outcome
      → (r : Shared h s sem × Phase) × (on_receipt h s sem w from_slice app v tx_hash shared o
          ≡ some r)
  unfolding on_receipt
  on_receipt-Ready v tx_hash shared (none, past) outcome e = cc
  on_receipt-Ready v tx_hash shared (some found, past) outcome e = (_, refl)

  phase_lem :
      IsClock w
      → (shared : Shared h s sem) (phase : Phase)
      → IsReplied phase ⊎ (shared.locked ≡ true) ⊎ Ready shared phase
  unfolding advance
  phase_lem clock shared (arrived body now) = inr (inr (_, refl))
  phase_lem clock shared (reserving v now) = inr (inr (_, refl))
  phase_lem clock shared (admitting v now) = inr (inr (_, refl))
  phase_lem clock shared (burning v now) = inr (inr (_, refl))
  phase_lem clock shared (queueing v now) = inr (on_lock-Ready v now shared shared.locked)
  phase_lem clock shared (submitting v now) = inr (inr (_, refl))
  phase_lem clock shared (funding v now gas_price) = inr (inr (_, refl))
  phase_lem clock shared (counting v now gas_price) = inr (inr (_, refl))
  phase_lem clock shared (sending v now gas_price nonce) = inr (inr (_, refl))
  phase_lem clock shared (leaving v tx_hash) = inr (inr (_, refl))
  phase_lem clock shared (failing v now e) = inr (inr (_, refl))
  phase_lem clock shared (reusing v now) = inr (inr (_, refl))
  phase_lem clock shared (awaiting v tx_hash) =
      let waited = await_receipt_lem h s w clock app.faucet tx_hash shared.past in
      inr (inr (on_receipt-Ready v tx_hash shared _ waited.outcome waited.ended))
  phase_lem clock shared (refusing v now response) = inr (inr (_, refl))
  phase_lem clock shared (undoing v now e) = inr (inr (_, refl))
  phase_lem clock shared (unburning v e) = inr (inr (_, refl))
  phase_lem clock shared (replied response) = inl (response, refl)

  -- A claim in a list whose step is possible.
  pub record Mover (shared : Shared h s sem) (claims : List Phase) : Type 0 where
    pub front : List Phase
    pub phase : Phase
    pub rest : List Phase
    pub place : claims ≡ front ++ (phase ∷ rest)
    pub ready : Ready shared phase

  Mover-cons :
      (shared : Shared h s sem) (claim : Phase) (claims : List Phase)
      → Mover shared claims
      → Mover shared (claim ∷ claims)
  Mover-cons shared claim claims mover = record {
    front = claim ∷ mover.front;
    phase = mover.phase;
    rest = mover.rest;
    place = ap (◌∷◌ claim) mover.place;
    ready = mover.ready;
  }

  pub claims_lem :
      IsClock w
      → (shared : Shared h s sem) (claims : List Phase)
      → All IsReplied claims ⊎ (shared.locked ≡ true) ⊎ Mover shared claims
  claims_lem clock shared [] = inl tt
  claims_lem clock shared (claim ∷ claims) = elim (phase_lem clock shared claim) [
    | inl done ↦ elim (claims_lem clock shared claims) [
      | inl all_done ↦ inl (done, all_done)
      | inr (inl taken) ↦ inr (inl taken)
      | inr (inr mover) ↦ inr (inr (Mover-cons shared claim claims mover))
    ]
    | inr (inl taken) ↦ inr (inl taken)
    | inr (inr ready) ↦
        inr (inr (record { front = []; phase = claim; rest = claims; place = refl; ready = ready }))
  ]

  -- A claim does not hold the lock, or can step.
  holder : (shared : Shared h s sem) (phase : Phase) → (locks_of phase ≡ 0) ⊎ Ready shared phase
  unfolding locks_of advance
  holder shared (submitting v now) = inr (_, refl)
  holder shared (funding v now gas_price) = inr (_, refl)
  holder shared (counting v now gas_price) = inr (_, refl)
  holder shared (sending v now gas_price nonce) = inr (_, refl)
  holder shared (arrived body now) = inl refl
  holder shared (reserving v now) = inl refl
  holder shared (admitting v now) = inl refl
  holder shared (burning v now) = inl refl
  holder shared (queueing v now) = inl refl
  holder shared (leaving v tx_hash) = inl refl
  holder shared (failing v now e) = inl refl
  holder shared (reusing v now) = inl refl
  holder shared (awaiting v tx_hash) = inl refl
  holder shared (refusing v now response) = inl refl
  holder shared (undoing v now e) = inl refl
  holder shared (unburning v e) = inl refl
  holder shared (replied response) = inl refl

  -- The claim that has the lock can step.
  pub holder_lem :
      (shared : Shared h s sem) (claims : List Phase)
      → 0 < total locks_of claims
      → Mover shared claims
  unfolding total
  holder_lem shared [] held = absurd (omega arith)
  holder_lem shared (claim ∷ claims) held = elim (holder shared claim) [
    | inl none_held ↦
        Mover-cons shared claim claims (holder_lem shared claims (omega (arith, held, none_held)))
    | inr ready ↦ record { front = []; phase = claim; rest = claims; place = refl; ready = ready }
  ]
