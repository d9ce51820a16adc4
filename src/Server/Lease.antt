-- ===== src/Server/Lease.antt =====
-- Why a key has one holder at a time: a claim takes an entry of a map of the keeper only where
-- none is alive, and every other claim leaves a living entry alone.
use atlas_faucet.Prelude.{
  ℕ, ◌+◌, ◌≡◌, refl, Option, List, [], ◌∷◌, ◌++◌, Bytes, arith, All, All-middle, All-replace, inl,
}
use atlas_faucet.Hashes.{Hashes}
use atlas_faucet.Secp.{Secp}
use atlas_faucet.Semaphore.{Semaphore}
use atlas_faucet.World.{World}
use atlas_faucet.Pow.{VerifiedChallenge, PowKeeper}
use atlas_faucet.Server.{ClaimRequest, AppState, Shared}
use atlas_faucet.Server.Phases.{
  Phase, arrived, reserving, admitting, burning, queueing, submitting, funding, counting, sending,
  leaving, failing, reusing, awaiting, refusing, undoing, unburning, replied,
}
use atlas_faucet.Server.Inversion.{advance-Advances}
use atlas_faucet.Server.Advances.{
  Advances, rejects, accepts, reserves, cools, admits, crowds, burns, reuses, locks, prices,
  unpriced, funds, underfunded, unfunded, counts, uncounted, pays, fails, leaves, gives_up, drops,
  confirms, refuses, undoes, unburns,
}
use atlas_faucet.Server.Weights.{total, total-append}
use atlas_faucet.Server.Leased.{Picks, count_paid, Accepted, Leased, Moved, Leased-Moved}
use atlas_faucet.Server.Trace.{Mark, mark, Traces, starts, enters, moves}

module _ (h : Hashes) (s : Secp) (sem : Semaphore) (w : World)
    (from_slice : Bytes → Option ClaimRequest) (app : AppState h s)
    (P : VerifiedChallenge → ℕ → Type 0) where
  -- The condition, for a claim that has not burned its salt.
  abbrev pub Awaits : Phase → Type 0
  Awaits (reserving v now) = P v now
  Awaits (admitting v now) = P v now
  Awaits (burning v now) = P v now
  Awaits (arrived body now) = Unit
  Awaits (queueing v now) = Unit
  Awaits (submitting v now) = Unit
  Awaits (funding v now gas_price) = Unit
  Awaits (counting v now gas_price) = Unit
  Awaits (sending v now gas_price nonce) = Unit
  Awaits (leaving v tx_hash) = Unit
  Awaits (failing v now e) = Unit
  Awaits (reusing v now) = Unit
  Awaits (awaiting v tx_hash) = Unit
  Awaits (refusing v now response) = Unit
  Awaits (undoing v now e) = Unit
  Awaits (unburning v e) = Unit
  Awaits (replied response) = Unit

  -- The marks before a step are marks after it, and a claim that awaits had its challenge marked.
  Advances-Awaits :
      (shared later : Shared h s sem) (phase next : Phase) (marks : List Mark)
      → Advances h s sem w from_slice app shared phase later next
      → All (Accepted P) (mark phase next marks)
      → All (Accepted P) marks × (Awaits phase → Awaits next)
  Advances-Awaits _ _ _ _ marks (rejects shared body now response why) fits = (fits, λ _. tt)
  Advances-Awaits _ _ _ _ marks (accepts shared body now request v parsed e) fits =
      (fits.1, λ _. fits.0)
  Advances-Awaits _ _ _ _ marks (reserves shared v now e) fits = (fits, λ x. x)
  Advances-Awaits _ _ _ _ marks (cools shared v now remaining e) fits = (fits, λ _. tt)
  Advances-Awaits _ _ _ _ marks (admits shared v now permits e) fits = (fits, λ x. x)
  Advances-Awaits _ _ _ _ marks (crowds shared v now e) fits = (fits, λ _. tt)
  Advances-Awaits _ _ _ _ marks (burns shared v now e) fits = (fits, λ _. tt)
  Advances-Awaits _ _ _ _ marks (reuses shared v now e) fits = (fits, λ _. tt)
  Advances-Awaits _ _ _ _ marks (locks shared v now free) fits = (fits, λ _. tt)
  Advances-Awaits _ _ _ _ marks (pays shared v now gas_price nonce tx_hash e) fits =
      (fits.1, λ _. tt)
  Advances-Awaits _ _ _ _ marks (prices shared v now gas_price e) fits = (fits, λ _. tt)
  Advances-Awaits _ _ _ _ marks (funds shared v now gas_price balance e tested) fits =
      (fits, λ _. tt)
  Advances-Awaits _ _ _ _ marks (counts shared v now gas_price nonce e) fits = (fits, λ _. tt)
  Advances-Awaits _ _ _ _ marks (unpriced shared v now x e) fits = (fits, λ _. tt)
  Advances-Awaits _ _ _ _ marks (underfunded shared v now gas_price balance e tested) fits =
      (fits, λ _. tt)
  Advances-Awaits _ _ _ _ marks (unfunded shared v now gas_price x e) fits = (fits, λ _. tt)
  Advances-Awaits _ _ _ _ marks (uncounted shared v now gas_price x e) fits = (fits, λ _. tt)
  Advances-Awaits _ _ _ _ marks (fails shared v now gas_price nonce x e) fits = (fits, λ _. tt)
  Advances-Awaits _ _ _ _ marks (leaves shared v tx_hash) fits = (fits, λ _. tt)
  Advances-Awaits _ _ _ _ marks (gives_up shared v now x) fits = (fits, λ _. tt)
  Advances-Awaits _ _ _ _ marks (drops shared v now) fits = (fits, λ _. tt)
  Advances-Awaits _ _ _ _ marks (confirms shared v tx_hash outcome past e) fits = (fits, λ _. tt)
  Advances-Awaits _ _ _ _ marks (refuses shared v now response) fits = (fits, λ _. tt)
  Advances-Awaits _ _ _ _ marks (undoes shared v now x) fits = (fits, λ _. tt)
  Advances-Awaits _ _ _ _ marks (unburns shared v x) fits = (fits, λ _. tt)

  -- The acknowledgement that a step brings.
  abbrev pub gained : Picks → Phase → Phase → ℕ
  gained picks phase next = count_paid picks (mark phase next [])

  count_paid-mark :
      (picks : Picks) (shared later : Shared h s sem) (phase next : Phase) (marks : List Mark)
      → Advances h s sem w from_slice app shared phase later next
      → count_paid picks (mark phase next marks) ≡ count_paid picks marks + gained picks phase next
  unfolding count_paid
  count_paid-mark picks _ _ _ _ marks (rejects shared body now response why) = omega arith
  count_paid-mark picks _ _ _ _ marks (accepts shared body now request v parsed e) = omega arith
  count_paid-mark picks _ _ _ _ marks (reserves shared v now e) = omega arith
  count_paid-mark picks _ _ _ _ marks (cools shared v now remaining e) = omega arith
  count_paid-mark picks _ _ _ _ marks (admits shared v now permits e) = omega arith
  count_paid-mark picks _ _ _ _ marks (crowds shared v now e) = omega arith
  count_paid-mark picks _ _ _ _ marks (burns shared v now e) = omega arith
  count_paid-mark picks _ _ _ _ marks (reuses shared v now e) = omega arith
  count_paid-mark picks _ _ _ _ marks (locks shared v now free) = omega arith
  count_paid-mark picks _ _ _ _ marks (pays shared v now gas_price nonce tx_hash e) = omega arith
  count_paid-mark picks _ _ _ _ marks (prices shared v now gas_price e) = omega arith
  count_paid-mark picks _ _ _ _ marks (funds shared v now gas_price balance e tested) = omega arith
  count_paid-mark picks _ _ _ _ marks (counts shared v now gas_price nonce e) = omega arith
  count_paid-mark picks _ _ _ _ marks (unpriced shared v now x e) = omega arith
  count_paid-mark picks _ _ _ _ marks (underfunded shared v now gas_price balance e tested) =
      omega arith
  count_paid-mark picks _ _ _ _ marks (unfunded shared v now gas_price x e) = omega arith
  count_paid-mark picks _ _ _ _ marks (uncounted shared v now gas_price x e) = omega arith
  count_paid-mark picks _ _ _ _ marks (fails shared v now gas_price nonce x e) = omega arith
  count_paid-mark picks _ _ _ _ marks (leaves shared v tx_hash) = omega arith
  count_paid-mark picks _ _ _ _ marks (gives_up shared v now x) = omega arith
  count_paid-mark picks _ _ _ _ marks (drops shared v now) = omega arith
  count_paid-mark picks _ _ _ _ marks (confirms shared v tx_hash outcome past e) = omega arith
  count_paid-mark picks _ _ _ _ marks (refuses shared v now response) = omega arith
  count_paid-mark picks _ _ _ _ marks (undoes shared v now x) = omega arith
  count_paid-mark picks _ _ _ _ marks (unburns shared v x) = omega arith

  module _ (Alive : ℕ → Type 0) (picks : Picks) (holds : Phase → ℕ) (entry : PowKeeper → Option ℕ)
      (idle : (body : Bytes) (now : ℕ) → holds (arrived body now) ≡ 0)
      (moved : (shared later : Shared h s sem) (phase next : Phase)
        → Awaits phase
        → Advances h s sem w from_slice app shared phase later next
        → Moved Alive
            (entry shared.keeper)
            (entry later.keeper)
            (holds phase)
            (holds next + gained picks phase next)) where
    -- Holders are the claims that hold, and the acknowledged transfers.
    pub record Holding (marks : List Mark) (system : Shared h s sem × List Phase) : Type 0 where
      pub awaits : All Awaits system.1
      pub leased :
          Leased Alive (count_paid picks marks + total holds system.1) (entry system.0.keeper)

    moves_lem :
        (marks : List Mark) (shared : Shared h s sem) (front : List Phase) (phase : Phase)
        (rest : List Phase) (later : Shared h s sem) (next : Phase)
        → Advances h s sem w from_slice app shared phase later next
        → (Awaits phase → Awaits next)
        → Holding marks (shared, front ++ (phase ∷ rest))
        → Holding (mark phase next marks) (later, front ++ (next ∷ rest))
    unfolding total
    moves_lem marks shared front phase rest later next step onward held =
        let waits = All-middle Awaits front phase rest held.awaits in
        let others = count_paid picks marks + total holds front + total holds rest in
        let before : count_paid picks marks + total holds (front ++ (phase ∷ rest))
            ≡ others + holds phase =
          omega (arith, total-append holds front (phase ∷ rest)) in
        let after : count_paid picks (mark phase next marks) + total holds (front ++ (next ∷ rest))
            ≡ others + (holds next + gained picks phase next) =
          omega (
            arith,
            total-append holds front (next ∷ rest),
            count_paid-mark picks shared later phase next marks step,
          ) in
        record {
          awaits = All-replace Awaits front phase next rest (onward waits) held.awaits;
          leased = rw after (
              Leased-Moved Alive (entry shared.keeper) (entry later.keeper) others (holds phase)
                (holds next + gained picks phase next) (rw⁻¹ before held.leased)
                (moved shared later phase next waits step));
        }

    pub Traces-Holding :
        (first last : Shared h s sem × List Phase) (marks : List Mark)
        → first.1 ≡ []
        → Traces h s sem w from_slice app first marks last
        → All (Accepted P) marks
        → Holding marks last
    unfolding count_paid total
    Traces-Holding first _ _ none_yet starts fits = record {
      awaits = rw none_yet tt;
      leased = inl (rw none_yet refl);
    }
    Traces-Holding first _ _ none_yet (enters marks shared claims body now before) fits =
        let held = Traces-Holding first (shared, claims) marks none_yet before fits in
        let same : count_paid picks marks + (holds (arrived body now) + total holds claims)
            ≡ count_paid picks marks + total holds claims =
          omega (arith, idle body now) in
        record { awaits = (tt, held.awaits); leased = rw same held.leased }
    Traces-Holding first _ _ none_yet (moves marks shared front phase rest later next before e)
          fits =
        let step = advance-Advances h s sem w from_slice app shared phase (later, next) e in
        let (fit, onward) = Advances-Awaits shared later phase next marks step fits in
        moves_lem marks shared front phase rest later next step onward
          (Traces-Holding first (shared, front ++ (phase ∷ rest)) marks none_yet before fit)
