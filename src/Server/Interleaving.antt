-- ===== src/Server/Interleaving.antt =====
-- Invariants of all interleavings of all claims: permits, and the lock.
use atlas_faucet.Prelude.{
  ℕ, ◌+◌, ◌≤◌, ◌<◌, ◌≡◌, ◌↔◌, refl, sym, Bool, true, false, Option, List, [], ◌∷◌, Bytes, arith,
}
use atlas_faucet.Hashes.{Hashes}
use atlas_faucet.Secp.{Secp}
use atlas_faucet.Semaphore.{Semaphore, IsSemaphore}
use atlas_faucet.World.{History, World}
use atlas_faucet.Faucet.{in_flight}
use atlas_faucet.Pow.{PowKeeper}
use atlas_faucet.Server.{ClaimRequest, AppState, Shared, new_shared}
use atlas_faucet.Server.Phases.{Phase, Step, Reaches, arrives, steps, stays, goes}
use atlas_faucet.Server.Inversion.{advance-Advances}
use atlas_faucet.Server.Advances.{
  Advances, rejects, accepts, reserves, cools, admits, crowds, burns, reuses, locks, prices,
  unpriced, funds, underfunded, unfunded, counts, uncounted, pays, fails, leaves, gives_up, drops,
  confirms, refuses, undoes, unburns,
}
use atlas_faucet.Server.Weights.{permits_of, locks_of, total, total-append, total-step, bit}

module _ (h : Hashes) (s : Secp) (sem : Semaphore) (lawful : IsSemaphore sem) (w : World)
    (from_slice : Bytes → Option ClaimRequest) (app : AppState h s) where
  -- What one step of a claim keeps.
  abbrev Kept : Shared h s sem → Phase → Shared h s sem × Phase → Type 0
  Kept shared phase (later, next) =
      (sem.available_permits later.permits + permits_of next
        ≡ sem.available_permits shared.permits + permits_of phase)
      × (bit later.locked + locks_of phase ≡ bit shared.locked + locks_of next)

  Advances-Kept :
      (shared later : Shared h s sem) (phase next : Phase)
      → (locks_of phase ≡ 1 → shared.locked ≡ true)
      → Advances h s sem w from_slice app shared phase later next
      → Kept shared phase (later, next)
  unfolding permits_of locks_of
  Advances-Kept _ _ _ _ held (rejects shared body now response why) = (refl, refl)
  Advances-Kept _ _ _ _ held (accepts shared body now request v parsed e) = (refl, refl)
  Advances-Kept _ _ _ _ held (reserves shared v now e) = (refl, refl)
  Advances-Kept _ _ _ _ held (cools shared v now remaining e) = (refl, refl)
  Advances-Kept _ _ _ _ held (admits shared v now permits e) =
      (omega (arith, lawful.acquire-some shared.permits permits e), refl)
  Advances-Kept _ _ _ _ held (crowds shared v now e) = (refl, refl)
  Advances-Kept _ _ _ _ held (burns shared v now e) = (refl, refl)
  Advances-Kept _ _ _ _ held (reuses shared v now e) = (refl, refl)
  Advances-Kept _ _ _ _ held (locks shared v now free) = (refl, rw free refl)
  Advances-Kept _ _ _ _ held (pays shared v now gas_price nonce tx_hash e) =
      (refl, rw (held refl) refl)
  Advances-Kept _ _ _ _ held (prices shared v now gas_price e) = (refl, refl)
  Advances-Kept _ _ _ _ held (funds shared v now gas_price balance e tested) = (refl, refl)
  Advances-Kept _ _ _ _ held (counts shared v now gas_price nonce e) = (refl, refl)
  Advances-Kept _ _ _ _ held (unpriced shared v now x e) = (refl, rw (held refl) refl)
  Advances-Kept _ _ _ _ held (underfunded shared v now gas_price balance e tested) =
      (refl, rw (held refl) refl)
  Advances-Kept _ _ _ _ held (unfunded shared v now gas_price x e) = (refl, rw (held refl) refl)
  Advances-Kept _ _ _ _ held (uncounted shared v now gas_price x e) = (refl, rw (held refl) refl)
  Advances-Kept _ _ _ _ held (fails shared v now gas_price nonce x e) = (refl, rw (held refl) refl)
  Advances-Kept _ _ _ _ held (leaves shared v tx_hash) =
      (omega (arith, lawful.available-add shared.permits), refl)
  Advances-Kept _ _ _ _ held (gives_up shared v now x) =
      (omega (arith, lawful.available-add shared.permits), refl)
  Advances-Kept _ _ _ _ held (drops shared v now) =
      (omega (arith, lawful.available-add shared.permits), refl)
  Advances-Kept _ _ _ _ held (confirms shared v tx_hash outcome past e) = (refl, refl)
  Advances-Kept _ _ _ _ held (refuses shared v now response) = (refl, refl)
  Advances-Kept _ _ _ _ held (undoes shared v now x) = (refl, refl)
  Advances-Kept _ _ _ _ held (unburns shared v x) = (refl, refl)

  -- The permits that are free or held make up the capacity, and the lock is taken exactly when one
  -- claim has it.
  pub record Counted (capacity : ℕ) (system : Shared h s sem × List Phase) : Type 0 where
    pub permits : sem.available_permits system.0.permits + total permits_of system.1 ≡ capacity
    pub lock : bit system.0.locked ≡ total locks_of system.1

  bit-true : (b : Bool) → 0 < bit b → b ≡ true
  bit-true true some_held = refl
  bit-true false some_held = absurd (omega arith)

  pub Step-Counted :
      (capacity : ℕ) (first last : Shared h s sem × List Phase)
      → Step h s sem w from_slice app first last
      → Counted capacity first
      → Counted capacity last
  Step-Counted capacity _ _ (arrives shared claims body now) counted = record {
    permits = unfold total permits_of in omega (arith, counted.permits);
    lock = unfold total locks_of in omega (arith, counted.lock);
  }
  Step-Counted capacity _ _ (steps shared front phase rest later next e) counted =
      let before = total-append locks_of front (phase ∷ rest) in
      let held : locks_of phase ≡ 1 → shared.locked ≡ true =
        λ one. bit-true shared.locked (unfold total in omega (arith, counted.lock, before, one)) in
      let kept =
        Advances-Kept shared later phase next held
          (advance-Advances h s sem w from_slice app shared phase (later, next) e) in
      record {
        permits =
            omega (arith, kept.0, counted.permits, total-step permits_of front phase next rest);
        lock = omega (arith, kept.1, counted.lock, total-step locks_of front phase next rest);
      }

  Reaches-Counted :
      (capacity : ℕ) (first last : Shared h s sem × List Phase)
      → Reaches h s sem w from_slice app first last
      → Counted capacity first
      → Counted capacity last
  Reaches-Counted capacity _ _ (stays system) counted = counted
  Reaches-Counted capacity _ _ (goes first middle last before step) counted =
      Step-Counted capacity middle last step (Reaches-Counted capacity first middle before counted)

  pub Started-Counted :
      (first last : Shared h s sem × List Phase)
      → first.0.permits ≡ sem.new app.faucet.capacity
      → first.0.locked ≡ false
      → first.1 ≡ []
      → Reaches h s sem w from_slice app first last
      → Counted app.faucet.capacity last
  Started-Counted (shared, claims) last fresh free none_yet reached =
      let start : Counted app.faucet.capacity (shared, claims) = record {
        permits =
            rw (fresh, none_yet)
              (unfold total in omega (arith, lawful.available-new app.faucet.capacity));
        lock = rw (free, none_yet) (unfold total in refl);
      } in
      Reaches-Counted app.faucet.capacity (shared, claims) last reached start

  -- If the semaphore satisfies its laws, however the claims interleave after the start of the
  -- server: the claims in the system, as `in_flight` counts them, are the ones that hold a
  -- permit, and at most the capacity; at most one claim is between the taking of the lock and
  -- the end of `submit`, and exactly then the lock is taken.
  pub in_flight_lem :
      (keeper : PowKeeper) (past : History) (last : Shared h s sem × List Phase)
      → Reaches h s sem w from_slice app (new_shared h s sem app keeper past, []) last
      → (in_flight h s sem app.faucet last.0.permits ≡ total permits_of last.1)
        × (total permits_of last.1 ≤ app.faucet.capacity)
        × (total locks_of last.1 ≤ 1)
        × ((last.0.locked ≡ true) ↔ (total locks_of last.1 ≡ 1))
  unfolding in_flight new_shared
  in_flight_lem keeper past last reached =
      let counted =
        Started-Counted (new_shared h s sem app keeper past, []) last refl refl refl reached in
      let single = one last.0.locked counted.lock in
      (omega (arith, counted.permits), omega (arith, counted.permits), single.0, single.1)
    where
      one : (b : Bool) {n : ℕ} → bit b ≡ n → (n ≤ 1) × ((b ≡ true) ↔ (n ≡ 1))
      one true e = (omega arith, (λ yes. sym e, λ yes. refl))
      one false e = (omega arith, (λ yes. cc, λ yes. absurd (omega arith)))
