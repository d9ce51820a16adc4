-- ===== src/Server/Serialized.antt =====
-- Why `submit` runs under a lock: the requests of one claim are not undone by another's.
use atlas_faucet.Prelude.{
  ℕ, ◌+◌, ◌≤◌, ◌≡◌, refl, Bool, true, false, Option, List, [], ◌∷◌, ◌++◌, Bytes, ok, arith, All,
  All-append, All-mono, All-middle, ◌⊎◌, inl, inr,
}
use atlas_faucet.Hashes.{Hashes}
use atlas_faucet.Secp.{Secp}
use atlas_faucet.Semaphore.{Semaphore, IsSemaphore}
use atlas_faucet.World.{History, World}
use atlas_faucet.Pow.{VerifiedChallenge}
use atlas_faucet.Rpc
use atlas_faucet.Rpc.Laws.{sends}
use atlas_faucet.Rpc.Quiet.{Quiet, Quiet-balance, Quiet-transaction_count, Quiet-sends}
use atlas_faucet.Faucet.{address_hex}
use atlas_faucet.Pow.{PowKeeper}
use atlas_faucet.Server.{ClaimRequest, AppState, Shared, new_shared}
use atlas_faucet.Server.Phases.{Phase, sending, Reaches, arrives, steps, stays, goes}
use atlas_faucet.Server.Inversion.{advance-Advances}
use atlas_faucet.Server.Advances.{
  Advances, rejects, accepts, reserves, cools, admits, crowds, burns, reuses, locks, prices,
  unpriced, funds, underfunded, unfunded, counts, uncounted, pays, fails, leaves, gives_up, drops,
  confirms, refuses, undoes, unburns,
}
use atlas_faucet.Server.Posting.{Advances-Sends}
use atlas_faucet.Server.Current.{
  Funded, Numbered, Current, Funded-later, Current-later, Current-idle,
}
use atlas_faucet.Server.Weights.{locks_of, total, total-append, bit}
use atlas_faucet.Server.Interleaving.{Started-Counted}

total-zero :
    (weight : Phase → ℕ) (claims : List Phase)
    → total weight claims ≡ 0
    → All (λ (claim : Phase). weight claim ≡ 0) claims
unfolding total
total-zero weight [] zero = tt
total-zero weight (claim ∷ claims) zero =
    (omega (arith, zero), total-zero weight claims (omega (arith, zero)))

All-front :
    (P : Phase → Type 0) (front rest : List Phase)
    → All P (front ++ rest)
    → All P front × All P rest
All-front P [] rest all = (tt, all)
All-front P (claim ∷ front) rest all =
    let (before, after) = All-front P front rest all.1 in ((all.0, before), after)

module _ (h : Hashes) (s : Secp) (sem : Semaphore) (w : World)
    (from_slice : Bytes → Option ClaimRequest) (app : AppState h s) where
  -- A step posts no transaction, or is one of the claim that holds the lock.
  Advances-Quiet :
      (shared later : Shared h s sem) (phase next : Phase)
      → Advances h s sem w from_slice app shared phase later next
      → Quiet shared.past later.past ⊎ (locks_of phase ≡ 1)
  unfolding locks_of
  Advances-Quiet shared later phase next step =
      elim (Advances-Sends h s sem w from_slice app shared later phase next step) [
        | inl (same, marked) ↦ inl same
        | inr (v, now, gas_price, nonce, place, newest, marked) ↦ inr (rw place refl)
      ]

  -- The claim that steps keeps what it has asked up to date.
  Advances-Current :
      (shared later : Shared h s sem) (phase next : Phase)
      → Current h s w app.faucet shared.past phase
      → Advances h s sem w from_slice app shared phase later next
      → Current h s w app.faucet later.past next
  Advances-Current _ _ _ _ current (rejects shared body now response why) = tt
  Advances-Current _ _ _ _ current (accepts shared body now request v parsed e) = tt
  Advances-Current _ _ _ _ current (reserves shared v now e) = tt
  Advances-Current _ _ _ _ current (cools shared v now remaining e) = tt
  Advances-Current _ _ _ _ current (admits shared v now permits e) = tt
  Advances-Current _ _ _ _ current (crowds shared v now e) = tt
  Advances-Current _ _ _ _ current (burns shared v now e) = tt
  Advances-Current _ _ _ _ current (reuses shared v now e) = tt
  Advances-Current _ _ _ _ current (locks shared v now free) = tt
  Advances-Current _ _ _ _ current (prices shared v now gas_price e) = tt
  Advances-Current _ _ _ _ current (unpriced shared v now x e) = tt
  Advances-Current _ _ _ _ current (funds shared v now gas_price balance e tested) = record {
    balance = balance;
    asked = shared.past;
    answered = e;
    covers = ground (arith, tested);
    since = Quiet-balance w (address_hex h s app.faucet.signer) shared.past;
  }
  Advances-Current _ _ _ _ current (underfunded shared v now gas_price balance e tested) = tt
  Advances-Current _ _ _ _ current (unfunded shared v now gas_price x e) = tt
  Advances-Current _ _ _ _ current (counts shared v now gas_price nonce e) =
      let same = Quiet-transaction_count w (address_hex h s app.faucet.signer) shared.past in
      (
        Funded-later h s w app.faucet gas_price shared.past _ same current,
        record { asked = shared.past; answered = e; since = same },
      )
  Advances-Current _ _ _ _ current (uncounted shared v now gas_price x e) = tt
  Advances-Current _ _ _ _ current (pays shared v now gas_price nonce tx_hash e) = tt
  Advances-Current _ _ _ _ current (fails shared v now gas_price nonce x e) = tt
  Advances-Current _ _ _ _ current (leaves shared v tx_hash) = tt
  Advances-Current _ _ _ _ current (gives_up shared v now x) = tt
  Advances-Current _ _ _ _ current (drops shared v now) = tt
  Advances-Current _ _ _ _ current (confirms shared v tx_hash outcome past e) = tt
  Advances-Current _ _ _ _ current (refuses shared v now response) = tt
  Advances-Current _ _ _ _ current (undoes shared v now x) = tt
  Advances-Current _ _ _ _ current (unburns shared v x) = tt

  Step-Current :
      (shared later : Shared h s sem) (front : List Phase) (phase next : Phase) (rest : List Phase)
      → total locks_of (front ++ (phase ∷ rest)) ≤ 1
      → Advances h s sem w from_slice app shared phase later next
      → All (Current h s w app.faucet shared.past) (front ++ (phase ∷ rest))
      → All (Current h s w app.faucet later.past) (front ++ (next ∷ rest))
  unfolding total
  Step-Current shared later front phase next rest single step current =
      let (before, (here, after)) =
        All-front (Current h s w app.faucet shared.past) front (phase ∷ rest) current in
      let split = total-append locks_of front (phase ∷ rest) in
      let moved = Advances-Current shared later phase next here step in
      elim (Advances-Quiet shared later phase next step) [
        | inl same ↦
            All-append (Current h s w app.faucet later.past) front (next ∷ rest)
              (All-mono _ _ front
                (λ c. Current-later h s w app.faucet shared.past later.past c same) before)
              (
                moved,
                All-mono _ _ rest
                    (λ c. Current-later h s w app.faucet shared.past later.past c same) after,
              )
        | inr held ↦
            All-append (Current h s w app.faucet later.past) front (next ∷ rest)
              (All-mono _ _ front (λ c. Current-idle h s w app.faucet later.past c)
                (total-zero locks_of front (omega (arith, single, held, split))))
              (
                moved,
                All-mono _ _ rest (λ c. Current-idle h s w app.faucet later.past c)
                    (total-zero locks_of rest (omega (arith, single, held, split))),
              )
      ]

  module _ (lawful : IsSemaphore sem) where
    Reaches-Current :
        (first last : Shared h s sem × List Phase)
        → first.0.permits ≡ sem.new app.faucet.capacity
        → first.0.locked ≡ false
        → first.1 ≡ []
        → Reaches h s sem w from_slice app first last
        → All (Current h s w app.faucet last.0.past) last.1
    Reaches-Current _ _ fresh free none_yet (stays system) = rw none_yet tt
    Reaches-Current _ _ fresh free none_yet
          (goes first _ _ before (arrives shared claims body now)) =
        (tt, Reaches-Current first (shared, claims) fresh free none_yet before)
    Reaches-Current _ _ fresh free none_yet
          (goes first _ _ before (steps shared front phase rest later next e)) =
        let counted =
          Started-Counted h s sem lawful w from_slice app first (shared, front ++ (phase ∷ rest))
            fresh free none_yet before in
        Step-Current shared later front phase next rest (at_most_one shared.locked counted.lock)
          (advance-Advances h s sem w from_slice app shared phase (later, next) e)
          (Reaches-Current first (shared, front ++ (phase ∷ rest)) fresh free none_yet before)
      where
        at_most_one : (b : Bool) {n : ℕ} → bit b ≡ n → n ≤ 1
        at_most_one true same = omega arith
        at_most_one false same = omega arith

    -- If the semaphore satisfies its laws, however claims interleave after the start of the
    -- server: of a claim that is about to send its transaction, the nonce is the pending count
    -- that the node reported, and the balance covers the drip and the gas at its price, in
    -- answers since which no claim has posted a transaction.
    pub sending_lem :
        (keeper : PowKeeper) (past : History) (last : Shared h s sem × List Phase)
        → Reaches h s sem w from_slice app (new_shared h s sem app keeper past, []) last
        → (front : List Phase) (v : VerifiedChallenge) (now gas_price nonce : ℕ) (rest : List Phase)
        → last.1 ≡ front ++ (sending v now gas_price nonce ∷ rest)
        → Funded h s w app.faucet gas_price last.0.past
          × Numbered h s w app.faucet nonce last.0.past
    unfolding new_shared
    sending_lem keeper past last reached front v now gas_price nonce rest place =
        All-middle (Current h s w app.faucet last.0.past) front (sending v now gas_price nonce) rest
          (rw⁻¹ place
            (Reaches-Current (new_shared h s sem app keeper past, []) last refl refl refl reached))

    -- If the semaphore satisfies its laws, and the node's pending count is that of the
    -- transactions posted so far, from some first number on, then however claims interleave after
    -- the start of the server, the nonces are sequential: the nonce of a claim that is about to
    -- send its transaction is the first number and one for each transaction posted before.
    pub nonce_lem :
        (keeper : PowKeeper) (past : History) (last : Shared h s sem × List Phase) (base : ℕ)
        → ((at : History) (n : ℕ)
            → (Rpc.transaction_count w (address_hex h s app.faucet.signer) at).0 ≡ ok n
            → n ≡ base + sends at)
        → Reaches h s sem w from_slice app (new_shared h s sem app keeper past, []) last
        → (front : List Phase) (v : VerifiedChallenge) (now gas_price nonce : ℕ) (rest : List Phase)
        → last.1 ≡ front ++ (sending v now gas_price nonce ∷ rest)
        → nonce ≡ base + sends last.0.past
    nonce_lem keeper past last base reflects reached front v now gas_price nonce rest place =
        let (funded, numbered) =
          sending_lem keeper past last reached front v now gas_price nonce rest place in
        omega (
          arith,
          reflects numbered.asked nonce numbered.answered,
          Quiet-sends numbered.asked last.0.past numbered.since,
        )
