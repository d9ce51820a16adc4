-- ===== src/Server/Calls.antt =====
-- The keeper under interleaved claims: its states are those of a history of calls.
use atlas_faucet.Prelude.{
  ◌≡◌, refl, sym, ap, ◌∙◌, Option, List, [], ◌∷◌, ◌++◌, Bytes, ◌⊎◌, inl, inr,
}
use atlas_faucet.Hashes.{Hashes}
use atlas_faucet.Secp.{Secp}
use atlas_faucet.Semaphore.{Semaphore}
use atlas_faucet.World.{World}
use atlas_faucet.Pow.{PowKeeper}
use atlas_faucet.Pow.History.{Call, consumes, frees, begins, step, run}
use atlas_faucet.Server.{ClaimRequest, AppState, Shared}
use atlas_faucet.Server.Phases.{Phase, Reaches, arrives, steps, stays, goes}
use atlas_faucet.Server.Inversion.{advance-Advances}
use atlas_faucet.Server.Advances.{
  Advances, rejects, accepts, reserves, cools, admits, crowds, burns, reuses, locks, prices,
  unpriced, funds, underfunded, unfunded, counts, uncounted, pays, fails, leaves, gives_up, drops,
  confirms, refuses, unburns,
}

run-append :
    (keeper : PowKeeper) (calls : List Call) (c : Call)
    → run keeper (calls ++ (c ∷ [])) ≡ step (run keeper calls) c
unfolding run
run-append keeper [] c = refl
run-append keeper (d ∷ calls) c = run-append (step keeper d) calls c

module _ (h : Hashes) (s : Secp) (sem : Semaphore) (w : World)
    (from_slice : Bytes → Option ClaimRequest) (app : AppState h s) where
  -- A step leaves the keeper, or makes one call of it.
  abbrev Calls : Shared h s sem → Shared h s sem × Phase → Type 0
  Calls shared r = (r.0.keeper ≡ shared.keeper) ⊎ ((c : Call) × (r.0.keeper ≡ step shared.keeper c))

  Advances-Calls :
      (shared later : Shared h s sem) (phase next : Phase)
      → Advances h s sem w from_slice app shared phase later next
      → Calls shared (later, next)
  unfolding step
  Advances-Calls _ _ _ _ (rejects shared body now response why) = inl refl
  Advances-Calls _ _ _ _ (accepts shared body now request v parsed e) = inl refl
  Advances-Calls _ _ _ _ (reserves shared v now e) =
      inr (begins v.address app.cooldown_secs now, refl)
  Advances-Calls _ _ _ _ (cools shared v now remaining e) =
      inr (begins v.address app.cooldown_secs now, refl)
  Advances-Calls _ _ _ _ (admits shared v now permits e) = inl refl
  Advances-Calls _ _ _ _ (crowds shared v now e) = inl refl
  Advances-Calls _ _ _ _ (burns shared v now e) = inr (consumes v.salt v.expires_at now, refl)
  Advances-Calls _ _ _ _ (reuses shared v now e) = inr (consumes v.salt v.expires_at now, refl)
  Advances-Calls _ _ _ _ (locks shared v now free) = inl refl
  Advances-Calls _ _ _ _ (pays shared v now gas_price nonce tx_hash e) = inl refl
  Advances-Calls _ _ _ _ (prices shared v now gas_price e) = inl refl
  Advances-Calls _ _ _ _ (funds shared v now gas_price balance e tested) = inl refl
  Advances-Calls _ _ _ _ (counts shared v now gas_price nonce e) = inl refl
  Advances-Calls _ _ _ _ (unpriced shared v now x e) = inl refl
  Advances-Calls _ _ _ _ (underfunded shared v now gas_price balance e tested) = inl refl
  Advances-Calls _ _ _ _ (unfunded shared v now gas_price x e) = inl refl
  Advances-Calls _ _ _ _ (uncounted shared v now gas_price x e) = inl refl
  Advances-Calls _ _ _ _ (fails shared v now gas_price nonce x e) = inl refl
  Advances-Calls _ _ _ _ (leaves shared v tx_hash) = inl refl
  Advances-Calls _ _ _ _ (gives_up shared v now x) = inl refl
  Advances-Calls _ _ _ _ (drops shared v now) = inl refl
  Advances-Calls _ _ _ _ (confirms shared v tx_hash outcome past e) = inl refl
  Advances-Calls _ _ _ _ (refuses shared v now response) = inr (Call.undoes v.address now, refl)
  Advances-Calls _ _ _ _ (Advances.undoes shared v now x) = inr (Call.undoes v.address now, refl)
  Advances-Calls _ _ _ _ (unburns shared v x) = inr (frees v.salt, refl)

  Calls-run :
      (keeper : PowKeeper) (shared : Shared h s sem) (later : Shared h s sem) (next : Phase)
      → ((calls : List Call) × (shared.keeper ≡ run keeper calls))
      → Calls shared (later, next)
      → (calls : List Call) × (later.keeper ≡ run keeper calls)
  Calls-run keeper shared later next (calls, e) (inl same) = (calls, same ∙ e)
  Calls-run keeper shared later next (calls, e) (inr (c, changed)) = (
    calls ++ (c ∷ []),
    changed ∙ ap (λ (k : PowKeeper). step k c) e ∙ sym (run-append keeper calls c),
  )

  -- However claims interleave, the keeper that they reach is that of one history of whole calls of
  -- `consume_salt`, `release_salt`, `try_begin_claim` and `release_claim`.
  pub Reaches-run :
      (first last : Shared h s sem × List Phase)
      → Reaches h s sem w from_slice app first last
      → (calls : List Call) × (last.0.keeper ≡ run first.0.keeper calls)
  unfolding run
  Reaches-run _ _ (stays system) = ([], refl)
  Reaches-run _ _ (goes first _ _ before (arrives shared claims body now)) =
      Reaches-run first (shared, claims) before
  Reaches-run _ _ (goes first _ _ before (steps shared front phase rest later next e)) =
      Calls-run first.0.keeper shared later next
        (Reaches-run first (shared, front ++ (phase ∷ rest)) before)
        (Advances-Calls shared later phase next
          (advance-Advances h s sem w from_slice app shared phase (later, next) e))
