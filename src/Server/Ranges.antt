-- ===== src/Server/Ranges.antt =====
-- The numbers and the recipients that claims carry from step to step fit their types.
use atlas_faucet.Prelude.{
  ℕ, ◌^◌, ◌<◌, ◌≡◌, Option, some, List, ◌∷◌, ◌++◌, Bytes, All, All-middle, All-replace,
}
use atlas_faucet.Prelude.Words.{IsU128}
use atlas_faucet.Hashes.{Hashes, IsHashes}
use atlas_faucet.Secp.{Secp}
use atlas_faucet.Semaphore.{Semaphore}
use atlas_faucet.World.{World}
use atlas_faucet.Util.Address.{IsAddress}
use atlas_faucet.Rpc.Laws.{transaction_count_lem}
use atlas_faucet.Faucet.{address_hex}
use atlas_faucet.Faucet.Submit.{choose_gas_price_lem}
use atlas_faucet.Server.{ClaimRequest, AppState, Shared}
use atlas_faucet.Server.Ends.{authenticate-IsAddress}
use atlas_faucet.Server.Phases.{
  Phase, arrived, reserving, admitting, burning, queueing, submitting, funding, counting, sending,
  leaving, failing, reusing, awaiting, refusing, undoing, unburning, replied,
}
use atlas_faucet.Server.Inversion.{advance-Advances}
use atlas_faucet.Server.Advances.{
  Advances, rejects, accepts, reserves, cools, admits, crowds, burns, reuses, locks, prices,
  unpriced, funds, underfunded, unfunded, counts, uncounted, pays, fails, leaves, gives_up, drops,
  confirms, refuses, undoes, unburns,
}
use atlas_faucet.Server.Trace.{Mark, Traces, starts, enters, moves}

-- What a claim on its way to a transaction carries.
abbrev pub InRange : Phase → Type 0
InRange (reserving v now) = IsAddress v.address
InRange (admitting v now) = IsAddress v.address
InRange (burning v now) = IsAddress v.address
InRange (queueing v now) = IsAddress v.address
InRange (submitting v now) = IsAddress v.address
InRange (funding v now gas_price) = IsAddress v.address × IsU128 gas_price
InRange (counting v now gas_price) = IsAddress v.address × IsU128 gas_price
InRange (sending v now gas_price nonce) = IsAddress v.address × IsU128 gas_price × (nonce < 2 ^ 64)
InRange (arrived body now) = Unit
InRange (leaving v tx_hash) = Unit
InRange (failing v now e) = Unit
InRange (reusing v now) = Unit
InRange (awaiting v tx_hash) = Unit
InRange (refusing v now response) = Unit
InRange (undoing v now e) = Unit
InRange (unburning v e) = Unit
InRange (replied response) = Unit

module _ (h : Hashes) (lawful : IsHashes h) (s : Secp) (sem : Semaphore) (w : World)
    (from_slice : Bytes → Option ClaimRequest) (app : AppState h s)
    (override_fits : (price : ℕ) → app.faucet.gas_price_override ≡ some price → IsU128 price) where
  Advances-InRange :
      (shared later : Shared h s sem) (phase next : Phase)
      → InRange phase
      → Advances h s sem w from_slice app shared phase later next
      → InRange next
  Advances-InRange _ _ _ _ fits (rejects shared body now response why) = tt
  Advances-InRange _ _ _ _ fits (accepts shared body now request v parsed e) =
      authenticate-IsAddress h s lawful shared.keeper request now v e
  Advances-InRange _ _ _ _ fits (reserves shared v now e) = fits
  Advances-InRange _ _ _ _ fits (cools shared v now remaining e) = tt
  Advances-InRange _ _ _ _ fits (admits shared v now permits e) = fits
  Advances-InRange _ _ _ _ fits (crowds shared v now e) = tt
  Advances-InRange _ _ _ _ fits (burns shared v now e) = fits
  Advances-InRange _ _ _ _ fits (reuses shared v now e) = tt
  Advances-InRange _ _ _ _ fits (locks shared v now free) = fits
  Advances-InRange _ _ _ _ fits (prices shared v now gas_price e) = (
    fits,
    (choose_gas_price_lem h s w app.faucet.gas_price_override shared.past override_fits).1 gas_price
        e,
  )
  Advances-InRange _ _ _ _ fits (unpriced shared v now x e) = tt
  Advances-InRange _ _ _ _ fits (funds shared v now gas_price balance e tested) = fits
  Advances-InRange _ _ _ _ fits (underfunded shared v now gas_price balance e tested) = tt
  Advances-InRange _ _ _ _ fits (unfunded shared v now gas_price x e) = tt
  Advances-InRange _ _ _ _ fits (counts shared v now gas_price nonce e) = (
    fits.0,
    fits.1,
    (transaction_count_lem w (address_hex h s app.faucet.signer) shared.past nonce).1 e,
  )
  Advances-InRange _ _ _ _ fits (uncounted shared v now gas_price x e) = tt
  Advances-InRange _ _ _ _ fits (pays shared v now gas_price nonce tx_hash e) = tt
  Advances-InRange _ _ _ _ fits (fails shared v now gas_price nonce x e) = tt
  Advances-InRange _ _ _ _ fits (leaves shared v tx_hash) = tt
  Advances-InRange _ _ _ _ fits (gives_up shared v now x) = tt
  Advances-InRange _ _ _ _ fits (drops shared v now) = tt
  Advances-InRange _ _ _ _ fits (confirms shared v tx_hash outcome past e) = tt
  Advances-InRange _ _ _ _ fits (refuses shared v now response) = tt
  Advances-InRange _ _ _ _ fits (undoes shared v now x) = tt
  Advances-InRange _ _ _ _ fits (unburns shared v x) = tt

  pub Traces-InRange :
      (first last : Shared h s sem × List Phase) (marks : List Mark)
      → All InRange first.1
      → Traces h s sem w from_slice app first marks last
      → All InRange last.1
  Traces-InRange first _ _ fits starts = fits
  Traces-InRange first _ _ fits (enters marks shared claims body now before) =
      (tt, Traces-InRange first (shared, claims) marks fits before)
  Traces-InRange first _ _ fits (moves marks shared front phase rest later next before e) =
      let all = Traces-InRange first (shared, front ++ (phase ∷ rest)) marks fits before in
      All-replace InRange front phase next rest
        (Advances-InRange shared later phase next (All-middle InRange front phase rest all)
          (advance-Advances h s sem w from_slice app shared phase (later, next) e))
        all
