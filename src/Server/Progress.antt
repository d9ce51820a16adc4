-- ===== src/Server/Progress.antt =====
-- Claims come to their ends: no schedule of their steps goes on forever, and none gets stuck.
use atlas_faucet.Prelude.{ℕ, suc, ◌≡◌, Option, some, List, ◌∷◌, ◌++◌, Bytes}
use atlas_faucet.Hashes.{Hashes}
use atlas_faucet.Secp.{Secp}
use atlas_faucet.Semaphore.{Semaphore}
use atlas_faucet.World.{World}
use atlas_faucet.Server.{ClaimRequest, AppState, Shared}
use atlas_faucet.Server.Phases.{
  Phase, arrived, reserving, admitting, burning, queueing, submitting, funding, counting, sending,
  leaving, failing, reusing, awaiting, refusing, undoing, unburning, replied, advance,
}
use atlas_faucet.Server.Advances.{Advances}

-- How many steps of its own a claim is from its reply, at most.
abbrev steps_left : Phase → ℕ
steps_left (arrived body now) = 12
steps_left (reserving v now) = 11
steps_left (admitting v now) = 10
steps_left (burning v now) = 9
steps_left (queueing v now) = 8
steps_left (submitting v now) = 7
steps_left (funding v now gas_price) = 6
steps_left (counting v now gas_price) = 5
steps_left (sending v now gas_price nonce) = 4
steps_left (failing v now e) = 3
steps_left (undoing v now e) = 2
steps_left (leaving v tx_hash) = 2
steps_left (reusing v now) = 2
steps_left (awaiting v tx_hash) = 1
steps_left (refusing v now response) = 1
steps_left (unburning v e) = 1
steps_left (replied response) = 0

module _ (h : Hashes) (s : Secp) (sem : Semaphore) (w : World)
    (from_slice : Bytes → Option ClaimRequest) (app : AppState h s) where
  -- A number of steps of the claims that are there, in any order, with no arrivals.
  pub data Takes : ℕ → Shared h s sem × List Phase → Shared h s sem × List Phase → Type 0 where
    rests : (system : Shared h s sem × List Phase) → Takes 0 system system
    takes :
        (n : ℕ) (first : Shared h s sem × List Phase) (shared : Shared h s sem) (front : List Phase)
        (phase : Phase) (rest : List Phase) (later : Shared h s sem) (next : Phase)
        → Takes n first (shared, front ++ (phase ∷ rest))
        → advance h s sem w from_slice app shared phase ≡ some (later, next)
        → Takes (suc n) first (later, front ++ (next ∷ rest))
