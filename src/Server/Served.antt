-- ===== src/Server/Served.antt =====
-- The replies of claims, and the transfers that the node acknowledged.
use atlas_faucet.Prelude.{ℕ, ◌==◌}
use atlas_faucet.Hashes.{Hashes}
use atlas_faucet.Secp.{Secp}
use atlas_faucet.Semaphore.{Semaphore}
use atlas_faucet.World.{World}
use atlas_faucet.Server.Phases.{
  Phase, arrived, reserving, admitting, burning, queueing, submitting, funding, counting, sending,
  leaving, failing, reusing, awaiting, refusing, undoing, unburning, replied,
}
use atlas_faucet.Server.Advances.{Advances}
use atlas_faucet.Server.Weights.{bit}

-- Whether a claim has the success as its reply, or is bound to.
abbrev pub served : Phase → ℕ
served (leaving v tx_hash) = 1
served (awaiting v tx_hash) = 1
served (replied response) = bit (response.status == 200)
served (refusing v now response) = bit (response.status == 200)
served (arrived body now) = 0
served (reserving v now) = 0
served (admitting v now) = 0
served (burning v now) = 0
served (queueing v now) = 0
served (submitting v now) = 0
served (funding v now gas_price) = 0
served (counting v now gas_price) = 0
served (sending v now gas_price nonce) = 0
served (failing v now e) = 0
served (reusing v now) = 0
served (undoing v now e) = 0
served (unburning v e) = 0
