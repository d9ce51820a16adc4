-- ===== src/Server/Effects.antt =====
-- What a run of `claim_handler` leaves, on every branch.
use atlas_faucet.Hashes.{Hashes}
use atlas_faucet.Secp.{Secp}
use atlas_faucet.Semaphore.{Semaphore}
use atlas_faucet.World.{World}
