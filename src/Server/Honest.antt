-- ===== src/Server/Honest.antt =====
-- The way to a drip: what an honest client sends is not refused.
use atlas_faucet.Prelude.{ℕ, ◌≡◌, Option, some, List, Bytes}
use atlas_faucet.Hashes.{Hashes}
use atlas_faucet.Secp.{Secp}
use atlas_faucet.Semaphore.{Semaphore}
use atlas_faucet.World.{World, IsClock}
use atlas_faucet.Pow.{VerifiedChallenge, PowKeeper, issue}
use atlas_faucet.Faucet.{ReceiptOutcome}
use atlas_faucet.Faucet.Service.{InService}
use atlas_faucet.Server.{ClaimRequest, Response, AppState, Shared}
use atlas_faucet.Server.Claim.{dispensed_response}

module _ (h : Hashes) (s : Secp) (sem : Semaphore) (w : World) (clock : IsClock w)
    (from_slice : Bytes → Option ClaimRequest) (app : AppState h s) (tx_hash : Bytes)
    (node : InService h s w app.faucet tx_hash) (v : VerifiedChallenge) (now : ℕ) where
  abbrev IsDispensed : Option Response × Shared h s sem → Type 0
  IsDispensed r =
      (outcome : ReceiptOutcome) × (r.0
        ≡ some (dispensed_response h s sem w from_slice app v tx_hash outcome))

-- The request of a client that solved the puzzles of a challenge as `solve_puzzle` does.
abbrev pub solved_claim :
    (h : Hashes) → PowKeeper → Bytes → Bytes → ℕ → ℕ → ℕ → ℕ → List ℕ → ClaimRequest
solved_claim h keeper address salt bits puzzles ttl issued nonces = record {
  challenge = issue h keeper address bits puzzles ttl issued salt;
  nonces = nonces;
}
