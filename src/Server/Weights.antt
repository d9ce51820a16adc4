-- ===== src/Server/Weights.antt =====
-- What the claims hold: the permits and the lock, by phase and in total.
use atlas_faucet.Prelude.{ℕ, ◌+◌, ◌≡◌, Bool, true, false, List, [], ◌∷◌, ◌++◌, arith}
use atlas_faucet.Server.Phases.{
  Phase, arrived, reserving, admitting, burning, queueing, submitting, funding, counting, sending,
  leaving, failing, reusing, awaiting, refusing, undoing, unburning, replied,
}

-- Whether a claim holds a permit, and whether it holds the lock.
unfoldable pub permits_of : Phase → ℕ
permits_of (burning v now) = 1
permits_of (queueing v now) = 1
permits_of (submitting v now) = 1
permits_of (funding v now gas_price) = 1
permits_of (counting v now gas_price) = 1
permits_of (sending v now gas_price nonce) = 1
permits_of (leaving v tx_hash) = 1
permits_of (failing v now e) = 1
permits_of (reusing v now) = 1
permits_of (arrived body now) = 0
permits_of (reserving v now) = 0
permits_of (admitting v now) = 0
permits_of (awaiting v tx_hash) = 0
permits_of (refusing v now response) = 0
permits_of (undoing v now e) = 0
permits_of (unburning v e) = 0
permits_of (replied response) = 0

unfoldable pub locks_of : Phase → ℕ
locks_of (submitting v now) = 1
locks_of (funding v now gas_price) = 1
locks_of (counting v now gas_price) = 1
locks_of (sending v now gas_price nonce) = 1
locks_of (burning v now) = 0
locks_of (queueing v now) = 0
locks_of (leaving v tx_hash) = 0
locks_of (failing v now e) = 0
locks_of (reusing v now) = 0
locks_of (arrived body now) = 0
locks_of (reserving v now) = 0
locks_of (admitting v now) = 0
locks_of (awaiting v tx_hash) = 0
locks_of (refusing v now response) = 0
locks_of (undoing v now e) = 0
locks_of (unburning v e) = 0
locks_of (replied response) = 0

unfoldable pub total : (Phase → ℕ) → List Phase → ℕ
total weight [] = 0
total weight (claim ∷ claims) = weight claim + total weight claims

pub total-append :
    (weight : Phase → ℕ) (front rest : List Phase)
    → total weight (front ++ rest) ≡ total weight front + total weight rest
unfolding total
total-append weight [] rest = omega arith
total-append weight (claim ∷ front) rest = omega (arith, total-append weight front rest)

-- A claim in the middle changes a total by its own change.
pub total-step :
    (weight : Phase → ℕ) (front : List Phase) (phase next : Phase) (rest : List Phase)
    → total weight (front ++ (next ∷ rest)) + weight phase
      ≡ total weight (front ++ (phase ∷ rest)) + weight next
unfolding total
total-step weight front phase next rest =
    omega (arith, total-append weight front (next ∷ rest), total-append weight front (phase ∷ rest))

abbrev pub bit : Bool → ℕ
bit true = 1
bit false = 0
