-- ===== src/Tests/Puzzles.antt =====
-- The puzzles of src/pow.rs on small inputs.
use atlas_faucet.Prelude.{ℕ, zero, suc, ◌<◌, ◌≡◌, ◌↔◌, none, some, [], ◌∷◌, arith, ok, get_elem?}
use atlas_faucet.Prelude.Words.{IsU32, le_bytes_u32}
use atlas_faucet.Util.{byte_leading_zeros, leading_zero_bits}
use atlas_faucet.Pow.{VerifiedChallenge, puzzle_hash, verify_solution, solve_loop, solve_puzzle}
use atlas_faucet.Pow.Solution.{Solves, verify_solution_iff}
use atlas_faucet.Pow.Solver.{solve_puzzle-least}
use atlas_faucet.Tests.Toys.{toy_hashes, toy_address, sixteen}

abbrev easy : VerifiedChallenge
easy = record { salt = sixteen; address = toy_address; bits = 249; puzzles = 2; expires_at = 1120 }

verify_solution_iff_example : (verify_solution toy_hashes easy (3 ∷ 4 ∷ []) ≡ ok tt) ↔ (
    (0 < 2)
    × (0 < 249)
    × ◌≡◌ {A = ℕ} 2 2
    × ((k n : ℕ)
        → get_elem? (3 ∷ 4 ∷ []) k ≡ some n
        → Solves toy_hashes sixteen toy_address 249 k n))
verify_solution_iff_example = verify_solution_iff toy_hashes easy (3 ∷ 4 ∷ []) (omega arith)

solve_puzzle-least_example :
    ((n : ℕ)
      → solve_puzzle toy_hashes sixteen toy_address 249 1 ≡ some n
      → Solves toy_hashes sixteen toy_address 249 1 n
        × IsU32 n
        × ((m : ℕ) → m < n → ¬ Solves toy_hashes sixteen toy_address 249 1 m))
    × (solve_puzzle toy_hashes sixteen toy_address 249 1 ≡ none
        → (m : ℕ) → IsU32 m
        → ¬ Solves toy_hashes sixteen toy_address 249 1 m)
solve_puzzle-least_example = solve_puzzle-least toy_hashes sixteen toy_address 249 1

-- Only the digest zero solves it.
abbrev hard : VerifiedChallenge
hard = record { salt = sixteen; address = toy_address; bits = 256; puzzles = 2; expires_at = 1120 }

easy_solved :
    (k n : ℕ)
    → get_elem? (0 ∷ 0 ∷ []) k ≡ some n
    → solve_puzzle toy_hashes sixteen toy_address 248 k ≡ some n
unfolding solve_puzzle solve_loop puzzle_hash leading_zero_bits byte_leading_zeros le_bytes_u32
easy_solved zero n e = e
easy_solved (suc zero) n e = e
easy_solved (suc (suc k)) n e = cc
