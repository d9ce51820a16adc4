-- ===== src/Pow/Solver.antt =====
-- `solve_puzzle` finds the least solution, and its nonces pass `verify_solution`.
use native.Mathlib.Decide.{dec_lt}
use atlas_faucet.Prelude.{
  ℕ, zero, suc, ◌+◌, ◌^◌, ◌≤◌, ◌<◌, ◌≡◌, false, List, Bytes, arith, length, get_elem?, none, some,
  leb, ok, inl, inr, Bool-cases,
}
use atlas_faucet.Prelude.Words.{IsU32}
use atlas_faucet.Hashes.{Hashes}
use atlas_faucet.Util.{leading_zero_bits}
use atlas_faucet.Pow.Defs.{
  VerifiedChallenge, puzzle_hash, verify_solution, solve_loop, solve_puzzle,
}
use atlas_faucet.Pow.Solution.{Solves, verify_solution_iff}

module _ (h : Hashes) where
  -- The least nonce from `nonce` on, of the `left` that remain.
  solve_loop-least :
      (salt address : Bytes) (bits index left nonce n : ℕ)
      → solve_loop h salt address bits index left nonce ≡ some n
      → Solves h salt address bits index n
        × (nonce ≤ n)
        × (n < nonce + left)
        × ((m : ℕ) → nonce ≤ m → m < n → ¬ Solves h salt address bits index m)
  unfolding solve_loop
  solve_loop-least salt address bits index zero nonce n e = absurd (cc)
  solve_loop-least salt address bits index (suc left) nonce n e =
      elim (Bool-cases (leb bits (leading_zero_bits (puzzle_hash h salt address index nonce)))) [
        | inl hit ↦
            let same : nonce ≡ n = ground arith in
            (
              ground (arith, same),
              omega (arith, same),
              omega (arith, same),
              λ m lo hi. absurd (omega (arith, same)),
            )
        | inr miss ↦
            let (s, lo, hi, before) =
              solve_loop-least salt address bits index left (nonce + 1) n (ground arith) in
            (
              s,
              omega (arith, lo),
              omega (arith, hi),
              λ m a b sol. elim (dec_lt nonce m) [
                | yes later ↦ before m (omega arith) b sol
                | no here ↦ let same : m ≡ nonce = omega arith in ground (arith, sol, same)
              ],
            )
      ]

  solve_loop-none :
      (salt address : Bytes) (bits index left nonce : ℕ)
      → solve_loop h salt address bits index left nonce ≡ none
      → (m : ℕ) → nonce ≤ m
      → m < nonce + left
      → ¬ Solves h salt address bits index m
  unfolding solve_loop
  solve_loop-none salt address bits index zero nonce e m lo hi sol = absurd (omega arith)
  solve_loop-none salt address bits index (suc left) nonce e m lo hi sol =
      let facts : (leb bits (leading_zero_bits (puzzle_hash h salt address index nonce)) ≡ false)
          × (solve_loop h salt address bits index left (nonce + 1) ≡ none) =
        ground arith in
      elim (dec_lt nonce m) [
        | yes later ↦
            solve_loop-none salt address bits index left (nonce + 1) facts.1 m (omega arith)
              (omega arith) sol
        | no here ↦ let same : m ≡ nonce = omega arith in ground (arith, sol, same, facts.0)
      ]

  -- A nonce that the solver returns is the least `u32` that solves the puzzle; and if the solver
  -- runs out of nonces, no `u32` solves it.
  pub solve_puzzle-least :
      (salt address : Bytes) (bits index : ℕ)
      → ((n : ℕ)
          → solve_puzzle h salt address bits index ≡ some n
          → Solves h salt address bits index n
            × IsU32 n
            × ((m : ℕ) → m < n → ¬ Solves h salt address bits index m))
        × (solve_puzzle h salt address bits index ≡ none
            → (m : ℕ) → IsU32 m
            → ¬ Solves h salt address bits index m)
  unfolding solve_puzzle
  solve_puzzle-least salt address bits index = (
    λ n e.
        let (s, lo, hi, before) = solve_loop-least salt address bits index (2 ^ 32) 0 n e in
        (s, omega (arith, hi), λ m lt. before m (omega arith) lt),
    λ e m lt. solve_loop-none salt address bits index (2 ^ 32) 0 e m (omega arith) (omega arith),
  )

  -- Of a challenge that asks for work, and whose number of puzzles is a u32, the nonces that the
  -- solver returns for the puzzles are a solution.
  pub verify_solution-solve_puzzle :
      (v : VerifiedChallenge) (nonces : List ℕ)
      → IsU32 v.puzzles
      → 0 < v.puzzles
      → 0 < v.bits
      → length nonces ≡ v.puzzles
      → ((k n : ℕ)
          → get_elem? nonces k ≡ some n
          → solve_puzzle h v.salt v.address v.bits k ≡ some n)
      → verify_solution h v nonces ≡ ok tt
  verify_solution-solve_puzzle v nonces fits p b l solved =
      (verify_solution_iff h v nonces fits).1
        (p, b, l, λ k n g. ((solve_puzzle-least v.salt v.address v.bits k).0 n (solved k n g)).0)
