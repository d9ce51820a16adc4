-- ===== src/Pow/Solution.antt =====
-- `verify_solution` and `solve_puzzle` against the predicate that a nonce solves a puzzle.
use atlas_faucet.Prelude.{
  ℕ, zero, suc, ◌+◌, ◌^◌, ◌≤◌, ◌<◌, ◌≡◌, ◌↔◌, refl, subst, List, [], ◌∷◌, Bytes, arith, length,
  get_elem?, some, ltb, ok, err, inl, inr, Bool-cases,
}
use atlas_faucet.Prelude.Words.{IsU32, as_u32}
use atlas_faucet.Hashes.{Hashes}
use atlas_faucet.Util.{leading_zero_bits}
use atlas_faucet.Pow.Defs.{
  VerifiedChallenge, PowError, puzzle_unsolved, puzzle_hash, solution_loop, verify_solution,
}

module _ (h : Hashes) where
  -- The nonce gives the puzzle's hash at least `bits` leading zero bits.
  abbrev pub Solves : Bytes → Bytes → ℕ → ℕ → ℕ → Type 0
  Solves salt address bits index nonce =
      bits ≤ leading_zero_bits (puzzle_hash h salt address index nonce)

  -- Each nonce solves the puzzle of its position, counted from `index`.
  abbrev AllSolve : VerifiedChallenge → ℕ → List ℕ → Type 0
  AllSolve v index [] = Unit {0}
  AllSolve v index (n ∷ ns) = Solves v.salt v.address v.bits index n × AllSolve v (index + 1) ns

  AllSolve-get :
      (v : VerifiedChallenge) (index : ℕ) (ns : List ℕ)
      → AllSolve v index ns
      → (k n : ℕ) → get_elem? ns k ≡ some n
      → Solves v.salt v.address v.bits (index + k) n
  AllSolve-get v index [] a k n e = cc
  AllSolve-get v index (m ∷ ns) a zero n e = ground (arith, a.0)
  AllSolve-get v index (m ∷ ns) a (suc k) n e =
      let same : index + 1 + k ≡ index + suc k = omega arith in
      rw (← same) (AllSolve-get v (index + 1) ns a.1 k n e)

  AllSolve-of_get :
      (v : VerifiedChallenge) (index : ℕ) (ns : List ℕ)
      → ((k n : ℕ) → get_elem? ns k ≡ some n → Solves v.salt v.address v.bits (index + k) n)
      → AllSolve v index ns
  AllSolve-of_get v index [] f = tt
  AllSolve-of_get v index (m ∷ ns) f =
      let same : index + 0 ≡ index = omega arith in
      (
        rw same at (f 0 m refl),
        AllSolve-of_get v (index + 1) ns λ k n e.
            (let next : index + suc k ≡ index + 1 + k = omega arith in rw next at (f (suc k) n e)),
      )

  solution_loop_iff :
      (v : VerifiedChallenge) (index : ℕ) (ns : List ℕ)
      → index + length ns ≤ 2 ^ 32
      → (solution_loop h v index ns ≡ ok tt) ↔ AllSolve v index ns
  unfolding solution_loop
  solution_loop_iff v index [] fits = (λ e. tt, λ a. refl)
  solution_loop_iff v index (n ∷ ns) fits =
      let ih = solution_loop_iff v (index + 1) ns (omega arith) in
      let same : as_u32 index ≡ index = omega arith in
      rw same (λ e. ground (arith, ih.0), λ a. ground (arith, ih.1))

  -- Of a challenge whose number of puzzles is a u32, a solution is accepted exactly when the
  -- challenge asks for work, there is one nonce for each puzzle, and each nonce solves the
  -- puzzle of its position.
  pub verify_solution_iff :
      (v : VerifiedChallenge) (nonces : List ℕ)
      → IsU32 v.puzzles
      → (verify_solution h v nonces ≡ ok tt) ↔ (
          (0 < v.puzzles)
          × (0 < v.bits)
          × (length nonces ≡ v.puzzles)
          × ((k n : ℕ) → get_elem? nonces k ≡ some n → Solves v.salt v.address v.bits k n))
  unfolding verify_solution
  verify_solution_iff v nonces fits =
      let loop = solution_loop_iff v 0 nonces in
      (
        λ e.
            let facts : (0 < v.puzzles)
                × (0 < v.bits)
                × (length nonces ≡ v.puzzles)
                × (solution_loop h v 0 nonces ≡ ok tt) =
              ground arith in
            let all = (loop (omega (arith, facts))).0 facts.3 in
            (
              facts.0,
              facts.1,
              facts.2,
              λ k n g.
                  subst (λ i. Solves v.salt v.address v.bits i n) (omega arith)
                    (AllSolve-get v 0 nonces all k n g),
            ),
        λ (p, b, l, f).
            let all =
              AllSolve-of_get v 0 nonces
                λ k n g. subst (λ i. Solves v.salt v.address v.bits i n) (omega arith) (f k n g) in
            ground (arith, p, b, l, (loop (omega (arith, l))).1 all),
      )

  -- The error names the first puzzle, counted from `index`, that its nonce does not solve.
  abbrev FirstUnsolved : VerifiedChallenge → ℕ → List ℕ → PowError → Type 0
  FirstUnsolved v index ns x =
      (k n : ℕ) × (x ≡ puzzle_unsolved (index + k))
      × (get_elem? ns k ≡ some n)
      × (¬ Solves v.salt v.address v.bits (index + k) n)
      × ((j m : ℕ) → j < k → get_elem? ns j ≡ some m → Solves v.salt v.address v.bits (index + j) m)

  FirstUnsolved-cons :
      (v : VerifiedChallenge) (index n : ℕ) (ns : List ℕ) (x : PowError)
      → Solves v.salt v.address v.bits index n
      → FirstUnsolved v (index + 1) ns x
      → FirstUnsolved v index (n ∷ ns) x
  FirstUnsolved-cons v index n ns x s (k, m, is, at, fails, before) =
      let shift : index + 1 + k ≡ index + suc k = omega arith in
      (suc k, m, rw shift at is, at, rw shift at fails, earlier)
    where
      earlier :
          (j m : ℕ)
          → j < suc k
          → get_elem? (n ∷ ns) j ≡ some m
          → Solves v.salt v.address v.bits (index + j) m
      earlier zero m lt g = ground (arith, s)
      earlier (suc j) m lt g =
          subst (λ i. Solves v.salt v.address v.bits i m) (omega arith) (before j m (omega arith) g)

  solution_loop-FirstUnsolved :
      (v : VerifiedChallenge) (index : ℕ) (ns : List ℕ) (x : PowError)
      → index + length ns ≤ 2 ^ 32
      → solution_loop h v index ns ≡ err x
      → FirstUnsolved v index ns x
  unfolding solution_loop
  solution_loop-FirstUnsolved v index [] x fits e = absurd (cc)
  solution_loop-FirstUnsolved v index (n ∷ ns) x fits e =
      let small : as_u32 index ≡ index = omega arith in
      elim (Bool-cases (ltb (leading_zero_bits (puzzle_hash h v.salt v.address index n)) v.bits)) [
        | inl miss ↦ (
          0,
          n,
          ground arith,
          refl,
          (λ (s : Solves v.salt v.address v.bits (index + 0) n). ground (arith, s)),
          λ j m lt g. elim lt [ ],
        )
        | inr hit ↦
            FirstUnsolved-cons v index n ns x (ground arith)
              (solution_loop-FirstUnsolved v (index + 1) ns x (omega arith) (ground arith))
      ]

  -- Of a challenge that asks for work, whose number of puzzles is a u32 and has its number of
  -- nonces, a refused solution is reported at the first puzzle that its nonce does not solve.
  pub verify_solution_unsolved :
      (v : VerifiedChallenge) (nonces : List ℕ) (x : PowError)
      → IsU32 v.puzzles
      → 0 < v.puzzles
      → 0 < v.bits
      → length nonces ≡ v.puzzles
      → verify_solution h v nonces ≡ err x
      → (k n : ℕ) × (x ≡ puzzle_unsolved k)
        × (get_elem? nonces k ≡ some n)
        × (¬ Solves v.salt v.address v.bits k n)
        × ((j m : ℕ) → j < k → get_elem? nonces j ≡ some m → Solves v.salt v.address v.bits j m)
  unfolding verify_solution
  verify_solution_unsolved v nonces x fits p b l e =
      let (k, n, is, at, fails, before) =
        solution_loop-FirstUnsolved v 0 nonces x (omega (arith, l)) (ground arith) in
      let same : 0 + k ≡ k = omega arith in
      (
        k,
        n,
        rw same at is,
        at,
        rw same at fails,
        λ j m lt g. subst (λ i. Solves v.salt v.address v.bits i m) (omega arith) (before j m lt g),
      )
