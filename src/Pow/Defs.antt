-- ===== src/Pow/Defs.antt =====
-- The proof of work and HMAC-SHA256. A section's parameter stands for the hash functions.
use Prim.Native.Nat.{bit_xor}
use atlas_faucet.Prelude.{
  ℕ, zero, suc, ◌+◌, ◌-◌, ◌^◌, ◌||◌, Option, none, some, List, [], ◌∷◌, ◌++◌, map, Bytes, Result,
  ok, err, ltb, leb, ◌==◌, if◌then◌else◌, length, replicate,
}
use atlas_faucet.Prelude.Words.{as_u32, le_bytes_u32}
use atlas_faucet.Hashes.{Hashes}
use atlas_faucet.Util.{leading_zero_bits}

pub record VerifiedChallenge : Type 0 where
  pub salt : Bytes
  pub address : Bytes
  pub bits : ℕ
  pub puzzles : ℕ
  pub expires_at : ℕ

pub data PowError : Type 0 where
  wrong_nonces : ℕ → ℕ → PowError
  puzzle_unsolved : ℕ → PowError

module _ (h : Hashes) where
  open h use {sha256}

  unfoldable pub puzzle_hash : Bytes → Bytes → ℕ → ℕ → Bytes
  puzzle_hash salt address index nonce =
      sha256 (salt ++ (address ++ (le_bytes_u32 index ++ le_bytes_u32 nonce)))

  -- The loop over `nonces.iter().enumerate()`, from `index` on.
  unfoldable pub solution_loop : VerifiedChallenge → ℕ → List ℕ → Result PowError (Unit {0})
  solution_loop challenge index [] = ok tt
  solution_loop challenge index (nonce ∷ nonces) =
      let rest = solution_loop challenge (index + 1) nonces in
      let hash = puzzle_hash challenge.salt challenge.address (as_u32 index) nonce in
      if ltb (leading_zero_bits hash) challenge.bits
      then err (puzzle_unsolved (as_u32 index))
      else rest

  unfoldable pub verify_solution : VerifiedChallenge → List ℕ → Result PowError (Unit {0})
  verify_solution challenge nonces =
      if challenge.puzzles == 0 || challenge.bits == 0
      then err (puzzle_unsolved 0)
      else if length nonces == challenge.puzzles
      then solution_loop challenge 0 nonces
      else err (wrong_nonces challenge.puzzles (length nonces))

  -- The loop from `nonce` on, with the number of nonces that are left up to `u32::MAX`. `none` is
  -- the panic "nonce space exhausted".
  unfoldable pub solve_loop : Bytes → Bytes → ℕ → ℕ → ℕ → ℕ → Option ℕ
  solve_loop salt address bits index zero nonce = none
  solve_loop salt address bits index (suc left) nonce =
      let rest = solve_loop salt address bits index left (nonce + 1) in
      if leb bits (leading_zero_bits (puzzle_hash salt address index nonce))
      then some nonce
      else rest

  unfoldable pub solve_puzzle : Bytes → Bytes → ℕ → ℕ → Option ℕ
  solve_puzzle salt address bits index = solve_loop salt address bits index (2 ^ 32) 0

  -- The 64 bytes of `block_key`: the key, or its digest if it is longer, and zeros.
  unfoldable pub block_key : Bytes → Bytes
  block_key key =
      let short = if ltb 64 (length key) then sha256 key else key in
      short ++ replicate (64 - length short) 0

  unfoldable pub hmac_sha256 : Bytes → Bytes → Bytes
  unfolding block_key
  hmac_sha256 key message =
      let ipad = map (bit_xor 0x36) (block_key key) in
      let opad = map (bit_xor 0x5c) (block_key key) in sha256 (opad ++ sha256 (ipad ++ message))
