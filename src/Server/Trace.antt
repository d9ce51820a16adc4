-- ===== src/Server/Trace.antt =====
-- What the interleaved claims have gone through: the challenges that were accepted, each with the
-- time that its claim read, and the transfers that the node acknowledged.
use atlas_faucet.Prelude.{ℕ, ◌≡◌, Option, some, List, [], ◌∷◌, ◌++◌, Bytes}
use atlas_faucet.Hashes.{Hashes}
use atlas_faucet.Secp.{Secp}
use atlas_faucet.Semaphore.{Semaphore}
use atlas_faucet.World.{World}
use atlas_faucet.Pow.{VerifiedChallenge}
use atlas_faucet.Server.{ClaimRequest, AppState, Shared}
use atlas_faucet.Server.Phases.{
  Phase, arrived, reserving, sending, leaving, replied, advance, Reaches, arrives, steps, stays,
  goes,
}

pub data Mark : Type 0 where
  accepted paid : VerifiedChallenge → ℕ → Mark

abbrev mark_accepted : ℕ → Phase → List Mark → List Mark
mark_accepted now (replied response) marks = marks
mark_accepted now (reserving v read_at) marks = accepted v now ∷ marks
mark_accepted now _ marks = marks

abbrev mark_paid : VerifiedChallenge → ℕ → Phase → List Mark → List Mark
mark_paid v now (replied response) marks = marks
mark_paid v now (leaving u tx_hash) marks = paid v now ∷ marks
mark_paid v now _ marks = marks

-- The marks after a claim's step from a phase to a phase, the newest first.
abbrev pub mark : Phase → Phase → List Mark → List Mark
mark (arrived body now) next marks = mark_accepted now next marks
mark (sending v now gas_price nonce) next marks = mark_paid v now next marks
mark (replied response) next marks = marks
mark _ next marks = marks

module _ (h : Hashes) (s : Secp) (sem : Semaphore) (w : World)
    (from_slice : Bytes → Option ClaimRequest) (app : AppState h s) where
  pub data Traces (first : Shared h s sem × List Phase)
      : List Mark → Shared h s sem × List Phase → Type 0 where
    starts : Traces first [] first
    enters :
        (marks : List Mark) (shared : Shared h s sem) (claims : List Phase) (body : Bytes) (now : ℕ)
        → Traces first marks (shared, claims)
        → Traces first marks (shared, arrived body now ∷ claims)
    moves :
        (marks : List Mark) (shared : Shared h s sem) (front : List Phase) (phase : Phase)
        (rest : List Phase) (later : Shared h s sem) (next : Phase)
        → Traces first marks (shared, front ++ (phase ∷ rest))
        → advance h s sem w from_slice app shared phase ≡ some (later, next)
        → Traces first (mark phase next marks) (later, front ++ (next ∷ rest))

  -- The traces are those of the interleavings.
  pub Reaches-Traces :
      (first last : Shared h s sem × List Phase)
      → Reaches h s sem w from_slice app first last
      → (marks : List Mark) × Traces first marks last
  Reaches-Traces _ _ (stays system) = ([], starts)
  Reaches-Traces _ _ (goes first _ _ before (arrives shared claims body now)) =
      let (marks, traced) = Reaches-Traces first (shared, claims) before in
      (marks, enters marks shared claims body now traced)
  Reaches-Traces _ _ (goes first _ _ before (steps shared front phase rest later next e)) =
      let (marks, traced) = Reaches-Traces first (shared, front ++ (phase ∷ rest)) before in
      (mark phase next marks, moves marks shared front phase rest later next traced e)

  pub Traces-Reaches :
      (first last : Shared h s sem × List Phase) (marks : List Mark)
      → Traces first marks last
      → Reaches h s sem w from_slice app first last
  Traces-Reaches first _ _ starts = stays first
  Traces-Reaches first _ _ (enters marks shared claims body now before) =
      goes first (shared, claims) (shared, arrived body now ∷ claims)
        (Traces-Reaches first (shared, claims) marks before) (arrives shared claims body now)
  Traces-Reaches first _ _ (moves marks shared front phase rest later next before e) =
      goes first (shared, front ++ (phase ∷ rest)) (later, front ++ (next ∷ rest))
        (Traces-Reaches first (shared, front ++ (phase ∷ rest)) marks before)
        (steps shared front phase rest later next e)
