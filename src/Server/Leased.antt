-- ===== src/Server/Leased.antt =====
-- A lease: an entry of a map that is alive while its one holder has it; and the counting of marks.
use atlas_faucet.Prelude.{
  ℕ, ◌+◌, ◌≤◌, ◌≡◌, ◌≢◌, Bool, Option, some, List, [], ◌∷◌, arith, ◌⊎◌, inl, inr,
}
use atlas_faucet.Pow.{VerifiedChallenge}
use atlas_faucet.Server.Weights.{bit}
use atlas_faucet.Server.Trace.{Mark, accepted, paid}

-- How many transfers were acknowledged for the claims that a test picks.
abbrev pub Picks : Type 0
Picks = VerifiedChallenge → ℕ → Bool

unfoldable pub count_paid : Picks → List Mark → ℕ
count_paid picks [] = 0
count_paid picks (accepted v now ∷ marks) = count_paid picks marks
count_paid picks (paid v now ∷ marks) = bit (picks v now) + count_paid picks marks

-- A condition on the accepted challenges.
abbrev pub Accepted : (VerifiedChallenge → ℕ → Type 0) → Mark → Type 0
Accepted P (accepted v now) = P v now
Accepted P (paid v now) = Unit

module _ (Alive : ℕ → Type 0) where
  -- A holder, of which there is at most one, has an entry that is alive.
  abbrev pub Leased : ℕ → Option ℕ → Type 0
  Leased n entry = (n ≡ 0) ⊎ ((n ≡ 1) × (e : ℕ) × Alive e × (entry ≡ some e))

  -- What a step does to the entry, and to the number of holders.
  pub data Moved (entry later : Option ℕ) (before after : ℕ) : Type 0 where
    kept :
        before ≡ after
        → ((e : ℕ) → Alive e → entry ≡ some e → later ≡ some e)
        → Moved entry later before after
    taken :
        (e : ℕ)
        → before ≡ 0
        → after ≡ 1
        → ((x : ℕ) → Alive x → entry ≢ some x)
        → Alive e
        → later ≡ some e
        → Moved entry later before after
    freed : before ≡ 1 → after ≡ 0 → Moved entry later before after

  pub Leased-Moved :
      (entry later : Option ℕ) (others before after : ℕ)
      → Leased (others + before) entry
      → Moved entry later before after
      → Leased (others + after) later
  Leased-Moved entry later others before after (inl zero) (kept same keeps) =
      inl (omega (arith, zero, same))
  Leased-Moved entry later others before after (inr (one, e, alive, found)) (kept same keeps) =
      inr (omega (arith, one, same), e, alive, keeps e alive found)
  Leased-Moved entry later others before after (inl zero) (taken e was is free alive found) =
      inr (omega (arith, zero, was, is), e, alive, found)
  Leased-Moved entry later others before after (inr (one, x, living, found))
        (taken e was is free alive finds) =
      absurd (free x living found)
  Leased-Moved entry later others before after (inl zero) (freed was is) =
      inl (omega (arith, zero, was, is))
  Leased-Moved entry later others before after (inr (one, x, living, found)) (freed was is) =
      inl (omega (arith, one, was, is))

  pub Leased-le : (n : ℕ) (entry : Option ℕ) → Leased n entry → n ≤ 1
  Leased-le n entry (inl zero) = omega (arith, zero)
  Leased-le n entry (inr (one, e, alive, found)) = omega (arith, one)
