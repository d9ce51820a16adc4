-- ===== src/Pow/Cooldown.antt =====
-- `cooldown_remaining`, `try_begin_claim` and `release_claim`.
use atlas_faucet.Prelude.{
  ℕ, ◌-◌, ◌≤◌, ◌≡◌, ◌≢◌, ◌&&◌, Bytes, bytes_eq, bytes_eq_iff, bytes_eq_refl, arith, some,
  if◌then◌else◌, ◌==◌, ok, err, insert, remove, retain,
}
use atlas_faucet.Prelude.Words.{saturating_add_u64}
use atlas_faucet.Pow.Keeper.{PowKeeper, cooldown_remaining, try_begin_claim, release_claim}

-- The claim endpoint reserves exactly when the challenge endpoint would find no cooldown left,
-- and otherwise answers with the same number of seconds.
pub try_begin_claim-cooldown_remaining :
    (keeper : PowKeeper) (address : Bytes) (cooldown now : ℕ)
    → (try_begin_claim keeper address cooldown now).1 ≡ (
        if cooldown_remaining keeper address cooldown now == 0
        then ok tt
        else err (cooldown_remaining keeper address cooldown now))
unfolding try_begin_claim cooldown_remaining retain
try_begin_claim-cooldown_remaining keeper address cooldown now = ground arith

-- A reservation starts the cooldown of its address, at its time; a refusal changes no cooldown.
-- Other addresses keep theirs from the time of the call on, through the pruning too.
pub try_begin_claim_lem :
    (keeper : PowKeeper) (address other : Bytes) (cooldown now t : ℕ)
    → now ≤ t
    → cooldown_remaining (try_begin_claim keeper address cooldown now).0 other cooldown t ≡ (
        if bytes_eq address other && (cooldown_remaining keeper address cooldown now == 0)
        then (if cooldown == 0 then 0 else saturating_add_u64 now cooldown - t)
        else cooldown_remaining keeper other cooldown t)
unfolding try_begin_claim cooldown_remaining retain insert
try_begin_claim_lem keeper address other cooldown now t le =
    ground (arith, bytes_eq_iff address other)

-- Undoing a reservation that was granted restores every cooldown that stood before it, at every
-- time from the reservation's on.
pub release_claim-try_begin_claim :
    (keeper : PowKeeper) (address other : Bytes) (cooldown now t : ℕ)
    → now ≤ t
    → (try_begin_claim keeper address cooldown now).1 ≡ ok tt
    → cooldown_remaining
        (release_claim (try_begin_claim keeper address cooldown now).0 address now)
        other
        cooldown
        t
      ≡ cooldown_remaining keeper other cooldown t
unfolding try_begin_claim cooldown_remaining release_claim retain insert remove
release_claim-try_begin_claim keeper address other cooldown now t le e =
    ground (arith, bytes_eq_iff address other, bytes_eq_refl address)

-- A release with another time than the reservation's changes nothing.
pub release_claim_other :
    (keeper : PowKeeper) (address : Bytes) (reserved_at : ℕ)
    → keeper.last_claim address ≢ some reserved_at
    → release_claim keeper address reserved_at ≡ keeper
unfolding release_claim
release_claim_other keeper address reserved_at ne = ground arith
