-- ===== src/Pow/Salts.antt =====
-- `consume_salt` and `release_salt`, seen as the set of salts that are burned at a time.
use atlas_faucet.Prelude.{
  ℕ, ◌≤◌, ◌≡◌, Bool, false, not, ◌&&◌, Bytes, bytes_eq, bytes_eq_iff, arith, Option, none, some,
  if◌then◌else◌, leb, insert, remove, retain, contains_key,
}
use atlas_faucet.Pow.Keeper.{PowKeeper, consume_salt, release_salt}

-- The salt is recorded with an expiry that is not before the time.
abbrev pub burned_entry : Option ℕ → ℕ → Bool
burned_entry none t = false
burned_entry (some exp) t = leb t exp

abbrev pub is_burned : PowKeeper → Bytes → ℕ → Bool
is_burned keeper salt t = burned_entry (keeper.consumed salt) t

-- A salt is consumed exactly if it is not burned; then it is burned until its expiry. Every
-- other salt keeps its state from the time of the call on, through the pruning too.
pub consume_salt_lem :
    (keeper : PowKeeper) (salt : Bytes) (expires_at now : ℕ)
    → ((consume_salt keeper salt expires_at now).1 ≡ not (is_burned keeper salt now))
      × ((other : Bytes) (t : ℕ)
          → now ≤ t
          → is_burned (consume_salt keeper salt expires_at now).0 other t ≡ (
              if bytes_eq salt other && not (is_burned keeper salt now)
              then leb t expires_at
              else is_burned keeper other t))
unfolding consume_salt retain contains_key insert
consume_salt_lem keeper salt expires_at now =
    (ground arith, λ other t le. ground (arith, bytes_eq_iff salt other))

-- A released salt is no longer burned, and the others keep their state.
pub release_salt_lem :
    (keeper : PowKeeper) (salt other : Bytes) (t : ℕ)
    → is_burned (release_salt keeper salt) other t
      ≡ (if bytes_eq salt other then false else is_burned keeper other t)
unfolding release_salt remove
release_salt_lem keeper salt other t = ground arith
