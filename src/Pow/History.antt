-- ===== src/Pow/History.antt =====
-- Histories of calls on one keeper, in the order in which its locks were taken. Every call
-- brings the time that its request read, and these times need not rise along the history.
use atlas_faucet.Prelude.{
  ℕ, ◌-◌, ◌≤◌, ◌<◌, ◌≡◌, ◌≢◌, true, false, List, [], ◌∷◌, Bytes, bytes_eq_iff, bytes_eq_refl, arith,
  All, some, ok, err, insert, remove, retain, contains_key, ◌⊎◌,
}
use atlas_faucet.Prelude.Words.{saturating_add_u64}
use atlas_faucet.Pow.Keeper.{PowKeeper, consume_salt, release_salt, try_begin_claim, release_claim}

-- The four calls that change a keeper.
pub data Call : Type 0 where
  consumes : Bytes → ℕ → ℕ → Call
  frees : Bytes → Call
  begins : Bytes → ℕ → ℕ → Call
  undoes : Bytes → ℕ → Call

unfoldable pub step : PowKeeper → Call → PowKeeper
step keeper (consumes salt expires_at now) = (consume_salt keeper salt expires_at now).0
step keeper (frees salt) = release_salt keeper salt
step keeper (begins address cooldown now) = (try_begin_claim keeper address cooldown now).0
step keeper (undoes address reserved_at) = release_claim keeper address reserved_at

unfoldable pub run : PowKeeper → List Call → PowKeeper
unfolding step
run keeper [] = keeper
run keeper (c ∷ calls) = run (step keeper c) calls

-- A call that does not release the salt, and does not prune it: its time is not past the expiry.
abbrev pub KeepsSalt : Bytes → ℕ → Call → Type 0
KeepsSalt salt exp (consumes other expires_at now) = now ≤ exp
KeepsSalt salt exp (frees other) = other ≢ salt
KeepsSalt salt exp (begins address cooldown now) = Unit
KeepsSalt salt exp (undoes address reserved_at) = Unit

step-KeepsSalt :
    (keeper : PowKeeper) (salt : Bytes) (exp : ℕ) (c : Call)
    → keeper.consumed salt ≡ some exp
    → KeepsSalt salt exp c
    → (step keeper c).consumed salt ≡ some exp
unfolding step consume_salt release_salt try_begin_claim release_claim retain insert remove
    contains_key
step-KeepsSalt keeper salt exp (consumes other expires_at now) e k =
    ground (arith, bytes_eq_iff other salt)
step-KeepsSalt keeper salt exp (frees other) e k = ground (arith, bytes_eq_iff other salt)
step-KeepsSalt keeper salt exp (begins address cooldown now) e k = ground arith
step-KeepsSalt keeper salt exp (undoes address reserved_at) e k = ground arith

run-KeepsSalt :
    (calls : List Call) (keeper : PowKeeper) (salt : Bytes) (exp : ℕ)
    → keeper.consumed salt ≡ some exp
    → All (KeepsSalt salt exp) calls
    → (run keeper calls).consumed salt ≡ some exp
unfolding run
run-KeepsSalt [] keeper salt exp e k = e
run-KeepsSalt (c ∷ calls) keeper salt exp e k =
    run-KeepsSalt calls (step keeper c) salt exp (step-KeepsSalt keeper salt exp c e k.0) k.1

-- No replay: a salt that was consumed with an expiry is not consumed again at a time up to that
-- expiry, after any calls none of which releases it or runs at a time past the expiry.
pub consume_salt_once :
    (keeper : PowKeeper) (salt : Bytes) (exp now : ℕ) (calls : List Call) (exp' later : ℕ)
    → (consume_salt keeper salt exp now).1 ≡ true
    → All (KeepsSalt salt exp) calls
    → later ≤ exp
    → (consume_salt (run (consume_salt keeper salt exp now).0 calls) salt exp' later).1 ≡ false
consume_salt_once keeper salt exp now calls exp' later won k le =
    refused _ (run-KeepsSalt calls _ salt exp recorded k)
  where
    recorded : (consume_salt keeper salt exp now).0.consumed salt ≡ some exp
    recorded = unfold consume_salt retain insert contains_key in ground (arith, bytes_eq_refl salt)

    refused :
        (after : PowKeeper)
        → after.consumed salt ≡ some exp
        → (consume_salt after salt exp' later).1 ≡ false
    refused after e = unfold consume_salt retain contains_key in ground (arith)

-- After a salt was consumed, a call for another salt at a time past the first one's expiry
-- forgets its entry, and the salt is then consumed again, whatever time that call brings.
pub consume_salt_again :
    (keeper : PowKeeper) (salt other : Bytes) (exp now exp' late exp'' early : ℕ)
    → (consume_salt keeper salt exp now).1 ≡ true
    → other ≢ salt
    → exp < late
    → (consume_salt
        (run (consume_salt keeper salt exp now).0 (consumes other exp' late ∷ []))
        salt
        exp''
        early).1
      ≡ true
unfolding run consume_salt retain insert contains_key
consume_salt_again keeper salt other exp now exp' late exp'' early won apart past =
    ground (arith, bytes_eq_iff other salt, bytes_eq_refl salt)

-- A call that leaves the reservation of an address alone: it does not undo it, and it begins
-- claims under the same cooldown, before the end of this one.
abbrev pub KeepsClaim : Bytes → ℕ → ℕ → Call → Type 0
KeepsClaim address cooldown last (consumes salt expires_at now) = Unit
KeepsClaim address cooldown last (frees salt) = Unit
KeepsClaim address cooldown last (begins other cooldown' now) =
    (cooldown' ≡ cooldown) × (now < saturating_add_u64 last cooldown)
KeepsClaim address cooldown last (undoes other reserved_at) =
    (other ≢ address) ⊎ (reserved_at ≢ last)

step-KeepsClaim :
    (keeper : PowKeeper) (address : Bytes) (cooldown last : ℕ) (c : Call)
    → keeper.last_claim address ≡ some last
    → KeepsClaim address cooldown last c
    → (step keeper c).last_claim address ≡ some last
unfolding step consume_salt release_salt try_begin_claim release_claim retain insert remove
    contains_key
step-KeepsClaim keeper address cooldown last (consumes salt expires_at now) e k = ground arith
step-KeepsClaim keeper address cooldown last (frees salt) e k = e
step-KeepsClaim keeper address cooldown last (begins other cooldown' now) e k =
    ground (arith, bytes_eq_iff other address)
step-KeepsClaim keeper address cooldown last (undoes other reserved_at) e k =
    ground (arith, bytes_eq_iff other address)

run-KeepsClaim :
    (calls : List Call) (keeper : PowKeeper) (address : Bytes) (cooldown last : ℕ)
    → keeper.last_claim address ≡ some last
    → All (KeepsClaim address cooldown last) calls
    → (run keeper calls).last_claim address ≡ some last
unfolding run
run-KeepsClaim [] keeper address cooldown last e k = e
run-KeepsClaim (c ∷ calls) keeper address cooldown last e k =
    run-KeepsClaim calls (step keeper c) address cooldown last
      (step-KeepsClaim keeper address cooldown last c e k.0) k.1

-- One drip per cooldown: under a positive cooldown, after a reservation every later one of the
-- same address is refused until the cooldown is over, with the seconds that remain, after any
-- calls none of which undoes the reservation, or begins a claim under another cooldown or past
-- the end of this one.
pub try_begin_claim_spaced :
    (keeper : PowKeeper) (address : Bytes) (cooldown now : ℕ) (calls : List Call) (later : ℕ)
    → 0 < cooldown
    → (try_begin_claim keeper address cooldown now).1 ≡ ok tt
    → All (KeepsClaim address cooldown now) calls
    → later < saturating_add_u64 now cooldown
    → (try_begin_claim
        (run (try_begin_claim keeper address cooldown now).0 calls)
        address
        cooldown
        later).1
      ≡ err (saturating_add_u64 now cooldown - later)
try_begin_claim_spaced keeper address cooldown now calls later pos won k lt =
    refused _ (run-KeepsClaim calls _ address cooldown now recorded k)
  where
    recorded : (try_begin_claim keeper address cooldown now).0.last_claim address ≡ some now
    recorded = unfold try_begin_claim retain insert in ground (arith, bytes_eq_refl address)

    refused :
        (after : PowKeeper)
        → after.last_claim address ≡ some now
        → (try_begin_claim after address cooldown later).1
          ≡ err (saturating_add_u64 now cooldown - later)
    refused after e = unfold try_begin_claim retain in ground arith
