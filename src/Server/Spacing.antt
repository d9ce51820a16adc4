-- ===== src/Server/Spacing.antt =====
-- One drip for an address and cooldown: the address's entry in `last_claim` is the lease.
use atlas_faucet.Prelude.{
  ℕ, ◌+◌, ◌≤◌, ◌<◌, ◌≡◌, refl, ap, ◌∙◌, Map, Bool, Option, some, List, [], Bytes, bytes_eq,
  bytes_eq_iff, arith, All, insert, remove, retain, ok, err, ltb, ◌&&◌, inl, inr, Bool-cases,
}
use native.Mathlib.Nat.{add-zero}
use atlas_faucet.Prelude.Words.{saturating_add_u64}
use atlas_faucet.Hashes.{Hashes}
use atlas_faucet.Secp.{Secp}
use atlas_faucet.Semaphore.{Semaphore}
use atlas_faucet.World.{World}
use atlas_faucet.Pow.{
  VerifiedChallenge, PowKeeper, consume_salt, release_salt, try_begin_claim, release_claim,
}
use atlas_faucet.Server.{ClaimRequest, AppState, Shared}
use atlas_faucet.Server.Phases.{
  Phase, arrived, reserving, admitting, burning, queueing, submitting, funding, counting, sending,
  leaving, failing, reusing, awaiting, refusing, undoing, unburning, replied,
}
use atlas_faucet.Server.Advances.{
  Advances, rejects, accepts, reserves, cools, admits, crowds, burns, reuses, locks, prices,
  unpriced, funds, underfunded, unfunded, counts, uncounted, pays, fails, leaves, gives_up, drops,
  confirms, refuses, undoes, unburns,
}
use atlas_faucet.Server.Weights.{total, bit}
use atlas_faucet.Server.Trace.{Mark, Traces}
use atlas_faucet.Server.Leased.{count_paid, Accepted, Moved, kept, taken, freed, Leased-le}
use atlas_faucet.Server.Lease.{Awaits, gained, Holding, Traces-Holding}

-- The claims for an address whose cooldown lasts past a time.
abbrev pub recent : Bytes → ℕ → ℕ → VerifiedChallenge → ℕ → Bool
recent address cooldown limit v now =
    bytes_eq v.address address && ltb limit (saturating_add_u64 now cooldown)

-- Those of them that hold the reservation.
abbrev pub reserving_claim : Bytes → ℕ → ℕ → Phase → ℕ
reserving_claim address cooldown limit (arrived body now) = 0
reserving_claim address cooldown limit (reserving v now) = 0
reserving_claim address cooldown limit (admitting v now) = bit (recent address cooldown limit v now)
reserving_claim address cooldown limit (burning v now) = bit (recent address cooldown limit v now)
reserving_claim address cooldown limit (queueing v now) = bit (recent address cooldown limit v now)
reserving_claim address cooldown limit (submitting v now) =
    bit (recent address cooldown limit v now)
reserving_claim address cooldown limit (funding v now gas_price) =
    bit (recent address cooldown limit v now)
reserving_claim address cooldown limit (counting v now gas_price) =
    bit (recent address cooldown limit v now)
reserving_claim address cooldown limit (sending v now gas_price nonce) =
    bit (recent address cooldown limit v now)
reserving_claim address cooldown limit (leaving v tx_hash) = 0
reserving_claim address cooldown limit (failing v now e) = bit (recent address cooldown limit v now)
reserving_claim address cooldown limit (reusing v now) = bit (recent address cooldown limit v now)
reserving_claim address cooldown limit (awaiting v tx_hash) = 0
reserving_claim address cooldown limit (refusing v now response) =
    bit (recent address cooldown limit v now)
reserving_claim address cooldown limit (undoing v now e) = bit (recent address cooldown limit v now)
reserving_claim address cooldown limit (unburning v e) = 0
reserving_claim address cooldown limit (replied response) = 0

abbrev pub Lasts : ℕ → ℕ → ℕ → Type 0
Lasts cooldown limit last = limit < saturating_add_u64 last cooldown

module _ (keeper : PowKeeper) (address : Bytes) (cooldown limit : ℕ) where
  abbrev Reservation : PowKeeper → ℕ → ℕ → Type 0
  Reservation later before after =
      Moved (Lasts cooldown limit) (keeper.last_claim address) (later.last_claim address) before
        after

  try_begin_claim-ok :
      (other : Bytes) (now : ℕ)
      → now ≤ limit
      → 0 < cooldown
      → (v : VerifiedChallenge) → v.address ≡ other
      → (try_begin_claim keeper other cooldown now).1 ≡ ok tt
      → Reservation
          (try_begin_claim keeper other cooldown now).0
          0
          (bit (recent address cooldown limit v now))
  unfolding try_begin_claim retain insert
  try_begin_claim-ok other now early positive v named e =
      elim (Bool-cases (recent address cooldown limit v now)) [
        | inl picked ↦
            taken now refl (rw picked refl)
              (λ x alive found. ground (arith, picked, found, named, bytes_eq_iff other address))
              (ground (arith, picked)) (ground (arith, picked, named, e))
        | inr passed ↦
            kept (rw passed refl)
              (λ x alive found. ground (arith, passed, found, named, e, bytes_eq_iff other address))
      ]

  try_begin_claim-err :
      (other : Bytes) (now remaining : ℕ)
      → now ≤ limit
      → (try_begin_claim keeper other cooldown now).1 ≡ err remaining
      → (x : ℕ) → Lasts cooldown limit x
      → keeper.last_claim address ≡ some x
      → (try_begin_claim keeper other cooldown now).0.last_claim address ≡ some x
  unfolding try_begin_claim retain
  try_begin_claim-err other now remaining early e x alive found = ground arith

  consume_salt-last_claim :
      (salt : Bytes) (expires_at now : ℕ)
      → (consume_salt keeper salt expires_at now).0.last_claim ≡ keeper.last_claim
  unfolding consume_salt
  consume_salt-last_claim salt expires_at now = ground arith

  release_claim-Moved :
      (v : VerifiedChallenge) (now : ℕ)
      → Reservation
          (release_claim keeper v.address now)
          (bit (recent address cooldown limit v now))
          0
  unfolding release_claim remove
  release_claim-Moved v now = elim (Bool-cases (recent address cooldown limit v now)) [
    | inl picked ↦ freed (rw picked refl) refl
    | inr passed ↦
        kept (rw passed refl)
          (λ x alive found. ground (arith, passed, found, bytes_eq_iff v.address address))
  ]

-- No claim reads a later time.
abbrev pub UpTo : ℕ → VerifiedChallenge → ℕ → Type 0
UpTo limit v now = now ≤ limit

module _ (h : Hashes) (s : Secp) (sem : Semaphore) (w : World)
    (from_slice : Bytes → Option ClaimRequest) (app : AppState h s) (address : Bytes) (limit : ℕ)
    (positive : 0 < app.cooldown_secs) where
  abbrev picks : VerifiedChallenge → ℕ → Bool
  picks = recent address app.cooldown_secs limit

  abbrev holds : Phase → ℕ
  holds = reserving_claim address app.cooldown_secs limit

  still :
      (entry later : Option ℕ) (n m : ℕ)
      → n ≡ m
      → later ≡ entry
      → Moved (Lasts app.cooldown_secs limit) entry later n m
  still entry later n m same kept_entry = kept same (λ x alive found. kept_entry ∙ found)

  Advances-Moved :
      (shared later : Shared h s sem) (phase next : Phase)
      → Awaits h s sem w from_slice app (UpTo limit) phase
      → Advances h s sem w from_slice app shared phase later next
      → Moved
          (Lasts app.cooldown_secs limit)
          (shared.keeper.last_claim address)
          (later.keeper.last_claim address)
          (holds phase)
          (holds next + gained h s sem w from_slice app (UpTo limit) picks phase next)
  unfolding count_paid release_salt
  Advances-Moved _ _ _ _ fits (rejects shared body now response why) = still _ _ _ _ refl refl
  Advances-Moved _ _ _ _ fits (accepts shared body now request v parsed e) = still _ _ _ _ refl refl
  Advances-Moved _ _ _ _ fits (reserves shared v now e) = rw (add-zero (bit (picks v now))) (
      try_begin_claim-ok shared.keeper address app.cooldown_secs limit v.address now fits positive v
        refl e)
  Advances-Moved _ _ _ _ fits (cools shared v now remaining e) = kept refl (
      try_begin_claim-err shared.keeper address app.cooldown_secs limit v.address now remaining fits
        e)
  Advances-Moved _ _ _ _ fits (admits shared v now permits e) = still _ _ _ _ (omega arith) refl
  Advances-Moved _ _ _ _ fits (crowds shared v now e) = still _ _ _ _ (omega arith) refl
  Advances-Moved _ _ _ _ fits (burns shared v now e) = still _ _ _ _ (omega arith) (
      ap (λ (m : Map ℕ). m address)
        (consume_salt-last_claim shared.keeper address app.cooldown_secs limit v.salt v.expires_at
          now))
  Advances-Moved _ _ _ _ fits (reuses shared v now e) = still _ _ _ _ (omega arith) (
      ap (λ (m : Map ℕ). m address)
        (consume_salt-last_claim shared.keeper address app.cooldown_secs limit v.salt v.expires_at
          now))
  Advances-Moved _ _ _ _ fits (locks shared v now free) = still _ _ _ _ (omega arith) refl
  Advances-Moved _ _ _ _ fits (pays shared v now gas_price nonce tx_hash e) =
      still _ _ _ _ (omega arith) refl
  Advances-Moved _ _ _ _ fits (prices shared v now gas_price e) = still _ _ _ _ (omega arith) refl
  Advances-Moved _ _ _ _ fits (funds shared v now gas_price balance e tested) =
      still _ _ _ _ (omega arith) refl
  Advances-Moved _ _ _ _ fits (counts shared v now gas_price nonce e) =
      still _ _ _ _ (omega arith) refl
  Advances-Moved _ _ _ _ fits (unpriced shared v now x e) = still _ _ _ _ (omega arith) refl
  Advances-Moved _ _ _ _ fits (underfunded shared v now gas_price balance e tested) =
      still _ _ _ _ (omega arith) refl
  Advances-Moved _ _ _ _ fits (unfunded shared v now gas_price x e) =
      still _ _ _ _ (omega arith) refl
  Advances-Moved _ _ _ _ fits (uncounted shared v now gas_price x e) =
      still _ _ _ _ (omega arith) refl
  Advances-Moved _ _ _ _ fits (fails shared v now gas_price nonce x e) =
      still _ _ _ _ (omega arith) refl
  Advances-Moved _ _ _ _ fits (leaves shared v tx_hash) = still _ _ _ _ refl refl
  Advances-Moved _ _ _ _ fits (gives_up shared v now x) = still _ _ _ _ (omega arith) refl
  Advances-Moved _ _ _ _ fits (drops shared v now) = still _ _ _ _ (omega arith) refl
  Advances-Moved _ _ _ _ fits (confirms shared v tx_hash outcome past e) = still _ _ _ _ refl refl
  Advances-Moved _ _ _ _ fits (refuses shared v now response) =
      release_claim-Moved shared.keeper address app.cooldown_secs limit v now
  Advances-Moved _ _ _ _ fits (undoes shared v now x) =
      release_claim-Moved shared.keeper address app.cooldown_secs limit v now
  Advances-Moved _ _ _ _ fits (unburns shared v x) = still _ _ _ _ refl refl

  -- However claims interleave, from a server with no claims in progress, under a positive
  -- cooldown, and up to a time that no accepted claim has read a later one than: of the claims
  -- for an address whose cooldown, counted from the time that they read, lasts past that time,
  -- at most one had its transfer acknowledged by the node or is in progress with the reservation
  -- of the address.
  pub paid_apart :
      (first last : Shared h s sem × List Phase) (marks : List Mark)
      → first.1 ≡ []
      → Traces h s sem w from_slice app first marks last
      → All (Accepted (UpTo limit)) marks
      → count_paid (recent address app.cooldown_secs limit) marks
          + total (reserving_claim address app.cooldown_secs limit) last.1
        ≤ 1
  paid_apart first last marks none_yet traced fits =
      Leased-le (Lasts app.cooldown_secs limit) _ _ held.leased
    where
      held :
          Holding h s sem w from_slice app
            (UpTo limit)
            (Lasts app.cooldown_secs limit)
            picks
            holds
            (λ (k : PowKeeper). k.last_claim address)
            (λ body now. refl)
            Advances-Moved
            marks
            last
      held =
          Traces-Holding h s sem w from_slice app (UpTo limit) (Lasts app.cooldown_secs limit) picks
            holds (λ (k : PowKeeper). k.last_claim address) (λ body now. refl) Advances-Moved first
            last marks none_yet traced fits
