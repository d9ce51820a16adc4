-- ===== src/Server/Redemption.antt =====
-- One transfer for a challenge: the salt's entry in `consumed` is the lease.
use atlas_faucet.Prelude.{
  ℕ, ◌+◌, ◌≤◌, ◌≡◌, refl, ap, ◌∙◌, Map, Bool, true, false, Option, some, List, [], Bytes, bytes_eq,
  bytes_eq_iff, arith, All, insert, remove, retain, contains_key, inl, inr, Bool-cases,
}
use native.Mathlib.Nat.{add-zero}
use atlas_faucet.Hashes.{Hashes}
use atlas_faucet.Secp.{Secp}
use atlas_faucet.Semaphore.{Semaphore}
use atlas_faucet.World.{World}
use atlas_faucet.Pow.{
  VerifiedChallenge, PowKeeper, consume_salt, release_salt, try_begin_claim, release_claim,
}
use atlas_faucet.Server.{ClaimRequest, AppState, Shared}
use atlas_faucet.Server.Phases.{
  Phase, arrived, reserving, admitting, burning, queueing, submitting, funding, counting, sending,
  leaving, failing, reusing, awaiting, refusing, undoing, unburning, replied,
}
use atlas_faucet.Server.Advances.{
  Advances, rejects, accepts, reserves, cools, admits, crowds, burns, reuses, locks, prices,
  unpriced, funds, underfunded, unfunded, counts, uncounted, pays, fails, leaves, gives_up, drops,
  confirms, refuses, undoes, unburns,
}
use atlas_faucet.Server.Weights.{total, bit}
use atlas_faucet.Server.Trace.{Mark, Traces}
use atlas_faucet.Server.Leased.{count_paid, Accepted, Moved, kept, taken, freed, Leased-le}
use atlas_faucet.Server.Lease.{Awaits, gained, Holding, Traces-Holding}

-- The claims that have burned the salt, and may yet give it back.
abbrev pub of_salt : Bytes → VerifiedChallenge → ℕ → Bool
of_salt salt v now = bytes_eq v.salt salt

abbrev pub burned : Bytes → Phase → ℕ
burned salt (arrived body now) = 0
burned salt (reserving v now) = 0
burned salt (admitting v now) = 0
burned salt (burning v now) = 0
burned salt (queueing v now) = bit (bytes_eq v.salt salt)
burned salt (submitting v now) = bit (bytes_eq v.salt salt)
burned salt (funding v now gas_price) = bit (bytes_eq v.salt salt)
burned salt (counting v now gas_price) = bit (bytes_eq v.salt salt)
burned salt (sending v now gas_price nonce) = bit (bytes_eq v.salt salt)
burned salt (leaving v tx_hash) = 0
burned salt (failing v now e) = bit (bytes_eq v.salt salt)
burned salt (reusing v now) = 0
burned salt (awaiting v tx_hash) = 0
burned salt (refusing v now response) = 0
burned salt (undoing v now e) = bit (bytes_eq v.salt salt)
burned salt (unburning v e) = bit (bytes_eq v.salt salt)
burned salt (replied response) = 0

-- The pruning and the calls for other salts.
module _ (keeper : PowKeeper) (salt : Bytes) (limit : ℕ) where
  consume_salt-true :
      (other : Bytes) (expires_at now : ℕ)
      → now ≤ limit
      → (other ≡ salt → limit ≤ expires_at)
      → (consume_salt keeper other expires_at now).1 ≡ true
      → Moved
          (λ e. limit ≤ e)
          (keeper.consumed salt)
          ((consume_salt keeper other expires_at now).0.consumed salt)
          0
          (bit (bytes_eq other salt))
  unfolding consume_salt retain insert contains_key
  consume_salt-true other expires_at now early lives e = elim (Bool-cases (bytes_eq other salt)) [
    | inl same ↦
        let equal : other ≡ salt = (bytes_eq_iff other salt).0 same in
        taken expires_at refl (rw same refl) (λ x alive found. ground (arith, found, equal))
          (lives equal) (ground (arith, e, same))
    | inr apart ↦ kept (rw apart refl) (λ x alive found. ground (arith, found, apart, e))
  ]

  consume_salt-false :
      (other : Bytes) (expires_at now : ℕ)
      → now ≤ limit
      → (consume_salt keeper other expires_at now).1 ≡ false
      → (x : ℕ) → limit ≤ x
      → keeper.consumed salt ≡ some x
      → (consume_salt keeper other expires_at now).0.consumed salt ≡ some x
  unfolding consume_salt retain insert contains_key
  consume_salt-false other expires_at now early e x alive found = ground arith

  try_begin_claim-consumed :
      (address : Bytes) (cooldown now : ℕ)
      → (try_begin_claim keeper address cooldown now).0.consumed ≡ keeper.consumed
  unfolding try_begin_claim
  try_begin_claim-consumed address cooldown now = ground arith

  release_claim-consumed :
      (address : Bytes) (now : ℕ) → (release_claim keeper address now).consumed ≡ keeper.consumed
  unfolding release_claim
  release_claim-consumed address now = ground arith

  release_salt-Moved :
      (other : Bytes)
      → Moved
          (λ e. limit ≤ e)
          (keeper.consumed salt)
          ((release_salt keeper other).consumed salt)
          (bit (bytes_eq other salt))
          0
  unfolding release_salt remove
  release_salt-Moved other = elim (Bool-cases (bytes_eq other salt)) [
    | inl same ↦ freed (rw same refl) refl
    | inr apart ↦ kept (rw apart refl) (λ x alive found. rw apart found)
  ]

-- An accepted challenge with the salt lives up to the limit, and no claim reads a later time.
abbrev pub WithinLife : Bytes → ℕ → VerifiedChallenge → ℕ → Type 0
WithinLife salt limit v now = (now ≤ limit) × (v.salt ≡ salt → limit ≤ v.expires_at)

module _ (h : Hashes) (s : Secp) (sem : Semaphore) (w : World)
    (from_slice : Bytes → Option ClaimRequest) (app : AppState h s) (salt : Bytes) (limit : ℕ) where
  still :
      (entry later : Option ℕ) (n m : ℕ)
      → n ≡ m
      → later ≡ entry
      → Moved (λ e. limit ≤ e) entry later n m
  still entry later n m same kept_entry = kept same (λ x alive found. kept_entry ∙ found)

  Advances-Moved :
      (shared later : Shared h s sem) (phase next : Phase)
      → Awaits h s sem w from_slice app (WithinLife salt limit) phase
      → Advances h s sem w from_slice app shared phase later next
      → Moved
          (λ e. limit ≤ e)
          (shared.keeper.consumed salt)
          (later.keeper.consumed salt)
          (burned salt phase)
          (burned salt next
            + gained h s sem w from_slice app (WithinLife salt limit) (of_salt salt) phase next)
  unfolding count_paid
  Advances-Moved _ _ _ _ fits (rejects shared body now response why) = still _ _ _ _ refl refl
  Advances-Moved _ _ _ _ fits (accepts shared body now request v parsed e) = still _ _ _ _ refl refl
  Advances-Moved _ _ _ _ fits (reserves shared v now e) = still _ _ _ _ refl (
      ap (λ (m : Map ℕ). m salt)
        (try_begin_claim-consumed shared.keeper salt limit v.address app.cooldown_secs now))
  Advances-Moved _ _ _ _ fits (cools shared v now remaining e) = still _ _ _ _ refl (
      ap (λ (m : Map ℕ). m salt)
        (try_begin_claim-consumed shared.keeper salt limit v.address app.cooldown_secs now))
  Advances-Moved _ _ _ _ fits (admits shared v now permits e) = still _ _ _ _ refl refl
  Advances-Moved _ _ _ _ fits (crowds shared v now e) = still _ _ _ _ refl refl
  Advances-Moved _ _ _ _ fits (burns shared v now e) =
      rw (add-zero (bit (bytes_eq v.salt salt)))
        (consume_salt-true shared.keeper salt limit v.salt v.expires_at now fits.0 fits.1 e)
  Advances-Moved _ _ _ _ fits (reuses shared v now e) =
      kept refl (consume_salt-false shared.keeper salt limit v.salt v.expires_at now fits.0 e)
  Advances-Moved _ _ _ _ fits (locks shared v now free) = still _ _ _ _ (omega arith) refl
  Advances-Moved _ _ _ _ fits (pays shared v now gas_price nonce tx_hash e) =
      still _ _ _ _ (omega arith) refl
  Advances-Moved _ _ _ _ fits (prices shared v now gas_price e) = still _ _ _ _ (omega arith) refl
  Advances-Moved _ _ _ _ fits (funds shared v now gas_price balance e tested) =
      still _ _ _ _ (omega arith) refl
  Advances-Moved _ _ _ _ fits (counts shared v now gas_price nonce e) =
      still _ _ _ _ (omega arith) refl
  Advances-Moved _ _ _ _ fits (unpriced shared v now x e) = still _ _ _ _ (omega arith) refl
  Advances-Moved _ _ _ _ fits (underfunded shared v now gas_price balance e tested) =
      still _ _ _ _ (omega arith) refl
  Advances-Moved _ _ _ _ fits (unfunded shared v now gas_price x e) =
      still _ _ _ _ (omega arith) refl
  Advances-Moved _ _ _ _ fits (uncounted shared v now gas_price x e) =
      still _ _ _ _ (omega arith) refl
  Advances-Moved _ _ _ _ fits (fails shared v now gas_price nonce x e) =
      still _ _ _ _ (omega arith) refl
  Advances-Moved _ _ _ _ fits (leaves shared v tx_hash) = still _ _ _ _ refl refl
  Advances-Moved _ _ _ _ fits (gives_up shared v now x) = still _ _ _ _ (omega arith) refl
  Advances-Moved _ _ _ _ fits (drops shared v now) = still _ _ _ _ refl refl
  Advances-Moved _ _ _ _ fits (confirms shared v tx_hash outcome past e) = still _ _ _ _ refl refl
  Advances-Moved _ _ _ _ fits (refuses shared v now response) =
      still _ _ _ _ refl
        (ap (λ (m : Map ℕ). m salt) (release_claim-consumed shared.keeper salt limit v.address now))
  Advances-Moved _ _ _ _ fits (undoes shared v now x) =
      still _ _ _ _ (omega arith)
        (ap (λ (m : Map ℕ). m salt) (release_claim-consumed shared.keeper salt limit v.address now))
  Advances-Moved _ _ _ _ fits (unburns shared v x) =
      release_salt-Moved shared.keeper salt limit v.salt

  -- However claims interleave, from a server with no claims in progress: if up to some time no
  -- claim reads a later one, and no accepted challenge with the salt expires before it, then there
  -- is at most one transfer for the salt that the node acknowledged, or claim in progress that
  -- has burned the salt.
  pub paid_once :
      (first last : Shared h s sem × List Phase) (marks : List Mark)
      → first.1 ≡ []
      → Traces h s sem w from_slice app first marks last
      → All (Accepted (WithinLife salt limit)) marks
      → count_paid (of_salt salt) marks + total (burned salt) last.1 ≤ 1
  paid_once first last marks none_yet traced fits = Leased-le (λ e. limit ≤ e) _ _ held.leased
    where
      held :
          Holding h s sem w from_slice app
            (WithinLife salt limit)
            (λ e. limit ≤ e)
            (of_salt salt)
            (burned salt)
            (λ (k : PowKeeper). k.consumed salt)
            (λ body now. refl)
            Advances-Moved
            marks
            last
      held =
          Traces-Holding h s sem w from_slice app (WithinLife salt limit) (λ e. limit ≤ e)
            (of_salt salt) (burned salt) (λ (k : PowKeeper). k.consumed salt) (λ body now. refl)
            Advances-Moved first last marks none_yet traced fits
