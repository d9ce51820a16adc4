-- ===== src/Pow/Undo.antt =====
-- What a claim leaves of its reservation and its salt, when it fails and when it does not.
use atlas_faucet.Prelude.{
  ℕ, ◌-◌, ◌≤◌, ◌≡◌, refl, ◌∙◌, true, false, Bytes, bytes_eq, bytes_eq_iff, arith, if◌then◌else◌,
  leb, ◌==◌, ok, err, remove,
}
use atlas_faucet.Prelude.Words.{saturating_add_u64}
use atlas_faucet.Pow.Defs.{VerifiedChallenge}
use atlas_faucet.Pow.Keeper.{
  PowKeeper, consume_salt, release_salt, cooldown_remaining, try_begin_claim, holds, release_claim,
}
use atlas_faucet.Pow.Salts.{is_burned, consume_salt_lem, release_salt_lem}
use atlas_faucet.Pow.Cooldown.{
  try_begin_claim-cooldown_remaining, try_begin_claim_lem, release_claim-try_begin_claim,
}

-- From a time on, nobody can tell the two keepers apart: every cooldown and every burned salt is
-- the same.
pub record SameFrom (cooldown now : ℕ) (before after : PowKeeper) : Type 0 where
  pub cooldowns :
      (address : Bytes) (t : ℕ)
      → now ≤ t
      → cooldown_remaining after address cooldown t ≡ cooldown_remaining before address cooldown t
  pub salts : (salt : Bytes) (t : ℕ) → now ≤ t → is_burned after salt t ≡ is_burned before salt t

-- The address is on its cooldown, the salt is burned until its expiry, and all else is the same.
pub record Charged (verified : VerifiedChallenge) (cooldown now : ℕ) (before after : PowKeeper)
    : Type 0 where
  pub cooldowns :
      (address : Bytes) (t : ℕ)
      → now ≤ t
      → cooldown_remaining after address cooldown t ≡ (
          if bytes_eq verified.address address
          then (if cooldown == 0 then 0 else saturating_add_u64 now cooldown - t)
          else cooldown_remaining before address cooldown t)
  pub salts :
      (salt : Bytes) (t : ℕ)
      → now ≤ t
      → is_burned after salt t ≡ (
          if bytes_eq verified.salt salt
          then leb t verified.expires_at
          else is_burned before salt t)

-- A keeper is told by its two maps.
same_maps :
    (k l : PowKeeper) (address : Bytes) (cooldown t : ℕ)
    → k.last_claim ≡ l.last_claim
    → cooldown_remaining k address cooldown t ≡ cooldown_remaining l address cooldown t
unfolding cooldown_remaining
same_maps k l address cooldown t e = rw e refl

last_claim-consume_salt :
    (k : PowKeeper) (salt : Bytes) (exp now : ℕ)
    → (consume_salt k salt exp now).0.last_claim ≡ k.last_claim
unfolding consume_salt
last_claim-consume_salt k salt exp now = ground arith

consumed-try_begin_claim :
    (k : PowKeeper) (address : Bytes) (cooldown now : ℕ)
    → (try_begin_claim k address cooldown now).0.consumed ≡ k.consumed
unfolding try_begin_claim
consumed-try_begin_claim k address cooldown now = ground arith

consumed-release_claim :
    (k : PowKeeper) (address : Bytes) (now : ℕ)
    → (release_claim k address now).consumed ≡ k.consumed
unfolding release_claim
consumed-release_claim k address now = ground arith

last_claim-release_claim :
    (k : PowKeeper) (address : Bytes) (now : ℕ)
    → (release_claim k address now).last_claim
      ≡ (if holds (k.last_claim address) now then remove address k.last_claim else k.last_claim)
unfolding release_claim
last_claim-release_claim k address now = ground arith

-- A salt that is consumed in between does not show.
release_claim-consume_salt :
    (k : PowKeeper) (salt : Bytes) (exp now : ℕ) (address : Bytes) (at : ℕ)
    → (release_claim (consume_salt k salt exp now).0 address at).last_claim
      ≡ (release_claim k address at).last_claim
release_claim-consume_salt k salt exp now address at = cc (
  last_claim-release_claim (consume_salt k salt exp now).0 address at,
  last_claim-release_claim k address at,
  last_claim-consume_salt k salt exp now,
)

not_burned_later :
    (k : PowKeeper) (salt : Bytes) (now t : ℕ)
    → now ≤ t
    → is_burned k salt now ≡ false
    → is_burned k salt t ≡ false
not_burned_later k salt now t le e = ground arith

module _ (verified : VerifiedChallenge) (cooldown now : ℕ) (k : PowKeeper) where
  abbrev begun : PowKeeper
  begun = (try_begin_claim k verified.address cooldown now).0

  abbrev consumed : PowKeeper
  consumed = (consume_salt begun verified.salt verified.expires_at now).0

  -- A refusal only prunes.
  pub SameFrom-try_begin_claim :
      (remaining : ℕ)
      → (try_begin_claim k verified.address cooldown now).1 ≡ err remaining
      → SameFrom cooldown now k begun
  SameFrom-try_begin_claim remaining refused = record {
    cooldowns = λ address t le.
        let lem = try_begin_claim_lem k verified.address address cooldown now t le in
        let same = try_begin_claim-cooldown_remaining k verified.address cooldown now in
        ground (arith, lem, same, refused);
    salts = λ salt t le. rw (consumed-try_begin_claim k verified.address cooldown now) refl;
  }

  pub SameFrom-release_claim :
      (try_begin_claim k verified.address cooldown now).1 ≡ ok tt
      → SameFrom cooldown now k (release_claim begun verified.address now)
  SameFrom-release_claim won = record {
    cooldowns = λ address t le.
        release_claim-try_begin_claim k verified.address address cooldown now t le won;
    salts = λ salt t le.
        rw
          (
            consumed-release_claim begun verified.address now,
            consumed-try_begin_claim k verified.address cooldown now,
          )
          refl;
  }

  pub SameFrom-reused :
      (try_begin_claim k verified.address cooldown now).1 ≡ ok tt
      → (consume_salt begun verified.salt verified.expires_at now).1 ≡ false
      → SameFrom cooldown now k (release_claim consumed verified.address now)
  SameFrom-reused won reused = record {
    cooldowns = λ address t le.
        same_maps _ _ address cooldown t (
          release_claim-consume_salt begun verified.salt verified.expires_at now verified.address
            now)
        ∙ release_claim-try_begin_claim k verified.address address cooldown now t le won;
    salts = λ salt t le.
        rw (consumed-release_claim consumed verified.address now) (burned salt t le reused);
  }
    where
      burned :
          (salt : Bytes) (t : ℕ)
          → now ≤ t
          → (consume_salt begun verified.salt verified.expires_at now).1 ≡ false
          → is_burned consumed salt t ≡ is_burned k salt t
      burned salt t le reused =
          let lem = consume_salt_lem begun verified.salt verified.expires_at now in
          ground (
            arith,
            lem.0,
            lem.1 salt t le,
            reused,
            consumed-try_begin_claim k verified.address cooldown now,
          )

  pub SameFrom-release_salt :
      (try_begin_claim k verified.address cooldown now).1 ≡ ok tt
      → (consume_salt begun verified.salt verified.expires_at now).1 ≡ true
      → SameFrom cooldown now k
          (release_salt (release_claim consumed verified.address now) verified.salt)
  unfolding release_salt
  SameFrom-release_salt won fresh = record {
    cooldowns = λ address t le.
        same_maps _ _ address cooldown t (
          release_claim-consume_salt begun verified.salt verified.expires_at now verified.address
            now)
        ∙ release_claim-try_begin_claim k verified.address address cooldown now t le won;
    salts = λ salt t le.
        let lem = consume_salt_lem begun verified.salt verified.expires_at now in
        let released =
          release_salt_lem (release_claim consumed verified.address now) verified.salt salt t in
        let kept = consumed-release_claim consumed verified.address now in
        let spent = not_burned_later k verified.salt now t le (
          ground (arith, lem.0, fresh, consumed-try_begin_claim k verified.address cooldown now)) in
        ground (
          arith,
          released,
          kept,
          lem.0,
          lem.1 salt t le,
          fresh,
          spent,
          bytes_eq_iff verified.salt salt,
          consumed-try_begin_claim k verified.address cooldown now,
        );
  }

  pub Charged-consume_salt :
      (try_begin_claim k verified.address cooldown now).1 ≡ ok tt
      → (consume_salt begun verified.salt verified.expires_at now).1 ≡ true
      → Charged verified cooldown now k consumed
  Charged-consume_salt won fresh = record {
    cooldowns = λ address t le.
        same_maps consumed begun address cooldown t
          (last_claim-consume_salt begun verified.salt verified.expires_at now)
        ∙ ground (
          arith,
          try_begin_claim_lem k verified.address address cooldown now t le,
          try_begin_claim-cooldown_remaining k verified.address cooldown now,
        );
    salts = λ salt t le.
        let lem = consume_salt_lem begun verified.salt verified.expires_at now in
        ground (
          arith,
          lem.0,
          lem.1 salt t le,
          fresh,
          consumed-try_begin_claim k verified.address cooldown now,
        );
  }
