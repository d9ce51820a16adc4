-- ===== src/Server/Offer.antt =====
-- `challenge_handler` on every branch: what it offers, and to whom it refuses.
use atlas_faucet.Prelude.{
  ℕ, ◌≤◌, ◌<◌, ◌≡◌, refl, Option, none, some, Bytes, ok, err, leb, ltb, true, arith, ◌⊎◌, inl, inr,
  Result-cases, Bool-cases,
}
use atlas_faucet.Prelude.Words.{saturating_add_u64}
use atlas_faucet.Text.{to_decimal}
use atlas_faucet.Hashes.{Hashes, IsHashes}
use atlas_faucet.Secp.{Secp}
use atlas_faucet.Util.{HexError, parse_address}
use atlas_faucet.Util.Address.{parse_address-IsAddress}
use atlas_faucet.Pow.{Challenge, PowKeeper, issue, verify_challenge, cooldown_remaining}
use atlas_faucet.Pow.Envelope.{IsSalt, view, verify_challenge-issue}
use atlas_faucet.Server.{Response, AppState, challenge_handler, cooldown_response, issued}

module _ (h : Hashes) (lawful : IsHashes h) (s : Secp) (app : AppState h s) (keeper : PowKeeper)
    (now : ℕ) (salt : Bytes) where
  -- A challenge for an address, which this keeper accepts until it expires.
  pub record Offered (address : Bytes) (response : Response) : Type 0 where
    pub challenge : Challenge
    pub status : response.status ≡ 200
    pub body : response.body ≡ issued challenge
    pub rested : cooldown_remaining keeper address app.cooldown_secs now ≡ 0
    pub accepted :
        (later : ℕ)
        → later ≤ saturating_add_u64 now app.pow_ttl_secs
        → verify_challenge h keeper challenge later
          ≡ ok (
              view salt address app.pow_bits app.pow_puzzles
                (saturating_add_u64 now app.pow_ttl_secs))

  -- An address that is not rested, and the seconds that remain.
  pub record Cooling (address : Bytes) (response : Response) : Type 0 where
    pub status : response.status ≡ 429
    pub waits : 0 < cooldown_remaining keeper address app.cooldown_secs now
    pub told :
        response.retry_after
        ≡ some (to_decimal (cooldown_remaining keeper address app.cooldown_secs now))

  -- What there is to say of a response to a query.
  abbrev pub Answered : Option Bytes → Response → Type 0
  Answered none response = response.status ≡ 400
  Answered (some raw) response =
      ((e : HexError) × (parse_address raw ≡ err e) × (response.status ≡ 400))
      ⊎ ((address : Bytes) × (parse_address raw ≡ ok address)
          × (Offered address response ⊎ Cooling address response))

  offered :
      (raw address : Bytes)
      → parse_address raw ≡ ok address
      → cooldown_remaining keeper address app.cooldown_secs now ≡ 0
      → challenge_handler h s app keeper (some raw) now salt ≡ record {
        status = 200;
        retry_after = none;
        body =
            issued (issue h keeper address app.pow_bits app.pow_puzzles app.pow_ttl_secs now salt);
      }
  unfolding challenge_handler
  offered raw address parsed rested = rw (parsed, rested, challenge_handler) refl

  offer_lem :
      (raw address : Bytes)
      → IsSalt salt
      → parse_address raw ≡ ok address
      → cooldown_remaining keeper address app.cooldown_secs now ≡ 0
      → Offered address (challenge_handler h s app keeper (some raw) now salt)
  offer_lem raw address is_salt parsed rested = rw (offered raw address parsed rested) (record {
    challenge = issue h keeper address app.pow_bits app.pow_puzzles app.pow_ttl_secs now salt;
    status = refl;
    body = refl;
    rested = rested;
    accepted = λ later timely.
        let in_time : leb later (saturating_add_u64 now app.pow_ttl_secs) ≡ true =
          ground (arith, timely) in
        rw
          (
            verify_challenge-issue h lawful keeper address salt app.pow_bits app.pow_puzzles
                app.pow_ttl_secs now later (parse_address-IsAddress raw address parsed).0 is_salt,
            in_time,
          )
          refl;
  })

  cooled :
      (raw address : Bytes)
      → parse_address raw ≡ ok address
      → ltb 0 (cooldown_remaining keeper address app.cooldown_secs now) ≡ true
      → challenge_handler h s app keeper (some raw) now salt
        ≡ cooldown_response (cooldown_remaining keeper address app.cooldown_secs now)
  unfolding challenge_handler
  cooled raw address parsed waits = rw (parsed, waits, challenge_handler) refl

  cooling_lem :
      (raw address : Bytes)
      → parse_address raw ≡ ok address
      → ltb 0 (cooldown_remaining keeper address app.cooldown_secs now) ≡ true
      → Cooling address (challenge_handler h s app keeper (some raw) now salt)
  cooling_lem raw address parsed waits = rw (cooled raw address parsed waits) (
      unfold cooldown_response in
      record { status = refl; waits = ground (arith, waits); told = refl })

  -- With a salt of sixteen bytes, and if the hash returns 32 bytes, a query is answered in one of
  -- four ways. Without an address, or with one that does not parse, the status is 400. An
  -- address with a cooldown gets a 429 that tells the seconds that remain. Any other gets a
  -- challenge that this keeper accepts until it expires, as one for this address with the
  -- configured work.
  pub challenge_handler_lem :
      IsSalt salt
      → (query : Option Bytes) → Answered query (challenge_handler h s app keeper query now salt)
  challenge_handler_lem is_salt none = unfold challenge_handler in refl
  challenge_handler_lem is_salt (some raw) = elim (Result-cases (parse_address raw)) [
    | inr (e, bad) ↦ inl (e, bad, unfold challenge_handler in ground (arith, bad))
    | inl (address, parsed) ↦
        let remaining = cooldown_remaining keeper address app.cooldown_secs now in
        inr (
          address,
          parsed,
          elim (Bool-cases (ltb 0 remaining)) [
            | inl waits ↦ inr (cooling_lem raw address parsed waits)
            | inr rested ↦ inl (offer_lem raw address is_salt parsed (ground (arith, rested)))
          ],
        )
  ]
