-- ===== src/Server.antt =====
-- src/server.rs: the handlers of the HTTP surface. The routing and the JSON text of the replies
-- are axum's and serde_json's; a response here is its status, its `retry-after` header and the
-- content of its body.
pub mod Escape
pub mod Claim
pub mod Ends
pub mod Admitted
pub mod Effects
pub mod Phases
pub mod Advances
pub mod Inversion
pub mod Undisturbed
pub mod Finish
pub mod Alone
pub mod Calls
pub mod Weights
pub mod Interleaving
pub mod Movers
pub mod Progress
pub mod Trace
pub mod Leased
pub mod Lease
pub mod Redemption
pub mod Spacing
pub mod Current
pub mod Posting
pub mod Serialized
pub mod Ranges
pub mod Backed
pub mod Served
pub mod Honest
pub mod Index
pub mod Offer
pub mod Messages
use atlas_faucet.Prelude.{
  ℕ, Bool, true, false, not, Option, none, some, List, [], ◌∷◌, ◌++◌, Bytes, codes, Result, ok, err,
  if◌then◌else◌, ltb, ◌==◌,
}
use atlas_faucet.Text.{to_decimal}
use atlas_faucet.Hashes.{Hashes}
use atlas_faucet.Secp.{Secp}
use atlas_faucet.Semaphore.{Semaphore}
use atlas_faucet.World.{History}
use atlas_faucet.Util.{HexError, parse_address}
use atlas_faucet.Pow.{
  VerifiedChallenge, PowError, verify_solution, Challenge, ChallengeError, malformed, unsupported,
  tampered, expired, PowKeeper, issue, verify_challenge, cooldown_remaining,
}
use atlas_faucet.Faucet.{
  DispenseReceipt, DispenseError, rpc_failed, insufficient_funds, Faucet, address_hex, in_flight,
}

pub record ClaimRequest : Type 0 where
  pub challenge : Challenge
  pub nonces : List ℕ

-- The texts of the errors, by what they interpolate.
pub data Message : Type 0 where
  text : Bytes → Message
  invalid_body : Message
  invalid_address : HexError → Message
  rejected_challenge : ChallengeError → Message
  rejected_solution : PowError → Message
  failed_dispense : DispenseError → Message
  busy : ℕ → Message
  recently_funded : ℕ → Message

pub data Body : Type 0 where
  -- The code and the message.
  failed : Bytes → Message → Body
  issued : Challenge → Body
  -- The recipient and the receipt.
  dispensed : Bytes → DispenseReceipt → Body

pub record Response : Type 0 where
  pub status : ℕ
  pub retry_after : Option Bytes
  pub body : Body

abbrev pub error_response : ℕ → Bytes → Message → Response
error_response status code message = record {
  status = status;
  retry_after = none;
  body = failed code message;
}

unfoldable pub busy_response : ℕ → Response
busy_response capacity = record (error_response 429 (codes "FAUCET_BUSY") (busy capacity)) {
  retry_after = some (codes "5");
}

-- A decimal text is always a header value.
unfoldable pub cooldown_response : ℕ → Response
cooldown_response remaining =
    record (error_response 429 (codes "COOLDOWN") (recently_funded remaining)) {
      retry_after = some (to_decimal remaining);
    }

unfoldable pub challenge_error_response : ChallengeError → Response
challenge_error_response expired =
    error_response 400 (codes "CHALLENGE_EXPIRED")
      (text (codes "challenge expired; request a new one"))
challenge_error_response tampered =
    error_response 400 (codes "CHALLENGE_INVALID") (text (codes "challenge signature is invalid"))
challenge_error_response (malformed part e) =
    error_response 400 (codes "BAD_REQUEST") (rejected_challenge (malformed part e))
challenge_error_response (unsupported feature) =
    error_response 400 (codes "BAD_REQUEST") (rejected_challenge (unsupported feature))

unfoldable pub dispense_error_response : DispenseError → Response
dispense_error_response (insufficient_funds balance needed) =
    error_response 503 (codes "INSUFFICIENT_FUNDS")
      (failed_dispense (insufficient_funds balance needed))
dispense_error_response (rpc_failed e) =
    error_response 502 (codes "RPC_ERROR") (failed_dispense (rpc_failed e))

abbrev pub reused_response : Response
reused_response =
    error_response 409 (codes "CHALLENGE_REUSED")
      (text (codes "challenge has already been redeemed"))

unfoldable pub not_found_handler : Response
not_found_handler = error_response 404 (codes "NOT_FOUND") (text (codes "Not found"))

-- The members of the JSON objects of `/healthz` and `/status`, less the constant members `ok`,
-- `service` and `endpoints`.
pub record Health : Type 0 where
  pub in_flight : ℕ
  pub queue_capacity : ℕ

pub record Status : Type 0 where
  pub faucet_address : Bytes
  pub chain_id : ℕ
  pub drip_wei : Bytes
  pub queue_capacity : ℕ
  pub in_flight : ℕ
  pub cooldown_secs : ℕ
  pub algorithm : Bytes
  pub bits : ℕ
  pub puzzles : ℕ
  pub ttl_secs : ℕ

module _ (h : Hashes) (s : Secp) where
  -- `AppState`, less the keeper, which is state.
  pub record AppState : Type 0 where
    pub faucet : Faucet h s
    pub html_title : Bytes
    pub pow_bits : ℕ
    pub pow_puzzles : ℕ
    pub pow_ttl_secs : ℕ
    pub cooldown_secs : ℕ

  -- `challenge_handler`, with the `address` parameter of the query, the time that it reads and
  -- the random bytes of the salt.
  unfoldable pub challenge_handler : AppState → PowKeeper → Option Bytes → ℕ → Bytes → Response
  challenge_handler app keeper none now salt =
      error_response 400 (codes "BAD_REQUEST") (text (codes "missing 'address' query parameter"))
  challenge_handler app keeper (some address_raw) now salt = elim (parse_address address_raw) [
    | err e ↦ error_response 400 (codes "BAD_REQUEST") (invalid_address e)
    | ok address ↦
        let remaining = cooldown_remaining keeper address app.cooldown_secs now in
        if ltb 0 remaining then cooldown_response remaining else record {
          status = 200;
          retry_after = none;
          body =
              issued
                (issue h keeper address app.pow_bits app.pow_puzzles app.pow_ttl_secs now salt);
        }
  ]

  -- Steps 1 and 2 of a claim, which change nothing.
  unfoldable pub after_solution :
      VerifiedChallenge → Result PowError (Unit {0}) → Result Response VerifiedChallenge
  after_solution verified (ok done) = ok verified
  after_solution verified (err e) =
      err (error_response 400 (codes "INVALID_POW") (rejected_solution e))

  unfoldable pub after_challenge :
      List ℕ → Result ChallengeError VerifiedChallenge → Result Response VerifiedChallenge
  unfolding after_solution challenge_error_response
  after_challenge nonces (ok verified) = after_solution verified (verify_solution h verified nonces)
  after_challenge nonces (err e) = err (challenge_error_response e)

  unfoldable pub authenticate : PowKeeper → ClaimRequest → ℕ → Result Response VerifiedChallenge
  unfolding after_challenge
  authenticate keeper request now =
      after_challenge request.nonces (verify_challenge h keeper request.challenge now)

  module _ (sem : Semaphore) where
    -- What the claims share: the keeper's maps, the permits, the `serialize` lock and the outside.
    pub record Shared : Type 0 where
      pub keeper : PowKeeper
      pub permits : sem.Permits
      pub locked : Bool
      pub past : History

    -- The state when the server starts: `Faucet::new` makes the semaphore and the lock.
    unfoldable pub new_shared : AppState → PowKeeper → History → Shared
    new_shared app keeper past = record {
      keeper = keeper;
      permits = sem.new app.faucet.capacity;
      locked = false;
      past = past;
    }

    unfoldable pub health_handler : AppState → Shared → Health
    unfolding in_flight
    health_handler app shared = record {
      in_flight = in_flight h s sem app.faucet shared.permits;
      queue_capacity = app.faucet.capacity;
    }

    unfoldable pub status_handler : AppState → Shared → Status
    unfolding in_flight address_hex
    status_handler app shared = record {
      faucet_address = address_hex h s app.faucet.signer;
      chain_id = app.faucet.chain_id;
      drip_wei = to_decimal app.faucet.drip_wei;
      queue_capacity = app.faucet.capacity;
      in_flight = in_flight h s sem app.faucet shared.permits;
      cooldown_secs = app.cooldown_secs;
      algorithm = codes "sha256-leading-zeros";
      bits = app.pow_bits;
      puzzles = app.pow_puzzles;
      ttl_secs = app.pow_ttl_secs;
    }

-- `escape_html`, on the text's bytes: each character that it replaces is one byte.
unfoldable pub escape_char : ℕ → Bytes
escape_char c =
    if c == b'&'
    then codes "&amp;"
    else if c == b'<'
    then codes "&lt;"
    else if c == b'>'
    then codes "&gt;"
    else if c == b'"'
    then codes "&quot;"
    else if c == 39
    then codes "&#39;"
    else c ∷ []

unfoldable pub escape_html : Bytes → Bytes
unfolding escape_char
escape_html [] = []
escape_html (c ∷ value) = escape_char c ++ escape_html value
