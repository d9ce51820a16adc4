-- ===== src/Pow/Envelope.antt =====
-- `issue` and `verify_challenge` together.
use atlas_faucet.Prelude.{
  ℕ, ◌≤◌, ◌≡◌, refl, ap, ◌∙◌, Bytes, IsByte, bytes_eq, bytes_eq_iff, All, arith, length,
  if◌then◌else◌, leb, ok, err, map_err->>=-ok,
}
use atlas_faucet.Prelude.Words.{saturating_add_u64}
use atlas_faucet.Hashes.{Hashes, IsHashes}
use atlas_faucet.Util.{hex_lower, prefixed_hex, decode_fixed_hex, parse_address}
use atlas_faucet.Util.Hex.{decode_fixed_hex-hex_lower}
use atlas_faucet.Util.Address.{IsAddress, parse_address-prefixed_hex}
use atlas_faucet.Util.Compare.{constant_time_eq_iff}
use atlas_faucet.Pow.Defs.{VerifiedChallenge, hmac_sha256}
use atlas_faucet.Pow.Keeper.{
  Challenge, expired, PowKeeper, mac, issue, check_mac, parse_and_check, verify_challenge,
  version_number, algorithm_name,
}

-- A salt or a boot nonce: sixteen bytes.
abbrev pub IsSalt : Bytes → Type 0
IsSalt s = (length s ≡ 16) × All IsByte s

-- The view that `verify_challenge` gives of a challenge with these bytes.
abbrev pub view : Bytes → Bytes → ℕ → ℕ → ℕ → VerifiedChallenge
view salt address bits puzzles expires_at = record {
  salt = salt;
  address = address;
  bits = bits;
  puzzles = puzzles;
  expires_at = expires_at;
}

module _ (h : Hashes) (lawful : IsHashes h) where
  hmac-length :
      (key message : Bytes)
      → (length (hmac_sha256 h key message) ≡ 32) × All IsByte (hmac_sha256 h key message)
  unfolding hmac_sha256
  hmac-length key message = (lawful.length-sha256 _, lawful.sha256-IsByte _)

  pub mac-length :
      (keeper : PowKeeper) (a s : Bytes) (bits puzzles issued expires : ℕ)
      → (length (mac h keeper a s bits puzzles issued expires) ≡ 32)
        × All IsByte (mac h keeper a s bits puzzles issued expires)
  unfolding mac
  mac-length keeper a s bits puzzles issued expires = hmac-length _ _

  -- The three texts of an issued challenge are read back.
  pub decode_mac :
      (m : Bytes) → length m ≡ 32 → All IsByte m → decode_fixed_hex (prefixed_hex m) 32 ≡ ok m
  decode_mac m l b = rw (← l) ((decode_fixed_hex-hex_lower m b).3)

  decode_salt : (s : Bytes) → IsSalt s → decode_fixed_hex (prefixed_hex s) 16 ≡ ok s
  decode_salt s b = rw (← b.0) ((decode_fixed_hex-hex_lower s b.1).3)

  -- Any keeper reads an issued challenge up to the check of its HMAC.
  pub verify_challenge-check_mac :
      (keeper other : PowKeeper) (address salt : Bytes) (bits puzzles ttl now later : ℕ)
      → IsAddress address
      → IsSalt salt
      → verify_challenge h other (issue h keeper address bits puzzles ttl now salt) later
        ≡ check_mac h other (issue h keeper address bits puzzles ttl now salt) later salt address (
            mac h keeper
              (prefixed_hex address)
              (hex_lower salt)
              bits
              puzzles
              now
              (saturating_add_u64 now ttl))
  unfolding verify_challenge issue bytes_eq
  verify_challenge-check_mac keeper other address salt bits puzzles ttl now later ha hs =
      let m =
        mac-length keeper (prefixed_hex address) (hex_lower salt) bits puzzles now
          (saturating_add_u64 now ttl) in
      rw (decode_salt salt hs, parse_address-prefixed_hex address ha, decode_mac _ m.0 m.1)

  -- A challenge issued for an address of twenty bytes and a salt of sixteen passes its own
  -- keeper until it expires, and gives back the address, the salt, the difficulty and the
  -- expiry; later it is refused as expired. The hash returns 32 bytes.
  pub verify_challenge-issue :
      (keeper : PowKeeper) (address salt : Bytes) (bits puzzles ttl now later : ℕ)
      → IsAddress address
      → IsSalt salt
      → verify_challenge h keeper (issue h keeper address bits puzzles ttl now salt) later ≡ (
          if leb later (saturating_add_u64 now ttl)
          then ok (view salt address bits puzzles (saturating_add_u64 now ttl))
          else err expired)
  verify_challenge-issue keeper address salt bits puzzles ttl now later ha hs =
      verify_challenge-check_mac keeper keeper address salt bits puzzles ttl now later ha hs
      ∙ checked
    where
      code : Bytes
      code =
          mac h keeper (prefixed_hex address) (hex_lower salt) bits puzzles now
            (saturating_add_u64 now ttl)

      checked :
          check_mac h keeper
            (issue h keeper address bits puzzles ttl now salt)
            later
            salt
            address
            code
          ≡ (if leb later (saturating_add_u64 now ttl)
              then ok (view salt address bits puzzles (saturating_add_u64 now ttl))
              else err expired)
      checked = unfold check_mac issue in ground (arith, (constant_time_eq_iff code code).1 refl)

  -- What a keeper accepts: the envelope's version and algorithm, the two decoded texts, an HMAC
  -- text that decodes to this keeper's HMAC over the canonical fields, and a time that is not
  -- past the expiry. The view repeats the fields that were authenticated.
  pub record Authentic (keeper : PowKeeper) (c : Challenge) (now : ℕ) (v : VerifiedChallenge)
      : Type 0 where
    pub versioned : c.version ≡ version_number
    pub named : c.algorithm ≡ algorithm_name
    pub salted : decode_fixed_hex c.salt 16 ≡ ok v.salt
    pub addressed : parse_address c.address ≡ ok v.address
    pub signed :
        decode_fixed_hex c.hmac 32
        ≡ ok (
            mac h keeper
              (prefixed_hex v.address)
              (hex_lower v.salt)
              c.bits
              c.puzzles
              c.issued_at
              c.expires_at)
    pub timely : now ≤ c.expires_at
    pub viewed : v ≡ view v.salt v.address c.bits c.puzzles c.expires_at

  check_mac-ok :
      (keeper : PowKeeper) (c : Challenge) (now : ℕ) (s a m : Bytes) (v : VerifiedChallenge)
      → check_mac h keeper c now s a m ≡ ok v
      → (m ≡ mac h keeper (prefixed_hex a) (hex_lower s) c.bits c.puzzles c.issued_at c.expires_at)
        × (now ≤ c.expires_at)
        × (v ≡ view s a c.bits c.puzzles c.expires_at)
  unfolding check_mac
  check_mac-ok keeper c now s a m v e =
      let code =
        mac h keeper (prefixed_hex a) (hex_lower s) c.bits c.puzzles c.issued_at c.expires_at in
      ground (arith, (constant_time_eq_iff m code).0)

  parse_and_check-Authentic :
      (keeper : PowKeeper) (c : Challenge) (now : ℕ) (v : VerifiedChallenge)
      → c.version ≡ version_number
      → c.algorithm ≡ algorithm_name
      → parse_and_check h keeper c now ≡ ok v
      → Authentic keeper c now v
  unfolding parse_and_check
  parse_and_check-Authentic keeper c now v versioned named e =
      let (s, es, e₁) = map_err->>=-ok _ (decode_fixed_hex c.salt 16) _ e in
      let (a, ea, e₂) = map_err->>=-ok _ (parse_address c.address) _ e₁ in
      let (m, em, e₃) = map_err->>=-ok _ (decode_fixed_hex c.hmac 32) _ e₂ in
      let (coded, timely, viewed) = check_mac-ok keeper c now s a m v e₃ in
      rw viewed (record {
        versioned = versioned;
        named = named;
        salted = es;
        addressed = ea;
        signed = em ∙ ap ok coded;
        timely = timely;
        viewed = refl;
      })

  -- What `verify_challenge` accepts has the version and the algorithm of this program, texts
  -- that decode to the view's salt and address and to the keeper's HMAC over the challenge's
  -- fields in canonical form, and an expiry that is not over; and the view repeats the
  -- challenge's fields. The hash returns 32 bytes.
  pub verify_challenge-Authentic :
      (keeper : PowKeeper) (c : Challenge) (now : ℕ) (v : VerifiedChallenge)
      → verify_challenge h keeper c now ≡ ok v
      → Authentic keeper c now v
  unfolding verify_challenge
  verify_challenge-Authentic keeper c now v e =
      let named = (bytes_eq_iff c.algorithm algorithm_name).0 in
      let facts : (c.version ≡ 1)
          × (c.algorithm ≡ algorithm_name)
          × (parse_and_check h keeper c now ≡ ok v) =
        ground (arith, named) in
      parse_and_check-Authentic keeper c now v facts.0 facts.1 facts.2
