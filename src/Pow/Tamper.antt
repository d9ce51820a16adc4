-- ===== src/Pow/Tamper.antt =====
-- An HMAC authenticates one address, salt, difficulty and lifetime, and one boot of the server.
use atlas_faucet.Prelude.{
  ℕ, ◌/◌, ◌%◌, ◌≡◌, sym, ◌∙◌, [], ◌∷◌, Bytes, IsByte, All, arith, ok, ok-injective,
}
use atlas_faucet.Prelude.Words.{saturating_add_u64}
use atlas_faucet.Hashes.{Hashes, IsHashes}
use atlas_faucet.Util.{hex_lower, prefixed_hex}
use atlas_faucet.Util.Hex.{Spells, to_digit-IsGraphic, hex_lower-injective, hex_lower-Spells}
use atlas_faucet.Util.Address.{IsAddress, parse_address-IsAddress, decode_fixed_hex-ok}
use atlas_faucet.Pow.Defs.{VerifiedChallenge, hmac_sha256}
use atlas_faucet.Pow.Keeper.{Challenge, PowKeeper, mac_message, mac, issue, verify_challenge}
use atlas_faucet.Pow.Message.{Unbarred, mac_message-injective}
use atlas_faucet.Pow.Envelope.{IsSalt, view, verify_challenge-Authentic, decode_mac, mac-length}

hex_lower-Unbarred : (bytes : Bytes) → All IsByte bytes → Unbarred (hex_lower bytes)
hex_lower-Unbarred bytes b = spelled bytes (hex_lower bytes) (hex_lower-Spells bytes b)
  where
    spelled : (bytes s : Bytes) → Spells bytes s → Unbarred s
    spelled [] [] sp = tt
    spelled [] (c ∷ s) sp = absurd sp
    spelled (b ∷ bytes) [] sp = absurd sp
    spelled (b ∷ bytes) (c ∷ []) sp = absurd sp
    spelled (b ∷ bytes) (c ∷ d ∷ s) sp = (
      λ e. omega (arith, to_digit-IsGraphic c (b / 16) sp.0),
      (λ e. omega (arith, to_digit-IsGraphic d (b % 16) sp.1), spelled bytes s sp.2),
    )

prefixed_hex-Unbarred : (bytes : Bytes) → All IsByte bytes → Unbarred (prefixed_hex bytes)
unfolding prefixed_hex
prefixed_hex-Unbarred bytes b =
    ((λ e. omega arith), ((λ e. omega arith), hex_lower-Unbarred bytes b))

prefixed_hex-injective :
    (xs ys : Bytes) → All IsByte xs → All IsByte ys → prefixed_hex xs ≡ prefixed_hex ys → xs ≡ ys
unfolding prefixed_hex
prefixed_hex-injective xs ys hx hy e = hex_lower-injective xs ys hx hy (ground arith)

-- The message that a keeper authenticates for these fields.
abbrev pub signed_text : PowKeeper → Bytes → Bytes → ℕ → ℕ → ℕ → ℕ → Bytes
signed_text keeper address salt =
    mac_message (hex_lower keeper.boot_nonce) (prefixed_hex address) (hex_lower salt)

-- The keyed hash tells two texts apart. It holds of any two texts that are no collision.
abbrev pub NoCollision : Hashes → Bytes → Bytes → Bytes → Type 0
NoCollision h secret m m' = hmac_sha256 h secret m ≡ hmac_sha256 h secret m' → m ≡ m'

signed_text-injective :
    (keeper other : PowKeeper) (address address' salt salt' : Bytes)
    (bits bits' puzzles puzzles' issued issued' expires expires' : ℕ)
    → IsSalt keeper.boot_nonce
    → IsSalt other.boot_nonce
    → IsAddress address
    → IsAddress address'
    → IsSalt salt
    → IsSalt salt'
    → signed_text keeper address salt bits puzzles issued expires
      ≡ signed_text other address' salt' bits' puzzles' issued' expires'
    → (keeper.boot_nonce ≡ other.boot_nonce)
      × (address ≡ address')
      × (salt ≡ salt')
      × (bits ≡ bits')
      × (puzzles ≡ puzzles')
      × (issued ≡ issued')
      × (expires ≡ expires')
signed_text-injective keeper other address address' salt salt' bits bits' puzzles puzzles' issued
      issued' expires expires' hb hb' ha ha' hs hs' e =
    let t =
      mac_message-injective _ _ _ _ _ _ bits bits' puzzles puzzles' issued issued' expires expires'
        (hex_lower-Unbarred _ hb.1) (hex_lower-Unbarred _ hb'.1) (prefixed_hex-Unbarred _ ha.1)
        (prefixed_hex-Unbarred _ ha'.1) (hex_lower-Unbarred _ hs.1) (hex_lower-Unbarred _ hs'.1)
        e in
    (
      hex_lower-injective _ _ hb.1 hb'.1 t.0,
      prefixed_hex-injective _ _ ha.1 ha'.1 t.1,
      hex_lower-injective _ _ hs.1 hs'.1 t.2,
      t.3,
      t.4,
      t.5,
      t.6,
    )

-- A challenge that carries the HMAC text of an issued one is accepted only with the fields that
-- were issued, unless the two signed texts collide: nobody can keep the HMAC and change the
-- address, the salt, the difficulty or the lifetime. The hash returns 32 bytes, and the boot
-- nonce, the address and the salt have their sizes.
pub verify_challenge_unforged :
    (h : Hashes) (lawful : IsHashes h) (keeper : PowKeeper) (address salt : Bytes)
    (bits puzzles ttl now later : ℕ) (c : Challenge) (v : VerifiedChallenge)
    → IsSalt keeper.boot_nonce
    → IsAddress address
    → IsSalt salt
    → c.hmac ≡ (issue h keeper address bits puzzles ttl now salt).hmac
    → NoCollision h keeper.secret
        (signed_text keeper address salt bits puzzles now (saturating_add_u64 now ttl))
        (signed_text keeper v.address v.salt c.bits c.puzzles c.issued_at c.expires_at)
    → verify_challenge h keeper c later ≡ ok v
    → (v ≡ view salt address bits puzzles (saturating_add_u64 now ttl)) × (c.issued_at ≡ now)
unfolding issue mac
verify_challenge_unforged h lawful keeper address salt bits puzzles ttl now later c v hb ha hs same
      apart e =
    let a = verify_challenge-Authentic h lawful keeper c later v e in
    let m =
      mac-length h lawful keeper (prefixed_hex address) (hex_lower salt) bits puzzles now
        (saturating_add_u64 now ttl) in
    let d = decode_mac h lawful _ m.0 m.1 in
    let signed = rw same at a.signed in
    let codes_eq = ok-injective (sym d ∙ signed) in
    let t =
      signed_text-injective keeper keeper address v.address salt v.salt bits c.bits puzzles
        c.puzzles now c.issued_at (saturating_add_u64 now ttl) c.expires_at hb hb ha
        (parse_address-IsAddress c.address v.address a.addressed).0 hs
        (decode_fixed_hex-ok c.salt 16 v.salt a.salted) (apart codes_eq) in
    (cc (a.viewed, t.1, t.2, t.3, t.4, t.6), sym t.5)
