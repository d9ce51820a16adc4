-- ===== src/Pow/Keeper.antt =====
-- `PowKeeper`. A method that locks a map and changes it returns the keeper that it leaves; random
-- bytes are an argument.
use atlas_faucet.Prelude.{
  ℕ, ◌-◌, Bool, true, false, not, Option, none, some, ◌∷◌, ◌++◌, Bytes, codes, bytes_eq, Result, ok,
  err, ◌>>=◌, map_err, ltb, leb, ◌==◌, if◌then◌else◌, Map, empty_map, insert, remove, retain,
  contains_key,
}
use atlas_faucet.Prelude.Words.{saturating_add_u64}
use atlas_faucet.Hashes.{Hashes}
use atlas_faucet.Text.{to_decimal}
use atlas_faucet.Util.{
  HexError, hex_lower, prefixed_hex, decode_fixed_hex, parse_address, constant_time_eq,
}
use atlas_faucet.Pow.Defs.{VerifiedChallenge, hmac_sha256}

abbrev pub algorithm_name : Bytes
algorithm_name = codes "sha256-leading-zeros"

abbrev pub version_number : ℕ
version_number = 1

abbrev pub mac_domain : Bytes
mac_domain = codes "atlas-faucet-pow"

pub record Challenge : Type 0 where
  pub version : ℕ
  pub algorithm : Bytes
  pub address : Bytes
  pub salt : Bytes
  pub bits : ℕ
  pub puzzles : ℕ
  pub issued_at : ℕ
  pub expires_at : ℕ
  pub hmac : Bytes

-- What the text of an error names.
pub data Part : Type 0 where
  salt_part address_part hmac_part : Part

pub data Feature : Type 0 where
  version_feature : ℕ → Feature
  algorithm_feature : Bytes → Feature

pub data ChallengeError : Type 0 where
  malformed : Part → HexError → ChallengeError
  unsupported : Feature → ChallengeError
  tampered : ChallengeError
  expired : ChallengeError

pub record PowKeeper : Type 0 where
  pub secret : Bytes
  pub boot_nonce : Bytes
  pub consumed : Map ℕ
  pub last_claim : Map ℕ

-- `PowKeeper::new`, with the bytes that `random_array` returns.
unfoldable pub new_keeper : Bytes → Bytes → PowKeeper
new_keeper secret random = record {
  secret = secret;
  boot_nonce = random;
  consumed = empty_map;
  last_claim = empty_map;
}

-- The text that `mac` authenticates.
unfoldable pub mac_message : Bytes → Bytes → Bytes → ℕ → ℕ → ℕ → ℕ → Bytes
mac_message boot address_hex salt_hex bits puzzles issued_at expires_at =
    mac_domain
    ++ (codes "|v"
        ++ (to_decimal version_number
            ++ (b'|'
                ∷ (algorithm_name
                    ++ (b'|'
                        ∷ (boot
                            ++ (b'|'
                                ∷ (address_hex
                                    ++ (b'|'
                                        ∷ (salt_hex
                                            ++ (b'|'
                                                ∷ (to_decimal bits
                                                    ++ (b'|'
                                                        ∷ (to_decimal puzzles
                                                            ++ (b'|'
                                                            ∷ (to_decimal issued_at
                                                            ++ (b'|'
                                                            ∷ to_decimal expires_at)))))))))))))))))

module _ (h : Hashes) where
  unfoldable pub mac : PowKeeper → Bytes → Bytes → ℕ → ℕ → ℕ → ℕ → Bytes
  mac keeper address_hex salt_hex bits puzzles issued_at expires_at = hmac_sha256 h keeper.secret (
      mac_message (hex_lower keeper.boot_nonce) address_hex salt_hex bits puzzles issued_at
        expires_at)

  -- `issue`, with the bytes that `random_array` returns for the salt.
  unfoldable pub issue : PowKeeper → Bytes → ℕ → ℕ → ℕ → ℕ → Bytes → Challenge
  issue keeper address bits puzzles ttl_secs now salt =
      let expires_at = saturating_add_u64 now ttl_secs in
      let address_hex = prefixed_hex address in
      record {
        version = version_number;
        algorithm = algorithm_name;
        address = address_hex;
        salt = prefixed_hex salt;
        bits = bits;
        puzzles = puzzles;
        issued_at = now;
        expires_at = expires_at;
        hmac = prefixed_hex (mac keeper address_hex (hex_lower salt) bits puzzles now expires_at);
      }

  -- The checks that follow the parsing of the three texts.
  unfoldable pub check_mac :
      PowKeeper → Challenge → ℕ → Bytes → Bytes → Bytes → Result ChallengeError VerifiedChallenge
  check_mac keeper challenge now salt_bytes address_bytes provided_mac =
      let expected_mac =
        mac keeper (prefixed_hex address_bytes) (hex_lower salt_bytes) challenge.bits
          challenge.puzzles challenge.issued_at challenge.expires_at in
      if not (constant_time_eq provided_mac expected_mac)
      then err tampered
      else if ltb challenge.expires_at now
      then err expired
      else ok (record {
        salt = salt_bytes;
        address = address_bytes;
        bits = challenge.bits;
        puzzles = challenge.puzzles;
        expires_at = challenge.expires_at;
      })

  unfoldable pub parse_and_check :
      PowKeeper → Challenge → ℕ → Result ChallengeError VerifiedChallenge
  unfolding check_mac
  parse_and_check keeper challenge now = do
    salt_bytes ← map_err (malformed salt_part) (decode_fixed_hex challenge.salt 16)
    address_bytes ← map_err (malformed address_part) (parse_address challenge.address)
    provided_mac ← map_err (malformed hmac_part) (decode_fixed_hex challenge.hmac 32)
    check_mac keeper challenge now salt_bytes address_bytes provided_mac

  unfoldable pub verify_challenge :
      PowKeeper → Challenge → ℕ → Result ChallengeError VerifiedChallenge
  unfolding parse_and_check
  verify_challenge keeper challenge now =
      if not (challenge.version == version_number)
      then err (unsupported (version_feature challenge.version))
      else if not (bytes_eq challenge.algorithm algorithm_name)
      then err (unsupported (algorithm_feature challenge.algorithm))
      else parse_and_check keeper challenge now

unfoldable pub consume_salt : PowKeeper → Bytes → ℕ → ℕ → PowKeeper × Bool
consume_salt keeper salt expires_at now =
    let kept = retain (λ exp. leb now exp) keeper.consumed in
    if contains_key salt kept
    then (record keeper { consumed = kept }, false)
    else (record keeper { consumed = insert salt expires_at kept }, true)

unfoldable pub release_salt : PowKeeper → Bytes → PowKeeper
release_salt keeper salt = record keeper { consumed = remove salt keeper.consumed }

unfoldable pub cooldown_remaining : PowKeeper → Bytes → ℕ → ℕ → ℕ
cooldown_remaining keeper address cooldown_secs now =
    if cooldown_secs == 0 then 0 else elim (keeper.last_claim address) [
      | some last ↦ saturating_add_u64 last cooldown_secs - now
      | none ↦ 0
    ]

-- What is left of the cooldown of the entry that survived the pruning.
unfoldable pub reserved_for : Option ℕ → ℕ → ℕ → ℕ
reserved_for none cooldown_secs now = 0
reserved_for (some last) cooldown_secs now = saturating_add_u64 last cooldown_secs - now

unfoldable pub try_begin_claim : PowKeeper → Bytes → ℕ → ℕ → PowKeeper × Result ℕ (Unit {0})
unfolding reserved_for
try_begin_claim keeper address cooldown_secs now =
    let kept = retain (λ last. leb now (saturating_add_u64 last cooldown_secs)) keeper.last_claim in
    let remaining = reserved_for (kept address) cooldown_secs now in
    if cooldown_secs == 0
    then (keeper, ok tt)
    else if ltb 0 remaining
    then (record keeper { last_claim = kept }, err remaining)
    else (record keeper { last_claim = insert address now kept }, ok tt)

-- `guard.get(address) == Some(&reserved_at)`
unfoldable pub holds : Option ℕ → ℕ → Bool
holds none reserved_at = false
holds (some last) reserved_at = last == reserved_at

unfoldable pub release_claim : PowKeeper → Bytes → ℕ → PowKeeper
unfolding holds
release_claim keeper address reserved_at =
    if holds (keeper.last_claim address) reserved_at
    then record keeper { last_claim = remove address keeper.last_claim }
    else keeper
