-- ===== src/Server/Messages.antt =====
-- The texts of the errors: the `Display` implementations and the `format!` calls, each from what
-- its error interpolates.
use atlas_faucet.Prelude.{◌++◌, Bytes, codes}
use atlas_faucet.Text.{IntError, no_digits, invalid_digit, pos_overflow, to_decimal}
use atlas_faucet.Util.{HexError, odd_length, invalid_utf8, invalid_byte, wrong_length, not_prefixed}
use atlas_faucet.Pow.{
  PowError, wrong_nonces, puzzle_unsolved, Part, salt_part, address_part, hmac_part, Feature,
  version_feature, algorithm_feature, ChallengeError, malformed, unsupported, tampered, expired,
}
use atlas_faucet.Rpc.{RpcError}
use atlas_faucet.Faucet.{DispenseError, rpc_failed, insufficient_funds}
use atlas_faucet.Config.{ConfigError, bad_bits, bad_puzzles, bad_drip, bad_gas_price}
use atlas_faucet.Server.{
  Message, text, invalid_body, invalid_address, rejected_challenge, rejected_solution,
  failed_dispense, busy, recently_funded,
}

-- `ParseIntError`
unfoldable pub int_error_text : IntError → Bytes
int_error_text no_digits = codes "cannot parse integer from empty string"
int_error_text invalid_digit = codes "invalid digit found in string"
int_error_text pos_overflow = codes "number too large to fit in target type"

-- The text of an `Utf8Error` is an argument.
unfoldable pub hex_error_text : Bytes → HexError → Bytes
unfolding int_error_text
hex_error_text utf8_error (odd_length n) = codes "odd number of hex characters: " ++ to_decimal n
hex_error_text utf8_error invalid_utf8 = codes "invalid utf8 in hex string: " ++ utf8_error
hex_error_text utf8_error (invalid_byte index e) =
    codes "invalid hex byte at index " ++ (to_decimal index ++ (codes ": " ++ int_error_text e))
hex_error_text utf8_error (wrong_length expected got) =
    codes "expected " ++ (to_decimal expected ++ (codes " bytes, got " ++ to_decimal got))
hex_error_text utf8_error not_prefixed = codes "address must be 0x-prefixed"

unfoldable pub feature_text : Feature → Bytes
feature_text (version_feature version) = codes "version " ++ to_decimal version
feature_text (algorithm_feature algorithm) = codes "algorithm " ++ algorithm

unfoldable pub part_text : Part → Bytes
part_text salt_part = codes "salt: "
part_text address_part = codes "address: "
part_text hmac_part = codes "hmac: "

unfoldable pub challenge_error_text : Bytes → ChallengeError → Bytes
unfolding part_text hex_error_text feature_text
challenge_error_text utf8_error (malformed part e) =
    codes "malformed challenge: " ++ (part_text part ++ hex_error_text utf8_error e)
challenge_error_text utf8_error (unsupported feature) =
    codes "unsupported challenge: " ++ feature_text feature
challenge_error_text utf8_error tampered = codes "challenge HMAC does not match its contents"
challenge_error_text utf8_error expired = codes "challenge has expired"

unfoldable pub pow_error_text : PowError → Bytes
pow_error_text (wrong_nonces expected got) =
    codes "expected " ++ (to_decimal expected ++ (codes " nonces, got " ++ to_decimal got))
pow_error_text (puzzle_unsolved index) =
    codes "proof-of-work puzzle " ++ (to_decimal index ++ codes " is unsolved")

-- The texts of the RPC errors, which hold reqwest's and serde_json's, are arguments.
unfoldable pub dispense_error_text : (RpcError → Bytes) → DispenseError → Bytes
dispense_error_text rpc_text (rpc_failed e) = rpc_text e
dispense_error_text rpc_text (insufficient_funds balance needed) =
    codes "faucet account is underfunded: balance "
    ++ (to_decimal balance ++ (codes " wei, need " ++ (to_decimal needed ++ codes " wei")))

unfoldable pub config_error_text : ConfigError → Bytes
unfolding int_error_text
config_error_text (bad_bits bits) =
    codes "POW_BITS must be between 1 and 28 (got "
    ++ (to_decimal bits ++ codes "); raise POW_PUZZLES for more total work instead")
config_error_text (bad_puzzles puzzles) =
    codes "POW_PUZZLES must be between 1 and 100000 (got " ++ (to_decimal puzzles ++ codes ")")
config_error_text (bad_drip e) =
    codes "FAUCET_DRIP_WEI is not a valid wei amount: " ++ int_error_text e
config_error_text (bad_gas_price e) =
    codes "FAUCET_GAS_PRICE_WEI is not a valid wei amount: " ++ int_error_text e

-- The message of an error response; serde_json's error on a body is an argument too.
unfoldable pub message_text : Bytes → Bytes → (RpcError → Bytes) → Message → Bytes
unfolding hex_error_text challenge_error_text pow_error_text dispense_error_text
message_text utf8_error body_error rpc_text (text t) = t
message_text utf8_error body_error rpc_text invalid_body =
    codes "invalid request body: " ++ body_error
message_text utf8_error body_error rpc_text (invalid_address e) =
    codes "invalid address: " ++ hex_error_text utf8_error e
message_text utf8_error body_error rpc_text (rejected_challenge e) =
    challenge_error_text utf8_error e
message_text utf8_error body_error rpc_text (rejected_solution e) = pow_error_text e
message_text utf8_error body_error rpc_text (failed_dispense e) = dispense_error_text rpc_text e
message_text utf8_error body_error rpc_text (busy capacity) =
    codes "faucet is busy (queue capacity "
    ++ (to_decimal capacity ++ codes "); please retry shortly")
message_text utf8_error body_error rpc_text (recently_funded remaining) =
    codes "address recently funded; try again in " ++ (to_decimal remaining ++ codes "s")
