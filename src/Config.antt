-- ===== src/Config.antt =====
-- src/config.rs: the configuration, its defaults and its validation. Reading the environment is
-- envy's; the filter before it is here.
pub mod Validate
use atlas_faucet.Prelude.{
  ℕ, ◌^◌, Bool, true, false, ◌||◌, not, Option, none, some, List, [], ◌∷◌, Bytes, codes, Result, ok,
  err, ◌>>=◌, map_err, if◌then◌else◌, ltb, ◌==◌,
}
use atlas_faucet.Text.{IntError, trim, from_str_radix}

pub record Config : Type 0 where
  pub listen_host : Bytes
  pub listen_port : ℕ
  pub web_workers : ℕ
  pub html_title : Bytes
  pub rpc_url : Bytes
  pub chain_id : Option ℕ
  pub faucet_private_key : Bytes
  pub faucet_drip_wei : Bytes
  pub pow_bits : ℕ
  pub pow_puzzles : ℕ
  pub pow_ttl_secs : ℕ
  pub pow_hmac_secret : Option Bytes
  pub faucet_queue_capacity : ℕ
  pub faucet_cooldown_secs : ℕ
  pub faucet_gas_limit : ℕ
  pub faucet_gas_price_wei : Option Bytes
  pub faucet_receipt_timeout_secs : ℕ

-- The texts of the errors, by what they interpolate.
pub data ConfigError : Type 0 where
  bad_bits bad_puzzles : ℕ → ConfigError
  bad_drip bad_gas_price : IntError → ConfigError

abbrev pub max_pow_bits : ℕ
max_pow_bits = 28

abbrev pub max_pow_puzzles : ℕ
max_pow_puzzles = 100000

abbrev pub default_faucet_private_key : Bytes
default_faucet_private_key =
    codes "0xac0974bec39a17e36ba4a6b4d238ff944bacb478cbed5efcae784d7bf4f2ff80"

-- The configuration of an empty environment.
unfoldable pub default_config : Config
default_config = record {
  listen_host = codes "0.0.0.0";
  listen_port = 28884;
  web_workers = 4;
  html_title = codes "Atlas Faucet";
  rpc_url = codes "http://127.0.0.1:8545";
  chain_id = none;
  faucet_private_key = default_faucet_private_key;
  faucet_drip_wei = codes "1000000000000000000";
  pow_bits = 16;
  pow_puzzles = 480;
  pow_ttl_secs = 180;
  pow_hmac_secret = none;
  faucet_queue_capacity = 2;
  faucet_cooldown_secs = 60;
  faucet_gas_limit = 21000;
  faucet_gas_price_wei = none;
  faucet_receipt_timeout_secs = 30;
}

unfoldable pub is_empty : Bytes → Bool
is_empty [] = true
is_empty (c ∷ s) = false

-- The filter of `create_config`: a blank variable counts as unset.
unfoldable pub set_vars : List (Bytes × Bytes) → List (Bytes × Bytes)
unfolding is_empty
set_vars [] = []
set_vars ((name, value) ∷ vars) =
    let rest = set_vars vars in if not (is_empty (trim value)) then (name, value) ∷ rest else rest

unfoldable pub private_key : Config → Bytes
unfolding is_empty
private_key config =
    let trimmed = trim config.faucet_private_key in
    if is_empty trimmed then default_faucet_private_key else trimmed

unfoldable pub drip_wei : Config → Result ConfigError ℕ
drip_wei config = map_err bad_drip (from_str_radix 10 (2 ^ 128) (trim config.faucet_drip_wei))

unfoldable pub parse_gas_price : Bytes → Result ConfigError (Option ℕ)
parse_gas_price [] = ok none
parse_gas_price (c ∷ value) = do
  price ← map_err bad_gas_price (from_str_radix 10 (2 ^ 128) (c ∷ value))
  ok (some price)

unfoldable pub gas_price_wei : Config → Result ConfigError (Option ℕ)
unfolding parse_gas_price
gas_price_wei config = elim config.faucet_gas_price_wei [
  | none ↦ ok none
  | some value ↦ parse_gas_price (trim value)
]

unfoldable pub validate : Config → Result ConfigError (Unit {0})
validate config =
    if config.pow_bits == 0 || ltb max_pow_bits config.pow_bits
    then err (bad_bits config.pow_bits)
    else if config.pow_puzzles == 0 || ltb max_pow_puzzles config.pow_puzzles
    then err (bad_puzzles config.pow_puzzles)
    else (do drip ← drip_wei config; price ← gas_price_wei config; ok tt)
