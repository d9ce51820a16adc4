-- ===== src/Main.antt =====
-- src/main.rs: the command line, and what `main` builds before it serves. A panic of `main` is an
-- error here; its printing and the runtime are left out.
pub mod Startup
pub mod Serving
use atlas_faucet.Prelude.{
  ℕ, Bool, true, false, ◌||◌, Option, none, some, List, [], ◌∷◌, Bytes, codes, bytes_eq, Result, ok,
  err, ◌>>=◌, map_err, if◌then◌else◌,
}
use atlas_faucet.Hashes.{Hashes}
use atlas_faucet.Secp.{Secp}
use atlas_faucet.Text.{trim}
use atlas_faucet.World.{History, World}
use atlas_faucet.Pow.{PowKeeper, new_keeper}
use atlas_faucet.Eth.{EthError, FaucetSigner, from_private_key_hex}
use atlas_faucet.Rpc
use atlas_faucet.Rpc.{RpcError}
use atlas_faucet.Faucet.{new_faucet}
use atlas_faucet.Server.{AppState}
use atlas_faucet.Config.{
  Config, ConfigError, is_empty, private_key, drip_wei, gas_price_wei, validate,
}

pub data StartupAction : Type 0 where
  run print_version : StartupAction
  unsupported_argument : Bytes → StartupAction

-- The loop of `startup_action`, with `saw_version`.
unfoldable pub startup_loop : Bool → List Bytes → StartupAction
startup_loop saw_version [] = if saw_version then print_version else run
startup_loop saw_version (arg ∷ args) =
    let rest = startup_loop true args in
    if bytes_eq arg (codes "-v") || bytes_eq arg (codes "--version")
    then rest
    else unsupported_argument arg

unfoldable pub startup_action : List Bytes → StartupAction
unfolding startup_loop
startup_action args = startup_loop false args

-- Why `main` panics.
pub data StartupError : Type 0 where
  invalid_config : ConfigError → StartupError
  invalid_private_key : EthError → StartupError

-- The HMAC secret: the configured one, or the bytes that `random_secret` returns.
unfoldable pub secret_of : Option Bytes → Bytes → Bytes
unfolding is_empty
secret_of none random = random
secret_of (some value) random = if is_empty (trim value) then random else trim value

-- The chain id that the node answers, or 1337.
unfoldable pub discovered : Result RpcError ℕ × History → ℕ × History
discovered (ok id, now) = (id, now)
discovered (err e, now) = (1337, now)

unfoldable pub chain_id_of : World → Option ℕ → History → ℕ × History
unfolding discovered
chain_id_of w (some id) past = (id, past)
chain_id_of w none past = discovered (Rpc.chain_id w past)

module _ (h : Hashes) (s : Secp) where
  -- The state that `main` hands to the server.
  unfoldable pub app_state : Config → FaucetSigner h s → ℕ → Option ℕ → ℕ → AppState h s
  unfolding new_faucet
  app_state config signer drip price chain_id = record {
    faucet =
        new_faucet h s signer chain_id drip config.faucet_gas_limit price
          config.faucet_receipt_timeout_secs config.faucet_queue_capacity;
    html_title = config.html_title;
    pow_bits = config.pow_bits;
    pow_puzzles = config.pow_puzzles;
    pow_ttl_secs = config.pow_ttl_secs;
    cooldown_secs = config.faucet_cooldown_secs;
  }

  -- `main`, from the configuration on, with the random bytes of the secret and the boot nonce.
  unfoldable pub main :
      World
      → Config
      → Bytes
      → Bytes
      → History
      → Result StartupError (AppState h s × PowKeeper × History)
  unfolding app_state
  main w config random_secret random_boot past = do
    valid ← map_err invalid_config (validate config)
    signer ← map_err invalid_private_key (from_private_key_hex h s (private_key config))
    drip ← map_err invalid_config (drip_wei config)
    price ← map_err invalid_config (gas_price_wei config)
    let keeper : PowKeeper = new_keeper (secret_of config.pow_hmac_secret random_secret) random_boot
    let (chain_id, now) = chain_id_of w config.chain_id past
    ok (app_state config signer drip price chain_id, keeper, now)
