-- ===== src/Tests/Start.antt =====
-- src/config.rs and src/main.rs on small inputs.
use atlas_faucet.Prelude.{◌≤◌, ◌<◌, ◌≡◌, refl, none, some, [], ◌∷◌, codes, bytes_eq, ok, arith}
use atlas_faucet.Text.{from_str_radix, trim, strip_prefix}
use atlas_faucet.Util.{
  decode_fixed_hex, decode_flexible_hex, decode_hex_body, decode_pairs, decode_pair,
}
use atlas_faucet.Eth.{from_private_key_hex}
use atlas_faucet.Faucet.Submit.{IsConfigured}
use atlas_faucet.Config.{Config, default_config, private_key, drip_wei, gas_price_wei, validate}
use atlas_faucet.Main.{print_version, startup_action, chain_id_of, secret_of, app_state, main}
use atlas_faucet.Main.Startup.{main-IsConfigured}
use atlas_faucet.Tests.Toys.{
  toy_hashes, toy_secp, toy_secp-IsSecp, toy_signer, toy_world, toy_keeper, sixteen,
}

startup_action_test : startup_action (codes "-v" ∷ codes "--version" ∷ []) ≡ print_version
unfolding startup_action bytes_eq
startup_action_test = refl

-- The defaults, with a chain id, an own secret, and another signer than the known one.
abbrev toy_config : Config
toy_config = record default_config {
  chain_id = some 1337;
  pow_hmac_secret = some (codes " unit-secret ");
}

toy_main :
    main toy_hashes toy_secp toy_world toy_config [] sixteen []
    ≡ ok (
      app_state toy_hashes toy_secp toy_config toy_signer 1000000000000000000 none 1337,
      toy_keeper,
      [],
    )
unfolding main validate default_config drip_wei from_str_radix trim gas_price_wei
    from_private_key_hex decode_fixed_hex decode_flexible_hex decode_hex_body strip_prefix
    private_key decode_pairs decode_pair chain_id_of secret_of
toy_main = refl

main-IsConfigured_example :
    IsConfigured toy_hashes toy_secp toy_secp-IsSecp
      (app_state toy_hashes toy_secp toy_config toy_signer 1000000000000000000 none 1337).faucet
    × (0 < 16)
    × (16 ≤ 28)
    × (0 < 480)
    × (480 ≤ 100000)
unfolding app_state default_config chain_id_of
main-IsConfigured_example =
    main-IsConfigured toy_hashes toy_secp toy_secp-IsSecp toy_world toy_config [] sixteen []
      (app_state toy_hashes toy_secp toy_config toy_signer 1000000000000000000 none 1337) toy_keeper
      [] (omega arith) (omega arith) toy_main
