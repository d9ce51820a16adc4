-- ===== src/Tests/Serving.antt =====
-- From a configuration of src/config.rs to a transfer of the server.
use atlas_faucet.Prelude.{◌≡◌, refl, some, [], ◌∷◌, codes, ok, arith, All}
use atlas_faucet.Text.{from_str_radix, trim, strip_prefix}
use atlas_faucet.Util.{
  decode_fixed_hex, decode_flexible_hex, decode_hex_body, decode_pairs, decode_pair,
}
use atlas_faucet.Eth.{from_private_key_hex}
use atlas_faucet.Config.{Config, default_config, private_key, drip_wei, gas_price_wei, validate}
use atlas_faucet.Main.{chain_id_of, secret_of, app_state, main}
use atlas_faucet.Main.Serving.{main_pays}
use atlas_faucet.Faucet.{new_faucet}
use atlas_faucet.Server.{new_shared}
use atlas_faucet.Server.Phases.{leaving}
use atlas_faucet.Server.Backed.{Backed}
use atlas_faucet.Tests.Toys.{
  toy_hashes, toy_hashes-IsHashes, toy_secp, toy_secp-IsSecp, toy_semaphore, toy_world, toy_keeper,
  toy_faucet, toy_signer, sixteen,
}
use atlas_faucet.Tests.Claims.{toy_from_slice, toy_app, low}
use atlas_faucet.Tests.Schedules.{toy_view, toy_marks, posted, posted-Marked}

abbrev small_config : Config
small_config = record default_config {
  chain_id = some 1337;
  pow_hmac_secret = some (codes " unit-secret ");
  html_title = codes "Atlas";
  faucet_drip_wei = codes "1000000";
  faucet_gas_price_wei = some (codes "1000");
  faucet_receipt_timeout_secs = 2;
  pow_bits = 6;
  pow_puzzles = 2;
  pow_ttl_secs = 120;
}

small_main :
    main toy_hashes toy_secp toy_world small_config [] sixteen [] ≡ ok (toy_app, toy_keeper, [])
unfolding main validate default_config drip_wei from_str_radix trim gas_price_wei
    from_private_key_hex decode_fixed_hex decode_flexible_hex decode_hex_body strip_prefix
    private_key decode_pairs decode_pair chain_id_of secret_of app_state new_faucet
small_main = refl

main_pays_example :
    All (Backed toy_hashes toy_secp toy_faucet posted.past) toy_marks
    × (from_private_key_hex toy_hashes toy_secp (private_key small_config) ≡ ok toy_signer)
    × (drip_wei small_config ≡ ok 1000000)
    × (1337 ≡ (chain_id_of toy_world small_config.chain_id []).0)
unfolding new_shared default_config chain_id_of
main_pays_example =
    main_pays toy_hashes toy_hashes-IsHashes toy_secp toy_secp-IsSecp toy_semaphore toy_world
      toy_from_slice small_config [] sixteen [] toy_app toy_keeper []
      (posted, leaving toy_view (codes "0xabc") ∷ []) toy_marks (omega arith) (omega arith)
      small_main low posted-Marked
