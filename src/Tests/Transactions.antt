-- ===== src/Tests/Transactions.antt =====
-- src/eth.rs on small inputs.
use atlas_faucet.Prelude.{
  List, Bytes, ◌↔◌, ◌+◌, ◌^◌, ◌≤◌, ◌<◌, ◌≡◌, ◌≢◌, refl, [], ◌∷◌, map, IsByte, codes, All, arith, ok,
  err, length,
}
use atlas_faucet.Prelude.Powers.{be_value}
use atlas_faucet.Eth.{
  minimal_be, rlp_length_prefix, concat, decode_prefixed, take_item, rlp_bytes, rlp_list, no_fuel,
  rlp_decode_string, rlp_decode_flat_list, sign_legacy_transfer, recover_legacy_transfer,
}
use atlas_faucet.Eth.Numbers.{IsMinimal, minimal_be_lem}
use atlas_faucet.Eth.Lists.{rlp_decode_flat_list-rlp_list}
use atlas_faucet.Eth.Recover.{IsTransfer, recover_legacy_transfer-sign_legacy_transfer}
use atlas_faucet.Eth.Progress.{rlp_decode_string-ok, rlp_decode_flat_list-ne-no_fuel}
use atlas_faucet.Util.{prefixed_hex}
use atlas_faucet.Eth.{panics}
use atlas_faucet.Eth.Panic.{Overlong, recover_legacy_transfer_panics_iff}
use atlas_faucet.Tests.Toys.{
  toy_hashes, toy_secp, toy_secp-IsSecp, toy_signer, toy_transfer, toy_address,
}

minimal_be_lem_example :
    (be_value (minimal_be 1337) ≡ 1337)
    × IsMinimal (minimal_be 1337)
    × All IsByte (minimal_be 1337)
    × (length (minimal_be 1337) ≤ 16)
minimal_be_lem_example = minimal_be_lem 1337 (omega arith)

rlp_list_short :
    length (rlp_list (map rlp_bytes (codes "cat" ∷ codes "dog" ∷ [] ∷ []))) + 18 < 2 ^ 64
unfolding rlp_list rlp_bytes rlp_length_prefix concat
rlp_list_short = omega arith

rlp_decode_flat_list-rlp_list_example :
    rlp_decode_flat_list (rlp_list (map rlp_bytes (codes "cat" ∷ codes "dog" ∷ [] ∷ [])))
    ≡ ok (codes "cat" ∷ codes "dog" ∷ [] ∷ [])
rlp_decode_flat_list-rlp_list_example =
    rlp_decode_flat_list-rlp_list (codes "cat" ∷ codes "dog" ∷ [] ∷ []) rlp_list_short

toy_transfer-IsTransfer : IsTransfer toy_transfer
toy_transfer-IsTransfer = record {
  nonce_fits = omega arith;
  gas_price_fits = omega arith;
  gas_limit_fits = omega arith;
  recipient = (refl, omega arith);
  value_fits = omega arith;
  chain_id_fits = omega arith;
}

recover_legacy_transfer-sign_legacy_transfer_example :
    recover_legacy_transfer toy_hashes toy_secp
      (sign_legacy_transfer toy_hashes toy_secp toy_signer toy_transfer).raw
    ≡ ok (record {
      from = toy_signer.address;
      to = toy_address;
      value = 1000000;
      nonce = 5;
      chain_id = 1337;
    })
recover_legacy_transfer-sign_legacy_transfer_example =
    recover_legacy_transfer-sign_legacy_transfer toy_hashes toy_secp toy_secp-IsSecp toy_signer
      toy_transfer refl toy_transfer-IsTransfer (omega arith)

rlp_decode_string-ok_example : (0 < 4) × (4 ≤ 5)
unfolding decode_prefixed take_item
rlp_decode_string-ok_example =
    rlp_decode_string-ok (131 ∷ 1 ∷ 2 ∷ 3 ∷ 9 ∷ []) 0 (1 ∷ 2 ∷ 3 ∷ []) 4
      (unfold rlp_decode_string in refl)

rlp_decode_flat_list-ne-no_fuel_example : rlp_decode_flat_list (193 ∷ 193 ∷ []) ≢ err no_fuel
rlp_decode_flat_list-ne-no_fuel_example = rlp_decode_flat_list-ne-no_fuel (193 ∷ 193 ∷ [])

-- Nine fields with an r of 33 bytes.
abbrev overlong : List Bytes
overlong =
    []
    ∷ []
    ∷ []
    ∷ toy_address
    ∷ []
    ∷ []
    ∷ (37 ∷ [])
    ∷ codes "0123456789abcdef0123456789abcdef0"
    ∷ (1 ∷ [])
    ∷ []

overlong_short : length (rlp_list (map rlp_bytes overlong)) + 18 < 2 ^ 64
unfolding rlp_list rlp_bytes rlp_length_prefix concat minimal_be
overlong_short = omega arith

recover_legacy_transfer_panics_iff_example :
    (recover_legacy_transfer toy_hashes toy_secp (prefixed_hex (rlp_list (map rlp_bytes overlong)))
      ≡ err panics)
    ↔ Overlong toy_hashes toy_secp overlong
recover_legacy_transfer_panics_iff_example =
    recover_legacy_transfer_panics_iff toy_hashes toy_secp overlong refl (omega arith)
      overlong_short
