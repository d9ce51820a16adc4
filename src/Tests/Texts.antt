-- ===== src/Tests/Texts.antt =====
-- src/util.rs, src/rpc.rs and `escape_html` on small inputs.
use atlas_faucet.Prelude.{
  ◌^◌, ◌≤◌, ◌<◌, ◌≡◌, ◌↔◌, ◌⊎◌, refl, true, none, some, [], ◌∷◌, codes, arith, ok,
}
use atlas_faucet.Prelude.Powers.{be_value}
use atlas_faucet.World.{Value, null, string}
use atlas_faucet.Util.{
  decode_hex_body, parse_address, checksum_address, leading_zero_bits, constant_time_eq,
}
use atlas_faucet.Util.Reads.{Reads, decode_hex_body_iff}
use atlas_faucet.Util.Address.{parse_address-checksum_address}
use atlas_faucet.Util.Zeros.{leading_zero_bits_iff}
use atlas_faucet.Util.Compare.{constant_time_eq_iff}
use atlas_faucet.Rpc.{read_body, get}
use atlas_faucet.Rpc.Laws.{read_body_iff}
use atlas_faucet.Server.{escape_html}
use atlas_faucet.Tests.Toys.{toy_digest, toy_address, toy_world}

decode_hex_body_iff_example :
    (decode_hex_body (codes "+f7E") ≡ ok (15 ∷ 126 ∷ [])) ↔ Reads (15 ∷ 126 ∷ []) (codes "+f7E")
decode_hex_body_iff_example = decode_hex_body_iff (codes "+f7E") (15 ∷ 126 ∷ [])

parse_address-checksum_address_example :
    parse_address (checksum_address toy_digest toy_address) ≡ ok toy_address
parse_address-checksum_address_example =
    parse_address-checksum_address toy_digest toy_address (refl, omega arith)

leading_zero_bits_iff_example :
    (10 ≤ leading_zero_bits (0 ∷ 63 ∷ 7 ∷ [])) ↔ (be_value (0 ∷ 63 ∷ 7 ∷ []) < 2 ^ 14)
leading_zero_bits_iff_example = leading_zero_bits_iff (0 ∷ 63 ∷ 7 ∷ []) 10 14 (omega arith) refl

constant_time_eq_iff_example :
    (constant_time_eq (codes "abc") (codes "abd") ≡ true) ↔ (codes "abc" ≡ codes "abd")
constant_time_eq_iff_example = constant_time_eq_iff (codes "abc") (codes "abd")

read_body_iff_example :
    (read_body toy_world (codes "eth_gasPrice") (codes "0x1") ≡ ok (string (codes "0x1"))) ↔ (
      (value : Value) × (toy_world.from_str (codes "0x1") ≡ some value)
      × ((get (codes "error") value ≡ none) ⊎ (get (codes "error") value ≡ some null))
      × (get (codes "result") value ≡ some (string (codes "0x1"))))
read_body_iff_example =
    read_body_iff toy_world (codes "eth_gasPrice") (codes "0x1") (string (codes "0x1"))

escape_html_test : escape_html (codes "<b>&'") ≡ codes "&lt;b&gt;&amp;&#39;"
unfolding escape_html
escape_html_test = refl
