-- ===== src/Rpc.antt =====
-- src/rpc.rs: the JSON-RPC client. A call extends the history of the world.
pub mod Laws
pub mod Quiet
use atlas_faucet.Prelude.{
  ℕ, ◌^◌, Bool, true, false, Option, none, some, List, [], ◌∷◌, Bytes, codes, bytes_eq, Result, ok,
  err, ◌>>=◌, map_err, ok_or, if◌then◌else◌,
}
use atlas_faucet.World.{
  Value, null, string, array, object, Values, end, item, Members, close, member, boolean, number,
  Reply, send_failed, body_failed, body, Event, posts, History, World,
}
use atlas_faucet.Text.{IntError, strip_prefix, from_str_radix}

-- The texts of the errors, by the method and what else they interpolate.
pub data RpcError : Type 0 where
  request_failed response_unreadable invalid_json : Bytes → RpcError
  rpc_error : Bytes → Value → RpcError
  missing_result : Bytes → Bytes → RpcError
  non_string : Bytes → RpcError
  unparseable : Bytes → Bytes → IntError → RpcError
  no_tx_hash : RpcError

-- `Value::get` with a string index: the last of equal keys, as in serde's map.
unfoldable pub get_member : Bytes → Members → Option Value
get_member key close = none
get_member key (member name value rest) = elim (get_member key rest) [
  | some later ↦ some later
  | none ↦ if bytes_eq name key then some value else none
]

unfoldable pub get : Bytes → Value → Option Value
unfolding get_member
get key (object members) = get_member key members
get key null = none
get key (boolean b) = none
get key (number n) = none
get key (string s) = none
get key (array vs) = none

unfoldable pub as_str : Value → Option Bytes
as_str (string s) = some s
as_str null = none
as_str (boolean b) = none
as_str (number n) = none
as_str (array vs) = none
as_str (object ms) = none

-- `body.get("error").filter(|error| !error.is_null())`
unfoldable pub error_member : Value → Option Value
unfolding get
error_member value = elim (get (codes "error") value) [
  | none ↦ none
  | some null ↦ none
  | some v ↦ some v
]

-- What `call` makes of the reply's text.
unfoldable pub read_body : World → Bytes → Bytes → Result RpcError Value
unfolding error_member
read_body w method text = do
  value ← ok_or (w.from_str text) (invalid_json method)
  elim (error_member value) [
    | some error ↦ err (rpc_error method error)
    | none ↦ ok_or (get (codes "result") value) (missing_result method text)
  ]

unfoldable pub read_reply : World → Bytes → Reply → Result RpcError Value
unfolding read_body
read_reply w method send_failed = err (request_failed method)
read_reply w method body_failed = err (response_unreadable method)
read_reply w method (body text) = read_body w method text

unfoldable pub parse_hex : ℕ → Bytes → Value → Result RpcError ℕ
unfolding as_str
parse_hex bound method value = do
  text ← ok_or (as_str value) (non_string method)
  let digits : Bytes = elim (strip_prefix (codes "0x") text) [ some rest ↦ rest | none ↦ text ]
  map_err (unparseable method text) (from_str_radix 16 bound digits)

unfoldable pub parse_hex_u64 : Value → Bytes → Result RpcError ℕ
unfolding parse_hex
parse_hex_u64 value method = parse_hex (2 ^ 64) method value

unfoldable pub parse_hex_u128 : Value → Bytes → Result RpcError ℕ
unfolding parse_hex
parse_hex_u128 value method = parse_hex (2 ^ 128) method value

abbrev pub eth_chain_id : Bytes
eth_chain_id = codes "eth_chainId"

abbrev pub eth_get_transaction_count : Bytes
eth_get_transaction_count = codes "eth_getTransactionCount"

abbrev pub eth_gas_price : Bytes
eth_gas_price = codes "eth_gasPrice"

abbrev pub eth_get_balance : Bytes
eth_get_balance = codes "eth_getBalance"

abbrev pub eth_send_raw_transaction : Bytes
eth_send_raw_transaction = codes "eth_sendRawTransaction"

abbrev pub eth_get_transaction_receipt : Bytes
eth_get_transaction_receipt = codes "eth_getTransactionReceipt"

-- `json!([address, "pending"])` and `json!([text])`
abbrev pub pending_of : Bytes → Value
pending_of address = array (item (string address) (item (string (codes "pending")) end))

abbrev pub only : Bytes → Value
only text = array (item (string text) end)

module _ (w : World) where
  unfoldable pub call : Bytes → Value → History → Result RpcError Value × History
  unfolding read_reply
  call method params past =
      let now = posts method params ∷ past in (read_reply w method (w.answer now), now)

  unfoldable pub chain_id : History → Result RpcError ℕ × History
  unfolding call parse_hex_u64
  chain_id past =
      let (result, now) = call eth_chain_id (array end) past in
      (result >>= λ v. parse_hex_u64 v eth_chain_id, now)

  unfoldable pub transaction_count : Bytes → History → Result RpcError ℕ × History
  unfolding call parse_hex_u64
  transaction_count address past =
      let (result, now) = call eth_get_transaction_count (pending_of address) past in
      (result >>= λ v. parse_hex_u64 v eth_get_transaction_count, now)

  unfoldable pub gas_price : History → Result RpcError ℕ × History
  unfolding call parse_hex_u128
  gas_price past =
      let (result, now) = call eth_gas_price (array end) past in
      (result >>= λ v. parse_hex_u128 v eth_gas_price, now)

  unfoldable pub balance : Bytes → History → Result RpcError ℕ × History
  unfolding call parse_hex_u128
  balance address past =
      let (result, now) = call eth_get_balance (pending_of address) past in
      (result >>= λ v. parse_hex_u128 v eth_get_balance, now)

  unfoldable pub send_raw_transaction : Bytes → History → Result RpcError Bytes × History
  unfolding call as_str
  send_raw_transaction raw past =
      let (result, now) = call eth_send_raw_transaction (only raw) past in
      (result >>= λ v. ok_or (as_str v) no_tx_hash, now)

  -- `Ok(None)` on a null result.
  unfoldable pub not_null : Value → Option Value
  not_null null = none
  not_null (boolean b) = some (boolean b)
  not_null (number n) = some (number n)
  not_null (string s) = some (string s)
  not_null (array vs) = some (array vs)
  not_null (object ms) = some (object ms)

  unfoldable pub transaction_receipt : Bytes → History → Result RpcError (Option Value) × History
  unfolding call not_null
  transaction_receipt tx_hash past =
      let (result, now) = call eth_get_transaction_receipt (only tx_hash) past in
      (result >>= λ v. ok (not_null v), now)
