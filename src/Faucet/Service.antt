-- ===== src/Faucet/Service.antt =====
-- `submit` against a node that is in service.
use atlas_faucet.Prelude.{ℕ, ◌≤◌, ◌≡◌, refl, false, Bytes, Result, ok, err, arith, ltb}
use atlas_faucet.Hashes.{Hashes}
use atlas_faucet.Secp.{Secp}
use atlas_faucet.World.{History, World}
use atlas_faucet.Eth.{sign_legacy_transfer}
use atlas_faucet.Rpc
use atlas_faucet.Rpc.{RpcError}
use atlas_faucet.Faucet.{
  DispenseError, Faucet, address_hex, choose_gas_price, needed_wei, broadcast, transfer, with_nonce,
  with_balance, with_gas_price, submit,
}

-- A node that is in service: whatever happened before, it names a gas price and the pending count
-- of transactions, reports a balance that covers the drip and its gas, and takes transactions.
pub record InService (h : Hashes) (s : Secp) (w : World) (f : Faucet h s) (tx_hash : Bytes)
    : Type 0 where
  pub gas_price : ℕ
  pub balance : ℕ
  pub nonce : ℕ
  pub prices :
      (past : History) → (choose_gas_price h s w f.gas_price_override past).0 ≡ ok gas_price
  pub funds : (past : History) → (Rpc.balance w (address_hex h s f.signer) past).0 ≡ ok balance
  pub enough : needed_wei h s f gas_price ≤ balance
  pub counts :
      (past : History) → (Rpc.transaction_count w (address_hex h s f.signer) past).0 ≡ ok nonce
  pub takes : (raw : Bytes) (past : History) → (Rpc.send_raw_transaction w raw past).0 ≡ ok tx_hash

module _ (h : Hashes) (s : Secp) (w : World) (f : Faucet h s) (tx_hash : Bytes)
    (node : InService h s w f tx_hash) (to : Bytes) where
  with_nonce-ok :
      (r : Result RpcError ℕ × History) (nonce : ℕ)
      → r.0 ≡ ok nonce
      → (with_nonce h s w f to node.gas_price r).0 ≡ ok tx_hash
  unfolding with_nonce broadcast
  with_nonce-ok (ok n, now) nonce e =
      rw
        (node.takes (sign_legacy_transfer h s f.signer (transfer h s f n node.gas_price to)).raw
          now)
        refl
  with_nonce-ok (err x, now) nonce e = cc

  with_balance-ok :
      (r : Result RpcError ℕ × History)
      → r.0 ≡ ok node.balance
      → (with_balance h s w f to node.gas_price r).0 ≡ ok tx_hash
  unfolding with_balance
  with_balance-ok (ok balance, now) e =
      let same : balance ≡ node.balance = cc in
      let covered : ltb balance (needed_wei h s f node.gas_price) ≡ false =
        ground (arith, node.enough, same) in
      rw covered (with_nonce-ok _ node.nonce (node.counts now))
  with_balance-ok (err x, now) e = cc

  with_gas_price-ok :
      (r : Result DispenseError ℕ × History)
      → r.0 ≡ ok node.gas_price
      → (with_gas_price h s w f to r).0 ≡ ok tx_hash
  unfolding with_gas_price
  with_gas_price-ok (ok price, now) e =
      let same : price ≡ node.gas_price = cc in rw same (with_balance-ok _ (node.funds now))
  with_gas_price-ok (err x, now) e = cc

  pub submit-ok : (past : History) → (submit h s w f to past).0 ≡ ok tx_hash
  unfolding submit
  submit-ok past = with_gas_price-ok _ (node.prices past)
