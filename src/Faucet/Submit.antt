-- ===== src/Faucet/Submit.antt =====
-- `submit`: what it sends to the node, and when.
use atlas_faucet.Prelude.{
  ℕ, ◌+◌, ◌-◌, ◌*◌, ◌^◌, ◌≤◌, ◌<◌, ◌≡◌, refl, sym, ap, ◌∙◌, Option, none, some, ◌∷◌, Bytes, Result,
  ok, err, ltb, arith, ◌⊎◌, inl, inr, Result-cases, ok-injective, Bool-cases,
}
use atlas_faucet.Prelude.Words.{IsU64, IsU128}
use atlas_faucet.Hashes.{Hashes, IsHashes}
use atlas_faucet.Secp.{Secp, IsSecp}
use atlas_faucet.World.{posts, History, World}
use atlas_faucet.Util.Address.{IsAddress}
use atlas_faucet.Eth.{sign_legacy_transfer, recover_legacy_transfer}
use atlas_faucet.Eth.Recover.{IsTransfer, IsSigner, recover_legacy_transfer-sign_legacy_transfer}
use atlas_faucet.Rpc
use atlas_faucet.Rpc.{RpcError, eth_send_raw_transaction, only}
use atlas_faucet.Rpc.Laws.{
  sends, gas_price_lem, balance_lem, transaction_count_lem, send_raw_transaction_lem,
}
use atlas_faucet.Faucet.{
  DispenseError, rpc_failed, insufficient_funds, Faucet, address_hex, choose_gas_price, needed_wei,
  transfer, broadcast, with_nonce, with_balance, with_gas_price, submit,
}

-- The configured numbers fit their types, the chain id leaves room for `v`, and the signer's
-- address is that of its key.
pub record IsConfigured (h : Hashes) (s : Secp) (secp : IsSecp s) (f : Faucet h s) : Type 0 where
  pub drip_fits : IsU128 f.drip_wei
  pub gas_limit_fits : IsU64 f.gas_limit
  pub override_fits : (price : ℕ) → f.gas_price_override ≡ some price → IsU128 price
  pub chain_id_fits : f.chain_id * 2 + 36 < 2 ^ 64
  pub signs_as : IsSigner h s secp f.signer

pub choose_gas_price_lem :
    (h : Hashes) (s : Secp) (w : World) (override : Option ℕ) (past : History)
    → ((price : ℕ) → override ≡ some price → IsU128 price)
    → (sends (choose_gas_price h s w override past).1 ≡ sends past)
      × ((price : ℕ) → (choose_gas_price h s w override past).0 ≡ ok price → IsU128 price)
unfolding choose_gas_price
choose_gas_price_lem h s w (some q) past fits =
    (refl, λ price e. fits price (ap some (ok-injective e)))
choose_gas_price_lem h s w none past fits = (
  (gas_price_lem w past 0).0,
  λ price e. elim (Result-cases (Rpc.gas_price w past).0) [
    | inl (p, found) ↦ ground (arith, found, (gas_price_lem w past p).1 found)
    | inr (x, found) ↦ ground (arith, found)
  ],
)

-- What stands behind a posted transaction: it is the newest event, the only transaction posted
-- since the count was `n`, is recovered as the drip from the faucet to the recipient, and the
-- balance that the node had reported covers the drip and the gas, up to the last balance that a
-- u128 holds, where the sum saturates.
pub record Sent (h : Hashes) (s : Secp) (w : World) (f : Faucet h s) (to : Bytes) (n : ℕ)
    (now : History) : Type 0 where
  pub gas_price : ℕ
  pub nonce : ℕ
  pub balance : ℕ
  pub asked : History
  pub before : History
  pub raw : Bytes
  pub newest : now ≡ posts eth_send_raw_transaction (only raw) ∷ before
  pub once : sends before ≡ n
  pub signed : raw ≡ (sign_legacy_transfer h s f.signer (transfer h s f nonce gas_price to)).raw
  pub recovered :
      recover_legacy_transfer h s raw
      ≡ ok (record {
        from = f.signer.address;
        to = to;
        value = f.drip_wei;
        nonce = nonce;
        chain_id = f.chain_id;
      })
  pub answered : (Rpc.balance w (address_hex h s f.signer) asked).0 ≡ ok balance
  pub afforded : balance < 2 ^ 128 - 1 → f.drip_wei + gas_price * f.gas_limit ≤ balance

module _ (h : Hashes) (lawful : IsHashes h) (s : Secp) (secp : IsSecp s) (w : World)
    (f : Faucet h s) (configured : IsConfigured h s secp f)
    (low : (hash : Bytes) → (s.sign hash f.signer.secret_key).0 < 2) (to : Bytes)
    (recipient : IsAddress to) where
  -- Either nothing was posted and there is an error, or one transaction was.
  abbrev pub Outcome : ℕ → Result DispenseError Bytes × History → Type 0
  Outcome n r = (((e : DispenseError) × (r.0 ≡ err e)) × (sends r.1 ≡ n)) ⊎ Sent h s w f to n r.1

  module _ (gas_price : ℕ) (price_fits : IsU128 gas_price) where
    pub recover_legacy_transfer-transfer :
        (nonce : ℕ)
        → nonce < 2 ^ 64
        → recover_legacy_transfer h s
            (sign_legacy_transfer h s f.signer (transfer h s f nonce gas_price to)).raw
          ≡ ok (record {
            from = f.signer.address;
            to = to;
            value = f.drip_wei;
            nonce = nonce;
            chain_id = f.chain_id;
          })
    recover_legacy_transfer-transfer nonce nonce_fits =
        let tx = transfer h s f nonce gas_price to in
        let fits : IsTransfer tx = record {
          nonce_fits = nonce_fits;
          gas_price_fits = price_fits;
          gas_limit_fits = configured.gas_limit_fits;
          recipient = recipient;
          value_fits = configured.drip_fits;
          chain_id_fits = configured.chain_id_fits;
        } in
        recover_legacy_transfer-sign_legacy_transfer h s secp f.signer tx configured.signs_as fits
          (low _)

    broadcast_lem :
        (balance nonce n : ℕ) (asked past : History)
        → nonce < 2 ^ 64
        → sends past ≡ n
        → (Rpc.balance w (address_hex h s f.signer) asked).0 ≡ ok balance
        → needed_wei h s f gas_price ≤ balance
        → Sent h s w f to n (broadcast h s w f to gas_price nonce past).1
    unfolding broadcast
    broadcast_lem balance nonce n asked past nonce_fits count answered enough =
        let tx = transfer h s f nonce gas_price to in
        record {
          gas_price = gas_price;
          nonce = nonce;
          balance = balance;
          asked = asked;
          before = past;
          raw = (sign_legacy_transfer h s f.signer tx).raw;
          newest = (send_raw_transaction_lem w (sign_legacy_transfer h s f.signer tx).raw past).0;
          once = count;
          signed = refl;
          recovered = recover_legacy_transfer-transfer nonce nonce_fits;
          answered = answered;
          afforded = λ small. ground arith;
        }

    with_nonce_lem :
        (balance n : ℕ) (asked : History) (r : Result RpcError ℕ × History)
        → sends r.1 ≡ n
        → ((nonce : ℕ) → r.0 ≡ ok nonce → nonce < 2 ^ 64)
        → (Rpc.balance w (address_hex h s f.signer) asked).0 ≡ ok balance
        → needed_wei h s f gas_price ≤ balance
        → Outcome n (with_nonce h s w f to gas_price r)
    unfolding with_nonce
    with_nonce_lem balance n asked (err x, now) count fits answered enough =
        inl ((rpc_failed x, refl), count)
    with_nonce_lem balance n asked (ok nonce, now) count fits answered enough =
        inr (broadcast_lem balance nonce n asked now (fits nonce refl) count answered enough)

    with_balance_lem :
        (n : ℕ) (asked : History) (r : Result RpcError ℕ × History)
        → sends r.1 ≡ n
        → r.0 ≡ (Rpc.balance w (address_hex h s f.signer) asked).0
        → Outcome n (with_balance h s w f to gas_price r)
    unfolding with_balance
    with_balance_lem n asked (err x, now) count answered = inl ((rpc_failed x, refl), count)
    with_balance_lem n asked (ok balance, now) count answered =
        let called = transaction_count_lem w (address_hex h s f.signer) now in
        elim (Bool-cases (ltb balance (needed_wei h s f gas_price))) [
          | inl short ↦
              rw short
                (inl ((insufficient_funds balance (needed_wei h s f gas_price), refl), count))
          | inr enough ↦ rw enough (
              with_nonce_lem balance n asked
                (Rpc.transaction_count w (address_hex h s f.signer) now) ((called 0).0 ∙ count)
                (λ nonce. (called nonce).1) (sym answered) (ground arith))
        ]

  with_gas_price_lem :
      (n : ℕ) (r : Result DispenseError ℕ × History)
      → sends r.1 ≡ n
      → ((price : ℕ) → r.0 ≡ ok price → IsU128 price)
      → Outcome n (with_gas_price h s w f to r)
  unfolding with_gas_price
  with_gas_price_lem n (err e, now) count fits = inl ((e, refl), count)
  with_gas_price_lem n (ok price, now) count fits =
      with_balance_lem price (fits price refl) n now (Rpc.balance w (address_hex h s f.signer) now)
        ((balance_lem w (address_hex h s f.signer) now 0).0 ∙ count) refl

  -- If the curve satisfies its laws, the faucet is configured within its types and its
  -- signatures have recovery ids 0 or 1, a submission to an address posts at most one
  -- transaction, as its last event. If it posts none, it returns an error; if it posts one, that
  -- transaction carries the drip from the faucet to the recipient under the chain of the faucet,
  -- whatever the node answers to it, and a balance that the node reported covers the drip and
  -- the gas, unless it is the last one that a u128 holds.
  pub submit_lem : (past : History) → Outcome (sends past) (submit h s w f to past)
  unfolding submit
  submit_lem past =
      with_gas_price_lem (sends past) (choose_gas_price h s w f.gas_price_override past)
        (choose_gas_price_lem h s w f.gas_price_override past configured.override_fits).0
        (choose_gas_price_lem h s w f.gas_price_override past configured.override_fits).1
