-- ===== src/Faucet/Receipt.antt =====
-- `await_receipt`: it ends, and what its outcome stands for.
use atlas_faucet.Prelude.{
  ℕ, zero, suc, ◌+◌, ◌*◌, ◌≤◌, ◌<◌, ◌≡◌, refl, ap, ◌∙◌, Option, none, some, ◌∷◌, Bytes, Result, ok,
  err, leb, ◌==◌, arith, ◌⊎◌, inl, inr, Bool-cases,
}
use atlas_faucet.Hashes.{Hashes}
use atlas_faucet.Secp.{Secp}
use atlas_faucet.World.{Value, posts, sleeps, History, World, IsClock}
use atlas_faucet.Rpc
use atlas_faucet.Rpc.{RpcError, eth_get_transaction_receipt, only}
use atlas_faucet.Rpc.Quiet.{Quiet, Quiet-refl, Quiet-trans, Quiet-sleeps, Quiet-transaction_receipt}
use atlas_faucet.Rpc.Laws.{sends, sends-transaction_receipt}
use atlas_faucet.Faucet.{
  ReceiptOutcome, read_receipt, not_mined, found_receipt, poll_round, poll_loop, Faucet,
  await_receipt,
}

-- What an outcome stands for, and what the wait leaves: a receipt that the node returned, or a
-- clock at the deadline. No transaction is posted.
pub record Waited (w : World) (tx_hash : Bytes) (deadline : ℕ) (past : History)
    (r : Option ReceiptOutcome × History) : Type 0 where
  pub outcome : ReceiptOutcome
  pub ended : r.0 ≡ some outcome
  pub posted : sends r.1 ≡ sends past
  pub reason :
      ((outcome ≡ not_mined) × (deadline ≤ w.instant r.1))
      ⊎ ((at : History) × (receipt : Value) × ((Rpc.transaction_receipt w tx_hash at).0
            ≡ ok (some receipt))
          × (outcome ≡ read_receipt receipt))

found_receipt-some :
    (r : Result RpcError (Option Value)) (v : Value) → found_receipt r ≡ some v → r ≡ ok (some v)
unfolding found_receipt
found_receipt-some (ok v) x e = ap ok e
found_receipt-some (err x) v e = cc

newest-transaction_receipt :
    (w : World) (tx_hash : Bytes) (past : History)
    → (Rpc.transaction_receipt w tx_hash past).1
      ≡ posts eth_get_transaction_receipt (only tx_hash) ∷ past
unfolding Rpc.transaction_receipt Rpc.call
newest-transaction_receipt w tx_hash past = refl

module _ (w : World) (clock : IsClock w) (tx_hash : Bytes) (deadline : ℕ) where
  abbrev polled : History → History
  polled past = (Rpc.transaction_receipt w tx_hash past).1

  forward-transaction_receipt : (past : History) → w.instant past ≤ w.instant (polled past)
  forward-transaction_receipt past =
      rw (newest-transaction_receipt w tx_hash past)
        (clock.forward (posts eth_get_transaction_receipt (only tx_hash)) past)

  -- A round that stays before the deadline.
  Waited-again :
      (past : History) (r : Option ReceiptOutcome × History)
      → Waited w tx_hash deadline (sleeps 500 ∷ polled past) r
      → Waited w tx_hash deadline past r
  unfolding sends
  Waited-again past r rest = record {
    outcome = rest.outcome;
    ended = rest.ended;
    posted = rest.posted ∙ sends-transaction_receipt w tx_hash past;
    reason = rest.reason;
  }

  poll_round_lem :
      (past : History) (found : Option Value) (rest : Option ReceiptOutcome × History)
      → found_receipt (Rpc.transaction_receipt w tx_hash past).0 ≡ found
      → (w.instant (polled past) < deadline → Waited w tx_hash deadline past rest)
      → Waited w tx_hash deadline past (poll_round w deadline found (polled past) rest)
  unfolding poll_round
  poll_round_lem past (some receipt) rest found more = record {
    outcome = read_receipt receipt;
    ended = refl;
    posted = sends-transaction_receipt w tx_hash past;
    reason = inr (past, receipt, found_receipt-some _ receipt found, refl);
  }
  poll_round_lem past none rest found more =
      elim (Bool-cases (leb deadline (w.instant (polled past)))) [
        | inl late ↦ rw late (record {
          outcome = not_mined;
          ended = refl;
          posted = sends-transaction_receipt w tx_hash past;
          reason = inl (refl, ground arith);
        })
        | inr early ↦ rw early (more (ground arith))
      ]

  poll_loop_lem :
      (fuel : ℕ) (past : History)
      → 0 < fuel
      → deadline + 500 ≤ w.instant past + 500 * fuel
      → Waited w tx_hash deadline past (poll_loop w fuel tx_hash deadline past)
  unfolding poll_loop
  poll_loop_lem zero past some_left enough = absurd (omega arith)
  poll_loop_lem (suc fuel) past some_left enough =
      let forward = forward-transaction_receipt past in
      poll_round_lem past _ _ refl (λ later. Waited-again past _ (
        poll_loop_lem fuel (sleeps 500 ∷ polled past) (omega (arith, later, forward))
          (omega (arith, forward, later, clock.slept 500 (polled past)))))

Quiet-poll_round :
    (w : World) (deadline : ℕ) (found : Option Value) (past now : History)
    (rest : Option ReceiptOutcome × History)
    → Quiet past now
    → Quiet past rest.1
    → Quiet past (poll_round w deadline found now rest).1
unfolding poll_round
Quiet-poll_round w deadline (some receipt) past now rest asked onward = asked
Quiet-poll_round w deadline none past now rest asked onward =
    elim (Bool-cases (leb deadline (w.instant now))) [
      | inl late ↦ rw late asked
      | inr early ↦ rw early onward
    ]

Quiet-poll_loop :
    (w : World) (fuel : ℕ) (tx_hash : Bytes) (deadline : ℕ) (past : History)
    → Quiet past (poll_loop w fuel tx_hash deadline past).1
unfolding poll_loop
Quiet-poll_loop w zero tx_hash deadline past = Quiet-refl past
Quiet-poll_loop w (suc fuel) tx_hash deadline past =
    let now = (Rpc.transaction_receipt w tx_hash past).1 in
    let asked = Quiet-transaction_receipt w tx_hash past in
    Quiet-poll_round w deadline _ past now (poll_loop w fuel tx_hash deadline (sleeps 500 ∷ now))
      asked
      (Quiet-trans past (sleeps 500 ∷ now) _
        (Quiet-trans past now (sleeps 500 ∷ now) asked (Quiet-sleeps 500 now))
        (Quiet-poll_loop w fuel tx_hash deadline (sleeps 500 ∷ now)))

-- The wait posts no transaction, whatever the clock does.
pub Quiet-await_receipt :
    (h : Hashes) (s : Secp) (w : World) (f : Faucet h s) (tx_hash : Bytes) (past : History)
    → Quiet past (await_receipt h s w f tx_hash past).1
unfolding await_receipt
Quiet-await_receipt h s w f tx_hash past = elim (Bool-cases (f.receipt_timeout == 0)) [
  | inl off ↦ rw off (Quiet-refl past)
  | inr on ↦ rw on (Quiet-poll_loop w (suc (2 * f.receipt_timeout)) tx_hash _ past)
]

pub await_receipt_lem :
    (h : Hashes) (s : Secp) (w : World)
    → IsClock w
    → (f : Faucet h s) (tx_hash : Bytes) (past : History)
    → Waited w tx_hash
        (w.instant past + 1000 * f.receipt_timeout)
        past
        (await_receipt h s w f tx_hash past)
unfolding await_receipt
await_receipt_lem h s w clock f tx_hash past = elim (Bool-cases (f.receipt_timeout == 0)) [
  | inl off ↦ rw off (record {
    outcome = not_mined;
    ended = refl;
    posted = refl;
    reason = inl (refl, ground arith);
  })
  | inr on ↦ rw on (
      poll_loop_lem w clock tx_hash _ (suc (2 * f.receipt_timeout)) past (omega arith)
        (omega arith))
]
