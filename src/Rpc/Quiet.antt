-- ===== src/Rpc/Quiet.antt =====
-- Stretches of a history in which no transaction is posted.
use atlas_faucet.Prelude.{
  ℕ, ◌+◌, ◌≡◌, refl, sym, ap, ◌∙◌, [], ◌∷◌, ◌++◌, append_assoc, Bytes, bytes_eq, Bool-cases, inl,
  inr, arith,
}
use atlas_faucet.World.{posts, sleeps, History, World}
use atlas_faucet.Rpc.{
  gas_price, balance, transaction_count, transaction_receipt, call, eth_send_raw_transaction,
}
use atlas_faucet.Rpc.Laws.{sends}

-- The later history goes on from the earlier one, and nothing in between posts a transaction.
pub record Quiet (past later : History) : Type 0 where
  pub newer : History
  pub onward : later ≡ newer ++ past
  pub none_sent : sends newer ≡ 0

pub Quiet-refl : (past : History) → Quiet past past
unfolding sends
Quiet-refl past = record { newer = []; onward = refl; none_sent = refl }

sends-append : (newer past : History) → sends (newer ++ past) ≡ sends newer + sends past
unfolding sends
sends-append [] past = omega arith
sends-append (sleeps ms ∷ newer) past = sends-append newer past
sends-append (posts method params ∷ newer) past =
    elim (Bool-cases (bytes_eq method eth_send_raw_transaction)) [
      | inl sent ↦ rw sent (omega (arith, sends-append newer past))
      | inr other ↦ rw other (sends-append newer past)
    ]

pub Quiet-trans : (past now later : History) → Quiet past now → Quiet now later → Quiet past later
Quiet-trans past now later first second = record {
  newer = second.newer ++ first.newer;
  onward =
      second.onward
      ∙ ap (λ (x : History). second.newer ++ x) first.onward
      ∙ sym (append_assoc second.newer first.newer past);
  none_sent =
      omega (arith, sends-append second.newer first.newer, first.none_sent, second.none_sent);
}

pub Quiet-sleeps : (ms : ℕ) (past : History) → Quiet past (sleeps ms ∷ past)
unfolding sends
Quiet-sleeps ms past = record { newer = sleeps ms ∷ []; onward = refl; none_sent = refl }

module _ (w : World) where
  pub Quiet-gas_price : (past : History) → Quiet past (gas_price w past).1
  unfolding gas_price call sends
  Quiet-gas_price past = record { newer = posts _ _ ∷ []; onward = refl; none_sent = refl }

  pub Quiet-balance : (address : Bytes) (past : History) → Quiet past (balance w address past).1
  unfolding balance call sends
  Quiet-balance address past = record { newer = posts _ _ ∷ []; onward = refl; none_sent = refl }

  pub Quiet-transaction_count :
      (address : Bytes) (past : History) → Quiet past (transaction_count w address past).1
  unfolding transaction_count call sends
  Quiet-transaction_count address past = record {
    newer = posts _ _ ∷ [];
    onward = refl;
    none_sent = refl;
  }

  pub Quiet-transaction_receipt :
      (tx_hash : Bytes) (past : History) → Quiet past (transaction_receipt w tx_hash past).1
  unfolding transaction_receipt call sends
  Quiet-transaction_receipt tx_hash past = record {
    newer = posts _ _ ∷ [];
    onward = refl;
    none_sent = refl;
  }

pub Quiet-sends : (past later : History) → Quiet past later → sends later ≡ sends past
Quiet-sends past later quiet =
    rw (quiet.onward) (omega (arith, sends-append quiet.newer past, quiet.none_sent))
