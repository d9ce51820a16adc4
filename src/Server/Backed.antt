-- ===== src/Server/Backed.antt =====
-- What stands behind the transfers that the node acknowledged: transactions in the history.
use atlas_faucet.Prelude.{
  ℕ, subst, suc, ok, ◌<◌, All-middle, ◌+◌, ◌≤◌, ◌≡◌, ap, ◌∙◌, Bool, true, Option, List, [], ◌∷◌,
  ◌++◌, append_assoc, sym, Bytes, arith, All, All-mono, inl, inr,
}
use atlas_faucet.Hashes.{Hashes, IsHashes}
use atlas_faucet.Secp.{Secp, IsSecp}
use atlas_faucet.Semaphore.{Semaphore}
use atlas_faucet.World.{posts, History, World}
use atlas_faucet.Pow.{VerifiedChallenge}
use atlas_faucet.Eth.{sign_legacy_transfer, recover_legacy_transfer}
use atlas_faucet.Rpc.{eth_send_raw_transaction, only}
use atlas_faucet.Rpc.Laws.{sends, send_raw_transaction_lem}
use atlas_faucet.Rpc.Quiet.{Quiet, Quiet-sends}
use atlas_faucet.Faucet.{Faucet, transfer, broadcast}
use atlas_faucet.Faucet.Submit.{IsConfigured, recover_legacy_transfer-transfer}
use atlas_faucet.Server.{ClaimRequest, AppState, Shared}
use atlas_faucet.Server.Phases.{Phase}
use atlas_faucet.Server.Inversion.{advance-Advances}
use atlas_faucet.Server.Trace.{Mark, accepted, paid, mark, Traces, starts, enters, moves}
use atlas_faucet.Server.Leased.{count_paid}
use atlas_faucet.Server.Ranges.{InRange, Traces-InRange}
use atlas_faucet.Server.Posting.{Silent, Sends, Advances-Sends}

module _ (h : Hashes) (s : Secp) (f : Faucet h s) where
  abbrev pub drip : Bytes → ℕ → ℕ → Bytes
  drip to gas_price nonce =
      (sign_legacy_transfer h s f.signer (transfer h s f nonce gas_price to)).raw

  -- The transaction is recovered as the drip of the faucet to an address, on the faucet's chain.
  abbrev pub Recovered : Bytes → ℕ → ℕ → Type 0
  Recovered to gas_price nonce =
      recover_legacy_transfer h s (drip to gas_price nonce)
      ≡ ok (record {
        from = f.signer.address;
        to = to;
        value = f.drip_wei;
        nonce = nonce;
        chain_id = f.chain_id;
      })

  -- The signed transfer of the drip to an address was posted.
  pub record Posted (to : Bytes) (past : History) : Type 0 where
    pub gas_price : ℕ
    pub nonce : ℕ
    pub newer : History
    pub before : History
    pub found :
        past ≡ newer ++ (posts eth_send_raw_transaction (only (drip to gas_price nonce)) ∷ before)
    pub recovered : Recovered to gas_price nonce

  abbrev pub Backed : History → Mark → Type 0
  Backed past (accepted v now) = Unit
  Backed past (paid v now) = Posted v.address past

  Backed-later :
      (past later newer : History) (m : Mark)
      → later ≡ newer ++ past
      → Backed past m
      → Backed later m
  Backed-later past later newer (accepted v now) onward backed = tt
  Backed-later past later newer (paid v now) onward backed = record {
    gas_price = backed.gas_price;
    nonce = backed.nonce;
    newer = newer ++ backed.newer;
    before = backed.before;
    found =
        onward
        ∙ ap (λ (x : History). newer ++ x) backed.found
        ∙ sym (append_assoc newer backed.newer _);
    recovered = backed.recovered;
  }

  All-later :
      (past later newer : History) (marks : List Mark)
      → later ≡ newer ++ past
      → All (Backed past) marks
      → All (Backed later) marks
  All-later past later newer marks onward backed =
      All-mono (Backed past) (Backed later) marks (λ m. Backed-later past later newer m onward)
        backed

  All-Quiet :
      (past later : History) (marks : List Mark)
      → Quiet past later
      → All (Backed past) marks
      → All (Backed later) marks
  All-Quiet past later marks quiet = All-later past later quiet.newer marks quiet.onward

newest-broadcast :
    (h : Hashes) (s : Secp) (w : World) (f : Faucet h s) (to : Bytes) (gas_price nonce : ℕ)
    (past : History)
    → (broadcast h s w f to gas_price nonce past).1
      ≡ posts eth_send_raw_transaction (only (drip h s f to gas_price nonce)) ∷ past
unfolding broadcast
newest-broadcast h s w f to gas_price nonce past =
    (send_raw_transaction_lem w (drip h s f to gas_price nonce) past).0

sends-broadcast :
    (h : Hashes) (s : Secp) (w : World) (f : Faucet h s) (to : Bytes) (gas_price nonce : ℕ)
    (past : History)
    → sends (broadcast h s w f to gas_price nonce past).1 ≡ suc (sends past)
unfolding broadcast
sends-broadcast h s w f to gas_price nonce past =
    (send_raw_transaction_lem w (drip h s f to gas_price nonce) past).1

-- All of the acknowledged transfers.
abbrev pub any : VerifiedChallenge → ℕ → Bool
any v now = true

module _ (h : Hashes) (lawful : IsHashes h) (s : Secp) (secp : IsSecp s) (sem : Semaphore)
    (w : World) (from_slice : Bytes → Option ClaimRequest) (app : AppState h s)
    (configured : IsConfigured h s secp app.faucet)
    (low : (hash : Bytes) → (s.sign hash app.faucet.signer.secret_key).0 < 2) where
  -- What is kept of a trace.
  abbrev Kept : Shared h s sem × List Phase → List Mark → Shared h s sem → Type 0
  Kept first marks shared =
      All (Backed h s app.faucet shared.past) marks
      × (sends first.0.past + count_paid any marks ≤ sends shared.past)

  Silent-Kept :
      (first : Shared h s sem × List Phase) (shared later : Shared h s sem) (phase next : Phase)
      (marks : List Mark)
      → Silent h s sem w from_slice app shared later phase next
      → Kept first marks shared
      → Kept first (mark phase next marks) later
  unfolding count_paid
  Silent-Kept first shared later phase next marks (quiet, marked) (backed, counted) =
      let all = All-Quiet h s app.faucet shared.past later.past marks quiet backed in
      let as_many = Quiet-sends shared.past later.past quiet in
      elim (marked marks) [
        | inl same ↦ rw same (all, omega (arith, counted, as_many))
        | inr (v, now, added) ↦ rw added ((tt, all), omega (arith, counted, as_many))
      ]

  Sends-Kept :
      (first : Shared h s sem × List Phase) (shared later : Shared h s sem) (phase next : Phase)
      (marks : List Mark)
      → InRange phase
      → Sends h s sem w from_slice app shared later phase next
      → Kept first marks shared
      → Kept first (mark phase next marks) later
  unfolding count_paid
  Sends-Kept first shared later phase next marks fits
        (v, now, gas_price, nonce, place, posted, marked) (backed, counted) =
      let (recipient, price_fits, nonce_fits) = subst (λ x. InRange x) place fits in
      let newest =
        posted ∙ newest-broadcast h s w app.faucet v.address gas_price nonce shared.past in
      let once =
        ap sends posted ∙ sends-broadcast h s w app.faucet v.address gas_price nonce shared.past in
      let all =
        All-later h s app.faucet shared.past later.past
          (posts eth_send_raw_transaction (only (drip h s app.faucet v.address gas_price nonce))
            ∷ [])
          marks newest backed in
      elim (marked marks) [
        | inl same ↦ rw same (all, omega (arith, counted, once))
        | inr added ↦ rw added (
          (
            record {
              gas_price = gas_price;
              nonce = nonce;
              newer = [];
              before = shared.past;
              found = newest;
              recovered =
                  recover_legacy_transfer-transfer h lawful s secp w app.faucet configured low
                    v.address recipient gas_price price_fits nonce nonce_fits;
            },
            all,
          ),
          omega (arith, counted, once),
        )
      ]

  -- If the hashes and the curve satisfy their laws, the faucet is configured within its types and
  -- its signatures have recovery ids 0 or 1, then however claims interleave from a state without
  -- claims, each transfer that the node acknowledged is in the history as a posted transaction
  -- that is recovered as the drip from the faucet to the address of the challenge that was paid
  -- for, on the faucet's chain, and there are at least as many posted transactions as
  -- acknowledged transfers.
  pub paid-Backed :
      (first last : Shared h s sem × List Phase) (marks : List Mark)
      → first.1 ≡ []
      → Traces h s sem w from_slice app first marks last
      → All (Backed h s app.faucet last.0.past) marks
        × (sends first.0.past + count_paid any marks ≤ sends last.0.past)
  unfolding count_paid
  paid-Backed first _ _ none_yet starts = (tt, omega arith)
  paid-Backed first _ _ none_yet (enters marks shared claims body now before) =
      paid-Backed first (shared, claims) marks none_yet before
  paid-Backed first _ _ none_yet (moves marks shared front phase rest later next before e) =
      let fits =
        Traces-InRange h lawful s sem w from_slice app configured.override_fits first
          (shared, front ++ (phase ∷ rest)) marks (rw none_yet tt) before in
      let kept = paid-Backed first (shared, front ++ (phase ∷ rest)) marks none_yet before in
      elim (Advances-Sends h s sem w from_slice app shared later phase next
        (advance-Advances h s sem w from_slice app shared phase (later, next) e)) [
          | inl silent ↦ Silent-Kept first shared later phase next marks silent kept
          | inr sent ↦
              Sends-Kept first shared later phase next marks
                (All-middle InRange front phase rest fits) sent kept
        ]
