-- ===== src/Server/Posting.antt =====
-- The steps of claims that post a transaction, and those that do not.
use atlas_faucet.Prelude.{ℕ, ◌≡◌, refl, Option, none, some, List, ◌∷◌, Bytes, ◌⊎◌, inl, inr}
use atlas_faucet.Hashes.{Hashes}
use atlas_faucet.Secp.{Secp}
use atlas_faucet.Semaphore.{Semaphore}
use atlas_faucet.World.{History, World}
use atlas_faucet.Pow.{VerifiedChallenge}
use atlas_faucet.Rpc.Quiet.{
  Quiet, Quiet-refl, Quiet-gas_price, Quiet-balance, Quiet-transaction_count,
}
use atlas_faucet.Faucet.{address_hex, choose_gas_price, broadcast}
use atlas_faucet.Faucet.Receipt.{Quiet-await_receipt}
use atlas_faucet.Server.{ClaimRequest, AppState, Shared}
use atlas_faucet.Server.Phases.{Phase, sending}
use atlas_faucet.Server.Advances.{
  Advances, rejects, accepts, reserves, cools, admits, crowds, burns, reuses, locks, prices,
  unpriced, funds, underfunded, unfunded, counts, uncounted, pays, fails, leaves, gives_up, drops,
  confirms, refuses, undoes, unburns,
}
use atlas_faucet.Server.Trace.{Mark, accepted, paid, mark}

pub Quiet-choose_gas_price :
    (h : Hashes) (s : Secp) (w : World) (override : Option ℕ) (past : History)
    → Quiet past (choose_gas_price h s w override past).1
unfolding choose_gas_price
Quiet-choose_gas_price h s w (some price) past = Quiet-refl past
Quiet-choose_gas_price h s w none past = Quiet-gas_price w past

module _ (h : Hashes) (s : Secp) (sem : Semaphore) (w : World)
    (from_slice : Bytes → Option ClaimRequest) (app : AppState h s) where
  -- Nothing is posted, and no transfer acknowledged.
  abbrev pub Silent : Shared h s sem → Shared h s sem → Phase → Phase → Type 0
  Silent shared later phase next =
      Quiet shared.past later.past
      × ((marks : List Mark)
          → (mark phase next marks ≡ marks)
            ⊎ ((v : VerifiedChallenge) × (now : ℕ) × (mark phase next marks
                  ≡ accepted v now ∷ marks)))

  -- The transaction of a claim is posted, and its transfer acknowledged or not.
  abbrev pub Sends : Shared h s sem → Shared h s sem → Phase → Phase → Type 0
  Sends shared later phase next =
      (v : VerifiedChallenge) × (now : ℕ) × (gas_price : ℕ) × (nonce : ℕ) × (phase
        ≡ sending v now gas_price nonce)
      × (later.past ≡ (broadcast h s w app.faucet v.address gas_price nonce shared.past).1)
      × ((marks : List Mark)
          → (mark phase next marks ≡ marks) ⊎ (mark phase next marks ≡ paid v now ∷ marks))

  pub Advances-Sends :
      (shared later : Shared h s sem) (phase next : Phase)
      → Advances h s sem w from_slice app shared phase later next
      → Silent shared later phase next ⊎ Sends shared later phase next
  Advances-Sends _ _ _ _ (rejects shared body now response why) =
      inl ((Quiet-refl shared.past), λ marks. inl refl)
  Advances-Sends _ _ _ _ (accepts shared body now request v parsed e) =
      inl ((Quiet-refl shared.past), λ marks. inr (v, now, refl))
  Advances-Sends _ _ _ _ (reserves shared v now e) =
      inl ((Quiet-refl shared.past), λ marks. inl refl)
  Advances-Sends _ _ _ _ (cools shared v now remaining e) =
      inl ((Quiet-refl shared.past), λ marks. inl refl)
  Advances-Sends _ _ _ _ (admits shared v now permits e) =
      inl ((Quiet-refl shared.past), λ marks. inl refl)
  Advances-Sends _ _ _ _ (crowds shared v now e) = inl ((Quiet-refl shared.past), λ marks. inl refl)
  Advances-Sends _ _ _ _ (burns shared v now e) = inl ((Quiet-refl shared.past), λ marks. inl refl)
  Advances-Sends _ _ _ _ (reuses shared v now e) = inl ((Quiet-refl shared.past), λ marks. inl refl)
  Advances-Sends _ _ _ _ (locks shared v now free) =
      inl ((Quiet-refl shared.past), λ marks. inl refl)
  Advances-Sends _ _ _ _ (prices shared v now gas_price e) =
      inl (
        (Quiet-choose_gas_price h s w app.faucet.gas_price_override shared.past),
        λ marks. inl refl,
      )
  Advances-Sends _ _ _ _ (unpriced shared v now x e) =
      inl (
        (Quiet-choose_gas_price h s w app.faucet.gas_price_override shared.past),
        λ marks. inl refl,
      )
  Advances-Sends _ _ _ _ (funds shared v now gas_price balance e tested) =
      inl ((Quiet-balance w (address_hex h s app.faucet.signer) shared.past), λ marks. inl refl)
  Advances-Sends _ _ _ _ (underfunded shared v now gas_price balance e tested) =
      inl ((Quiet-balance w (address_hex h s app.faucet.signer) shared.past), λ marks. inl refl)
  Advances-Sends _ _ _ _ (unfunded shared v now gas_price x e) =
      inl ((Quiet-balance w (address_hex h s app.faucet.signer) shared.past), λ marks. inl refl)
  Advances-Sends _ _ _ _ (counts shared v now gas_price nonce e) = inl (
    (Quiet-transaction_count w (address_hex h s app.faucet.signer) shared.past),
    λ marks. inl refl,
  )
  Advances-Sends _ _ _ _ (uncounted shared v now gas_price x e) = inl (
    (Quiet-transaction_count w (address_hex h s app.faucet.signer) shared.past),
    λ marks. inl refl,
  )
  Advances-Sends _ _ _ _ (pays shared v now gas_price nonce tx_hash e) =
      inr (v, now, gas_price, nonce, refl, refl, λ marks. inr refl)
  Advances-Sends _ _ _ _ (fails shared v now gas_price nonce x e) =
      inr (v, now, gas_price, nonce, refl, refl, λ marks. inl refl)
  Advances-Sends _ _ _ _ (leaves shared v tx_hash) =
      inl ((Quiet-refl shared.past), λ marks. inl refl)
  Advances-Sends _ _ _ _ (gives_up shared v now x) =
      inl ((Quiet-refl shared.past), λ marks. inl refl)
  Advances-Sends _ _ _ _ (drops shared v now) = inl ((Quiet-refl shared.past), λ marks. inl refl)
  Advances-Sends _ _ _ _ (confirms shared v tx_hash outcome past e) =
      inl ((rw e at (Quiet-await_receipt h s w app.faucet tx_hash shared.past)), λ marks. inl refl)
  Advances-Sends _ _ _ _ (refuses shared v now response) =
      inl ((Quiet-refl shared.past), λ marks. inl refl)
  Advances-Sends _ _ _ _ (undoes shared v now x) = inl ((Quiet-refl shared.past), λ marks. inl refl)
  Advances-Sends _ _ _ _ (unburns shared v x) = inl ((Quiet-refl shared.past), λ marks. inl refl)
