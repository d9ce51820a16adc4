-- ===== src/Server/Current.antt =====
-- What the claim with the lock has asked the node, and how long it stays up to date.
use atlas_faucet.Prelude.{ℕ, ◌≤◌, ◌≡◌, ok, arith}
use atlas_faucet.Hashes.{Hashes}
use atlas_faucet.Secp.{Secp}
use atlas_faucet.World.{History, World}
use atlas_faucet.Rpc
use atlas_faucet.Rpc.Quiet.{Quiet, Quiet-trans}
use atlas_faucet.Faucet.{Faucet, address_hex, needed_wei}
use atlas_faucet.Server.Phases.{
  Phase, arrived, reserving, admitting, burning, queueing, submitting, funding, counting, sending,
  leaving, failing, reusing, awaiting, refusing, undoing, unburning, replied,
}
use atlas_faucet.Server.Weights.{locks_of}

module _ (h : Hashes) (s : Secp) (w : World) (f : Faucet h s) where
  -- A balance that the node reported, since which no transaction was posted, and which covers
  -- the drip and its gas.
  pub record Funded (gas_price : ℕ) (past : History) : Type 0 where
    pub balance : ℕ
    pub asked : History
    pub answered : (Rpc.balance w (address_hex h s f.signer) asked).0 ≡ ok balance
    pub covers : needed_wei h s f gas_price ≤ balance
    pub since : Quiet asked past

  -- A pending count that the node reported, since which no transaction was posted.
  pub record Numbered (nonce : ℕ) (past : History) : Type 0 where
    pub asked : History
    pub answered : (Rpc.transaction_count w (address_hex h s f.signer) asked).0 ≡ ok nonce
    pub since : Quiet asked past

  abbrev pub Current : History → Phase → Type 0
  Current past (counting v now gas_price) = Funded gas_price past
  Current past (sending v now gas_price nonce) = Funded gas_price past × Numbered nonce past
  Current past (arrived body now) = Unit
  Current past (reserving v now) = Unit
  Current past (admitting v now) = Unit
  Current past (burning v now) = Unit
  Current past (queueing v now) = Unit
  Current past (submitting v now) = Unit
  Current past (funding v now gas_price) = Unit
  Current past (leaving v tx_hash) = Unit
  Current past (failing v now e) = Unit
  Current past (reusing v now) = Unit
  Current past (awaiting v tx_hash) = Unit
  Current past (refusing v now response) = Unit
  Current past (undoing v now e) = Unit
  Current past (unburning v e) = Unit
  Current past (replied response) = Unit

  pub Funded-later :
      (gas_price : ℕ) (past later : History)
      → Quiet past later
      → Funded gas_price past
      → Funded gas_price later
  Funded-later gas_price past later same funded = record {
    balance = funded.balance;
    asked = funded.asked;
    answered = funded.answered;
    covers = funded.covers;
    since = Quiet-trans funded.asked past later funded.since same;
  }

  Numbered-later :
      (nonce : ℕ) (past later : History)
      → Quiet past later
      → Numbered nonce past
      → Numbered nonce later
  Numbered-later nonce past later same numbered = record {
    asked = numbered.asked;
    answered = numbered.answered;
    since = Quiet-trans numbered.asked past later numbered.since same;
  }

  -- Other claims' steps, where they post nothing.
  pub Current-later :
      (past later : History) (phase : Phase)
      → Quiet past later
      → Current past phase
      → Current later phase
  Current-later past later (arrived body now) same current = tt
  Current-later past later (reserving v now) same current = tt
  Current-later past later (admitting v now) same current = tt
  Current-later past later (burning v now) same current = tt
  Current-later past later (queueing v now) same current = tt
  Current-later past later (submitting v now) same current = tt
  Current-later past later (funding v now gas_price) same current = tt
  Current-later past later (leaving v tx_hash) same current = tt
  Current-later past later (failing v now e) same current = tt
  Current-later past later (reusing v now) same current = tt
  Current-later past later (awaiting v tx_hash) same current = tt
  Current-later past later (refusing v now response) same current = tt
  Current-later past later (undoing v now e) same current = tt
  Current-later past later (unburning v e) same current = tt
  Current-later past later (replied response) same current = tt
  Current-later past later (counting v now gas_price) same current =
      Funded-later gas_price past later same current
  Current-later past later (sending v now gas_price nonce) same current = (
    Funded-later gas_price past later same current.0,
    Numbered-later nonce past later same current.1,
  )

  -- A claim without the lock has nothing to keep.
  pub Current-idle : (past : History) (phase : Phase) → locks_of phase ≡ 0 → Current past phase
  unfolding locks_of
  Current-idle past (arrived body now) idle = tt
  Current-idle past (reserving v now) idle = tt
  Current-idle past (admitting v now) idle = tt
  Current-idle past (burning v now) idle = tt
  Current-idle past (queueing v now) idle = tt
  Current-idle past (submitting v now) idle = tt
  Current-idle past (funding v now gas_price) idle = tt
  Current-idle past (leaving v tx_hash) idle = tt
  Current-idle past (failing v now e) idle = tt
  Current-idle past (reusing v now) idle = tt
  Current-idle past (awaiting v tx_hash) idle = tt
  Current-idle past (refusing v now response) idle = tt
  Current-idle past (undoing v now e) idle = tt
  Current-idle past (unburning v e) idle = tt
  Current-idle past (replied response) idle = tt
  Current-idle past (counting v now gas_price) idle = absurd (omega (arith, idle))
  Current-idle past (sending v now gas_price nonce) idle = absurd (omega (arith, idle))
