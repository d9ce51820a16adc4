-- ===== src/Semaphore.antt =====
-- What the program uses of tokio's `Semaphore`, as an interface with the laws it relies on.
use atlas_faucet.Prelude.{ℕ, suc, ◌≡◌, Option, none, some}

pub record Semaphore : Type 1 where
  pub Permits : Type 0
  pub new : ℕ → Permits
  pub available_permits : Permits → ℕ
  -- `try_acquire_owned`
  pub try_acquire : Permits → Option Permits
  -- The drop of an `OwnedSemaphorePermit`
  pub add_permit : Permits → Permits

pub record IsSemaphore (s : Semaphore) : Type 0 where
  pub available-new : (n : ℕ) → s.available_permits (s.new n) ≡ n
  pub acquire-none : (p : s.Permits) → s.try_acquire p ≡ none → s.available_permits p ≡ 0
  pub acquire-some :
      (p q : s.Permits)
      → s.try_acquire p ≡ some q
      → s.available_permits p ≡ suc (s.available_permits q)
  pub available-add :
      (p : s.Permits) → s.available_permits (s.add_permit p) ≡ suc (s.available_permits p)
