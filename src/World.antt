-- ===== src/World.antt =====
-- What the server's async code meets outside: the node behind HTTP, and the monotonic clock.
-- A world answers each request in view of everything that happened before; a run over every
-- world covers every behaviour of the node, the network and the clock.
use atlas_faucet.Prelude.{ℕ, ◌+◌, ◌≤◌, Bool, Option, List, ◌∷◌, Bytes}

-- `serde_json::Value`
mutual
  pub data Value : Type 0 where
    null : Value
    boolean : Bool → Value
    number : Bytes → Value
    string : Bytes → Value
    array : Values → Value
    object : Members → Value

  pub data Values : Type 0 where
    end : Values
    item : Value → Values → Values

  pub data Members : Type 0 where
    close : Members
    member : Bytes → Value → Members → Members

-- How `send` and `text` of `reqwest` end.
pub data Reply : Type 0 where
  send_failed body_failed : Reply
  body : Bytes → Reply

-- What the program does to the outside, one after the other.
pub data Event : Type 0 where
  posts : Bytes → Value → Event
  sleeps : ℕ → Event

-- Newest first.
abbrev pub History : Type 0
History = List Event

pub record World : Type 0 where
  -- The reply to the newest request of a history.
  pub answer : History → Reply
  -- `serde_json::from_str`
  pub from_str : Bytes → Option Value
  -- `Instant::now`, in milliseconds.
  pub instant : History → ℕ

-- The monotonic clock does not run back, and a sleep takes its time.
pub record IsClock (w : World) : Type 0 where
  pub forward : (e : Event) (h : History) → w.instant h ≤ w.instant (e ∷ h)
  pub slept : (ms : ℕ) (h : History) → w.instant h + ms ≤ w.instant (sleeps ms ∷ h)
