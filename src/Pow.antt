-- ===== src/Pow.antt =====
-- src/pow.rs: challenges, their HMAC, the proof of work, and the keeper of consumed salts and
-- cooldowns.
mod Defs
mod Keeper
pub mod Message
pub mod Envelope
pub mod Tamper
pub mod Solution
pub mod Solver
pub mod Salts
pub mod Cooldown
pub mod History
pub mod Undo
unfoldable pub use Defs.*
unfoldable pub use Keeper.*
