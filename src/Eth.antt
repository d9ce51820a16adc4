-- ===== src/Eth.antt =====
-- src/eth.rs: RLP, EIP-155 legacy transfers and their recovery.
mod Rlp
mod Signing
pub mod Numbers
pub mod Encode
pub mod Decode
pub mod Lists
pub mod RoundTrip
pub mod Recover
pub mod Progress
pub mod Panic
unfoldable pub use Rlp.*
unfoldable pub use Signing.*
