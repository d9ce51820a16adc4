-- ===== src/Util.antt =====
-- src/util.rs: hexadecimal text, leading zero bits, constant-time comparison and addresses.
-- Keccak-256 is the `sha3` crate's, so it is an argument where it is called.
mod Defs
pub mod Hex
pub mod Reads
pub mod Address
pub mod Checksum
pub mod Zeros
pub mod Compare
unfoldable pub use Defs.*
