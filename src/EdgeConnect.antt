-- ===== src/EdgeConnect.antt =====
-- pallets/edge-connect/src/lib.rs
mod Types
mod Calls
pub mod Dispatch
pub mod Invariant
pub mod Outcome
pub mod Choose
pub mod Lock
pub mod Offchain
pub mod Sending
pub mod Interval
pub mod Safety
pub mod Reports
pub mod Full
pub mod Replay
pub mod Connection
pub mod Unsigned
pub mod Pool
pub use Types.*
unfoldable pub use Calls.*
