-- ===== src/WorkerRegistration.antt =====
-- pallets/worker-registration/src/lib.rs
mod Types
mod Calls
pub mod Register
pub mod Schedule
pub mod Verify
pub mod Address
pub mod Clusters
pub mod Invariant
pub mod Preservation
pub mod Dispatch
pub mod Outcome
pub mod Progress
pub mod Offchain
pub mod Pinging
pub mod Reporting
pub mod SameBlock
pub mod Safety
pub mod Registry
pub mod Refinement
pub mod Replay
pub use Types.*
unfoldable pub use Calls.*
