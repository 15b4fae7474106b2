-- ===== src/Runtime.antt =====
-- runtime/src/lib.rs: constants, the composition of the pallets, and the transactions that the
-- off-chain workers sign.
pub mod Constants
pub mod Weights
pub mod Period
pub mod Transaction
pub mod Signed
pub mod Api
pub mod Compose
pub mod Submission
