-- ===== src/WorkerRegistration/Preservation.antt =====
-- The invariant of pallets/worker-registration/src/lib.rs across its dispatchables.
mod Registering
mod Scheduling
mod Verifying
pub use Registering.*
pub use Scheduling.*
pub use Verifying.*
