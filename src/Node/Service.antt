-- ===== src/Node/Service.antt =====
-- node/src/service.rs: what a node starts, in which order, and from what.
mod Parts
mod Build
pub mod Follows
pub mod Startup
pub mod Success
pub mod Tasks
pub use Parts.*
unfoldable pub use Build.*
