-- ===== src/Node/Command.antt =====
-- node/src/command.rs and node/src/cli.rs: what the node does for a subcommand.
mod Parts
pub mod Asked
pub mod Completes
pub mod OneJob
pub mod Outcome
mod Run
pub use Parts.*
unfoldable pub use Run.*
