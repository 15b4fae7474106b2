-- ===== src/Node.antt =====
-- node/src: the genesis states and the choice of a chain specification, the service, its RPC module, the
-- command line, and the extrinsics of the benchmarks.
pub mod Action
pub mod ChainSpec
pub mod Genesis
pub mod Keys
pub mod Benchmarking
pub mod Command
pub mod Rpc
pub mod Service
pub mod Slots
