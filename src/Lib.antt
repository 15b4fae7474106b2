-- ===== src/Lib.antt =====
-- A model of Cyborg chain: the two pallets of the repository, the parts of the runtime that are
-- its own code, and its node (genesis, service, command line, benchmark extrinsics), with the
-- theorems that make them correct.
--
-- The program's parts, and the files that model them:
--
-- - pallets/worker-registration/src/lib.rs, the registry of clusters and tasks:
--   WorkerRegistration. Types has its data, errors, events and storage; Calls has
--   `worker_register`, `task_scheduler` and `verify_connection`, with `derived_key` and the text
--   of an address; Dispatch has them as one call type, and the effect of a sequence of
--   extrinsics; Offchain has the off-chain worker, `fetch_cluster_status` and `http_call`. The
--   other files hold proofs: Register, Schedule and Verify take each call branch by branch,
--   Outcome sums them up, Invariant and Preservation hold what is true of a storage, Safety and
--   Registry what follows for every call and every chain, Refinement the abstract registry that
--   the storage implements, Replay what a client learns from the events, Progress is about tasks
--   where there is a worker, Address about the text of an address, Clusters about which clusters
--   are known, Pinging, Reporting and SameBlock about the way from a registration through the
--   off-chain index to the report of its status.
-- - pallets/edge-connect/src/lib.rs, the connection to an edge server: EdgeConnect. Types and
--   Calls have the storage, the six calls and `add_response`; Dispatch has the call type and
--   `validate_unsigned`; Choose has `choose_transaction_type`, and Lock the interleaving of the
--   off-chain workers that share its entry of the local storage; Offchain has `fetch_response`,
--   the four helpers that send it, and the worker. Invariant, Outcome, Safety, Connection,
--   Unsigned, Pool, Sending, Interval, Reports, Replay and Full hold the proofs (Reports and
--   Replay about the events, Full about the lists once they are full), Lock.Contention one about
--   lost writes.
-- - runtime/src/lib.rs: Runtime. Constants has the time units, `deposit` and the pallets'
--   parameters; Weights has the limits that the builder of the block weights is given; Api has
--   `impl_runtime_apis!`, with ContractsApi in Api.Contracts; Period and Transaction have
--   `create_transaction`, Signed what it builds; Compose has `construct_runtime!` for the two
--   pallets; Submission has the steps of a chain with the transactions that the off-chain
--   workers of both pallets hand to its pool, with proofs in Submission.Ending and
--   Submission.Success.
-- - node/src/chain_spec.rs, and `load_spec` of node/src/command.rs: Node.ChainSpec, with proofs
--   in Node.Genesis; Genesis.Accepted relates the genesis states to the limits of the runtime.
-- - node/src/service.rs: Node.Service. Parts has what it takes from the libraries, Build has
--   `new_partial` and `new_full`; Follows, Startup, Success and Tasks hold the proofs: the order
--   of a start, that it comes to its end, and with which settings its tasks are made.
-- - node/src/command.rs and node/src/cli.rs: Node.Command. Parts has the subcommands and the
--   jobs that they are handed to, Run has `run`; Asked says which job a subcommand asks for,
--   Outcome, OneJob and Completes hold the proofs.
-- - node/src/benchmarking.rs: Node.Benchmarking, with its proofs in Node.Benchmarking.Validity.
-- - node/src/rpc.rs: Node.Rpc.
-- - Node.Keys joins the service with the off-chain workers of the two pallets, which look into
--   the keystore that it fills; Node.Slots joins it with the runtime's APIs, which it asks for
--   the duration of a slot.
-- - Node.Action is the sequence of fallible steps that service and command line are written in,
--   its `>>=` shut so that rules take a long chain apart.
-- - Prelude holds what all of them share, Text the decimal numbers, joined texts and UTF-8 of
--   the Rust library, Frame the origins and the event log of `frame_system`, Http the HTTP
--   client of the off-chain workers. Examples instantiates the parameters and runs the code.
--
-- How the code is represented. A dispatchable is an action on its pallet's storage: it returns
-- `ok`, an error or a panic together with the storage at that point, so that a write before an
-- error is seen. Storage maps are association lists, events and the off-chain index are lists in
-- the storage. Arithmetic on ids, block numbers and balances wraps at its width, as in a release
-- build. A `String` or a `Vec<u8>` is a list of bytes; where the type in Rust makes a text
-- UTF-8, that is the hypothesis `HasText`. The pallets meet in the off-chain index and in the
-- calls that an off-chain worker submits, and in the runtime, where each works on its own
-- storage. The start of a node is an action whose state is the list of what it has started, in
-- order; the command line is one whose state lists runners, what the service has started, and
-- the jobs that are done. The node meets the runtime in the constants that a benchmark extrinsic
-- is built from, and the pallets in the key that it makes for their off-chain workers.
--
-- Parameters. What the code calls outside the repository is an argument: the origin checks
-- (Frame), the hash, the codec and the iteration of a storage map (Host), the HTTP client
-- (Client), the JSON parser (Json), the transaction helpers of the off-chain workers (Signer),
-- the local storage's `mutate`, the eras, payloads and signatures (Signing, Tools), the
-- derivation of keys (Keys), the ratios and the builder of block weights (WeightLibs), what is
-- behind the runtime APIs (ApiLibs), the parts of a Substrate node (Libraries), its RPC modules
-- (RpcLibrary), and the runner and the commands of its command line (CommandLine). Their laws
-- are the documented ones: a hash has 32 bytes, what is encoded is decoded, an iteration visits
-- the entries of the map, a payload that is signed for submission verifies, an era's birth block
-- is the one it was made at, a chain has its first and best block, Bob's account is not the zero
-- one, a part of a number is not more than the number, the limit of a block is the highest limit
-- of its classes, a slot is twice the minimum period.
--
-- Bounds and fuel. The counters of worker-registration are u64 and would wrap: the theorems on a
-- chain take fewer than 2^64 extrinsics, or steps. `to_string` writes at most 10 digits, enough
-- for a u32. The search for a power of two makes at most 32 steps, the number of powers that are
-- u32. The lock's theorem takes block numbers to which the grace period can be added within a
-- u32. All other functions are structurally recursive.
--
-- Not modelled: the weights of calls, fees, logging, and what a block checks before it
-- dispatches an extrinsic (for the benchmark extrinsics these checks are a predicate, with
-- nonces, weights and fees as its parameters); the pallets of other libraries, which the runtime
-- only configures; the runtime APIs for benchmarks and try-runtime; the task manager, metrics
-- and inherent data of the service, which it passes on; the names and versions that the command
-- line prints; code that is commented out. Of the first response that the off-chain worker of
-- edge-connect fetches only the log knows, so the model leaves that request out, and so with the
-- hash of the parent block.
pub mod EdgeConnect
pub mod Examples
pub mod Frame
pub mod Http
pub mod Node
pub mod Prelude
pub mod Runtime
pub mod Text
pub mod WorkerRegistration
