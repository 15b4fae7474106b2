-- ===== src/Node/Command/Parts.antt =====
-- The subcommands of node/src/cli.rs, and what `run` of node/src/command.rs takes from and hands to
-- the libraries of the command line. The options of a command are opaque.
use cyborg_chain.Prelude.{Result, ℕ, Option, List}
use cyborg_chain.Frame.{AccountId}
use cyborg_chain.Node.Service.{Configuration, Libraries}
use cyborg_chain.Node.Benchmarking.{ExtrinsicBuilder}

pub data BenchmarkCmd (Cmd : Type 0) : Type 0 where
  benchmark_pallet : Cmd → BenchmarkCmd Cmd
  benchmark_block : Cmd → BenchmarkCmd Cmd
  benchmark_storage : Cmd → BenchmarkCmd Cmd
  benchmark_overhead : Cmd → BenchmarkCmd Cmd
  benchmark_extrinsic : Cmd → BenchmarkCmd Cmd
  benchmark_machine : Cmd → BenchmarkCmd Cmd

-- `TryRuntime` has options only in a build with the feature `try-runtime`; the others ignore them.
pub data Subcommand (Cmd : Type 0) : Type 0 where
  key_command : Cmd → Subcommand Cmd
  build_spec : Cmd → Subcommand Cmd
  check_block : Cmd → Subcommand Cmd
  export_blocks : Cmd → Subcommand Cmd
  export_state : Cmd → Subcommand Cmd
  import_blocks : Cmd → Subcommand Cmd
  purge_chain : Cmd → Subcommand Cmd
  revert : Cmd → Subcommand Cmd
  benchmark : BenchmarkCmd Cmd → Subcommand Cmd
  try_runtime : Cmd → Subcommand Cmd
  chain_info : Cmd → Subcommand Cmd

-- The types of the command line's libraries.
pub record Types : Type 1 where
  pub Cmd : Type 0
  pub ChainSpec : Type 0
  pub NetworkConfiguration : Type 0
  pub DatabaseSource : Type 0
  pub Db : Type 0
  pub Storage : Type 0
  pub InherentData : Type 0
  pub CliError : Type 0

-- The configuration of a runner: what the service reads of it, and the parts that commands take.
pub record Runner (types : Types) : Type 0 where
  pub config : Configuration
  pub chain_spec : types.ChainSpec
  pub network : types.NetworkConfiguration
  pub database : types.DatabaseSource

-- The closure that `revert` is handed beside the client and the backend: it calls
-- `sc_consensus_grandpa::revert`.
pub data AuxRevert : Type 0 where
  grandpa_revert : AuxRevert

-- The `cmd.run(…)` of each command, with its arguments; `full_node` is the rest of
-- `run_node_until_exit`, after `new_full`.
pub data Job (libs : Libraries) (types : Types) : Type 0 where
  run_key : types.Cmd → Job libs types
  run_build_spec : types.Cmd → types.ChainSpec → types.NetworkConfiguration → Job libs types
  run_check_block : types.Cmd → libs.Client → libs.ImportQueue → Job libs types
  run_export_blocks : types.Cmd → libs.Client → types.DatabaseSource → Job libs types
  run_export_state : types.Cmd → libs.Client → types.ChainSpec → Job libs types
  run_import_blocks : types.Cmd → libs.Client → libs.ImportQueue → Job libs types
  run_purge_chain : types.Cmd → types.DatabaseSource → Job libs types
  run_revert : types.Cmd → libs.Client → libs.Backend → Option AuxRevert → Job libs types
  run_benchmark_pallet : types.Cmd → Runner types → Job libs types
  run_benchmark_block : types.Cmd → libs.Client → Job libs types
  run_benchmark_storage :
      types.Cmd → Runner types → libs.Client → types.Db → types.Storage → Job libs types
  run_benchmark_overhead :
      types.Cmd
      → Runner types
      → libs.Client
      → types.InherentData
      → ExtrinsicBuilder libs.Client
      → Job libs types
  run_benchmark_extrinsic :
      types.Cmd
      → libs.Client
      → types.InherentData
      → List (ExtrinsicBuilder libs.Client)
      → Job libs types
  run_benchmark_machine : types.Cmd → Runner types → Job libs types
  run_try_runtime : types.Cmd → (blocktime_millis : ℕ) → Job libs types
  run_chain_info : types.Cmd → Runner types → Job libs types
  full_node : Runner types → Job libs types

pub data CommandError (libs : Libraries) (types : Types) : Type 0 where
  cli_error : types.CliError → CommandError libs types
  service_error : libs.Error → CommandError libs types
  runtime_benchmarks_disabled storage_benchmark_disabled try_runtime_disabled :
      CommandError libs types

pub record CommandLine (libs : Libraries) (types : Types) : Type 0 where
  -- `cli.create_runner(cmd)?`, and the configuration that the runner hands to its closure
  pub create_runner : Option (Subcommand types.Cmd) → Result types.CliError (Runner types)
  -- the inherent data of a timestamp provider, `provide_inherent_data`
  pub timestamp_inherent_data : (millis : ℕ) → Result types.CliError types.InherentData
  pub expose_db : libs.Backend → types.Db
  pub expose_storage : libs.Backend → types.Storage
  -- `TaskManager::new`, with the runner's registry
  pub new_task_manager : Runner types → Result libs.Error (Unit {0})
  -- `Sr25519Keyring::Alice.to_account_id()`
  pub alice : AccountId
  pub perform : Job libs types → Result types.CliError (Unit {0})
