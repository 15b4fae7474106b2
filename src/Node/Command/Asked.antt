-- ===== src/Node/Command/Asked.antt =====
-- The job that each subcommand of node/src/cli.rs and node/src/command.rs asks for.
use cyborg_chain.Prelude.{ok, ◌≡◌, true, Option, none, some, [], ◌∷◌}
use cyborg_chain.Runtime.Constants.{existential_deposit}
use cyborg_chain.Node.Service.{Libraries, Features, PartialComponents, new_partial, new_full}
use cyborg_chain.Node.Benchmarking.{remark_builder, transfer_keep_alive_builder}
use cyborg_chain.Node.Command.{
  BenchmarkCmd, benchmark_pallet, benchmark_block, benchmark_storage, benchmark_overhead,
  benchmark_extrinsic, benchmark_machine, Subcommand, key_command, build_spec, check_block,
  export_blocks, export_state, import_blocks, purge_chain, revert, benchmark, try_runtime,
  chain_info, Types, Runner, grandpa_revert, Job, run_key, run_build_spec, run_check_block,
  run_export_blocks, run_export_state, run_import_blocks, run_purge_chain, run_revert,
  run_benchmark_pallet, run_benchmark_block, run_benchmark_storage, run_benchmark_overhead,
  run_benchmark_extrinsic, run_benchmark_machine, run_try_runtime, run_chain_info, full_node,
  CommandLine,
}

module _ (libs : Libraries) (types : Types) (line : CommandLine libs types) where
  -- The runner that is created for the subcommand.
  abbrev WithRunner : Option (Subcommand types.Cmd) → (Runner types → Type 0) → Type 0
  WithRunner sub P = (runner : Runner types) × (line.create_runner sub ≡ ok runner) × P runner

  -- The partial components that `new_partial` builds for this runner.
  abbrev WithParts :
      Option (Subcommand types.Cmd) → (Runner types → PartialComponents libs → Type 0) → Type 0
  WithParts sub P = WithRunner sub (λ runner.
      (parts : PartialComponents libs) × ((new_partial libs runner.config []).0 ≡ ok parts)
      × P runner parts)

  abbrev WithInherentData : (types.InherentData → Type 0) → Type 0
  WithInherentData P = (d : types.InherentData) × (line.timestamp_inherent_data 0 ≡ ok d) × P d

  abbrev pub AskedBenchmark : Features → BenchmarkCmd types.Cmd → Job libs types → Type 0
  AskedBenchmark features (benchmark_pallet cmd) job =
      (features.runtime_benchmarks ≡ true)
      × WithRunner (some (benchmark (benchmark_pallet cmd))) (λ r. job ≡ run_benchmark_pallet cmd r)
  AskedBenchmark features (benchmark_block cmd) job =
      WithParts (some (benchmark (benchmark_block cmd)))
        (λ r p. job ≡ run_benchmark_block cmd p.client)
  AskedBenchmark features (benchmark_storage cmd) job =
      (features.runtime_benchmarks ≡ true)
      × WithParts (some (benchmark (benchmark_storage cmd))) (λ r p.
        job
        ≡ run_benchmark_storage cmd r p.client (line.expose_db p.backend)
            (line.expose_storage p.backend))
  AskedBenchmark features (benchmark_overhead cmd) job =
      WithParts (some (benchmark (benchmark_overhead cmd))) (λ r p.
        WithInherentData
          (λ d. job ≡ run_benchmark_overhead cmd r p.client d (remark_builder p.client)))
  AskedBenchmark features (benchmark_extrinsic cmd) job =
      WithParts (some (benchmark (benchmark_extrinsic cmd))) (λ r p. WithInherentData (λ d.
        job
        ≡ run_benchmark_extrinsic cmd p.client d (
            remark_builder p.client
            ∷ transfer_keep_alive_builder p.client line.alice existential_deposit
            ∷ [])))
  AskedBenchmark features (benchmark_machine cmd) job =
      WithRunner (some (benchmark (benchmark_machine cmd))) (λ r. job ≡ run_benchmark_machine cmd r)

  -- The job that a subcommand asks for: what it takes comes from its own runner, and from what
  -- `new_partial` builds for it; a command that the build leaves out asks for none.
  abbrev pub Asked : Features → Option (Subcommand types.Cmd) → Job libs types → Type 0
  Asked features (some (key_command cmd)) job = job ≡ run_key cmd
  Asked features (some (build_spec cmd)) job =
      WithRunner (some (build_spec cmd)) (λ r. job ≡ run_build_spec cmd r.chain_spec r.network)
  Asked features (some (check_block cmd)) job =
      WithParts (some (check_block cmd)) (λ r p. job ≡ run_check_block cmd p.client p.import_queue)
  Asked features (some (export_blocks cmd)) job =
      WithParts (some (export_blocks cmd)) (λ r p. job ≡ run_export_blocks cmd p.client r.database)
  Asked features (some (export_state cmd)) job =
      WithParts (some (export_state cmd)) (λ r p. job ≡ run_export_state cmd p.client r.chain_spec)
  Asked features (some (import_blocks cmd)) job =
      WithParts (some (import_blocks cmd))
        (λ r p. job ≡ run_import_blocks cmd p.client p.import_queue)
  Asked features (some (purge_chain cmd)) job =
      WithRunner (some (purge_chain cmd)) (λ r. job ≡ run_purge_chain cmd r.database)
  Asked features (some (revert cmd)) job =
      WithParts (some (revert cmd))
        (λ r p. job ≡ run_revert cmd p.client p.backend (some grandpa_revert))
  Asked features (some (benchmark cmd)) job = AskedBenchmark features cmd job
  Asked features (some (try_runtime cmd)) job =
      (features.try_runtime ≡ true)
      × WithRunner (some (try_runtime cmd))
          (λ r. (line.new_task_manager r ≡ ok tt) × (job ≡ run_try_runtime cmd 6000))
  Asked features (some (chain_info cmd)) job =
      WithRunner (some (chain_info cmd)) (λ r. job ≡ run_chain_info cmd r)
  Asked features none job =
      WithRunner none (λ r. ((new_full libs features r.config []).0 ≡ ok tt) × (job ≡ full_node r))
