-- ===== src/Node/Command/Run.antt =====
-- `run` of node/src/command.rs: which job the node hands to the libraries of the command line, and
-- what it builds for it.
use cyborg_chain.Prelude.{
  if◌then◌else◌, Result, ok, err, panic, Action, pure, modify, not, Option, none, some, List, [],
  ◌∷◌, ◌++◌, map,
}
use cyborg_chain.Runtime.Constants.{existential_deposit}
use cyborg_chain.Node.Action.{◌>>=◌, ◌>>◌}
use cyborg_chain.Node.Service.{
  Libraries, Features, Effect, ServiceAction, try, PartialComponents, new_partial, new_full,
}
use cyborg_chain.Node.Benchmarking.{remark_builder, transfer_keep_alive_builder}
use cyborg_chain.Node.Command.Parts.{
  BenchmarkCmd, benchmark_pallet, benchmark_block, benchmark_storage, benchmark_overhead,
  benchmark_extrinsic, benchmark_machine, Subcommand, key_command, build_spec, check_block,
  export_blocks, export_state, import_blocks, purge_chain, revert, benchmark, try_runtime,
  chain_info, Types, Runner, grandpa_revert, Job, run_key, run_build_spec, run_check_block,
  run_export_blocks, run_export_state, run_import_blocks, run_purge_chain, run_revert,
  run_benchmark_pallet, run_benchmark_block, run_benchmark_storage, run_benchmark_overhead,
  run_benchmark_extrinsic, run_benchmark_machine, run_try_runtime, run_chain_info, full_node,
  CommandError, cli_error, service_error, runtime_benchmarks_disabled, storage_benchmark_disabled,
  try_runtime_disabled, CommandLine,
}

module _ (libs : Libraries) (types : Types) (line : CommandLine libs types) where
  pub data Event : Type 0 where
    runner_created : Event
    service_effect : Effect libs → Event
    performed : Job libs types → Event

  abbrev pub CommandAction : Type 0 → Type 0
  CommandAction = Action (List Event) (CommandError libs types)

  abbrev pub map_err : {E F A : Type 0} → (E → F) → Result E A → Result F A
  map_err f (ok a) = ok a
  map_err f (err e) = err (f e)
  map_err f panic = panic

  abbrev pub cli : {A : Type 0} → Result types.CliError A → CommandAction A
  cli r s = (map_err cli_error r, s)

  abbrev pub fail : CommandError libs types → CommandAction (Unit {0})
  fail e s = (err e, s)

  -- A step of the service, whose effects happen in the command's run.
  unfoldable pub in_service : {A : Type 0} → ServiceAction libs A → CommandAction A
  in_service m s =
      let (r, effects) = m [] in (map_err service_error r, s ++ map service_effect effects)

  -- `create_runner(cmd)?`
  abbrev pub created : Result types.CliError (Runner types) → CommandAction (Runner types)
  created r = do runner ← cli r; modify (λ s. s ++ runner_created ∷ []); pure runner

  abbrev pub new_runner : Option (Subcommand types.Cmd) → CommandAction (Runner types)
  new_runner sub = created (line.create_runner sub)

  -- `cmd.run(…)`, once its arguments are there.
  unfoldable pub execute : Job libs types → CommandAction (Unit {0})
  execute job s = (map_err cli_error (line.perform job), s ++ performed job ∷ [])

  -- `inherent_benchmark_data` of node/src/benchmarking.rs
  unfoldable pub inherent_benchmark_data : Result types.CliError types.InherentData
  inherent_benchmark_data = line.timestamp_inherent_data 0

  -- The jobs of `benchmark`, in the runner that it has created.
  unfoldable pub run_benchmark :
      Features → BenchmarkCmd types.Cmd → Runner types → CommandAction (Unit {0})
  run_benchmark features (benchmark_pallet cmd) runner =
      if not features.runtime_benchmarks
      then fail runtime_benchmarks_disabled
      else execute (run_benchmark_pallet cmd runner)
  run_benchmark features (benchmark_block cmd) runner = do
    parts ← in_service (new_partial libs runner.config)
    execute (run_benchmark_block cmd parts.client)
  run_benchmark features (benchmark_storage cmd) runner =
      if features.runtime_benchmarks
      then (do
        parts ← in_service (new_partial libs runner.config)
        let db = line.expose_db parts.backend
        let storage = line.expose_storage parts.backend
        execute (run_benchmark_storage cmd runner parts.client db storage))
      else fail storage_benchmark_disabled
  run_benchmark features (benchmark_overhead cmd) runner = do
    parts ← in_service (new_partial libs runner.config)
    inherent_data ← cli inherent_benchmark_data
    execute
        (run_benchmark_overhead cmd runner parts.client inherent_data (remark_builder parts.client))
  run_benchmark features (benchmark_extrinsic cmd) runner = do
    parts ← in_service (new_partial libs runner.config)
    let builders =
        remark_builder parts.client
        ∷ transfer_keep_alive_builder parts.client line.alice existential_deposit
        ∷ []
    inherent_data ← cli inherent_benchmark_data
    execute (run_benchmark_extrinsic cmd parts.client inherent_data builders)
  run_benchmark features (benchmark_machine cmd) runner = execute (run_benchmark_machine cmd runner)

  -- A command that needs the partial components, and what it does with them.
  abbrev pub with_parts :
      Option (Subcommand types.Cmd)
      → (Runner types → PartialComponents libs → Job libs types)
      → CommandAction (Unit {0})
  with_parts sub job = do
    runner ← new_runner sub
    parts ← in_service (new_partial libs runner.config)
    execute (job runner parts)

  -- A command that needs only the configuration.
  abbrev pub with_runner :
      Option (Subcommand types.Cmd) → (Runner types → Job libs types) → CommandAction (Unit {0})
  with_runner sub job = do runner ← new_runner sub; execute (job runner)

  unfoldable pub run : Features → Option (Subcommand types.Cmd) → CommandAction (Unit {0})
  unfolding run_benchmark
  run features (some (key_command cmd)) = execute (run_key cmd)
  run features (some (build_spec cmd)) =
      with_runner (some (build_spec cmd)) (λ r. run_build_spec cmd r.chain_spec r.network)
  run features (some (check_block cmd)) =
      with_parts (some (check_block cmd)) (λ r p. run_check_block cmd p.client p.import_queue)
  run features (some (export_blocks cmd)) =
      with_parts (some (export_blocks cmd)) (λ r p. run_export_blocks cmd p.client r.database)
  run features (some (export_state cmd)) =
      with_parts (some (export_state cmd)) (λ r p. run_export_state cmd p.client r.chain_spec)
  run features (some (import_blocks cmd)) =
      with_parts (some (import_blocks cmd)) (λ r p. run_import_blocks cmd p.client p.import_queue)
  run features (some (purge_chain cmd)) =
      with_runner (some (purge_chain cmd)) (λ r. run_purge_chain cmd r.database)
  run features (some (revert cmd)) =
      with_parts (some (revert cmd))
        (λ r p. run_revert cmd p.client p.backend (some grandpa_revert))
  run features (some (benchmark cmd)) = do
    runner ← new_runner (some (benchmark cmd))
    run_benchmark features cmd runner
  run features (some (try_runtime cmd)) =
      if features.try_runtime
      then (do
        runner ← new_runner (some (try_runtime cmd))
        in_service (try libs (line.new_task_manager runner))
        execute (run_try_runtime cmd 6000))
      else fail try_runtime_disabled
  run features (some (chain_info cmd)) =
      with_runner (some (chain_info cmd)) (λ r. run_chain_info cmd r)
  run features none = do
    runner ← new_runner none
    in_service (new_full libs features runner.config)
    execute (full_node runner)
