-- ===== src/Node/Command/Completes.antt =====
-- When a run of node/src/command.rs completes, as far as it depends on the node's own code.
use cyborg_chain.Prelude.{Result, ok, ℕ, ◌≡◌, refl, ◌↔◌, Bool, true, Option, none, some, List, []}
use cyborg_chain.Node.Action.{◌>>=◌}
use cyborg_chain.Node.Action.Succeeds.{Succeeds, Succeeds-try, Succeeds-bind}
use cyborg_chain.Node.Service.{
  Configuration, Libraries, Features, ServiceAction, PartialComponents, new_partial,
}
use cyborg_chain.Node.Service.Success.{Works, Succeeds-new_partial, Succeeds-new_full}
use cyborg_chain.Node.Command.{
  BenchmarkCmd, benchmark_pallet, benchmark_block, benchmark_storage, benchmark_overhead,
  benchmark_extrinsic, benchmark_machine, Subcommand, key_command, build_spec, check_block,
  export_blocks, export_state, import_blocks, purge_chain, revert, benchmark, try_runtime,
  chain_info, Types, Runner, Job, run_benchmark_pallet, run_try_runtime, CommandError, CommandLine,
  Event, CommandAction, cli, in_service, new_runner, execute, inherent_benchmark_data,
  run_benchmark, with_parts, with_runner, run,
}
use cyborg_chain.Node.Command.Asked.{Asked}
use cyborg_chain.Node.Command.Outcome.{Outcome, failed, finished}
use cyborg_chain.Node.Command.OneJob.{run-Outcome}

-- No call of the command line's libraries fails.
pub record LineWorks (libs : Libraries) (types : Types) (line : CommandLine libs types)
    : Type 0 where
  pub runner :
      (sub : Option (Subcommand types.Cmd)) → (r : Runner types) × (line.create_runner sub ≡ ok r)
  pub inherent_data :
      (millis : ℕ) → (d : types.InherentData) × (line.timestamp_inherent_data millis ≡ ok d)
  pub task_manager : (r : Runner types) → line.new_task_manager r ≡ ok tt
  pub performs : (job : Job libs types) → line.perform job ≡ ok tt

module _ {Cmd : Type 0} where
  -- Whether a build with these features has the command.
  abbrev pub enabled : Features → Option (Subcommand Cmd) → Bool
  enabled features (some (benchmark (benchmark_pallet cmd))) = features.runtime_benchmarks
  enabled features (some (benchmark (benchmark_storage cmd))) = features.runtime_benchmarks
  enabled features (some (try_runtime cmd)) = features.try_runtime
  enabled features sub = true

module _ (libs : Libraries) (types : Types) (line : CommandLine libs types) where
  Asked-enabled :
      (features : Features) (sub : Option (Subcommand types.Cmd)) (job : Job libs types)
      → Asked libs types line features sub job
      → enabled features sub ≡ true
  Asked-enabled features (some (benchmark (benchmark_pallet cmd))) job asked = asked.0
  Asked-enabled features (some (benchmark (benchmark_storage cmd))) job asked = asked.0
  Asked-enabled features (some (try_runtime cmd)) job asked = asked.0
  Asked-enabled features sub job asked = refl

  module _ (libs_work : Works libs) (line_works : LineWorks libs types line) where
    Succeeds-in_service :
        {A : Type 0} (m : ServiceAction libs A)
        → Succeeds m
        → Succeeds (in_service libs types line m)
    unfolding in_service
    Succeeds-in_service m h s = let (a, e) = h [] in (a, rw e refl)

    Succeeds-cli :
        {A : Type 0} (r : Result types.CliError A)
        → (a : A) × (r ≡ ok a)
        → Succeeds (cli libs types line r)
    Succeeds-cli r (a, e) s = (a, rw e refl)

    Succeeds-new_runner :
        (sub : Option (Subcommand types.Cmd)) → Succeeds (new_runner libs types line sub)
    Succeeds-new_runner sub =
        Succeeds-bind _ _ (Succeeds-cli _ (line_works.runner sub))
          (λ r. Succeeds-bind _ _ (λ s. (tt, refl)) (λ u s. (r, refl)))

    Succeeds-execute : (job : Job libs types) → Succeeds (execute libs types line job)
    unfolding execute
    Succeeds-execute job = Succeeds-cli _ (tt, line_works.performs job)

    Succeeds-with_runner :
        (sub : Option (Subcommand types.Cmd)) (job : Runner types → Job libs types)
        → Succeeds (with_runner libs types line sub job)
    Succeeds-with_runner sub job =
        Succeeds-bind _ _ (Succeeds-new_runner sub) (λ r. Succeeds-execute _)

    Succeeds-partial :
        (config : Configuration)
        (f : PartialComponents libs → CommandAction libs types line (Unit {0}))
        → ((p : PartialComponents libs) → Succeeds (f p))
        → Succeeds (in_service libs types line (new_partial libs config) >>= f)
    Succeeds-partial config f h =
        Succeeds-bind _ _ (Succeeds-in_service _ (Succeeds-new_partial libs libs_work config)) h

    Succeeds-with_parts :
        (sub : Option (Subcommand types.Cmd))
        (job : Runner types → PartialComponents libs → Job libs types)
        → Succeeds (with_parts libs types line sub job)
    Succeeds-with_parts sub job =
        Succeeds-bind _ _ (Succeeds-new_runner sub)
          (λ r. Succeeds-partial r.config _ (λ p. Succeeds-execute _))

    Succeeds-run_benchmark :
        (features : Features) (cmd : BenchmarkCmd types.Cmd) (r : Runner types)
        → enabled features (some (benchmark cmd)) ≡ true
        → Succeeds (run_benchmark libs types line features cmd r)
    unfolding run_benchmark inherent_benchmark_data
    Succeeds-run_benchmark features (benchmark_pallet cmd) r on =
        rw on (Succeeds-execute (run_benchmark_pallet cmd r))
    Succeeds-run_benchmark features (benchmark_block cmd) r on =
        Succeeds-partial _ _ (λ p. Succeeds-execute _)
    Succeeds-run_benchmark features (benchmark_storage cmd) r on =
        rw on (Succeeds-partial _ _ (λ p. Succeeds-execute _))
    Succeeds-run_benchmark features (benchmark_overhead cmd) r on = Succeeds-partial _ _ (λ p.
        Succeeds-bind _ _ (Succeeds-cli _ (line_works.inherent_data 0)) (λ d. Succeeds-execute _))
    Succeeds-run_benchmark features (benchmark_extrinsic cmd) r on = Succeeds-partial _ _ (λ p.
        Succeeds-bind _ _ (Succeeds-cli _ (line_works.inherent_data 0)) (λ d. Succeeds-execute _))
    Succeeds-run_benchmark features (benchmark_machine cmd) r on = Succeeds-execute _

    Succeeds-run :
        (features : Features) (sub : Option (Subcommand types.Cmd))
        → enabled features sub ≡ true
        → Succeeds (run libs types line features sub)
    unfolding run
    Succeeds-run features (some (key_command cmd)) on = Succeeds-execute _
    Succeeds-run features (some (build_spec cmd)) on = Succeeds-with_runner _ _
    Succeeds-run features (some (check_block cmd)) on = Succeeds-with_parts _ _
    Succeeds-run features (some (export_blocks cmd)) on = Succeeds-with_parts _ _
    Succeeds-run features (some (export_state cmd)) on = Succeeds-with_parts _ _
    Succeeds-run features (some (import_blocks cmd)) on = Succeeds-with_parts _ _
    Succeeds-run features (some (purge_chain cmd)) on = Succeeds-with_runner _ _
    Succeeds-run features (some (revert cmd)) on = Succeeds-with_parts _ _
    Succeeds-run features (some (benchmark cmd)) on =
        Succeeds-bind _ _ (Succeeds-new_runner _) (λ r. Succeeds-run_benchmark features cmd r on)
    Succeeds-run features (some (try_runtime cmd)) on = rw on (
        Succeeds-bind _ _ (Succeeds-new_runner (some (try_runtime cmd))) (λ r.
          Succeeds-bind _ _ (Succeeds-in_service _ (Succeeds-try _ (tt, line_works.task_manager r)))
            (λ u. Succeeds-execute (run_try_runtime cmd 6000))))
    Succeeds-run features (some (chain_info cmd)) on = Succeeds-with_runner _ _
    Succeeds-run features none on = Succeeds-bind _ _ (Succeeds-new_runner none) (λ r.
        Succeeds-bind _ _
          (Succeeds-in_service _ (Succeeds-new_full libs libs_work features r.config))
          (λ u. Succeeds-execute _))

    finished_enabled :
        (features : Features) (sub : Option (Subcommand types.Cmd))
        {r : Result (CommandError libs types) (Unit {0})} {events : List (Event libs types line)}
        → Outcome libs types line sub (Asked libs types line features sub) r events
        → r ≡ ok tt
        → enabled features sub ≡ true
    finished_enabled features sub (failed fails h) e = absurd (fails tt e)
    finished_enabled features sub (finished job before asked h same result) e =
        Asked-enabled features sub job asked

    -- Where no call of a library fails, a run completes exactly if the build has the command: the
    -- benchmarks of a pallet and of the storage need the feature `runtime-benchmarks`, `TryRuntime`
    -- needs `try-runtime`.
    pub run_completes :
        (features : Features) (sub : Option (Subcommand types.Cmd))
        → ((run libs types line features sub []).0 ≡ ok tt) ↔ (enabled features sub ≡ true)
    run_completes features sub = (
      finished_enabled features sub (run-Outcome libs types line features sub),
      λ on. (Succeeds-run features sub on []).1,
    )
