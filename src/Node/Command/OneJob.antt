-- ===== src/Node/Command/OneJob.antt =====
-- A run of node/src/command.rs does the job that its subcommand asks for, or none.
use cyborg_chain.Prelude.{
  Bytes, ascii, All, All-prefix, All-unmap, Result, ok, ◌≡◌, refl, Bool, true, false, not, Option,
  none, some, List, [], ◌∷◌,
}
use cyborg_chain.Node.Action.{◌>>=◌}
use cyborg_chain.Node.Service.{Configuration, Libraries, Features, PartialComponents, new_partial}
use cyborg_chain.Node.Service.Follows.{Label, background, Follows, completed, stopped, label}
use cyborg_chain.Node.Service.Startup.{telemetry_labels, Follows-new_partial}
use cyborg_chain.Node.Command.{
  BenchmarkCmd, benchmark_pallet, benchmark_block, benchmark_storage, benchmark_overhead,
  benchmark_extrinsic, benchmark_machine, Subcommand, key_command, build_spec, check_block,
  export_blocks, export_state, import_blocks, purge_chain, revert, benchmark, try_runtime,
  chain_info, Types, Runner, Job, CommandLine, CommandAction, in_service, inherent_benchmark_data,
  run_benchmark, with_parts, with_runner, run,
}
use cyborg_chain.Node.Command.Asked.{Asked}
use cyborg_chain.Node.Command.Outcome.{
  Outcome, Ends, Ends-fail, Ends-if, Ends-execute, Ends-cli, Ends-new_runner, Ends-in_service,
}

module _ (libs : Libraries) (types : Types) (line : CommandLine libs types) where
  IsTelemetry : Label → Type 0
  IsTelemetry l = l ≡ background (ascii "telemetry")

  telemetry_labels-All : (o : Option (List Bytes)) → All IsTelemetry (telemetry_labels o)
  unfolding IsTelemetry
  telemetry_labels-All none = tt
  telemetry_labels-All (some []) = tt
  telemetry_labels-All (some (e ∷ es)) = (refl, tt)

  Follows-All :
      {A E : Type 0} (P : Label → Type 0) (ls : List Label) (r : Result E A) (after : List Label)
      → All P ls
      → Follows [] ls r after
      → All P after
  Follows-All P ls r after h (completed a e same) = rw same h
  Follows-All P ls r after h (stopped done rest fails split same) =
      rw same (All-prefix P done rest (rw split h))

  is_on : (b : Bool) → not b ≡ false → b ≡ true
  is_on true h = refl
  is_on false h = cc

  All-tt : {A : Type 0} (xs : List A) → All (λ x. Unit {0}) xs
  All-tt [] = tt
  All-tt (x ∷ xs) = (tt, All-tt xs)

  new_partial-telemetry :
      (config : Configuration)
      → All (λ e. label libs e ≡ background (ascii "telemetry")) (new_partial libs config []).1
  unfolding IsTelemetry
  new_partial-telemetry config = All-unmap IsTelemetry (label libs) _ (
      Follows-All IsTelemetry (telemetry_labels config.telemetry_endpoints) _ _
        (telemetry_labels-All config.telemetry_endpoints) (Follows-new_partial libs config []))

  module _ (features : Features) where
    abbrev Runs : Option (Subcommand types.Cmd) → CommandAction libs types line (Unit {0}) → Type 0
    Runs sub m = Ends libs types line sub (Asked libs types line features sub) m

    Ends-with_runner :
        (sub : Option (Subcommand types.Cmd)) (job : Runner types → Job libs types)
        → ((r : Runner types)
            → line.create_runner sub ≡ ok r
            → Asked libs types line features sub (job r))
        → Runs sub (with_runner libs types line sub job)
    Ends-with_runner sub job h =
        Ends-new_runner libs types line sub _ _
          (λ r e. Ends-execute libs types line sub _ _ (h r e))

    Ends-partial :
        (sub : Subcommand types.Cmd) (config : Configuration)
        (f : PartialComponents libs → CommandAction libs types line (Unit {0}))
        → ((p : PartialComponents libs)
            → (new_partial libs config []).0 ≡ ok p
            → Runs (some sub) (f p))
        → Runs (some sub) (in_service libs types line (new_partial libs config) >>= f)
    Ends-partial sub config f h =
        Ends-in_service libs types line (some sub) _ _ f (new_partial-telemetry config) h

    Ends-with_parts :
        (sub : Subcommand types.Cmd) (job : Runner types → PartialComponents libs → Job libs types)
        → ((r : Runner types) (p : PartialComponents libs)
            → line.create_runner (some sub) ≡ ok r
            → (new_partial libs r.config []).0 ≡ ok p
            → Asked libs types line features (some sub) (job r p))
        → Runs (some sub) (with_parts libs types line (some sub) job)
    Ends-with_parts sub job h = Ends-new_runner libs types line (some sub) _ _ (λ r e.
        Ends-partial sub r.config _
          (λ p built. Ends-execute libs types line (some sub) _ _ (h r p e built)))

    Ends-run_benchmark :
        (cmd : BenchmarkCmd types.Cmd) (r : Runner types)
        → line.create_runner (some (benchmark cmd)) ≡ ok r
        → Runs (some (benchmark cmd)) (run_benchmark libs types line features cmd r)
    unfolding run_benchmark inherent_benchmark_data
    Ends-run_benchmark (benchmark_pallet cmd) r e =
        Ends-if libs types line _ _ (not features.runtime_benchmarks) _ _
          (λ off. Ends-fail libs types line _ _ _)
          (λ on. Ends-execute libs types line _ _ _ (is_on _ on, (r, e, refl)))
    Ends-run_benchmark (benchmark_block cmd) r e =
        Ends-partial _ _ _ (λ p built. Ends-execute libs types line _ _ _ (r, e, (p, built, refl)))
    Ends-run_benchmark (benchmark_storage cmd) r e =
        Ends-if libs types line _ _ _ _ _
          (λ on.
            Ends-partial _ _ _
              (λ p built. Ends-execute libs types line _ _ _ (on, (r, e, (p, built, refl)))))
          (λ off. Ends-fail libs types line _ _ _)
    Ends-run_benchmark (benchmark_overhead cmd) r e = Ends-partial _ _ _ (λ p built.
        Ends-cli libs types line _ _ _ _
          (λ d made. Ends-execute libs types line _ _ _ (r, e, (p, built, (d, made, refl)))))
    Ends-run_benchmark (benchmark_extrinsic cmd) r e = Ends-partial _ _ _ (λ p built.
        Ends-cli libs types line _ _ _ _
          (λ d made. Ends-execute libs types line _ _ _ (r, e, (p, built, (d, made, refl)))))
    Ends-run_benchmark (benchmark_machine cmd) r e = Ends-execute libs types line _ _ _ (r, e, refl)

    run-Ends : (sub : Option (Subcommand types.Cmd)) → Runs sub (run libs types line features sub)
    unfolding run
    run-Ends (some (key_command cmd)) = Ends-execute libs types line _ _ _ refl
    run-Ends (some (build_spec cmd)) = Ends-with_runner _ _ (λ r e. (r, e, refl))
    run-Ends (some (check_block cmd)) = Ends-with_parts _ _ (λ r p e b. (r, e, (p, b, refl)))
    run-Ends (some (export_blocks cmd)) = Ends-with_parts _ _ (λ r p e b. (r, e, (p, b, refl)))
    run-Ends (some (export_state cmd)) = Ends-with_parts _ _ (λ r p e b. (r, e, (p, b, refl)))
    run-Ends (some (import_blocks cmd)) = Ends-with_parts _ _ (λ r p e b. (r, e, (p, b, refl)))
    run-Ends (some (purge_chain cmd)) = Ends-with_runner _ _ (λ r e. (r, e, refl))
    run-Ends (some (revert cmd)) = Ends-with_parts _ _ (λ r p e b. (r, e, (p, b, refl)))
    run-Ends (some (benchmark cmd)) =
        Ends-new_runner libs types line _ _ _ (λ r e. Ends-run_benchmark cmd r e)
    run-Ends (some (try_runtime cmd)) =
        Ends-if libs types line _ _ _ _ _
          (λ on. Ends-new_runner libs types line _ _ _ (λ r e.
            Ends-in_service libs types line _ _ _ _ tt
              (λ u made. Ends-execute libs types line _ _ _ (on, (r, e, (made, refl))))))
          (λ off. Ends-fail libs types line _ _ _)
    run-Ends (some (chain_info cmd)) = Ends-with_runner _ _ (λ r e. (r, e, refl))
    run-Ends none = Ends-new_runner libs types line _ _ _ (λ r e.
        Ends-in_service libs types line _ _ _ _ (All-tt _)
          (λ u made. Ends-execute libs types line _ _ _ (r, e, (made, refl))))

    -- Every run of the command line ends in one of two ways: it fails before any job, or it does
    -- exactly one job, the one that its subcommand asks for, as its last event, and ends with the
    -- job's result. The job has the components that `new_partial` builds for the runner of that
    -- subcommand. Only without a subcommand does the node start, and a run with one starts at most
    -- the telemetry's worker.
    pub run-Outcome :
        (sub : Option (Subcommand types.Cmd))
        → let (r, events) = run libs types line features sub [] in
          Outcome libs types line sub (Asked libs types line features sub) r events
    run-Outcome sub = run-Ends sub [] tt
