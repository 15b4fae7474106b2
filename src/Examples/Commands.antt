-- ===== src/Examples/Commands.antt =====
-- The theorems on node/src/benchmarking.rs and node/src/command.rs at concrete inputs, and runs of
-- the code on them.
use cyborg_chain.Prelude.{
  ◌==◌, Bytes, ascii, bytes_eq, bytes_eq_refl, Result, ok, err, ℕ, ◌≡◌, refl, ◌↔◌, true, Option,
  none, some, List, [], ◌∷◌, arith,
}
use cyborg_chain.Node.Action.{◌>>=◌}
use cyborg_chain.Node.Service.{
  telemetry_worker, spawn, emit, open_telemetry, spawn_telemetry, partial_from, new_partial,
}
use cyborg_chain.Node.Benchmarking.{transfer_keep_alive, Tools, transfer_keep_alive_builder, build}
use cyborg_chain.Node.Benchmarking.Validity.{
  Laws, Block, IsAbove, BuildsAccepted, build-BuildsAccepted,
}
use cyborg_chain.Node.Command.{
  benchmark_storage, Subcommand, revert, benchmark, try_runtime, Types, Runner, grandpa_revert,
  run_revert, CommandError, storage_benchmark_disabled, CommandLine, Event, runner_created,
  service_effect, performed, in_service, execute, run_benchmark, run,
}
use cyborg_chain.Node.Command.Asked.{Asked}
use cyborg_chain.Node.Command.Outcome.{Outcome}
use cyborg_chain.Node.Command.OneJob.{run-Outcome}
use cyborg_chain.Node.Command.Completes.{LineWorks, enabled, run_completes}
use cyborg_chain.Examples.Service.{libs, works, config, features}

-- A client is the number of its best block, a hash that of its block, a signature the signer and
-- the message.
abbrev tools : Tools
tools = record {
  Client = ℕ;
  Hash = ℕ;
  Era = ℕ × ℕ;
  Pair = ℕ;
  Signature = Bytes;
  block_hash = λ client n. some n;
  best_hash = λ client. client;
  best_number = λ client. client;
  mortal = λ period current. (period, current);
  bob = 3;
  public = λ pair. pair;
  encode = λ call extra additional.
      extra.nonce ∷ extra.tip ∷ additional.spec_version ∷ additional.genesis_hash
      ∷ additional.birth_hash ∷ [];
  sign = λ pair m. pair ∷ m;
}

abbrev laws : Laws tools
laws = record {
  verify = λ who m signature. bytes_eq signature (who ∷ m);
  verify-sign = λ pair m. bytes_eq_refl (pair ∷ m);
  birth = λ era number. era.1;
  birth-mortal = λ j current number low high from before. refl;
  is_zero = λ who. who == 0;
  bob-is_zero = refl;
  genesis = λ client. (0, refl);
  best_block = λ client. refl;
}

-- Block 2000 of a chain on which Bob has made five transactions.
abbrev block : Block tools
block = record {
  number = 2000;
  hash = λ n. some n;
  account_nonce = λ who. 5;
  fits = λ call. true;
  can_pay = λ who call tip. tip == 0;
}

block-IsAbove : IsAbove tools 100 block
block-IsAbove = record { above = omega arith; first_hash = refl; hashes = λ n old kept. refl }

build-BuildsAccepted_example :
    BuildsAccepted tools laws
      (build tools (transfer_keep_alive_builder 100 7 500) 5)
      (transfer_keep_alive 7 500)
      5
      block
build-BuildsAccepted_example =
    build-BuildsAccepted tools laws (transfer_keep_alive_builder 100 7 500) 5 block block-IsAbove
      (omega arith) refl refl refl

abbrev types : Types
types = record {
  Cmd = ℕ;
  ChainSpec = ℕ;
  NetworkConfiguration = ℕ;
  DatabaseSource = ℕ;
  Db = ℕ;
  Storage = ℕ;
  InherentData = ℕ;
  CliError = ℕ;
}

abbrev runner : Runner types
runner = record { config = config; chain_spec = 1; network = 2; database = 3 }

abbrev line : CommandLine libs types
line = record {
  create_runner = λ sub. ok runner;
  timestamp_inherent_data = λ millis. ok millis;
  expose_db = λ b. b;
  expose_storage = λ b. b;
  new_task_manager = λ r. ok tt;
  alice = 8;
  perform = λ job. ok tt;
}

abbrev line_works : LineWorks libs types line
line_works = record {
  runner = λ sub. (runner, refl);
  inherent_data = λ millis. (millis, refl);
  task_manager = λ r. refl;
  performs = λ job. refl;
}

abbrev run_of :
    Option (Subcommand ℕ)
    → Result (CommandError libs types) (Unit {0}) × List (Event libs types line)
run_of sub = run libs types line features sub []

-- A revert starts the telemetry's worker, and then does its job.
revert_runs : run_of (some (revert 9)) ≡ (
  ok tt,
  runner_created
      ∷ service_effect (spawn (ascii "telemetry") none (telemetry_worker 16))
      ∷ performed (run_revert 9 10 11 (some grandpa_revert))
      ∷ [],
)
unfolding run new_partial open_telemetry spawn_telemetry partial_from emit in_service execute ◌>>=◌
revert_runs = refl

-- The storage benchmark is not in this build: it ends after its runner is created.
storage_is_disabled :
    run_of (some (benchmark (benchmark_storage 9)))
    ≡ (err storage_benchmark_disabled, runner_created ∷ [])
unfolding run run_benchmark ◌>>=◌
storage_is_disabled = refl

run-Outcome_example :
    Outcome libs types line
      (some (revert 9))
      (Asked libs types line features (some (revert 9)))
      (run_of (some (revert 9))).0
      (run_of (some (revert 9))).1
run-Outcome_example = run-Outcome libs types line features (some (revert 9))

run_completes_example :
    ((run_of (some (try_runtime 9))).0 ≡ ok tt)
    ↔ (enabled {Cmd = ℕ} features (some (try_runtime 9)) ≡ true)
run_completes_example =
    run_completes libs types line works line_works features (some (try_runtime 9))
