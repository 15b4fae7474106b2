-- ===== src/Examples/Service.antt =====
-- The theorems on node/src/service.rs, node/src/benchmarking.rs and node/src/command.rs at concrete
-- inputs, and runs of the code: a node of numbers, in which no call of a library fails.
use cyborg_chain.Prelude.{
  ascii, All, Result, ok, ℕ, ◌+◌, ◌≡◌, refl, true, false, some, List, [], ◌∷◌,
}
use cyborg_chain.Node.Action.{◌>>=◌}
use cyborg_chain.Node.Service.{
  authority, Configuration, Libraries, Features, Effect, emit, open_telemetry, spawn_telemetry,
  partial_from, new_partial, start_offchain_workers, start_authoring, start_voting, full_from,
  prepared, new_full,
}
use cyborg_chain.Node.Service.Follows.{Label, background, essential, key, rpc, networking, labels}
use cyborg_chain.Node.Service.Startup.{Startup, new_full-Startup}
use cyborg_chain.Node.Service.Success.{Works, new_full_starts}
use cyborg_chain.Node.Service.Tasks.{Allowed, new_full-Allowed}

abbrev pub libs : Libraries
libs = record {
  Error = ℕ;
  Executor = ℕ;
  Client = ℕ;
  Backend = ℕ;
  Keystore = ℕ;
  SelectChain = ℕ;
  Pool = ℕ;
  BlockImport = ℕ;
  Link = ℕ;
  ImportQueue = ℕ;
  TelemetryWorker = ℕ;
  Telemetry = ℕ;
  Hash = ℕ;
  ProtocolName = ℕ;
  WarpSync = ℕ;
  Network = ℕ;
  RpcChannel = ℕ;
  TxController = ℕ;
  Starter = ℕ;
  Sync = ℕ;
  Aura = ℕ;
  Voter = ℕ;
  new_worker = λ n. ok n;
  new_telemetry = λ w es. w;
  new_native_or_wasm_executor = λ c. 1;
  new_full_parts = λ c t e. ok (10, 11, 12);
  longest_chain = λ b. b + 1;
  new_pool = λ c a client. client + 3;
  grandpa_block_import = λ c s t. ok (14, 15);
  aura_slot_duration = λ c. ok 6000;
  aura_import_queue = λ b j c n t. ok 16;
  genesis_hash = λ c. some 17;
  protocol_standard_name = λ h c. h + 1;
  warp_sync_provider = λ b l. 19;
  build_network = λ c n client p q w. ok (20, 21, 22, 23, 24);
  sr25519_generate_new = λ k t s. true;
  spawn_tasks = λ c n client k p b r x s t. ok tt;
  start_aura = λ p. ok 25;
  run_grandpa_voter = λ p. ok 26;
}

abbrev pub works : Works libs
works = record {
  worker = λ n. (n, refl);
  full_parts = λ c t e. (_, refl);
  import = λ c s t. (_, refl);
  slot_duration = λ c. (_, refl);
  queue = λ b j c n t. (_, refl);
  genesis = λ c. (_, refl);
  network = λ c n client p q w. (_, refl);
  generated = λ k t s. refl;
  tasks = λ c n client k p b r x s t. refl;
  aura = λ p. (_, refl);
  voter = λ p. (_, refl);
}

-- An authority with telemetry and off-chain workers, in a build with `ocw`.
abbrev pub config : Configuration
config = record {
  telemetry_endpoints = some (ascii "wss://t" ∷ []);
  role = authority;
  offchain_worker_enabled = true;
  force_authoring = false;
  disable_grandpa = false;
  node_name = ascii "n";
}

abbrev pub features : Features
features = record { ocw = true; runtime_benchmarks = false; try_runtime = false }

abbrev pub start : Result ℕ (Unit {0}) × List (Effect libs)
start = new_full libs features config []

abbrev all_labels : List Label
all_labels =
    background (ascii "telemetry")
    ∷ background (ascii "offchain-workers-runner")
    ∷ key (ascii "ping")
    ∷ rpc
    ∷ essential (ascii "aura")
    ∷ essential (ascii "grandpa-voter")
    ∷ networking
    ∷ []

start_labels : labels libs start.1 ≡ all_labels
unfolding new_full prepared new_partial open_telemetry spawn_telemetry partial_from full_from
    start_offchain_workers start_authoring start_voting emit ◌>>=◌
start_labels = refl

new_full-Startup_example : Startup features config start.0 (labels libs start.1)
new_full-Startup_example = new_full-Startup libs features config

new_full_starts_example : (start.0 ≡ ok tt) × (labels libs start.1 ≡ all_labels)
new_full_starts_example = new_full_starts libs works features config

new_full-Allowed_example : All (Allowed libs config) start.1
new_full-Allowed_example = new_full-Allowed libs config features
