-- ===== src/Node/Service/Build.antt =====
-- `new_partial` and `new_full` of node/src/service.rs. Their effects are the tasks that they give to
-- the task manager and what they start, in order; a failing call of a library ends them.
use cyborg_chain.WorkerRegistration
use cyborg_chain.Prelude.{
  if◌then◌else◌, Bytes, ascii, Result, panic, Action, pure, or_panic, modify, Bool, true, false,
  not, Option, none, some, List, [], ◌∷◌, ◌++◌,
}
use cyborg_chain.Node.Action.{◌>>=◌, ◌>>◌}
use cyborg_chain.Node.Service.Parts.{Configuration, is_authority, OffchainWorkerOptions, Libraries}

-- The cargo features that the node reads.
pub record Features : Type 0 where
  pub ocw : Bool
  pub runtime_benchmarks : Bool
  pub try_runtime : Bool

module _ (libs : Libraries) where
  open libs use {
    Error, Client, Backend, Keystore, SelectChain, Pool, BlockImport, Link, ImportQueue,
    TelemetryWorker, Telemetry, Network, RpcChannel, TxController, Starter, Sync, Aura, Voter,
    ProtocolName,
  }

  pub data Task : Type 0 where
    telemetry_worker : TelemetryWorker → Task
    offchain_workers : OffchainWorkerOptions Client Backend Keystore Pool Network → Task
    authoring : Aura → Task
    voting : Voter → Task

  -- What a start does beside building values.
  pub data Effect : Type 0 where
    -- `spawn_handle().spawn(name, group, task)`
    spawn : (name : Bytes) (group : Option Bytes) → Task → Effect
    -- `spawn_essential_handle().spawn_blocking(name, group, task)`
    spawn_essential_blocking : (name : Bytes) (group : Option Bytes) → Task → Effect
    generate_key : (key_type seed : Bytes) → Effect
    -- `sc_service::spawn_tasks`, which also serves the RPC
    serve : Effect
    start_network : Starter → Effect

  abbrev pub ServiceAction : Type 0 → Type 0
  ServiceAction = Action (List Effect) Error

  abbrev pub try : {A : Type 0} → Result Error A → ServiceAction A
  try r s = (r, s)

  unfoldable pub emit : Effect → ServiceAction (Unit {0})
  emit e = modify (λ s. s ++ e ∷ [])

  -- `sc_service::PartialComponents`, but for the task manager.
  pub record PartialComponents : Type 0 where
    pub client : Client
    pub backend : Backend
    pub import_queue : ImportQueue
    pub keystore : Keystore
    pub select_chain : SelectChain
    pub transaction_pool : Pool
    pub block_import : BlockImport
    pub grandpa_link : Link
    pub telemetry : Option Telemetry

  -- `filter(|x| !x.is_empty()).map(…).transpose()?`
  unfoldable pub open_telemetry :
      Option (List Bytes) → ServiceAction (Option (TelemetryWorker × Telemetry))
  open_telemetry none = pure none
  open_telemetry (some []) = pure none
  open_telemetry (some (e ∷ es)) = do
    worker ← try (libs.new_worker 16)
    pure (some (worker, libs.new_telemetry worker (e ∷ es)))

  -- `telemetry.map(|(worker, telemetry)| { spawn(worker.run()); telemetry })`
  unfoldable pub spawn_telemetry :
      Option (TelemetryWorker × Telemetry) → ServiceAction (Option Telemetry)
  spawn_telemetry none = pure none
  spawn_telemetry (some (worker, telemetry)) = do
    emit (spawn (ascii "telemetry") none (telemetry_worker worker))
    pure (some telemetry)

  abbrev handle : Option (TelemetryWorker × Telemetry) → Option Telemetry
  handle none = none
  handle (some (worker, telemetry)) = some telemetry

  -- `new_partial`, once the telemetry is open.
  unfoldable pub partial_from :
      Configuration → Option (TelemetryWorker × Telemetry) → ServiceAction PartialComponents
  unfolding spawn_telemetry
  partial_from config opened = do
    let executor = libs.new_native_or_wasm_executor config
    parts ← try (libs.new_full_parts config (handle opened) executor)
    let client = parts.0
    let backend = parts.1
    let keystore = parts.2
    telemetry ← spawn_telemetry opened
    let select_chain = libs.longest_chain backend
    let transaction_pool = libs.new_pool config (is_authority config.role) client
    import ← try (libs.grandpa_block_import client select_chain telemetry)
    let block_import = import.0
    slot_duration ← try (libs.aura_slot_duration client)
    import_queue ←
        try (libs.aura_import_queue block_import (some block_import) client slot_duration telemetry)
    pure (record {
      client = client;
      backend = backend;
      import_queue = import_queue;
      keystore = keystore;
      select_chain = select_chain;
      transaction_pool = transaction_pool;
      block_import = block_import;
      grandpa_link = import.1;
      telemetry = telemetry;
    })

  unfoldable pub new_partial : Configuration → ServiceAction PartialComponents
  unfolding open_telemetry partial_from
  new_partial config = do
    opened ← open_telemetry config.telemetry_endpoints
    partial_from config opened

  -- `expect`: nothing, or a panic.
  abbrev pub expect : Bool → ServiceAction (Unit {0})
  expect true = pure tt
  expect false = λ s. (panic, s)

  -- The seed of the off-chain workers' key, in a build with the feature `ocw`.
  abbrev pub seed_key : Features → Keystore → ServiceAction (Unit {0})
  seed_key features keystore =
      if features.ocw
      then (do
        expect (libs.sr25519_generate_new keystore WorkerRegistration.key_type (ascii "//Charlie"))
        emit (generate_key WorkerRegistration.key_type (ascii "//Charlie")))
      else pure tt

  unfoldable pub start_offchain_workers :
      Features → Configuration → PartialComponents → Network → ServiceAction (Unit {0})
  start_offchain_workers features config parts network =
      if config.offchain_worker_enabled
      then (do
        emit (
            spawn (ascii "offchain-workers-runner") (some (ascii "offchain-worker")) (
              offchain_workers (record {
                runtime_api_provider = parts.client;
                is_validator = is_authority config.role;
                keystore = some parts.keystore;
                offchain_db = parts.backend;
                transaction_pool = some parts.transaction_pool;
                network_provider = network;
                enable_http_requests = true;
              })))
        seed_key features parts.keystore)
      else pure tt

  unfoldable pub start_authoring :
      Configuration → PartialComponents → Sync → ServiceAction (Unit {0})
  start_authoring config parts sync =
      if is_authority config.role
      then (do
        slot_duration ← try (libs.aura_slot_duration parts.client)
        aura ← try (
            libs.start_aura (record {
              slot_duration = slot_duration;
              client = parts.client;
              select_chain = parts.select_chain;
              block_import = parts.block_import;
              proposer_pool = parts.transaction_pool;
              force_authoring = config.force_authoring;
              keystore = parts.keystore;
              sync_oracle = sync;
              justification_sync_link = sync;
              portion_num = 2;
              portion_den = 3;
              telemetry = parts.telemetry;
            }))
        emit (
            spawn_essential_blocking (ascii "aura") (some (ascii "block-authoring"))
              (authoring aura)))
      else pure tt

  unfoldable pub start_voting :
      Configuration → PartialComponents → ProtocolName → Network → Sync → ServiceAction (Unit {0})
  start_voting config parts protocol_name network sync =
      if not config.disable_grandpa
      then (do
        let keystore = if is_authority config.role then some parts.keystore else none
        voter ← try (
            libs.run_grandpa_voter (record {
              gossip_duration_millis = 333;
              justification_period = 512;
              name = some config.node_name;
              observer_enabled = false;
              keystore = keystore;
              local_role = config.role;
              protocol_name = protocol_name;
              link = parts.grandpa_link;
              network = network;
              sync = sync;
              offchain_tx_pool = parts.transaction_pool;
              telemetry = parts.telemetry;
            }))
        emit (spawn_essential_blocking (ascii "grandpa-voter") none (voting voter)))
      else pure tt

  -- `new_full` up to its last step, once the partial components are built: what it returns starts
  -- the network.
  unfoldable pub full_from : Features → Configuration → PartialComponents → ServiceAction Starter
  unfolding start_offchain_workers start_authoring start_voting
  full_from features config parts = do
    genesis ← or_panic (libs.genesis_hash parts.client)
    let protocol_name = libs.protocol_standard_name genesis config
    let warp_sync = libs.warp_sync_provider parts.backend parts.grandpa_link
    built ← try (
        libs.build_network config protocol_name parts.client parts.transaction_pool
          parts.import_queue warp_sync)
    let network = built.0
    let sync = built.4
    start_offchain_workers features config parts network
    try (
        libs.spawn_tasks config network parts.client parts.keystore parts.transaction_pool
          parts.backend built.1 built.2 sync parts.telemetry)
    emit serve
    start_authoring config parts sync
    start_voting config parts protocol_name network sync
    pure built.3

  unfoldable pub prepared : Features → Configuration → ServiceAction Starter
  unfolding new_partial full_from
  prepared features config = do parts ← new_partial config; full_from features config parts

  unfoldable pub new_full : Features → Configuration → ServiceAction (Unit {0})
  unfolding prepared
  new_full features config = do starter ← prepared features config; emit (start_network starter)
