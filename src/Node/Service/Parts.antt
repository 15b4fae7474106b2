-- ===== src/Node/Service/Parts.antt =====
-- What node/src/service.rs takes from the libraries of Substrate: the settings of a node, the parts
-- that it is built from, and the functions that build them.
use cyborg_chain.Prelude.{Bytes, Result, ℕ, Bool, true, false, Option, List}

-- `sc_service::Role`
pub data Role : Type 0 where
  full authority : Role

abbrev pub is_authority : Role → Bool
is_authority authority = true
is_authority full = false

-- The settings that the node itself looks at; the libraries are handed the whole of them.
pub record Configuration : Type 0 where
  pub telemetry_endpoints : Option (List Bytes)
  pub role : Role
  pub offchain_worker_enabled : Bool
  pub force_authoring : Bool
  pub disable_grandpa : Bool
  pub node_name : Bytes

-- `sc_offchain::OffchainWorkerOptions`, over the types of a keystore and a pool.
pub record OffchainWorkerOptions (Client Backend Keystore Pool Network : Type 0) : Type 0 where
  pub runtime_api_provider : Client
  pub is_validator : Bool
  pub keystore : Option Keystore
  pub offchain_db : Backend
  pub transaction_pool : Option Pool
  pub network_provider : Network
  pub enable_http_requests : Bool

-- `StartAuraParams`; the proposal's portion of a slot is `portion_num / portion_den`.
pub record StartAuraParams (Client SelectChain BlockImport Pool Keystore Sync Telemetry : Type 0)
    : Type 0 where
  pub slot_duration : ℕ
  pub client : Client
  pub select_chain : SelectChain
  pub block_import : BlockImport
  pub proposer_pool : Pool
  pub force_authoring : Bool
  pub keystore : Keystore
  pub sync_oracle : Sync
  pub justification_sync_link : Sync
  pub portion_num : ℕ
  pub portion_den : ℕ
  pub telemetry : Option Telemetry

-- `GrandpaParams`, with the fields of its `Config`.
pub record GrandpaParams (Link Network Sync Pool Keystore ProtocolName Telemetry : Type 0)
    : Type 0 where
  pub gossip_duration_millis : ℕ
  pub justification_period : ℕ
  pub name : Option Bytes
  pub observer_enabled : Bool
  pub keystore : Option Keystore
  pub local_role : Role
  pub protocol_name : ProtocolName
  pub link : Link
  pub network : Network
  pub sync : Sync
  pub offchain_tx_pool : Pool
  pub telemetry : Option Telemetry

pub record Libraries : Type 1 where
  pub Error : Type 0
  pub Executor : Type 0
  pub Client : Type 0
  pub Backend : Type 0
  pub Keystore : Type 0
  pub SelectChain : Type 0
  pub Pool : Type 0
  pub BlockImport : Type 0
  pub Link : Type 0
  pub ImportQueue : Type 0
  pub TelemetryWorker : Type 0
  pub Telemetry : Type 0
  pub Hash : Type 0
  pub ProtocolName : Type 0
  pub WarpSync : Type 0
  pub Network : Type 0
  pub RpcChannel : Type 0
  pub TxController : Type 0
  pub Starter : Type 0
  pub Sync : Type 0
  pub Aura : Type 0
  pub Voter : Type 0
  -- `TelemetryWorker::new(size)`, and `handle().new_telemetry(endpoints)`
  pub new_worker : ℕ → Result Error TelemetryWorker
  pub new_telemetry : TelemetryWorker → List Bytes → Telemetry
  pub new_native_or_wasm_executor : Configuration → Executor
  pub new_full_parts :
      Configuration → Option Telemetry → Executor → Result Error (Client × Backend × Keystore)
  pub longest_chain : Backend → SelectChain
  -- `BasicPool::new_full(config, is_authority, client)`
  pub new_pool : Configuration → Bool → Client → Pool
  -- `sc_consensus_grandpa::block_import`
  pub grandpa_block_import :
      Client → SelectChain → Option Telemetry → Result Error (BlockImport × Link)
  pub aura_slot_duration : Client → Result Error ℕ
  -- `sc_consensus_aura::import_queue`: the block import, the justification import, the client, the
  -- slot duration of its inherents
  pub aura_import_queue :
      BlockImport → Option BlockImport → Client → ℕ → Option Telemetry → Result Error ImportQueue
  -- `client.block_hash(0).ok().flatten()`
  pub genesis_hash : Client → Option Hash
  pub protocol_standard_name : Hash → Configuration → ProtocolName
  pub warp_sync_provider : Backend → Link → WarpSync
  pub build_network :
      Configuration
      → ProtocolName
      → Client
      → Pool
      → ImportQueue
      → WarpSync
      → Result Error (Network × RpcChannel × TxController × Starter × Sync)
  -- `sr25519_generate_new(key_type, seed)`: whether it succeeds
  pub sr25519_generate_new : Keystore → Bytes → Bytes → Bool
  -- `sc_service::spawn_tasks`, with the client and the pool that the RPC extensions are built from
  pub spawn_tasks :
      Configuration
      → Network
      → Client
      → Keystore
      → Pool
      → Backend
      → RpcChannel
      → TxController
      → Sync
      → Option Telemetry
      → Result Error (Unit {0})
  pub start_aura :
      StartAuraParams Client SelectChain BlockImport Pool Keystore Sync Telemetry
      → Result Error Aura
  pub run_grandpa_voter :
      GrandpaParams Link Network Sync Pool Keystore ProtocolName Telemetry → Result Error Voter
