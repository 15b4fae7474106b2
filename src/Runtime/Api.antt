-- ===== src/Runtime/Api.antt =====
-- `impl_runtime_apis!` of runtime/src/lib.rs: what the node and the RPC ask the runtime.
pub mod Contracts
use cyborg_chain.Prelude.{u64_mod, Bytes, ℕ, ◌*◌, ◌<◌, ◌≡◌, Option, none, List, arith}
use cyborg_chain.Runtime.Constants.{RuntimeVersion, version, slot_duration, minimum_period}
use cyborg_chain.Runtime.Weights.{Weight}
use cyborg_chain.Frame.{AccountId}

-- The pallets and libraries behind the APIs, with their types. A function that reads or changes
-- the chain takes its state and returns the state after it.
pub record ApiLibs : Type 1 where
  pub State : Type 0
  pub Block : Type 0
  pub Header : Type 0
  pub Extrinsic : Type 0
  pub InherentData : Type 0
  pub CheckInherentsResult : Type 0
  pub ApplyExtrinsicResult : Type 0
  pub TransactionSource : Type 0
  pub TransactionValidity : Type 0
  pub Hash : Type 0
  pub AuraId : Type 0
  pub AuthorityList : Type 0
  pub EquivocationProof : Type 0
  pub OpaqueKeyOwnershipProof : Type 0
  pub RuntimeCall : Type 0
  pub RuntimeDispatchInfo : Type 0
  pub FeeDetails : Type 0
  pub Code : Type 0
  pub Determinism : Type 0
  pub DebugInfo : Type 0
  pub CollectEvents : Type 0
  pub ContractExecResult : Type 0
  pub ContractInstantiateResult : Type 0
  pub CodeUploadResult : Type 0
  pub GetStorageResult : Type 0
  -- `Executive`, of `frame_executive`; `none` is a panic on a bad block
  pub execute_block : Block → State → Option State
  pub initialize_block : Header → State → State
  pub apply_extrinsic : Extrinsic → State → ApplyExtrinsicResult × State
  pub finalize_block : State → Header × State
  pub validate_transaction : TransactionSource → Extrinsic → Hash → State → TransactionValidity
  pub offchain_worker : Header → State → State
  -- `InherentData`
  pub create_extrinsics : InherentData → State → List Extrinsic
  pub check_extrinsics : InherentData → Block → State → CheckInherentsResult
  -- what `construct_runtime!` generates, and `impl_opaque_keys!`
  pub metadata : Bytes
  pub metadata_at_version : ℕ → Option Bytes
  pub metadata_versions : List ℕ
  pub generate_session_keys : Option Bytes → State → Bytes × State
  pub decode_session_keys : Bytes → Option (List (Bytes × ℕ))
  -- `pallet_aura`: a slot is twice the minimum period of `pallet_timestamp`
  pub aura_slot_duration : (minimum_period : ℕ) → ℕ
  pub aura_slot_duration_lem : (p : ℕ) → p * 2 < u64_mod → aura_slot_duration p ≡ p * 2
  pub aura_authorities : State → List AuraId
  -- `pallet_grandpa`
  pub grandpa_authorities : State → AuthorityList
  pub current_set_id : State → ℕ
  -- `frame_system`
  pub account_nonce : AccountId → State → ℕ
  -- `pallet_transaction_payment`
  pub query_info : Extrinsic → ℕ → State → RuntimeDispatchInfo
  pub query_fee_details : Extrinsic → ℕ → State → FeeDetails
  pub query_call_info : RuntimeCall → ℕ → State → RuntimeDispatchInfo
  pub query_call_fee_details : RuntimeCall → ℕ → State → FeeDetails
  pub weight_to_fee : Weight → State → ℕ
  pub length_to_fee : ℕ → State → ℕ
  -- `pallet_contracts`
  pub unsafe_debug : DebugInfo
  pub unsafe_collect : CollectEvents
  pub enforced : Determinism
  pub bare_call :
      AccountId
      → AccountId
      → ℕ
      → Weight
      → Option ℕ
      → Bytes
      → DebugInfo
      → CollectEvents
      → Determinism
      → State
      → ContractExecResult × State
  pub bare_instantiate :
      AccountId
      → ℕ
      → Weight
      → Option ℕ
      → Code
      → Bytes
      → Bytes
      → DebugInfo
      → CollectEvents
      → State
      → ContractInstantiateResult × State
  pub bare_upload_code :
      AccountId → Bytes → Option ℕ → Determinism → State → CodeUploadResult × State
  pub get_storage : AccountId → Bytes → State → GetStorageResult

module _ (libs : ApiLibs) where
  open libs use {
    State, Block, Header, Extrinsic, InherentData, CheckInherentsResult, ApplyExtrinsicResult,
    TransactionSource, TransactionValidity, Hash, AuraId, AuthorityList, EquivocationProof,
    OpaqueKeyOwnershipProof, RuntimeCall, RuntimeDispatchInfo, FeeDetails, Code, Determinism,
    ContractExecResult, ContractInstantiateResult, CodeUploadResult, GetStorageResult,
  }

  -- `sp_api::Core`, `Metadata`, `BlockBuilder`, `TaggedTransactionQueue` and `OffchainWorkerApi`
  pub record BlockApi : Type 0 where
    pub version : RuntimeVersion
    pub execute_block : Block → State → Option State
    pub initialize_block : Header → State → State
    pub metadata : Bytes
    pub metadata_at_version : ℕ → Option Bytes
    pub metadata_versions : List ℕ
    pub apply_extrinsic : Extrinsic → State → ApplyExtrinsicResult × State
    pub finalize_block : State → Header × State
    pub inherent_extrinsics : InherentData → State → List Extrinsic
    pub check_inherents : Block → InherentData → State → CheckInherentsResult
    pub validate_transaction : TransactionSource → Extrinsic → Hash → State → TransactionValidity
    pub offchain_worker : Header → State → State

  unfoldable pub block_api : BlockApi
  block_api = record {
    version = version;
    execute_block = libs.execute_block;
    initialize_block = libs.initialize_block;
    metadata = libs.metadata;
    metadata_at_version = libs.metadata_at_version;
    metadata_versions = libs.metadata_versions;
    apply_extrinsic = libs.apply_extrinsic;
    finalize_block = libs.finalize_block;
    inherent_extrinsics = libs.create_extrinsics;
    check_inherents = λ block inherents. libs.check_extrinsics inherents block;
    validate_transaction = libs.validate_transaction;
    offchain_worker = libs.offchain_worker;
  }

  -- `AuraApi`, `SessionKeys` and `GrandpaApi`. A slot duration is in milliseconds.
  pub record ConsensusApi : Type 0 where
    pub slot_duration : ℕ
    pub authorities : State → List AuraId
    pub generate_session_keys : Option Bytes → State → Bytes × State
    pub decode_session_keys : Bytes → Option (List (Bytes × ℕ))
    pub grandpa_authorities : State → AuthorityList
    pub current_set_id : State → ℕ
    pub submit_report_equivocation_unsigned_extrinsic :
        EquivocationProof → OpaqueKeyOwnershipProof → Option (Unit {0})
    pub generate_key_ownership_proof : (set_id authority_id : ℕ) → Option OpaqueKeyOwnershipProof

  unfoldable pub consensus_api : ConsensusApi
  consensus_api = record {
    slot_duration = libs.aura_slot_duration minimum_period;
    authorities = libs.aura_authorities;
    generate_session_keys = libs.generate_session_keys;
    decode_session_keys = libs.decode_session_keys;
    grandpa_authorities = libs.grandpa_authorities;
    current_set_id = libs.current_set_id;
    submit_report_equivocation_unsigned_extrinsic = λ proof owner. none;
    generate_key_ownership_proof = λ set_id authority_id. none;
  }

  -- The minimum period is half a slot without a remainder: the slot duration that the runtime
  -- answers is the configured one.
  pub slot_duration_kept : consensus_api.slot_duration ≡ slot_duration
  unfolding consensus_api
  slot_duration_kept = libs.aura_slot_duration_lem minimum_period (omega arith)

  -- `AccountNonceApi`, `TransactionPaymentApi` and `TransactionPaymentCallApi`; the last two both
  -- have `query_weight_to_fee` and `query_length_to_fee`.
  pub record PaymentApi : Type 0 where
    pub account_nonce : AccountId → State → ℕ
    pub query_info : Extrinsic → ℕ → State → RuntimeDispatchInfo
    pub query_fee_details : Extrinsic → ℕ → State → FeeDetails
    pub query_call_info : RuntimeCall → ℕ → State → RuntimeDispatchInfo
    pub query_call_fee_details : RuntimeCall → ℕ → State → FeeDetails
    pub query_weight_to_fee : Weight → State → ℕ
    pub query_length_to_fee : ℕ → State → ℕ

  unfoldable pub payment_api : PaymentApi
  payment_api = record {
    account_nonce = libs.account_nonce;
    query_info = libs.query_info;
    query_fee_details = libs.query_fee_details;
    query_call_info = libs.query_call_info;
    query_call_fee_details = libs.query_call_fee_details;
    query_weight_to_fee = libs.weight_to_fee;
    query_length_to_fee = libs.length_to_fee;
  }
