-- ===== src/Runtime/Api/Contracts.antt =====
-- `ContractsApi` of runtime/src/lib.rs: the dry runs of contracts.
use cyborg_chain.Prelude.{Bytes, ℕ, ◌≡◌, refl, Option, none, some}
use cyborg_chain.Runtime.Api.{ApiLibs}
use cyborg_chain.Runtime.Weights.{
  Weight, WeightLibs, maximum_block_weight, runtime_block_weights, full_block,
}
use cyborg_chain.Frame.{AccountId}

module _ (libs : ApiLibs) where
  open libs use {
    State, Code, Determinism, ContractExecResult, ContractInstantiateResult, CodeUploadResult,
    GetStorageResult,
  }

  pub record ContractsApi : Type 0 where
    pub call :
        (origin dest : AccountId) (value : ℕ) (gas_limit : Option Weight)
        (storage_deposit_limit : Option ℕ) (input_data : Bytes)
        → State
        → ContractExecResult × State
    pub instantiate :
        (origin : AccountId) (value : ℕ) (gas_limit : Option Weight)
        (storage_deposit_limit : Option ℕ) (code : Code) (input salt : Bytes)
        → State
        → ContractInstantiateResult × State
    pub upload_code :
        (origin : AccountId) (code : Bytes) (storage_deposit_limit : Option ℕ)
        (determinism : Determinism)
        → State
        → CodeUploadResult × State
    pub get_storage : (address : AccountId) (key : Bytes) → State → GetStorageResult

  module _ (weights : WeightLibs) where
    -- `gas_limit.unwrap_or(RuntimeBlockWeights::get().max_block)`
    unfoldable pub or_max_block : Option Weight → Weight
    or_max_block none = weights.max_block (runtime_block_weights weights)
    or_max_block (some gas) = gas

    unfoldable pub contracts_api : ContractsApi
    unfolding or_max_block
    contracts_api = record {
      call = λ origin dest value gas_limit storage_deposit_limit input_data.
          libs.bare_call origin dest value (or_max_block gas_limit) storage_deposit_limit input_data
            libs.unsafe_debug libs.unsafe_collect libs.enforced;
      instantiate = λ origin value gas_limit storage_deposit_limit code input salt.
          libs.bare_instantiate origin value (or_max_block gas_limit) storage_deposit_limit code
            input salt libs.unsafe_debug libs.unsafe_collect;
      upload_code = libs.bare_upload_code;
      get_storage = libs.get_storage;
    }

    -- A dry run of a call or of an instantiation without a gas limit is the one with the maximal
    -- weight of a block, so with all that the operational class of transactions may fill and not
    -- only with what the normal class may.
    dry_run_gas :
        (origin dest : AccountId) (value : ℕ) (deposit : Option ℕ) (code : Code)
        (input salt : Bytes) (s : State)
        → (contracts_api.call origin dest value none deposit input s
            ≡ contracts_api.call origin dest value
                (some (maximum_block_weight weights))
                deposit
                input
                s)
          × (contracts_api.instantiate origin value none deposit code input salt s
              ≡ contracts_api.instantiate origin value
                  (some (maximum_block_weight weights))
                  deposit
                  code
                  input
                  salt
                  s)
    unfolding contracts_api or_max_block
    dry_run_gas origin dest value deposit code input salt s = rw (full_block weights) (refl, refl)
