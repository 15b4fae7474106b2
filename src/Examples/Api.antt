-- ===== src/Examples/Api.antt =====
-- The weights and the APIs of runtime/src/lib.rs with a ratio of whole parts, and with a contract
-- that reports the gas that it is given.
use cyborg_chain.Prelude.{ℕ, ◌+◌, ◌*◌, ◌/◌, ◌≤◌, ◌≡◌, refl, none, some, [], arith}
use cyborg_chain.Runtime.Weights.{
  Weight, WeightsPerClass, highest, WeightLibs, runtime_block_weights,
}
use cyborg_chain.Runtime.Api.{ApiLibs}
use cyborg_chain.Runtime.Api.Contracts.{or_max_block, contracts_api}

abbrev some_weight : Weight
some_weight = record { ref_time = 100; proof_size = 0 }

abbrev no_limits : WeightsPerClass
no_limits = record { base_extrinsic = some_weight; max_total = none; reserved = none }

part_le : (p n : ℕ) → p ≤ 1_000_000_000 → p * n / 1_000_000_000 ≤ n
part_le p n h = let q : p * n ≤ 1_000_000_000 * n = grind arith in omega (arith, q)

abbrev weights : WeightLibs
weights = record {
  weight_ref_time_per_second = 1_000_000_000_000;
  block_execution_weight = some_weight;
  extrinsic_base_weight = some_weight;
  times = λ p n. p * n / 1_000_000_000;
  times_le = λ p n h. part_le p n h;
  builder = record {
    base_block = some_weight;
    normal = no_limits;
    operational = no_limits;
    mandatory = no_limits;
    init_cost = none;
  };
  builder-mandatory = refl;
  max_block = λ b. highest b.mandatory.max_total (
      highest b.operational.max_total
        (highest b.normal.max_total (record { ref_time = 0; proof_size = 0 })));
  max_block_lem = λ b. refl;
}

-- The state counts the blocks; a contract answers the gas limit.
abbrev pub libs : ApiLibs
libs = record {
  State = ℕ;
  Block = Unit;
  Header = ℕ;
  Extrinsic = Unit;
  InherentData = Unit;
  CheckInherentsResult = Unit;
  ApplyExtrinsicResult = Unit;
  TransactionSource = Unit;
  TransactionValidity = Unit;
  Hash = ℕ;
  AuraId = ℕ;
  AuthorityList = Unit;
  EquivocationProof = Unit;
  OpaqueKeyOwnershipProof = Unit;
  RuntimeCall = Unit;
  RuntimeDispatchInfo = Unit;
  FeeDetails = Unit;
  Code = Unit;
  Determinism = Unit;
  DebugInfo = Unit;
  CollectEvents = Unit;
  ContractExecResult = Weight;
  ContractInstantiateResult = Weight;
  CodeUploadResult = Unit;
  GetStorageResult = Unit;
  execute_block = λ block n. some (n + 1);
  initialize_block = λ header n. header;
  apply_extrinsic = λ extrinsic n. (tt, n);
  finalize_block = λ n. (n, n);
  validate_transaction = λ source extrinsic hash n. tt;
  offchain_worker = λ header n. n;
  metadata = [];
  metadata_at_version = λ v. none;
  metadata_versions = [];
  generate_session_keys = λ seed n. ([], n);
  decode_session_keys = λ encoded. none;
  create_extrinsics = λ inherents n. [];
  check_extrinsics = λ inherents block n. tt;
  aura_slot_duration = λ p. p * 2;
  aura_slot_duration_lem = λ p h. refl;
  aura_authorities = λ n. [];
  grandpa_authorities = λ n. tt;
  current_set_id = λ n. 0;
  account_nonce = λ account n. 0;
  query_info = λ extrinsic len n. tt;
  query_fee_details = λ extrinsic len n. tt;
  query_call_info = λ call len n. tt;
  query_call_fee_details = λ call len n. tt;
  weight_to_fee = λ weight n. weight.ref_time;
  length_to_fee = λ len n. len;
  unsafe_debug = tt;
  unsafe_collect = tt;
  enforced = tt;
  bare_call = λ origin dest value gas deposit input debug collect determinism n. (gas, n);
  bare_instantiate = λ origin value gas deposit code input salt debug collect n. (gas, n);
  bare_upload_code = λ origin code deposit determinism n. (tt, n);
  get_storage = λ address key n. tt;
}

-- A dry run without a gas limit gets two seconds.
dry_run_test :
    (contracts_api libs weights).call 1 2 0 none none [] 5
    ≡ (record { ref_time = 2_000_000_000_000; proof_size = 18_446_744_073_709_551_615 }, 5)
unfolding contracts_api or_max_block runtime_block_weights
dry_run_test = refl

-- The normal class gets three quarters of a block, the operational class the rest as its reserve.
reserve_test :
    (runtime_block_weights weights).operational.reserved
    ≡ some (record { ref_time = 500_000_000_000; proof_size = 4_611_686_018_427_387_904 })
unfolding runtime_block_weights
reserve_test = refl
