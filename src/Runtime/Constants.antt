-- ===== src/Runtime/Constants.antt =====
-- The constants of runtime/src/lib.rs: its version, time, deposits, and the parameters of the pallets.
use cyborg_chain.EdgeConnect.{Config}
use cyborg_chain.Prelude.{Bytes, ascii, u32_mod, ℕ, ◌+◌, ◌*◌, ◌/◌, ◌%◌, ◌^◌, ◌<◌, ◌≡◌, arith}

-- `sp_version::RuntimeVersion`, but for the list of its APIs.
pub record RuntimeVersion : Type 0 where
  pub spec_name : Bytes
  pub impl_name : Bytes
  pub authoring_version : ℕ
  pub spec_version : ℕ
  pub impl_version : ℕ
  pub transaction_version : ℕ
  pub state_version : ℕ

abbrev pub version : RuntimeVersion
version = record {
  spec_name = ascii "cyborg-node";
  impl_name = ascii "cyborg-node";
  authoring_version = 1;
  spec_version = 100;
  impl_version = 1;
  transaction_version = 1;
  state_version = 1;
}

abbrev pub millisecs_per_block : ℕ
millisecs_per_block = 6000

abbrev pub slot_duration : ℕ
slot_duration = millisecs_per_block

abbrev pub minutes : ℕ
minutes = 60000 / millisecs_per_block

abbrev pub hours : ℕ
hours = minutes * 60

abbrev pub days : ℕ
days = hours * 24

-- `pallet_timestamp::Config::MinimumPeriod`
abbrev pub minimum_period : ℕ
minimum_period = slot_duration / 2

abbrev pub unit : ℕ
unit = 1_000_000_000_000

abbrev pub milliunit : ℕ
milliunit = 1_000_000_000

abbrev pub existential_deposit : ℕ
existential_deposit = milliunit

-- `MaxAuthorities` of `pallet_aura` and of `pallet_grandpa`.
abbrev pub aura_max_authorities : ℕ
aura_max_authorities = 32

abbrev pub grandpa_max_authorities : ℕ
grandpa_max_authorities = 32

-- A `Balance` is a u128, and the sums and products are the wrapping ones of a release build.
abbrev pub u128_mod : ℕ
u128_mod = 2 ^ 128

unfoldable pub deposit : ℕ → ℕ → ℕ
deposit items bytes =
    ((items * unit % u128_mod + bytes * (5 * milliunit / 100) % u128_mod) % u128_mod) / 10

abbrev pub deposit_per_byte : ℕ
unfolding deposit
deposit_per_byte = deposit 0 1

abbrev pub deposit_per_item : ℕ
unfolding deposit
deposit_per_item = deposit 1 0

abbrev pub default_deposit_limit : ℕ
unfolding deposit
default_deposit_limit = deposit 1024 (1024 * 1024)

abbrev pub block_hash_count : ℕ
block_hash_count = 2400

-- `parameter_types!` for the pallet edge-connect.
abbrev pub edge_config : Config
edge_config = record {
  grace_period = 3;
  unsigned_interval = 3;
  max_command = 10;
  max_responses = 1000;
  max_string_length = 1000;
}

-- For arguments that are u32 nothing wraps and the division is exact: an item costs a tenth of a
-- unit, a byte five millionths of one.
deposit_exact :
    (items bytes : ℕ)
    → items < u32_mod
    → bytes < u32_mod
    → deposit items bytes ≡ items * 100_000_000_000 + bytes * 5_000_000
unfolding deposit
deposit_exact items bytes hi hb = omega arith

-- Deposits add up: paying for two stores at once costs what paying for each does.
deposit_additive :
    (i j b c : ℕ)
    → i + j < u32_mod
    → b + c < u32_mod
    → deposit (i + j) (b + c) ≡ deposit i b + deposit j c
deposit_additive i j b c hi hb = omega (
  arith,
  deposit_exact (i + j) (b + c) hi hb,
  deposit_exact i b (omega arith) (omega arith),
  deposit_exact j c (omega arith) (omega arith),
)
