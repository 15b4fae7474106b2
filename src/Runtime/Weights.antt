-- ===== src/Runtime/Weights.antt =====
-- The weights of runtime/src/lib.rs: the ratios, the maximal block, and what the builder of the
-- block weights is given.
use cyborg_chain.Prelude.{
  u64_mod, ℕ, ◌+◌, ◌-◌, ◌*◌, ◌%◌, ◌≤◌, min, max, ◌≡◌, refl, Option, none, some, arith,
}

-- `Weight`: the time in picoseconds and the size of the proof in bytes, each a u64.
pub record Weight : Type 0 where
  pub ref_time : ℕ
  pub proof_size : ℕ

abbrev pub max_weight : Weight → Weight → Weight
max_weight v w = record {
  ref_time = max v.ref_time w.ref_time;
  proof_size = max v.proof_size w.proof_size;
}

-- `Weight - Weight`, a subtraction of u64 in each component, which wraps in a release build.
abbrev sub_weight : Weight → Weight → Weight
sub_weight v w = record {
  ref_time = (v.ref_time + (u64_mod - w.ref_time)) % u64_mod;
  proof_size = (v.proof_size + (u64_mod - w.proof_size)) % u64_mod;
}

-- `Perbill`, in parts of a thousand million.
abbrev pub Perbill : Type 0
Perbill = ℕ

-- `Perbill::from_percent`, which stops at 100.
abbrev from_percent : ℕ → Perbill
from_percent x = min x 100 * 10_000_000

abbrev pub normal_dispatch_ratio : Perbill
normal_dispatch_ratio = from_percent 75

abbrev pub average_on_initialize_ratio : Perbill
average_on_initialize_ratio = from_percent 10

pub record WeightsPerClass : Type 0 where
  pub base_extrinsic : Weight
  pub max_total : Option Weight
  pub reserved : Option Weight

-- `BlockWeights::builder()`, with the settings of the three classes.
pub record BlockWeightsBuilder : Type 0 where
  pub base_block : Weight
  pub normal : WeightsPerClass
  pub operational : WeightsPerClass
  pub mandatory : WeightsPerClass
  pub init_cost : Option Perbill

abbrev pub highest : Option Weight → Weight → Weight
highest none w = w
highest (some v) w = max_weight v w

-- What the runtime takes from `frame_support` and `frame_system`.
pub record WeightLibs : Type 0 where
  -- `WEIGHT_REF_TIME_PER_SECOND`, a u64
  pub weight_ref_time_per_second : ℕ
  pub block_execution_weight : Weight
  pub extrinsic_base_weight : Weight
  -- `Perbill * u64`: a part of the number
  pub times : Perbill → ℕ → ℕ
  pub times_le : (p : Perbill) (n : ℕ) → p ≤ 1_000_000_000 → times p n ≤ n
  -- `BlockWeights::builder()`: no limit for the mandatory class
  pub builder : BlockWeightsBuilder
  pub builder-mandatory : builder.mandatory.max_total ≡ none
  -- `build_or_panic().max_block`: the highest total of the classes
  pub max_block : BlockWeightsBuilder → Weight
  pub max_block_lem :
      (b : BlockWeightsBuilder)
      → max_block b
        ≡ highest b.mandatory.max_total (
            highest b.operational.max_total
              (highest b.normal.max_total (record { ref_time = 0; proof_size = 0 })))

module _ (libs : WeightLibs) where
  -- `u64::saturating_mul` stops at the greatest u64.
  abbrev pub maximum_block_weight : Weight
  maximum_block_weight = record {
    ref_time = min (libs.weight_ref_time_per_second * 2) (u64_mod - 1);
    proof_size = u64_mod - 1;
  }

  -- `NORMAL_DISPATCH_RATIO * MAXIMUM_BLOCK_WEIGHT`
  abbrev pub normal_weight : Weight
  normal_weight = record {
    ref_time = libs.times normal_dispatch_ratio maximum_block_weight.ref_time;
    proof_size = libs.times normal_dispatch_ratio maximum_block_weight.proof_size;
  }

  abbrev with_base : WeightsPerClass → WeightsPerClass
  with_base weights = record weights { base_extrinsic = libs.extrinsic_base_weight }

  unfoldable pub runtime_block_weights : BlockWeightsBuilder
  runtime_block_weights = record libs.builder {
    base_block = libs.block_execution_weight;
    normal = record (with_base libs.builder.normal) { max_total = some normal_weight };
    operational = record (with_base libs.builder.operational) {
      max_total = some maximum_block_weight;
      reserved = some (sub_weight maximum_block_weight normal_weight);
    };
    mandatory = with_base libs.builder.mandatory;
    init_cost = some average_on_initialize_ratio;
  }

  -- A weight within another one.
  abbrev pub IsWithin : Weight → Weight → Type 0
  IsWithin v w = (v.ref_time ≤ w.ref_time) × (v.proof_size ≤ w.proof_size)

  normal-IsWithin : IsWithin normal_weight maximum_block_weight
  normal-IsWithin = (
    libs.times_le normal_dispatch_ratio maximum_block_weight.ref_time (omega arith),
    libs.times_le normal_dispatch_ratio maximum_block_weight.proof_size (omega arith),
  )

  weight_ext :
      (a b c d : ℕ)
      → a ≡ c
      → b ≡ d
      → ◌≡◌ {A = Weight}
          (record { ref_time = a; proof_size = b })
          (record { ref_time = c; proof_size = d })
  weight_ext a b c d p q = cc

  pub full_block : libs.max_block runtime_block_weights ≡ maximum_block_weight
  unfolding runtime_block_weights
  full_block =
      let (time, size) = normal-IsWithin in
      rw (libs.max_block_lem, libs.builder-mandatory)
        (weight_ext _ _ _ _ (omega (arith, time)) (omega (arith, size)))

  -- The reserve of the operational class is exactly what the normal class leaves of a block: the
  -- subtraction does not wrap, and the two add up to the maximal weight, which is the total of the
  -- operational class and the limit of a whole block.
  reserve_completes_block :
      (n m r : Weight) × (runtime_block_weights.normal.max_total ≡ some n)
      × (runtime_block_weights.operational.max_total ≡ some m)
      × (runtime_block_weights.operational.reserved ≡ some r)
      × (n.ref_time + r.ref_time ≡ m.ref_time)
      × (n.proof_size + r.proof_size ≡ m.proof_size)
      × (libs.max_block runtime_block_weights ≡ m)
  unfolding runtime_block_weights
  reserve_completes_block =
      let (time, size) = normal-IsWithin in
      (
        normal_weight,
        maximum_block_weight,
        sub_weight maximum_block_weight normal_weight,
        refl,
        refl,
        refl,
        omega (arith, time),
        omega (arith, size),
        full_block,
      )
