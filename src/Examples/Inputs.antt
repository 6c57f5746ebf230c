-- ===== src/Examples/Inputs.antt =====
-- Inputs that the witnesses share: a configuration, two runs on adjacent levels and their plans.
use swat_letindex_baseline.Prelude.{
  ℕ, ◌+◌, ◌≡◌, refl, some, true, false, ℤ, pos, List, [], ◌∷◌, ok, arith, map,
}
use swat_letindex_baseline.Values.{int, float, require_nat, require_positive_real}
use swat_letindex_baseline.Substrate.{Record}
use swat_letindex_baseline.Content.Snapshot.{LogicalBlockSnapshot}
use swat_letindex_baseline.Content.RunView.{LogicalBlockRunView, keys, records}
use swat_letindex_baseline.Content.RunView.Laws.{IsRun}
use swat_letindex_baseline.Allocator.Config.{SwatBlockAllocationConfig, make_config}
use swat_letindex_baseline.Allocator.Config.Laws.{IsValidConfig}
use swat_letindex_baseline.Allocator.Plan.{
  BlockBinPlan, BlockAllocationPlan, covered_ranks, planned_slots, dummy_total,
}
use swat_letindex_baseline.Allocator.Plan.Cover.{IsBin}
use swat_letindex_baseline.Allocator.Allocate.Outcome.{IsSoundPlan}
use swat_letindex_baseline.Distribution.Samplers.{GeometricLoadSampler}
use swat_letindex_baseline.Distribution.Samplers.Laws.{IsSampler}
use swat_letindex_baseline.Content.Snapshot.Laws.{IsSnapshot}
use swat_letindex_baseline.Content.Interior.{InteriorPoint, real}
use swat_letindex_baseline.Schedule.Bins.{Side, source, target, BoundBlockBin}
use swat_letindex_baseline.Schedule.Allocation.{BoundBlockAllocation}
use swat_letindex_baseline.Schedule.Sampling.Laws.{tag_of}
use swat_letindex_baseline.Schedule.Merge.Laws.{IsSampledSide}
use swat_letindex_baseline.Examples.Runtime.{thousandths}

abbrev pub config : SwatBlockAllocationConfig ℤ
config = record {
  security_lambda = 2;
  privacy_epsilon = pos 1000;
  privacy_delta = pos 10;
  seed = 7;
}

-- The constructor accepts it.
made : make_config (int (pos 2)) (float (pos 1000)) (float (pos 10)) (int (pos 7)) ≡ ok config
unfolding make_config require_nat require_positive_real
made = refl

pub config-IsValidConfig : IsValidConfig thousandths config
config-IsValidConfig = record {
  lambda_ge = omega arith;
  epsilon_finite = refl;
  epsilon_positive = refl;
  delta_positive = refl;
  delta_below_one = refl;
}

abbrev entry : ℕ → Record ℕ
entry n = record { key = record { value = pos n }; value = n }

abbrev pub block_of : ℕ → List ℕ → LogicalBlockSnapshot ℕ
block_of n keys = record {
  block_id = record { value = pos n };
  capacity = 2;
  records = map entry keys;
}

abbrev pub source_run : LogicalBlockRunView ℕ
source_run = record {
  level = 0;
  blocks = block_of 1 (3 ∷ 5 ∷ []) ∷ block_of 2 (8 ∷ []) ∷ [];
  items_per_block = 2;
}

abbrev pub target_run : LogicalBlockRunView ℕ
target_run = record {
  level = 1;
  blocks = block_of 3 (1 ∷ 4 ∷ []) ∷ block_of 4 (6 ∷ []) ∷ [];
  items_per_block = 2;
}

pub source_run-IsRun : IsRun source_run
unfolding keys records
source_run-IsRun = record {
  capacity_ge = omega arith;
  strict = (refl, (refl, tt));
  packed = (refl, (omega arith, omega arith));
}

pub target_run-IsRun : IsRun target_run
unfolding keys records
target_run-IsRun = record {
  capacity_ge = omega arith;
  strict = (refl, (refl, tt));
  packed = (refl, (omega arith, omega arith));
}

abbrev first : BlockBinPlan
first = record {
  bin_index = 0;
  logical_rank_start = 0;
  logical_rank_stop = 1;
  sampled_load = 1;
  real_count = 1;
  dummy_count = 1;
  capacity = 2;
}

abbrev second : BlockBinPlan
second = record {
  bin_index = 1;
  logical_rank_start = 1;
  logical_rank_stop = 2;
  sampled_load = 2;
  real_count = 1;
  dummy_count = 1;
  capacity = 2;
}

-- Loads 1 and 2 for two blocks: each bin takes one block.
abbrev pub plan : BlockAllocationPlan ℤ
plan = record {
  block_count = 2;
  bin_capacity_blocks = 2;
  bin_count = 2;
  factor = pos 2000;
  bins = first ∷ second ∷ [];
  sampled_loads = 1 ∷ 2 ∷ [];
  noisy_prefix_sums = 0 ∷ 1 ∷ 2 ∷ [];
  additive_error_blocks = 1;
  config = config;
}

first-IsBin : IsBin 2 0 0 first
first-IsBin = record {
  indexed = refl;
  starts = refl;
  stops = refl;
  real_le = omega arith;
  load_le = omega arith;
  padded = refl;
  same_capacity = refl;
}

second-IsBin : IsBin 2 1 1 second
second-IsBin = record {
  indexed = refl;
  starts = refl;
  stops = refl;
  real_le = omega arith;
  load_le = omega arith;
  padded = refl;
  same_capacity = refl;
}

pub plan-IsSoundPlan : IsSoundPlan 2 plan
unfolding covered_ranks planned_slots dummy_total
plan-IsSoundPlan = record {
  counted = refl;
  capacity_ge = omega arith;
  covers = refl;
  row = (first-IsBin, (second-IsBin, tt));
  greedy = (refl, (refl, tt));
  bins_counted = refl;
  loads_kept = refl;
  enough = omega arith;
  slots = refl;
  noisy = (
    refl,
    (omega arith, omega arith, omega arith, (omega arith, omega arith, omega arith, tt)),
    refl,
  );
}

-- The two bins of a run of two blocks.
abbrev bin_of : ℕ → LogicalBlockSnapshot ℕ → BoundBlockBin ℕ
bin_of index block = record {
  bin_index = index;
  logical_rank_start = index;
  logical_rank_stop = index + 1;
  sampled_load = 1;
  real_block_count = 1;
  dummy_block_count = 1;
  bin_capacity_blocks = 2;
  blocks = block ∷ [];
}

-- The first record of a block that starts at this key.
abbrev pub at_key : ℕ → InteriorPoint
at_key n = record { key = real (record { value = pos n }); record_index = some 0 }

-- A side with these two blocks, before and after sampling.
abbrev pub unsampled :
    Side → ℕ → LogicalBlockSnapshot ℕ → LogicalBlockSnapshot ℕ → BoundBlockAllocation ℕ ℤ
unsampled side level a b = record {
  side = side;
  level = level;
  items_per_block = 2;
  bins = bin_of 0 a ∷ bin_of 1 b ∷ [];
  plan = plan;
  interiors = [];
  tagged_interior_points = [];
  sampled = false;
}

abbrev pub sampled_at : BoundBlockAllocation ℕ ℤ → ℕ → ℕ → BoundBlockAllocation ℕ ℤ
sampled_at bound a b = record bound {
  interiors = at_key a ∷ at_key b ∷ [];
  tagged_interior_points = tag_of bound.side 0 (at_key a) ∷ tag_of bound.side 1 (at_key b) ∷ [];
  sampled = true;
}

abbrev pub source_side : BoundBlockAllocation ℕ ℤ
source_side = unsampled source 0 (block_of 1 (3 ∷ 5 ∷ [])) (block_of 2 (8 ∷ []))

abbrev pub target_side : BoundBlockAllocation ℕ ℤ
target_side = unsampled target 1 (block_of 3 (1 ∷ 4 ∷ [])) (block_of 4 (6 ∷ []))

pub source-IsSampledSide : IsSampledSide source (sampled_at source_side 3 8)
source-IsSampledSide = record {
  of_side = refl;
  sampled = refl;
  chosen = (
    (0, record { value = pos 3 }, refl, refl),
    refl,
    ((0, record { value = pos 8 }, refl, refl), refl, tt),
  );
}

pub target-IsSampledSide : IsSampledSide target (sampled_at target_side 1 6)
target-IsSampledSide = record {
  of_side = refl;
  sampled = refl;
  chosen = (
    (0, record { value = pos 1 }, refl, refl),
    refl,
    ((0, record { value = pos 6 }, refl, refl), refl, tt),
  );
}

pub block-IsSnapshot : IsSnapshot (block_of 1 (3 ∷ 5 ∷ []))
block-IsSnapshot = record { capacity_ge = omega arith; fits = omega arith; strict = (refl, tt) }

pub last_block-IsSnapshot : IsSnapshot (block_of 2 (8 ∷ []))
last_block-IsSnapshot = record { capacity_ge = omega arith; fits = omega arith; strict = tt }

-- A sampler of loads from 0 to 2.
abbrev pub loads_sampler : GeometricLoadSampler ℕ ℤ
loads_sampler = record {
  bin_capacity_blocks = 2;
  privacy_epsilon = pos 1000;
  weights = pos 212 ∷ pos 576 ∷ pos 212 ∷ [];
  cumulative = pos 212 ∷ pos 788 ∷ pos 1000 ∷ [];
  total = pos 1000;
  stream = 3;
}

pub loads_sampler-IsSampler : IsSampler loads_sampler
loads_sampler-IsSampler = record { weighted = refl; summed = refl; large = omega arith }
