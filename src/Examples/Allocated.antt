-- ===== src/Examples/Allocated.antt =====
-- Samplers, and a run of the allocator from its arguments to its plan.
use swat_letindex_baseline.Values.{
  require_nat, require_positive_real, require_plain_int, require_real,
}
use swat_letindex_baseline.Distribution.Numbers.{
  decay, to_even_up, fast_power, fast_power_loop, pinned_uint32_cast, require_even_positive,
}
use swat_letindex_baseline.Prelude.{◌-ℤ◌, ◌+ℤ◌}
use swat_letindex_baseline.Allocator.Config.{compute_factor, compute_bin_count}
use swat_letindex_baseline.Allocator.Allocate.{
  draw_loads, geometric_draw, plan_bins, plan_from_loads, require_load, sampled_loads_of,
}
use swat_letindex_baseline.Allocator.Plan.{make_allocation_plan, make_bin_plan}
use swat_letindex_baseline.Distribution.Samplers.{
  make_laplace, sample_laplace, accumulate, make_geometric, pick, sample_geometric,
}
use swat_letindex_baseline.Distribution.Samplers.Bisect.{bisect_right}
use swat_letindex_baseline.Distribution.Streams.{derive_stream_seed}
use swat_letindex_baseline.Allocator.Prefix.{compute_noisy_prefix_sums, check_loads, clamp_estimate}
use swat_letindex_baseline.Allocator.Prefix.Loops.{trailing_zeros, clear_lower, sum_levels}
use swat_letindex_baseline.Distribution.Weights.Array.{write_at, read_at}
use swat_letindex_baseline.Distribution.Weights.{compute_weight, geom_conv}
use swat_letindex_baseline.Prelude.{List, ◌-◌, ◌∷◌, [], ◌≡◌, refl, ℕ, ℤ, pos, ◌+◌, some, Result, ok}
use swat_letindex_baseline.Values.{Value, int, float}
use swat_letindex_baseline.Allocator.Plan.{BlockAllocationPlan, BlockBinPlan}
use swat_letindex_baseline.Allocator.Allocate.{allocate_block_bins}
use swat_letindex_baseline.Distribution.Sizing.{compute_bin_capacity_blocks}
use swat_letindex_baseline.Examples.Runtime.{thousandths, counter}
use swat_letindex_baseline.Examples.Inputs.{config}

-- A sampler that always picks the first record.
abbrev pub first_record : ℕ → List ℤ → Result (Value ℤ × ℕ)
first_record state weights = ok (int (pos 0), state + 1)

-- A sampler that fills every bin.
abbrev pub full_load : ℕ → Result (Value ℤ × ℕ)
full_load state = ok (int (pos 2), state + 1)

abbrev pub seven : List ℕ
seven = 2 ∷ 2 ∷ 2 ∷ 2 ∷ 2 ∷ 2 ∷ 2 ∷ []

abbrev pub bin_at : ℕ → ℕ → ℕ → BlockBinPlan
bin_at index start real = record {
  bin_index = index;
  logical_rank_start = start;
  logical_rank_stop = 2;
  sampled_load = 2;
  real_count = real;
  dummy_count = 2 - real;
  capacity = 2;
}

-- Seven bins for two blocks, all but the first without a block.
abbrev pub seven_bins : BlockAllocationPlan ℤ
seven_bins = record {
  block_count = 2;
  bin_capacity_blocks = 2;
  bin_count = 7;
  factor = pos 3267;
  bins =
      bin_at 0 0 2
      ∷ bin_at 1 2 0
      ∷ bin_at 2 2 0
      ∷ bin_at 3 2 0
      ∷ bin_at 4 2 0
      ∷ bin_at 5 2 0
      ∷ bin_at 6 2 0
      ∷ [];
  sampled_loads = seven;
  noisy_prefix_sums = 0 ∷ 1 ∷ 4 ∷ 7 ∷ 7 ∷ 10 ∷ 10 ∷ 12 ∷ [];
  additive_error_blocks = 2;
  config = config;
}

capacity_two :
    compute_bin_capacity_blocks {W = ℤ}
      (int (pos 2))
      (float (pos 1000))
      (float (pos 10))
      (int (pos 1))
    ≡ ok 2
unfolding compute_bin_capacity_blocks require_nat require_positive_real require_plain_int
    require_real decay to_even_up fast_power fast_power_loop pinned_uint32_cast
    require_even_positive ◌-ℤ◌ ◌+ℤ◌ compute_factor compute_bin_count draw_loads geometric_draw
    plan_bins plan_from_loads require_load sampled_loads_of make_allocation_plan make_bin_plan
    make_laplace sample_laplace accumulate make_geometric pick sample_geometric bisect_right
    derive_stream_seed compute_noisy_prefix_sums check_loads clamp_estimate trailing_zeros
    clear_lower sum_levels write_at read_at compute_weight geom_conv
capacity_two = refl

pub allocated-seven_bins :
    allocate_block_bins counter (int (pos 2)) config full_load (some 0) ≡ ok seven_bins
unfolding allocate_block_bins require_nat require_positive_real require_plain_int require_real decay
    to_even_up fast_power fast_power_loop pinned_uint32_cast require_even_positive ◌-ℤ◌ ◌+ℤ◌
    compute_factor compute_bin_count draw_loads geometric_draw plan_bins plan_from_loads
    require_load sampled_loads_of make_allocation_plan make_bin_plan make_laplace sample_laplace
    accumulate make_geometric pick sample_geometric bisect_right derive_stream_seed
    compute_noisy_prefix_sums check_loads clamp_estimate trailing_zeros clear_lower sum_levels
    write_at read_at compute_weight geom_conv
allocated-seven_bins = rw capacity_two refl
