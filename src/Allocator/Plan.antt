-- ===== src/Allocator/Plan.antt =====
-- bin_allocator.py: `BlockBinPlan` and `BlockAllocationPlan` with their `__post_init__` checks.
pub mod Cover
use swat_letindex_baseline.Prelude.{
  ℕ, ◌+◌, ◌*◌, ℤ, pos, ◌-ℤ◌, eqb_ℤ, Bool, List, [], ◌∷◌, ◌++◌, not, length, sum, map, range, ltb,
  ◌==◌, block_allocation_error, Result, ok, ◌>>=◌, ◌>>◌, refuse_if,
}
use swat_letindex_baseline.Values.{Value, require_nat}
use swat_letindex_baseline.Allocator.Config.{SwatBlockAllocationConfig}

pub record BlockBinPlan : Type 0 where
  pub bin_index : ℕ
  pub logical_rank_start : ℕ
  pub logical_rank_stop : ℕ
  pub sampled_load : ℕ
  pub real_count : ℕ
  pub dummy_count : ℕ
  pub capacity : ℕ

-- `rank_range`
abbrev pub rank_range : BlockBinPlan → List ℕ
rank_range bin = range bin.logical_rank_start bin.logical_rank_stop

pub record BlockAllocationPlan (W : Type 0) : Type 0 where
  pub block_count : ℕ
  pub bin_capacity_blocks : ℕ
  pub bin_count : ℕ
  pub factor : W
  pub bins : List BlockBinPlan
  pub sampled_loads : List ℕ
  pub noisy_prefix_sums : List ℕ
  pub additive_error_blocks : ℕ
  pub config : SwatBlockAllocationConfig W

module _ {W : Type 0} where
  unfoldable pub make_bin_plan :
      (bin_index logical_rank_start logical_rank_stop sampled_load : Value W)
      → (real_count dummy_count capacity : Value W) → Result BlockBinPlan
  make_bin_plan bin_index start_rank stop_rank sampled_load real_count dummy_count bin_capacity = do
    index ← require_nat block_allocation_error bin_index 0
    start ← require_nat block_allocation_error start_rank 0
    stop ← require_nat block_allocation_error stop_rank 0
    load ← require_nat block_allocation_error sampled_load 0
    real ← require_nat block_allocation_error real_count 0
    dummy ← require_nat block_allocation_error dummy_count 0
    capacity ← require_nat block_allocation_error bin_capacity 2
    refuse_if (ltb capacity load) block_allocation_error
    refuse_if (ltb load real) block_allocation_error
    refuse_if (not ((real + dummy) == capacity)) block_allocation_error
    refuse_if (not (eqb_ℤ (pos stop -ℤ pos start) (pos real))) block_allocation_error
    ok (record {
      bin_index = index;
      logical_rank_start = start;
      logical_rank_stop = stop;
      sampled_load = load;
      real_count = real;
      dummy_count = dummy;
      capacity = capacity;
    })

  unfoldable pub make_allocation_plan :
      (block_count bin_capacity_blocks bin_count : Value W)
      → W
      → List BlockBinPlan
      → List ℕ
      → List ℕ
      → Value W
      → SwatBlockAllocationConfig W
      → Result (BlockAllocationPlan W)
  make_allocation_plan block_count bin_capacity bin_count factor bins loads prefix error config = do
    blocks ← require_nat block_allocation_error block_count 0
    capacity ← require_nat block_allocation_error bin_capacity 2
    count ← require_nat block_allocation_error bin_count 0
    additive_error ← require_nat block_allocation_error error 0
    refuse_if (not (length bins == count)) block_allocation_error
    refuse_if (not (length loads == count)) block_allocation_error
    refuse_if (not (length prefix == (count + 1))) block_allocation_error
    refuse_if (not (sum (map (λ bin. bin.real_count) bins) == blocks)) block_allocation_error
    ok (record {
      block_count = blocks;
      bin_capacity_blocks = capacity;
      bin_count = count;
      factor = factor;
      bins = bins;
      sampled_loads = loads;
      noisy_prefix_sums = prefix;
      additive_error_blocks = additive_error;
      config = config;
    })

  unfoldable pub sampled_capacity : BlockAllocationPlan W → ℕ
  sampled_capacity plan = sum plan.sampled_loads

  unfoldable pub planned_slots : BlockAllocationPlan W → ℕ
  planned_slots plan = plan.bin_count * plan.bin_capacity_blocks

  unfoldable pub dummy_total : BlockAllocationPlan W → ℕ
  dummy_total plan = sum (map (λ bin. bin.dummy_count) plan.bins)

  pub is_empty : BlockAllocationPlan W → Bool
  is_empty plan = plan.block_count == 0

-- The ranks of some bins, in order.
abbrev pub bin_ranks : List BlockBinPlan → List ℕ
bin_ranks [] = []
bin_ranks (bin ∷ bins) = rank_range bin ++ bin_ranks bins

unfoldable pub covered_ranks : {W : Type 0} → BlockAllocationPlan W → List ℕ
covered_ranks plan = bin_ranks plan.bins
