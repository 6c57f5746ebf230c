-- ===== src/Schedule/Merge.antt =====
-- content_schedule.py: `SwatBlockMergeSchedule` and `plan_swat_block_merge_schedule`.
pub mod Laws
pub mod Planned
pub mod Returns
pub mod Pipeline
pub mod Ordered
use swat_letindex_baseline.Prelude.{
  ℕ, ◌+◌, List, [], ◌∷◌, Option, Bool, true, false, length, range, ltb, ◌==◌, ◌&&◌, not,
  content_schedule_error, Result, ok, ◌>>=◌, ◌>>◌, refuse_if, if◌then◌else◌,
}
use swat_letindex_baseline.Floats.{Floats, Streams}
use swat_letindex_baseline.Values.{Value}
use swat_letindex_baseline.Sorting.{sorted, list_eq}
use swat_letindex_baseline.Content.RunView.{LogicalBlockRunView}
use swat_letindex_baseline.Allocator.Plan.{BlockAllocationPlan}
use swat_letindex_baseline.Schedule.Bins.{Side, source, target, side_eq, TaggedBinInteriorPoint}
use swat_letindex_baseline.Schedule.Allocation.{BoundBlockAllocation, is_nil}
use swat_letindex_baseline.Schedule.Binding.{bind_block_allocation}
use swat_letindex_baseline.Schedule.Sampling.{sample_bin_interior_points}
use swat_letindex_baseline.Schedule.Order.{read_order, in_range, once_each}
use swat_letindex_baseline.Schedule.Reads.{
  AbstractBinRead, PerSide, at, sorted_tagged_interior_points, build_abstract_merge_schedule,
}

pub record SwatBlockMergeSchedule (V W : Type 0) : Type 0 where
  pub from : BoundBlockAllocation V W
  pub to : BoundBlockAllocation V W
  pub reads : List AbstractBinRead
  pub tagged_interior_points : List TaggedBinInteriorPoint

module _ {V W : Type 0} where
  abbrev pub counts_of : BoundBlockAllocation V W → BoundBlockAllocation V W → PerSide
  counts_of from to = record { of_source = length from.bins; of_target = length to.bins }

  -- `SwatBlockMergeSchedule(...)` with its `__post_init__`
  unfoldable pub make_schedule :
      BoundBlockAllocation V W
      → BoundBlockAllocation V W
      → List AbstractBinRead
      → List TaggedBinInteriorPoint
      → Result (SwatBlockMergeSchedule V W)
  unfolding read_order in_range once_each
  make_schedule from to reads tagged = do
    refuse_if (not (side_eq from.side source)) content_schedule_error
    refuse_if (not from.sampled) content_schedule_error
    refuse_if (not (side_eq to.side target)) content_schedule_error
    refuse_if (not to.sampled) content_schedule_error
    refuse_if (not (in_range (counts_of from to) reads)) content_schedule_error
    refuse_if (not (once_each (read_order source reads) (length from.bins))) content_schedule_error
    refuse_if (not (once_each (read_order target reads) (length to.bins))) content_schedule_error
    refuse_if (not (length tagged == (length from.bins + length to.bins))) content_schedule_error
    ok (record { from = from; to = to; reads = reads; tagged_interior_points = tagged })

  abbrev pub is_empty : SwatBlockMergeSchedule V W → Bool
  is_empty schedule = is_nil schedule.reads

  abbrev pub read_count : SwatBlockMergeSchedule V W → ℕ
  read_count schedule = length schedule.reads

  abbrev pub source_read_order : SwatBlockMergeSchedule V W → List ℕ
  source_read_order schedule = read_order source schedule.reads

  abbrev pub target_read_order : SwatBlockMergeSchedule V W → List ℕ
  target_read_order schedule = read_order target schedule.reads

module _ {S V W : Type 0} ⦃f : Floats W⦄ (streams : Streams S W) where
  unfoldable pub plan_swat_block_merge_schedule :
      {T : Type 0}
      → LogicalBlockRunView V
      → LogicalBlockRunView V
      → BlockAllocationPlan W
      → BlockAllocationPlan W
      → (T → List W → Result (Value W × T))
      → Option T
      → Result (SwatBlockMergeSchedule V W)
  plan_swat_block_merge_schedule source_run target_run source_plan target_plan draw sampler = do
    refuse_if (not (target_run.level == (source_run.level + 1))) content_schedule_error
    refuse_if (not (source_run.items_per_block == target_run.items_per_block))
        content_schedule_error
    source_side ← bind_block_allocation source_run source_plan source
    source_bound ← sample_bin_interior_points streams source_side draw sampler
    target_side ← bind_block_allocation target_run target_plan target
    target_bound ← sample_bin_interior_points streams target_side draw source_bound.1
    reads ← build_abstract_merge_schedule source_bound.0 target_bound.0
    make_schedule source_bound.0 target_bound.0 reads
        (sorted_tagged_interior_points source_bound.0 target_bound.0)
