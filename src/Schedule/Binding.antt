-- ===== src/Schedule/Binding.antt =====
-- content_schedule.py: `bind_block_allocation`.
pub mod Laws
pub mod Exact
use swat_letindex_baseline.Prelude.{
  ℕ, ℤ, pos, List, [], ◌∷◌, Bool, false, map, ◌==◌, not, content_schedule_error, Result, ok, ◌>>=◌,
  ◌>>◌, refuse_if, length, if◌then◌else◌,
}
use swat_letindex_baseline.Values.{Value, int}
use swat_letindex_baseline.Substrate.{RecordKey, key_lt, key_eq}
use swat_letindex_baseline.Sorting.{sorted, distinct, list_eq}
use swat_letindex_baseline.Content.Snapshot.{LogicalBlockSnapshot, snapshot}
use swat_letindex_baseline.Content.RunView.{LogicalBlockRunView, slice}
use swat_letindex_baseline.Allocator.Plan.{BlockBinPlan, BlockAllocationPlan}
use swat_letindex_baseline.Schedule.Bins.{Side, BoundBlockBin, make_bound_bin, real_keys}
use swat_letindex_baseline.Schedule.Allocation.{BoundBlockAllocation, make_bound_allocation}

-- `list(keys) == sorted(set(keys))`
unfoldable pub strictly_sorted : List RecordKey → Bool
unfolding sorted distinct list_eq
strictly_sorted keys = list_eq key_eq keys (sorted key_lt (distinct key_eq keys))

module _ {V : Type 0} where
  -- One round of `for bin_plan in plan.bins`
  unfoldable pub bind_bin :
      (W : Type 0) → List (LogicalBlockSnapshot V) → ℕ → BlockBinPlan → Result (BoundBlockBin V)
  bind_bin W blocks capacity bin = do
    bound ←
        make_bound_bin {W = W} (int (pos bin.bin_index)) (int (pos bin.logical_rank_start))
          (int (pos bin.logical_rank_stop)) (int (pos bin.sampled_load)) (int (pos bin.real_count))
          (int (pos bin.dummy_count)) (int (pos capacity))
          (map snapshot (slice bin.logical_rank_start bin.logical_rank_stop blocks))
    refuse_if (not (strictly_sorted (real_keys bound))) content_schedule_error
    ok bound

  unfoldable pub bind_bins :
      (W : Type 0)
      → List (LogicalBlockSnapshot V)
      → ℕ
      → List BlockBinPlan
      → Result (List (BoundBlockBin V))
  bind_bins W blocks capacity [] = ok []
  bind_bins W blocks capacity (bin ∷ bins) = do
    first ← bind_bin W blocks capacity bin
    rest ← bind_bins W blocks capacity bins
    ok (first ∷ rest)

module _ {V W : Type 0} where
  unfoldable pub bind_block_allocation :
      LogicalBlockRunView V → BlockAllocationPlan W → Side → Result (BoundBlockAllocation V W)
  bind_block_allocation run plan side = do
    refuse_if (not (plan.block_count == length run.blocks)) content_schedule_error
    bins ← bind_bins W run.blocks plan.bin_capacity_blocks plan.bins
    make_bound_allocation side (int (pos run.level)) (int (pos run.items_per_block)) bins plan [] []
        false
