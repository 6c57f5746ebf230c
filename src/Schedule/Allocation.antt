-- ===== src/Schedule/Allocation.antt =====
-- content_schedule.py: `BoundBlockAllocation`.
pub mod Laws
use swat_letindex_baseline.Prelude.{
  ℕ, zero, suc, ◌+◌, List, [], ◌∷◌, ◌++◌, Bool, true, false, length, range, get_elem?, leb, ◌==◌,
  ◌&&◌, ◌||◌, not, content_schedule_error, index_error, Result, ok, err, ◌>>=◌, ◌>>◌, refuse_if,
  or_raise, if◌then◌else◌,
}
use swat_letindex_baseline.Values.{Value, require_nat}
use swat_letindex_baseline.Substrate.{RecordKey, Record}
use swat_letindex_baseline.Content.Snapshot.{keys_of}
use swat_letindex_baseline.Content.Interior.{InteriorPoint}
use swat_letindex_baseline.Allocator.Plan.{BlockAllocationPlan}
use swat_letindex_baseline.Schedule.Bins.{Side, side_eq, BoundBlockBin, TaggedBinInteriorPoint}
use swat_letindex_baseline.Schedule.Bins

pub record BoundBlockAllocation (V W : Type 0) : Type 0 where
  pub side : Side
  pub level : ℕ
  pub items_per_block : ℕ
  pub bins : List (BoundBlockBin V)
  pub plan : BlockAllocationPlan W
  pub interiors : List InteriorPoint
  pub tagged_interior_points : List TaggedBinInteriorPoint
  pub sampled : Bool

abbrev pub is_nil {ℓ} : {A : Type ℓ} → List A → Bool
is_nil [] = true
is_nil (x ∷ xs) = false

module _ {V : Type 0} where
  -- `bin_.bin_index != index` along the bins
  unfoldable pub in_order : ℕ → List (BoundBlockBin V) → Bool
  in_order index [] = true
  in_order index (bin ∷ bins) = bin.bin_index == index && in_order (index + 1) bins

  -- The ranks and the records of some bins, in order.
  abbrev pub ranks_of_bins : List (BoundBlockBin V) → List ℕ
  ranks_of_bins [] = []
  ranks_of_bins (bin ∷ bins) =
      range bin.logical_rank_start bin.logical_rank_stop ++ ranks_of_bins bins

  abbrev pub records_of_bins : List (BoundBlockBin V) → List (Record V)
  records_of_bins [] = []
  records_of_bins (bin ∷ bins) = Bins.real_records bin ++ records_of_bins bins

unfoldable pub on_side : Side → List TaggedBinInteriorPoint → Bool
on_side side [] = true
on_side side (point ∷ points) = side_eq point.side side && on_side side points

module _ {V W : Type 0} where
  unfoldable pub make_bound_allocation :
      Side
      → Value W
      → Value W
      → List (BoundBlockBin V)
      → BlockAllocationPlan W
      → List InteriorPoint
      → List TaggedBinInteriorPoint
      → Bool
      → Result (BoundBlockAllocation V W)
  unfolding in_order on_side
  make_bound_allocation side level items_per_block bins plan interiors tagged sampled = do
    checked_level ← require_nat content_schedule_error level 0
    capacity ← require_nat content_schedule_error items_per_block 1
    refuse_if (not (length bins == plan.bin_count)) content_schedule_error
    refuse_if (not (in_order 0 bins)) content_schedule_error
    refuse_if (not sampled && (not (is_nil interiors) || not (is_nil tagged)))
        content_schedule_error
    refuse_if (sampled && not (length interiors == length bins)) content_schedule_error
    refuse_if (sampled && not (length tagged == length bins)) content_schedule_error
    refuse_if (sampled && not (on_side side tagged)) content_schedule_error
    ok (record {
      side = side;
      level = checked_level;
      items_per_block = capacity;
      bins = bins;
      plan = plan;
      interiors = interiors;
      tagged_interior_points = tagged;
      sampled = sampled;
    })

  abbrev pub bin_count : BoundBlockAllocation V W → ℕ
  bin_count bound = length bound.bins

  abbrev pub is_sampled : BoundBlockAllocation V W → Bool
  is_sampled bound = bound.sampled

  abbrev pub is_empty : BoundBlockAllocation V W → Bool
  is_empty bound = is_nil bound.bins

  -- The evidence of the plan, read through.
  abbrev pub block_count : BoundBlockAllocation V W → ℕ
  block_count bound = bound.plan.block_count

  abbrev pub sampled_loads : BoundBlockAllocation V W → List ℕ
  sampled_loads bound = bound.plan.sampled_loads

  abbrev pub noisy_prefix_sums : BoundBlockAllocation V W → List ℕ
  noisy_prefix_sums bound = bound.plan.noisy_prefix_sums

  abbrev pub additive_error_blocks : BoundBlockAllocation V W → ℕ
  additive_error_blocks bound = bound.plan.additive_error_blocks

  unfoldable pub bound_ranks : BoundBlockAllocation V W → List ℕ
  bound_ranks bound = ranks_of_bins bound.bins

  unfoldable pub real_records : BoundBlockAllocation V W → List (Record V)
  real_records bound = records_of_bins bound.bins

  unfoldable pub real_keys : BoundBlockAllocation V W → List RecordKey
  unfolding real_records
  real_keys bound = keys_of (real_records bound)

  unfoldable pub interior_point_of : BoundBlockAllocation V W → Value W → Result InteriorPoint
  interior_point_of bound bin_index = do
    index ← require_nat content_schedule_error bin_index 0
    refuse_if (not bound.sampled) content_schedule_error
    refuse_if (leb (length bound.interiors) index) content_schedule_error
    or_raise (get_elem? bound.interiors index) index_error
