-- ===== src/Schedule/Binding/Exact.antt =====
-- `bind_block_allocation` on a sound plan of a run.
use swat_letindex_baseline.Prelude.{
  ℕ, ◌≤◌, ◌≡◌, refl, ap, ◌∙◌, sym, true, false, List, [], arith, length, sum, take, range, count_up,
  range_zero, take_all, pos, ◌==◌, ==_refl, content_schedule_error, ok,
}
use swat_letindex_baseline.Values.{int}
use swat_letindex_baseline.Values.Laws.{require_nat_accepts}
use swat_letindex_baseline.Content.RunView.{LogicalBlockRunView, block_records, keys, records}
use swat_letindex_baseline.Content.RunView.Laws.{IsRun}
use swat_letindex_baseline.Allocator.Plan.{BlockAllocationPlan}
use swat_letindex_baseline.Allocator.Plan.Cover.{real_total}
use swat_letindex_baseline.Allocator.Allocate.Bins.{IsGreedy-real_total}
use swat_letindex_baseline.Allocator.Allocate.Outcome.{IsSoundPlan}
use swat_letindex_baseline.Substrate.{key_lt}
use swat_letindex_baseline.Sorting.Laws.{IsStrict}
use swat_letindex_baseline.Content.Snapshot.{keys_of}
use swat_letindex_baseline.Schedule.Bins.{Side, BoundBlockBin}
use swat_letindex_baseline.Schedule.Allocation.{
  BoundBlockAllocation, make_bound_allocation, in_order, bound_ranks, real_records,
}
use swat_letindex_baseline.Schedule.Binding.{bind_block_allocation}
use swat_letindex_baseline.Schedule.Binding.Laws.{
  bound_row, bind_bins_lem, length-bound_row, bound_row-in_order, bound_row-records,
  bound_row-ranks,
}

-- What a bound allocation keeps of the run and the plan: every rank and every record once and in
-- order, the number of bins, the evidence of the plan, and no interior point yet.
pub record IsBinding {V W : Type 0} (run : LogicalBlockRunView V) (plan : BlockAllocationPlan W)
    (side : Side) (bound : BoundBlockAllocation V W) : Type 0 where
  pub ranks : bound_ranks bound ≡ range 0 (length run.blocks)
  pub held : real_records bound ≡ records run
  pub counted : length bound.bins ≡ plan.bin_count
  pub ordered : in_order 0 bound.bins ≡ true
  pub of_side : bound.side ≡ side
  pub of_level : bound.level ≡ run.level
  pub of_geometry : bound.items_per_block ≡ run.items_per_block
  pub of_plan : bound.plan ≡ plan
  pub unsampled : bound.sampled ≡ false

module _ {V W : Type 0} where
  -- The bound allocation of some bins, before sampling.
  fresh : Side → ℕ → ℕ → List (BoundBlockBin V) → BlockAllocationPlan W → BoundBlockAllocation V W
  fresh side level items_per_block bins plan = record {
    side = side;
    level = level;
    items_per_block = items_per_block;
    bins = bins;
    plan = plan;
    interiors = [];
    tagged_interior_points = [];
    sampled = false;
  }

  fresh_accepts :
      (side : Side) (level items : ℕ) (bins : List (BoundBlockBin V)) (plan : BlockAllocationPlan W)
      → 1 ≤ items
      → length bins ≡ plan.bin_count
      → in_order 0 bins ≡ true
      → make_bound_allocation side (int (pos level)) (int (pos items)) bins plan [] [] false
        ≡ ok (fresh side level items bins plan)
  unfolding make_bound_allocation fresh
  fresh_accepts side level items bins plan large count order =
      rw
        (
          require_nat_accepts W content_schedule_error level 0 (omega arith),
          require_nat_accepts W content_schedule_error items 1 large,
          count,
          ==_refl plan.bin_count,
          order,
        )
        refl

  module _ (run : LogicalBlockRunView V) (plan : BlockAllocationPlan W) (side : Side)
      (valid : IsRun run) (sound : IsSoundPlan (length run.blocks) plan) where
    whole : real_total plan.bins ≡ length run.blocks
    whole = omega (
      arith,
      IsGreedy-real_total (length run.blocks) plan.bins sound.greedy,
      ap (λ (xs : List ℕ). sum xs) sound.loads_kept,
      sound.enough,
    )

    IsStrict-keys : IsStrict key_lt (keys_of (block_records run.blocks))
    unfolding keys records
    IsStrict-keys = valid.strict

    bound_plan : BoundBlockAllocation V W
    bound_plan =
        fresh side run.level run.items_per_block
          (bound_row plan.bin_capacity_blocks run.blocks plan.bins) plan

    bound_plan-IsBinding : IsBinding run plan side bound_plan
    unfolding bound_plan fresh bound_ranks real_records records
    bound_plan-IsBinding = record {
      ranks =
          bound_row-ranks plan.bin_capacity_blocks 0 0 run.blocks plan.bins sound.row
          ∙ ap (count_up 0) whole
          ∙ sym (range_zero (length run.blocks));
      held =
          bound_row-records plan.bin_capacity_blocks 0 0 run.blocks plan.bins sound.row
          ∙ ap block_records (
              ap (λ n. take n run.blocks) whole
              ∙ take_all (length run.blocks) run.blocks (omega arith));
      counted = length-bound_row plan.bin_capacity_blocks run.blocks plan.bins ∙ sound.bins_counted;
      ordered = bound_row-in_order plan.bin_capacity_blocks 0 0 run.blocks plan.bins sound.row;
      of_side = refl;
      of_level = refl;
      of_geometry = refl;
      of_plan = refl;
      unsampled = refl;
    }

    same_size : (plan.block_count == length run.blocks) ≡ true
    same_size = ap (λ n. n == length run.blocks) sound.counted ∙ ==_refl (length run.blocks)

    -- For a valid run and a sound plan of its block count, bind_block_allocation raises nothing:
    -- the bound bins hold every rank and every record of the run once and in order, as many bins
    -- as planned, with the level, the geometry and the plan kept and no interior point yet.
    pub bind_block_allocation_lem :
        (bound : BoundBlockAllocation V W) × (bind_block_allocation run plan side ≡ ok bound)
        × IsBinding run plan side bound
    unfolding bind_block_allocation bound_plan
    bind_block_allocation_lem = (
      bound_plan,
      rw
          (
            same_size,
            bind_bins_lem W plan.bin_capacity_blocks 0 0 run.blocks plan.bins sound.capacity_ge
                IsStrict-keys sound.row (omega (arith, whole)),
            fresh_accepts side run.level run.items_per_block _ plan valid.capacity_ge
                (length-bound_row plan.bin_capacity_blocks run.blocks plan.bins
                  ∙ sound.bins_counted)
                (bound_row-in_order plan.bin_capacity_blocks 0 0 run.blocks plan.bins sound.row),
          )
          refl,
      bound_plan-IsBinding,
    )
