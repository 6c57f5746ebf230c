-- ===== src/Schedule/Merge/Planned.antt =====
-- `plan_swat_block_merge_schedule` on two runs with sound plans.
use mathlib.Core.Path.{subst}
use swat_letindex_baseline.Prelude.{
  ◌+◌, ◌≡◌, ap, ◌∙◌, sym, List, Option, true, length, range, ◌==◌, ==_iff, content_schedule_error,
  Result, ◌>>=◌, Ensures, Ensures-bind, Ensures-check, Ensures-map,
}
use swat_letindex_baseline.Floats.{Floats, Streams}
use swat_letindex_baseline.Values.{Value}
use swat_letindex_baseline.Content.RunView.{LogicalBlockRunView, records}
use swat_letindex_baseline.Content.RunView.Laws.{IsRun}
use swat_letindex_baseline.Allocator.Plan.{BlockAllocationPlan}
use swat_letindex_baseline.Allocator.Allocate.Outcome.{IsSoundPlan}
use swat_letindex_baseline.Schedule.Bins.{Side, source, target}
use swat_letindex_baseline.Schedule.Allocation.{BoundBlockAllocation, bound_ranks, real_records}
use swat_letindex_baseline.Schedule.Allocation.Laws.{allocation_of}
use swat_letindex_baseline.Schedule.Binding.Exact.{IsBinding, bind_block_allocation_lem}
use swat_letindex_baseline.Schedule.Sampling.{sample_bin_interior_points}
use swat_letindex_baseline.Schedule.Sampling.Laws.{
  AreChosen, IsSampled, sample_bin_interior_points_lem,
}
use swat_letindex_baseline.Schedule.Reads.{
  sorted_tagged_interior_points, build_abstract_merge_schedule,
}
use swat_letindex_baseline.Schedule.Merge.{
  SwatBlockMergeSchedule, make_schedule, plan_swat_block_merge_schedule,
}
use swat_letindex_baseline.Schedule.Merge.Laws.{
  IsSampledSide, IsExactSchedule, build_abstract_merge_schedule_lem,
}

-- A side of a merge that holds a run: every rank and every record of the run once and in order, in the
-- plan's number of bins, with an interior point for each bin.
pub record IsBoundSide {V W : Type 0} (run : LogicalBlockRunView V) (plan : BlockAllocationPlan W)
    (side : Side) (bound : BoundBlockAllocation V W) : Type 0 where
  pub ranks : bound_ranks bound ≡ range 0 (length run.blocks)
  pub held : real_records bound ≡ records run
  pub counted : length bound.bins ≡ plan.bin_count
  pub of_level : bound.level ≡ run.level
  pub of_geometry : bound.items_per_block ≡ run.items_per_block
  pub of_plan : bound.plan ≡ plan
  pub sampled : IsSampledSide side bound

-- The merge of two runs on adjacent levels of the same geometry.
pub record IsPlannedMerge {V W : Type 0} (source_run target_run : LogicalBlockRunView V)
    (source_plan target_plan : BlockAllocationPlan W) (schedule : SwatBlockMergeSchedule V W)
    : Type 0 where
  pub adjacent : target_run.level ≡ source_run.level + 1
  pub geometry : source_run.items_per_block ≡ target_run.items_per_block
  pub from_side : IsBoundSide source_run source_plan source schedule.from
  pub to_side : IsBoundSide target_run target_plan target schedule.to
  pub exact : IsExactSchedule schedule.from schedule.to schedule

module _ {V W : Type 0} where
  -- Sampling keeps what binding bound.
  IsBoundSide-of_sampled :
      (run : LogicalBlockRunView V) (plan : BlockAllocationPlan W) (side : Side)
      (bound result : BoundBlockAllocation V W)
      → IsBinding run plan side bound
      → IsSampled bound result
      → IsBoundSide run plan side result
  unfolding bound_ranks real_records allocation_of
  IsBoundSide-of_sampled run plan side bound result binding sampled =
      let bins = ap (λ (r : BoundBlockAllocation V W). r.bins) sampled.same in
      record {
        ranks = ap bound_ranks sampled.same ∙ binding.ranks;
        held = ap real_records sampled.same ∙ binding.held;
        counted = ap length bins ∙ binding.counted;
        of_level = ap (λ r. r.level) sampled.same ∙ binding.of_level;
        of_geometry = ap (λ r. r.items_per_block) sampled.same ∙ binding.of_geometry;
        of_plan = ap (λ r. r.plan) sampled.same ∙ binding.of_plan;
        sampled = record {
          of_side = ap (λ r. r.side) sampled.same ∙ binding.of_side;
          sampled = ap (λ r. r.sampled) sampled.same;
          chosen =
              subst (λ s. AreChosen s result.bins result.interiors result.tagged_interior_points)
                binding.of_side
                (subst
                  (λ xs. AreChosen bound.side xs result.interiors result.tagged_interior_points)
                  (sym bins) sampled.chosen);
        };
      }

module _ {V W : Type 0} (source_run target_run : LogicalBlockRunView V)
    (source_plan target_plan : BlockAllocationPlan W) where
  -- The last steps, on two sides that hold the runs.
  planned :
      (from to : BoundBlockAllocation V W)
      → (target_run.level == (source_run.level + 1)) ≡ true
      → (source_run.items_per_block == target_run.items_per_block) ≡ true
      → IsBoundSide source_run source_plan source from
      → IsBoundSide target_run target_plan target to
      → Ensures (IsPlannedMerge source_run target_run source_plan target_plan) (
          build_abstract_merge_schedule from to >>= λ reads.
          make_schedule from to reads (sorted_tagged_interior_points from to))
  planned from to adjacent geometry from_side to_side =
      let merged = build_abstract_merge_schedule_lem from to from_side.sampled to_side.sampled in
      rw merged.1 (record {
        adjacent = (==_iff _ _).0 adjacent;
        geometry = (==_iff _ _).0 geometry;
        from_side = rw merged.2.from_kept from_side;
        to_side = rw merged.2.to_kept to_side;
        exact =
            subst (λ b. IsExactSchedule b merged.0.to merged.0) (sym merged.2.from_kept)
              (subst (λ b. IsExactSchedule from b merged.0) (sym merged.2.to_kept) merged.2);
      })

module _ {S V W : Type 0} ⦃f : Floats W⦄ (streams : Streams S W) where
  -- Sampling a binding of the run.
  pub sampled_side_lem :
      {T : Type 0} (run : LogicalBlockRunView V) (plan : BlockAllocationPlan W) (side : Side)
      (bound : BoundBlockAllocation V W) (draw : T → List W → Result (Value W × T))
      (sampler : Option T)
      → IsBinding run plan side bound
      → Ensures
          (λ r. IsBoundSide run plan side r.0)
          (sample_bin_interior_points streams bound draw sampler)
  sampled_side_lem run plan side bound draw sampler binding =
      Ensures-map (λ r. IsSampled bound r.0) (λ r. IsBoundSide run plan side r.0)
        (sample_bin_interior_points streams bound draw sampler)
        (sample_bin_interior_points_lem streams bound draw sampler)
        (λ r _ h. IsBoundSide-of_sampled run plan side bound r.0 binding h)

  -- For two valid runs with sound plans of their block counts, and whatever an interior-index
  -- sampler returns or raises, a schedule that plan_swat_block_merge_schedule returns merges two
  -- adjacent levels of one geometry, each side holds every rank and every record of its run once
  -- and in order in the number of bins of its plan, each bin has its interior point, and the
  -- reads of each side are its bins in order, each once, with the tagged points of both sides in
  -- ascending order.
  pub plan_swat_block_merge_schedule_lem :
      {T : Type 0} (source_run target_run : LogicalBlockRunView V)
      (source_plan target_plan : BlockAllocationPlan W) (draw : T → List W → Result (Value W × T))
      (sampler : Option T)
      → IsRun source_run
      → IsRun target_run
      → IsSoundPlan (length source_run.blocks) source_plan
      → IsSoundPlan (length target_run.blocks) target_plan
      → Ensures (IsPlannedMerge source_run target_run source_plan target_plan) (
          plan_swat_block_merge_schedule streams source_run target_run source_plan target_plan draw
            sampler)
  unfolding plan_swat_block_merge_schedule
  plan_swat_block_merge_schedule_lem source_run target_run source_plan target_plan draw sampler
        valid_s valid_t sound_s sound_t =
      let P = IsPlannedMerge source_run target_run source_plan target_plan in
      let bound_s = bind_block_allocation_lem source_run source_plan source valid_s sound_s in
      let bound_t = bind_block_allocation_lem target_run target_plan target valid_t sound_t in
      Ensures-check P (target_run.level == (source_run.level + 1)) content_schedule_error _
        (λ adjacent.
          Ensures-check P (source_run.items_per_block == target_run.items_per_block)
            content_schedule_error _
            (λ geometry. rw bound_s.1 (
              Ensures-bind (λ r. IsBoundSide source_run source_plan source r.0) P
                (sample_bin_interior_points streams bound_s.0 draw sampler) _
                (sampled_side_lem source_run source_plan source bound_s.0 draw sampler bound_s.2)
                (λ from _ from_side. rw bound_t.1 (
                  Ensures-bind (λ r. IsBoundSide target_run target_plan target r.0) P
                    (sample_bin_interior_points streams bound_t.0 draw from.1) _
                    (sampled_side_lem target_run target_plan target bound_t.0 draw from.1 bound_t.2)
                    (λ to _ to_side.
                      planned source_run target_run source_plan target_plan from.0 to.0 adjacent
                        geometry from_side to_side))))))
