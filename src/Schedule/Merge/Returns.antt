-- ===== src/Schedule/Merge/Returns.antt =====
-- When planning a merge returns: samplers that answer every draw.
use mathlib.Core.Path.{subst}
use swat_letindex_baseline.Prelude.{
  ◌+◌, ◌≡◌, ap, sym, ◌∙◌, List, Option, none, some, true, length, ◌==◌, ==_iff, Result, ok, ◌>>=◌,
  Ensures-ok,
}
use swat_letindex_baseline.Floats.{Floats, Streams}
use swat_letindex_baseline.Values.{Value}
use swat_letindex_baseline.Content.RunView.{LogicalBlockRunView}
use swat_letindex_baseline.Content.RunView.Laws.{IsRun}
use swat_letindex_baseline.Allocator.Plan.{BlockAllocationPlan}
use swat_letindex_baseline.Allocator.Allocate.Outcome.{IsSoundPlan}
use swat_letindex_baseline.Schedule.Bins.{Side, source, target, BoundBlockBin}
use swat_letindex_baseline.Schedule.Allocation.{BoundBlockAllocation}
use swat_letindex_baseline.Schedule.Binding.{bind_block_allocation}
use swat_letindex_baseline.Schedule.Binding.Exact.{IsBinding, bind_block_allocation_lem}
use swat_letindex_baseline.Schedule.Sampling.{sample_bin_interior_points}
use swat_letindex_baseline.Schedule.Sampling.Returns.{IsUsable, CanDraw, IsSameKind}
use swat_letindex_baseline.Schedule.Sampling.Accepts.{
  IsUnsampled, sample_bin_interior_points_returns,
}
use swat_letindex_baseline.Schedule.Reads.{
  sorted_tagged_interior_points, build_abstract_merge_schedule,
}
use swat_letindex_baseline.Schedule.Merge.{
  SwatBlockMergeSchedule, make_schedule, plan_swat_block_merge_schedule,
}
use swat_letindex_baseline.Schedule.Merge.Laws.{build_abstract_merge_schedule_lem}
use swat_letindex_baseline.Schedule.Merge.Planned.{
  IsBoundSide, sampled_side_lem, IsPlannedMerge, plan_swat_block_merge_schedule_lem,
}

module _ {V W : Type 0} where
  IsUnsampled-of_binding :
      (run : LogicalBlockRunView V) (plan : BlockAllocationPlan W) (side : Side)
      (bound : BoundBlockAllocation V W)
      → IsRun run
      → IsBinding run plan side bound
      → IsUnsampled bound
  IsUnsampled-of_binding run plan side bound valid binding = record {
    unsampled = binding.unsampled;
    large = rw binding.of_geometry valid.capacity_ge;
    counted =
        binding.counted ∙ sym (ap (λ (p : BlockAllocationPlan W). p.bin_count) binding.of_plan);
    ordered = binding.ordered;
  }

module _ {S W : Type 0} ⦃f : Floats W⦄ (streams : Streams S W) where
  CanDraw-same_kind :
      {T V : Type 0} (draw : T → List W → Result (Value W × T)) (before after : Option T)
      (epsilon : W) (bins : List (BoundBlockBin V))
      → IsSameKind before after
      → CanDraw streams draw before epsilon bins
      → CanDraw streams draw after epsilon bins
  CanDraw-same_kind draw none none epsilon bins h answers = answers
  CanDraw-same_kind draw (some a) (some b) epsilon bins h answers = answers
  CanDraw-same_kind draw none (some b) epsilon bins h answers = elim h [ ]
  CanDraw-same_kind draw (some a) none epsilon bins h answers = elim h [ ]

module _ {S V W : Type 0} ⦃f : Floats W⦄ (streams : Streams S W) where
  -- A side that is bound and sampled.
  IsBoundSide-returns :
      {T : Type 0} (run : LogicalBlockRunView V) (plan : BlockAllocationPlan W) (side : Side)
      (draw : T → List W → Result (Value W × T)) (sampler : Option T)
      → IsRun run
      → IsSoundPlan (length run.blocks) plan
      → IsUsable plan.config.privacy_epsilon
      → ((bound : BoundBlockAllocation V W)
          → bind_block_allocation run plan side ≡ ok bound
          → CanDraw streams draw sampler plan.config.privacy_epsilon bound.bins)
      → (bound : BoundBlockAllocation V W) × (r : BoundBlockAllocation V W × Option T)
        × (bind_block_allocation run plan side ≡ ok bound)
        × (sample_bin_interior_points streams bound draw sampler ≡ ok r)
        × IsSameKind sampler r.1
        × IsBoundSide run plan side r.0
  IsBoundSide-returns run plan side draw sampler valid sound usable answers =
      let (bound, made, binding) = bind_block_allocation_lem run plan side valid sound in
      let same =
        ap (λ (p : BlockAllocationPlan W). p.config.privacy_epsilon) (sym binding.of_plan) in
      let (r, sampled, kind) =
        sample_bin_interior_points_returns streams bound draw sampler
          (IsUnsampled-of_binding run plan side bound valid binding) (rw same at usable)
          (subst (λ e. CanDraw streams draw sampler e bound.bins) same (answers bound made)) in
      (
        bound,
        r,
        made,
        sampled,
        kind,
        Ensures-ok (λ (r : BoundBlockAllocation V W × Option _). IsBoundSide run plan side r.0)
            (sample_bin_interior_points streams bound draw sampler)
            (sampled_side_lem streams run plan side bound draw sampler binding) sampled,
      )

  -- The steps one after the other.
  all_steps :
      {T : Type 0} (source_run target_run : LogicalBlockRunView V)
      (source_plan target_plan : BlockAllocationPlan W) (draw : T → List W → Result (Value W × T))
      (sampler : Option T) (bound_s bound_t : BoundBlockAllocation V W)
      (from to : BoundBlockAllocation V W × Option T) (schedule : SwatBlockMergeSchedule V W)
      → (target_run.level == (source_run.level + 1)) ≡ true
      → (source_run.items_per_block == target_run.items_per_block) ≡ true
      → bind_block_allocation source_run source_plan source ≡ ok bound_s
      → sample_bin_interior_points streams bound_s draw sampler ≡ ok from
      → bind_block_allocation target_run target_plan target ≡ ok bound_t
      → sample_bin_interior_points streams bound_t draw from.1 ≡ ok to
      → (build_abstract_merge_schedule from.0 to.0 >>= λ reads.
          make_schedule from.0 to.0 reads (sorted_tagged_interior_points from.0 to.0))
        ≡ ok schedule
      → plan_swat_block_merge_schedule streams source_run target_run source_plan target_plan draw
          sampler
        ≡ ok schedule
  unfolding plan_swat_block_merge_schedule
  all_steps source_run target_run source_plan target_plan draw sampler bound_s bound_t from to
        schedule adjacent geometry made_s sampled_s made_t sampled_t merged =
      rw (adjacent, geometry, made_s, sampled_s, made_t, sampled_t) merged

  -- For two valid runs on adjacent levels of one geometry with sound plans of their block counts,
  -- whose epsilons are finite and positive and taken by math.exp, and a sampler that is the
  -- default one, where for each bound bin with records the weights of that many records add up to
  -- a positive number, or an injected one that answers every draw for each such bin by an index
  -- of one of its records: plan_swat_block_merge_schedule returns a schedule, which merges the
  -- two runs as planned.
  pub plan_swat_block_merge_schedule_returns :
      {T : Type 0} (source_run target_run : LogicalBlockRunView V)
      (source_plan target_plan : BlockAllocationPlan W) (draw : T → List W → Result (Value W × T))
      (sampler : Option T)
      → target_run.level ≡ source_run.level + 1
      → source_run.items_per_block ≡ target_run.items_per_block
      → IsRun source_run
      → IsRun target_run
      → IsSoundPlan (length source_run.blocks) source_plan
      → IsSoundPlan (length target_run.blocks) target_plan
      → IsUsable source_plan.config.privacy_epsilon
      → IsUsable target_plan.config.privacy_epsilon
      → ((bound : BoundBlockAllocation V W)
          → bind_block_allocation source_run source_plan source ≡ ok bound
          → CanDraw streams draw sampler source_plan.config.privacy_epsilon bound.bins)
      → ((bound : BoundBlockAllocation V W)
          → bind_block_allocation target_run target_plan target ≡ ok bound
          → CanDraw streams draw sampler target_plan.config.privacy_epsilon bound.bins)
      → (schedule : SwatBlockMergeSchedule V W) × (plan_swat_block_merge_schedule streams source_run
            target_run source_plan target_plan draw sampler
          ≡ ok schedule)
        × IsPlannedMerge source_run target_run source_plan target_plan schedule
  plan_swat_block_merge_schedule_returns source_run target_run source_plan target_plan draw sampler
        adjacent geometry valid_s valid_t sound_s sound_t usable_s usable_t answers_s answers_t =
      let (bound_s, from, made_s, sampled_s, kind, from_side) =
        IsBoundSide-returns source_run source_plan source draw sampler valid_s sound_s usable_s
          answers_s in
      let (bound_t, to, made_t, sampled_t, _, to_side) =
        IsBoundSide-returns target_run target_plan target draw from.1 valid_t sound_t usable_t
          (λ bound made.
            CanDraw-same_kind streams draw sampler from.1 target_plan.config.privacy_epsilon
              bound.bins kind (answers_t bound made)) in
      let (schedule, merged, _) =
        build_abstract_merge_schedule_lem from.0 to.0 from_side.sampled to_side.sampled in
      let planned =
        all_steps source_run target_run source_plan target_plan draw sampler bound_s bound_t from to
          schedule ((==_iff _ _).1 adjacent) ((==_iff _ _).1 geometry) made_s sampled_s made_t
          sampled_t merged in
      (
        schedule,
        planned,
        Ensures-ok (IsPlannedMerge source_run target_run source_plan target_plan)
            (plan_swat_block_merge_schedule streams source_run target_run source_plan target_plan
              draw sampler)
            (plan_swat_block_merge_schedule_lem streams source_run target_run source_plan
              target_plan draw sampler valid_s valid_t sound_s sound_t)
            planned,
      )
