-- ===== src/Schedule/Merge/Pipeline.antt =====
-- The stages one after the other: allocated runs are bound, sampled and merged.
use mathlib.Core.Path.{subst}
use swat_letindex_baseline.Prelude.{
  ℕ, ◌+◌, ◌≡◌, ap, sym, pos, List, Option, some, length, Result, ok, Ensures-ok,
}
use swat_letindex_baseline.Floats.{Floats, Streams}
use swat_letindex_baseline.Values.{Value, int}
use swat_letindex_baseline.Content.RunView.{LogicalBlockRunView}
use swat_letindex_baseline.Content.RunView.Laws.{IsRun}
use swat_letindex_baseline.Allocator.Config.{SwatBlockAllocationConfig}
use swat_letindex_baseline.Allocator.Config.Laws.{IsValidConfig}
use swat_letindex_baseline.Allocator.Plan.{BlockAllocationPlan}
use swat_letindex_baseline.Allocator.Allocate.{allocate_block_bins}
use swat_letindex_baseline.Allocator.Allocate.Outcome.{IsSoundPlan}
use swat_letindex_baseline.Allocator.Allocate.Whole.{allocate_block_bins_lem}
use swat_letindex_baseline.Schedule.Bins.{source, target}
use swat_letindex_baseline.Schedule.Allocation.{BoundBlockAllocation}
use swat_letindex_baseline.Schedule.Binding.{bind_block_allocation}
use swat_letindex_baseline.Schedule.Sampling.Returns.{IsUsable, CanDraw}
use swat_letindex_baseline.Schedule.Merge.{SwatBlockMergeSchedule, plan_swat_block_merge_schedule}
use swat_letindex_baseline.Schedule.Merge.Planned.{IsPlannedMerge}
use swat_letindex_baseline.Schedule.Merge.Returns.{plan_swat_block_merge_schedule_returns}

int-injective : (W : Type 0) (m n : ℕ) → Path (Value W) (int (pos m)) (int (pos n)) → m ≡ n
int-injective W m n e = cc

module _ {S W : Type 0} ⦃f : Floats W⦄ (streams : Streams S W) where
  -- What is known of an allocated plan.
  allocated :
      {T : Type 0} (blocks : ℕ) (config : SwatBlockAllocationConfig W)
      (sample : T → Result (Value W × T)) (sampler : Option T) (plan : BlockAllocationPlan W)
      → IsValidConfig f config
      → allocate_block_bins streams (int (pos blocks)) config sample sampler ≡ ok plan
      → IsSoundPlan blocks plan × (plan.config ≡ config)
  allocated blocks config sample sampler plan valid made =
      let (counted, asked, sound, kept) =
        Ensures-ok
          (λ (p : BlockAllocationPlan W).
            (n : ℕ) × Path (Value W) (int (pos blocks)) (int (pos n))
            × IsSoundPlan n p
            × (p.config ≡ config))
          (allocate_block_bins streams (int (pos blocks)) config sample sampler)
          (allocate_block_bins_lem streams (int (pos blocks)) config sample sampler valid) made in
      (subst (λ n. IsSoundPlan n plan) (sym (int-injective W blocks counted asked)) sound, kept)

  -- For two valid runs on adjacent levels of one geometry, plans that allocate_block_bins
  -- returned for their block counts under one valid configuration, an epsilon that math.exp
  -- takes, and a sampler that is the default one, where for each bound bin with records the
  -- weights of that many records add up to a positive number, or an injected one that answers
  -- every draw for each such bin by an index of one of its records:
  -- plan_swat_block_merge_schedule returns a schedule, which merges the two runs as planned.
  pub allocated_merge_returns :
      {V T U : Type 0} (source_run target_run : LogicalBlockRunView V)
      (config : SwatBlockAllocationConfig W) (sample : T → Result (Value W × T))
      (source_sampler target_sampler : Option T) (source_plan target_plan : BlockAllocationPlan W)
      (draw : U → List W → Result (Value W × U)) (sampler : Option U)
      → target_run.level ≡ source_run.level + 1
      → source_run.items_per_block ≡ target_run.items_per_block
      → IsRun source_run
      → IsRun target_run
      → IsValidConfig f config
      → allocate_block_bins streams
          (int (pos (length source_run.blocks)))
          config
          sample
          source_sampler
        ≡ ok source_plan
      → allocate_block_bins streams
          (int (pos (length target_run.blocks)))
          config
          sample
          target_sampler
        ≡ ok target_plan
      → (base : W) × (f.exp config.privacy_epsilon ≡ some base)
      → ((bound : BoundBlockAllocation V W)
          → bind_block_allocation source_run source_plan source ≡ ok bound
          → CanDraw streams draw sampler config.privacy_epsilon bound.bins)
      → ((bound : BoundBlockAllocation V W)
          → bind_block_allocation target_run target_plan target ≡ ok bound
          → CanDraw streams draw sampler config.privacy_epsilon bound.bins)
      → (schedule : SwatBlockMergeSchedule V W) × (plan_swat_block_merge_schedule streams source_run
            target_run source_plan target_plan draw sampler
          ≡ ok schedule)
        × IsPlannedMerge source_run target_run source_plan target_plan schedule
  allocated_merge_returns source_run target_run config sample source_sampler target_sampler
        source_plan target_plan draw sampler adjacent geometry valid_s valid_t valid made_s made_t
        (base, raised) answers_s answers_t =
      let (sound_s, kept_s) =
        allocated (length source_run.blocks) config sample source_sampler source_plan valid
          made_s in
      let (sound_t, kept_t) =
        allocated (length target_run.blocks) config sample target_sampler target_plan valid
          made_t in
      let usable : IsUsable config.privacy_epsilon = record {
        finite = valid.epsilon_finite;
        positive = valid.epsilon_positive;
        base = base;
        raised = raised;
      } in
      let epsilon_s = sym (ap (λ (c : SwatBlockAllocationConfig W). c.privacy_epsilon) kept_s) in
      let epsilon_t = sym (ap (λ (c : SwatBlockAllocationConfig W). c.privacy_epsilon) kept_t) in
      plan_swat_block_merge_schedule_returns streams source_run target_run source_plan target_plan
        draw sampler adjacent geometry valid_s valid_t sound_s sound_t
        (subst (λ e. IsUsable e) epsilon_s usable) (subst (λ e. IsUsable e) epsilon_t usable)
        (λ bound made.
          subst (λ e. CanDraw streams draw sampler e bound.bins) epsilon_s (answers_s bound made))
        (λ bound made.
          subst (λ e. CanDraw streams draw sampler e bound.bins) epsilon_t (answers_t bound made))
