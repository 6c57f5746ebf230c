-- ===== src/Examples/Pipeline.antt =====
-- The theorems on whole runs of the planner at concrete inputs.
use swat_letindex_baseline.Prelude.{
  ◌*◌, ◌-ℤ◌, ◌+ℤ◌, true, false, List, sum, zero, suc, ◌<◌, ◌^◌, ◌%◌, replicate, All, [], ◌∷◌, map,
  arith, Ensures, ℕ, ◌≡◌, refl, ℤ, pos, none, some, ok, Settles,
}
use swat_letindex_baseline.Values.{Value, int, float}
use swat_letindex_baseline.Distribution.Streams.{stream_domain_loads, derive_stream_seed}
use swat_letindex_baseline.Distribution.Streams.Bounds.{IsByte, derive_stream_seed_bounds}
use swat_letindex_baseline.Distribution.Streams.Laws.{stream_message-injective}
use swat_letindex_baseline.Allocator.Allocate.{allocate_block_bins}
use swat_letindex_baseline.Allocator.Allocate.Outcome.{IsSoundPlan}
use swat_letindex_baseline.Allocator.Allocate.Settles.{allocate_block_bins-Settles}
use swat_letindex_baseline.Schedule.Sampling.Returns.{IsUsable}
use swat_letindex_baseline.Schedule.Merge.{SwatBlockMergeSchedule, plan_swat_block_merge_schedule}
use swat_letindex_baseline.Schedule.Merge.Planned.{IsPlannedMerge}
use swat_letindex_baseline.Schedule.Merge.Returns.{plan_swat_block_merge_schedule_returns}
use swat_letindex_baseline.Schedule.Merge.Pipeline.{allocated_merge_returns}
use swat_letindex_baseline.Schedule.Merge.Ordered.{chosen_keys, interior_points-IsStrict}
use swat_letindex_baseline.Substrate.{key_lt}
use swat_letindex_baseline.Sorting.Laws.{IsStrict}
use swat_letindex_baseline.Content.Snapshot.{snapshot}
use swat_letindex_baseline.Content.RunView.{make_run_view}
use swat_letindex_baseline.Content.RunView.Complete.{IsWellFormed, make_run_view_accepts}
use swat_letindex_baseline.Distribution.Weights.{compute_weight, convolve, geom_conv}
use swat_letindex_baseline.Distribution.Weights.Convolution.{convolution, convolve_lem}
use swat_letindex_baseline.Distribution.Weights.SelfConvolution.{
  IsSelfConvolution, geom_conv-IsSelfConvolution,
}
use swat_letindex_baseline.Distribution.Weights.Shape.{IsWeights, compute_weight-IsWeights}
use mathlib.Core.List.{foldl}
use swat_letindex_baseline.Distribution.Numbers.{fast_power, fast_power_loop}
use swat_letindex_baseline.Distribution.Numbers.Power.{binary, factors, fast_power_lem}
use swat_letindex_baseline.Distribution.Weights.Returns.{geom_conv_returns}
use swat_letindex_baseline.Examples.Runtime.{
  divided, times, thousandths, counter, thousandths-CeilLogReaches,
}
use swat_letindex_baseline.Examples.Weights.{bins-AddUp}
use swat_letindex_baseline.Examples.Allocated.{
  first_record, full_load, seven_bins, allocated-seven_bins,
}
use swat_letindex_baseline.Examples.Inputs.{
  config, config-IsValidConfig, source_run, target_run, source_run-IsRun, target_run-IsRun, plan,
  plan-IsSoundPlan,
}

epsilon-IsUsable : IsUsable config.privacy_epsilon
epsilon-IsUsable = record { finite = refl; positive = refl; base = pos 368; raised = refl }

plan_swat_block_merge_schedule_returns_example :
    (schedule : SwatBlockMergeSchedule ℕ ℤ) × (plan_swat_block_merge_schedule counter source_run
        target_run plan plan first_record none
      ≡ ok schedule)
    × IsPlannedMerge source_run target_run plan plan schedule
plan_swat_block_merge_schedule_returns_example =
    plan_swat_block_merge_schedule_returns counter source_run target_run plan plan first_record none
      refl refl source_run-IsRun target_run-IsRun plan-IsSoundPlan plan-IsSoundPlan epsilon-IsUsable
      epsilon-IsUsable (λ bound _. bins-AddUp config.privacy_epsilon epsilon-IsUsable bound.bins)
      (λ bound _. bins-AddUp config.privacy_epsilon epsilon-IsUsable bound.bins)

allocated_merge_returns_example :
    (schedule : SwatBlockMergeSchedule ℕ ℤ) × (plan_swat_block_merge_schedule counter source_run
        target_run seven_bins seven_bins first_record none
      ≡ ok schedule)
    × IsPlannedMerge source_run target_run seven_bins seven_bins schedule
allocated_merge_returns_example =
    allocated_merge_returns counter source_run target_run config full_load (some 0) (some 0)
      seven_bins seven_bins first_record none refl refl source_run-IsRun target_run-IsRun
      config-IsValidConfig allocated-seven_bins allocated-seven_bins (pos 368, refl)
      (λ bound _. bins-AddUp config.privacy_epsilon epsilon-IsUsable bound.bins)
      (λ bound _. bins-AddUp config.privacy_epsilon epsilon-IsUsable bound.bins)

allocate_block_bins-Settles_example :
    Settles
      (λ p.
        (blocks : ℕ) × Path (Value ℤ) (int (pos 3)) (int (pos blocks))
        × IsSoundPlan blocks p
        × (p.config ≡ config))
      (allocate_block_bins counter (int (pos 3)) config full_load none)
allocate_block_bins-Settles_example =
    allocate_block_bins-Settles counter (int (pos 3)) config full_load none config-IsValidConfig tt
      (λ _ n _ _. thousandths-CeilLogReaches n)

stream_message-injective_example : ◌≡◌ {A = ℕ} 407 407 × (stream_domain_loads ≡ stream_domain_loads)
stream_message-injective_example =
    stream_message-injective 407 407 stream_domain_loads stream_domain_loads refl

interior_points-IsStrict_example :
    Ensures
      (λ (schedule : SwatBlockMergeSchedule ℕ ℤ).
        IsStrict key_lt (chosen_keys schedule.from.interiors)
        × IsStrict key_lt (chosen_keys schedule.to.interiors))
      (plan_swat_block_merge_schedule counter source_run target_run plan plan first_record (some 0))
interior_points-IsStrict_example =
    interior_points-IsStrict counter source_run target_run plan plan first_record (some 0)
      source_run-IsRun target_run-IsRun plan-IsSoundPlan plan-IsSoundPlan

source_run-IsWellFormed : IsWellFormed source_run
source_run-IsWellFormed = record {
  of_run = source_run-IsRun;
  capacities = (refl, (refl, tt));
  ids = ((λ e. cc, tt), (tt, tt));
}

make_run_view_accepts_example :
    make_run_view {W = ℤ} (int (pos 0)) (map snapshot source_run.blocks) (int (pos 2))
    ≡ ok source_run
make_run_view_accepts_example = make_run_view_accepts ℤ source_run source_run-IsWellFormed

compute_weight-IsWeights_example :
    Ensures
      (IsWeights (int (pos 4)) (float (pos 1000)))
      (compute_weight (int (pos 4)) (float (pos 1000)))
compute_weight-IsWeights_example = compute_weight-IsWeights (int (pos 4)) (float (pos 1000))

convolve_lem_example :
    convolve (pos 500 ∷ pos 0 ∷ pos 250 ∷ []) (pos 1000 ∷ pos 2000 ∷ [])
    ≡ ok (convolution (pos 500 ∷ pos 0 ∷ pos 250 ∷ []) (pos 1000 ∷ pos 2000 ∷ []))
convolve_lem_example = convolve_lem (pos 500 ∷ pos 0 ∷ pos 250 ∷ []) (pos 1000 ∷ pos 2000 ∷ [])

geom_conv-IsSelfConvolution_example :
    Ensures
      (IsSelfConvolution (int (pos 2)) (float (pos 1000)) (int (pos 3)))
      (geom_conv (int (pos 2)) (float (pos 1000)) (int (pos 3)))
geom_conv-IsSelfConvolution_example =
    geom_conv-IsSelfConvolution (int (pos 2)) (float (pos 1000)) (int (pos 3))

replicate-IsByte : (n b : ℕ) → IsByte b → All IsByte (replicate n b)
replicate-IsByte zero b h = tt
replicate-IsByte (suc n) b h = (h, replicate-IsByte n b h)

counter-IsByte : (message : List ℕ) → All IsByte (counter.sha256 message)
counter-IsByte message = replicate-IsByte 32 (sum message % 256) (omega arith)

derive_stream_seed_bounds_example :
    Settles (λ n. n < 2 ^ 64) (derive_stream_seed counter (int (pos 7)) stream_domain_loads)
derive_stream_seed_bounds_example =
    derive_stream_seed_bounds counter (int (pos 7)) stream_domain_loads counter-IsByte

fast_power_lem_example :
    fast_power (pos 900) (binary (true ∷ false ∷ true ∷ []))
    ≡ foldl times (pos 1000) (factors (true ∷ false ∷ true ∷ []) (pos 900))
fast_power_lem_example = fast_power_lem (pos 900) (true ∷ false ∷ true ∷ [])

centre_of_two :
    divided (pos 1000 -ℤ pos 368) (pos 1000 +ℤ pos 368 -ℤ times (pos 2000) (fast_power (pos 368) 2))
    ≡ some (pos 575)
unfolding ◌-ℤ◌ ◌+ℤ◌ fast_power fast_power_loop
centre_of_two = refl

geom_conv_returns_example :
    (pmf : List ℤ) × (geom_conv (int (pos (2 * 1))) (float (pos 1000)) (int (pos 3)) ≡ ok pmf)
    × IsSelfConvolution (int (pos (2 * 1))) (float (pos 1000)) (int (pos 3)) pmf
geom_conv_returns_example =
    geom_conv_returns 1 3 (pos 1000) (pos 368) (pos 575) (omega arith) (omega arith) refl refl refl
      centre_of_two
