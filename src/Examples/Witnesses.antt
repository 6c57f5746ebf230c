-- ===== src/Examples/Witnesses.antt =====
-- Concrete inputs at which the theorems' hypotheses hold.
use swat_letindex_baseline.Prelude.{
  ℕ, ◌+◌, ◌*◌, ◌≤◌, ◌≡◌, refl, ℤ, pos, List, [], ◌∷◌, Option, some, length, range, map, inl, inr,
  functional_oracle_error, ok, err, ◌>>=◌, arith, Ensures, Settles, content_schedule_error, true,
  false, ltb_ℤ, ◌+ℤ◌, ◌⊎◌, Follows,
}
use swat_letindex_baseline.Values.{Value, int, float}
use swat_letindex_baseline.Distribution.Weights.{geom_conv}
use swat_letindex_baseline.Distribution.Weights.Laws.{geom_conv_lem}
use swat_letindex_baseline.Distribution.Sizing.{compute_bin_capacity_blocks}
use swat_letindex_baseline.Distribution.Sizing.Laws.{IsBinCapacity, compute_bin_capacity_blocks_lem}
use swat_letindex_baseline.Distribution.Samplers.{
  GeometricLoadSampler, make_geometric, sample_geometric,
}
use swat_letindex_baseline.Distribution.Samplers.Laws.{
  IsSampler, make_geometric-IsSampler, sample_geometric_lem,
}
use swat_letindex_baseline.Allocator.Config.{make_config}
use swat_letindex_baseline.Allocator.Config.Laws.{IsValidConfig, make_config-IsValidConfig}
use swat_letindex_baseline.Allocator.Prefix.{compute_noisy_prefix_sums}
use swat_letindex_baseline.Allocator.Prefix.Laws.{compute_noisy_prefix_sums_lem}
use swat_letindex_baseline.Allocator.Prefix.Estimates.{nearest, estimates_of}
use swat_letindex_baseline.Allocator.Prefix.Window.{IsNoisyPrefix}
use swat_letindex_baseline.Allocator.Prefix.Loops.{trailing_zeros}
use swat_letindex_baseline.Allocator.Prefix.Loops.Bits.{IsLowestBit, trailing_zeros-IsLowestBit}
use swat_letindex_baseline.Allocator.Allocate.{allocate_block_bins, plan_from_loads}
use swat_letindex_baseline.Allocator.Allocate.Outcome.{
  IsSoundPlan, IsNoisyPlanOf, noise_of, plan_from_loads-IsPlanOf,
}
use swat_letindex_baseline.Allocator.Allocate.Whole.{allocate_block_bins_lem}
use swat_letindex_baseline.Content.Snapshot.{snapshot, make_snapshot}
use swat_letindex_baseline.Content.Snapshot.Laws.{IsSnapshot, make_snapshot-IsSnapshot}
use swat_letindex_baseline.Content.RunView.{make_run_view}
use swat_letindex_baseline.Content.RunView.Laws.{IsRun, make_run_view-IsRun}
use swat_letindex_baseline.Content.Interior.{draw_index}
use swat_letindex_baseline.Content.Interior.Laws.{draw_index_lem}
use swat_letindex_baseline.Schedule.Bins.{source, target, TaggedBinInteriorPoint}
use swat_letindex_baseline.Schedule.Allocation.{BoundBlockAllocation}
use swat_letindex_baseline.Schedule.Binding.{bind_block_allocation}
use swat_letindex_baseline.Schedule.Binding.Exact.{IsBinding, bind_block_allocation_lem}
use swat_letindex_baseline.Schedule.Sampling.{sample_bin_interior_points}
use swat_letindex_baseline.Schedule.Sampling.Laws.{
  IsSampled, tag_of, sample_bin_interior_points_lem,
}
use swat_letindex_baseline.Schedule.Reads.{
  PerSide, schedule_reads, sorted_tagged_interior_points, build_abstract_merge_schedule,
}
use swat_letindex_baseline.Schedule.Reads.Laws.{read_order-schedule_reads}
use swat_letindex_baseline.Schedule.Order.{read_order}
use swat_letindex_baseline.Schedule.Merge.{
  SwatBlockMergeSchedule, make_schedule, plan_swat_block_merge_schedule,
}
use swat_letindex_baseline.Schedule.Merge.Laws.{IsExactSchedule, build_abstract_merge_schedule_lem}
use swat_letindex_baseline.Schedule.Merge.Planned.{
  IsPlannedMerge, plan_swat_block_merge_schedule_lem,
}
use swat_letindex_baseline.Oracle.{
  Schedule, drain, budgets, Collected, collect_output_blocks, functional_merge_oracle,
}
use swat_letindex_baseline.Oracle.Laws.{
  IsLegal, IsCollected, collect_output_blocks_lem, functional_merge_oracle_lem,
}
use swat_letindex_baseline.Distribution.Samplers.{accumulate}
use swat_letindex_baseline.Distribution.Samplers.Boundary.{IsPicked}
use swat_letindex_baseline.Oracle.{FunctionalMergeOracleResult}
use swat_letindex_baseline.Oracle.Packing.{IsCanonicalResult, functional_merge_oracle-IsCanonical}
use swat_letindex_baseline.Oracle.Refusals.{functional_merge_oracle_refuses}
use swat_letindex_baseline.Examples.Jobs.{Pending, jobs, jobs_laws, pending-IsJob}
use swat_letindex_baseline.Examples.Runtime.{
  times, thousandths, counter, thousandths-CeilLogReaches,
}
use swat_letindex_baseline.Examples.Allocated.{first_record, full_load}
use swat_letindex_baseline.Examples.Inputs.{
  config, config-IsValidConfig, block_of, source_run, target_run, source_run-IsRun,
  target_run-IsRun, plan, plan-IsSoundPlan, at_key, sampled_at, source_side, target_side,
  source-IsSampledSide, target-IsSampledSide, block-IsSnapshot, last_block-IsSnapshot,
  loads_sampler, loads_sampler-IsSampler,
}

plan_swat_block_merge_schedule_example :
    Ensures
      (IsPlannedMerge source_run target_run plan plan)
      (plan_swat_block_merge_schedule counter source_run target_run plan plan first_record (some 0))
plan_swat_block_merge_schedule_example =
    plan_swat_block_merge_schedule_lem counter source_run target_run plan plan first_record (some 0)
      source_run-IsRun target_run-IsRun plan-IsSoundPlan plan-IsSoundPlan

allocate_block_bins_example :
    Ensures
      (λ p.
        (blocks : ℕ) × Path (Value ℤ) (int (pos 3)) (int (pos blocks))
        × IsSoundPlan blocks p
        × (p.config ≡ config))
      (allocate_block_bins counter (int (pos 3)) config full_load (some 0))
allocate_block_bins_example =
    allocate_block_bins_lem counter (int (pos 3)) config full_load (some 0) config-IsValidConfig

plan_from_loads_example :
    Follows
      (IsNoisyPlanOf 3 config 2 (2 ∷ 2 ∷ []))
      (noise_of counter config 2 (2 ∷ 2 ∷ []))
      (plan_from_loads counter 3 config 2 (pos 2000) (pos 2) (2 ∷ 2 ∷ []))
plan_from_loads_example =
    plan_from_loads-IsPlanOf counter 3 config 2 (pos 2000) (pos 2) (2 ∷ 2 ∷ []) (omega arith)
      config-IsValidConfig (omega arith) refl (omega arith, (omega arith, tt)) (omega arith)

compute_noisy_prefix_sums_example :
    Settles
      (λ (r : List ℕ × ℕ). IsNoisyPrefix 2 (1 ∷ 2 ∷ []) r.0 r.1)
      (compute_noisy_prefix_sums counter
        (map (λ l. int (pos l)) (1 ∷ 2 ∷ []))
        (float (pos 1000))
        (int (pos 2))
        (record { stream = 5 }))
    × Follows
        (λ (estimates : List ℕ) (r : List ℕ × ℕ). r.0 ≡ 0 ∷ nearest 2 0 0 (1 ∷ 2 ∷ []) estimates)
        (estimates_of counter (pos 1000) (1 ∷ 2 ∷ []) (record { stream = 5 }))
        (compute_noisy_prefix_sums counter
          (map (λ l. int (pos l)) (1 ∷ 2 ∷ []))
          (float (pos 1000))
          (int (pos 2))
          (record { stream = 5 }))
compute_noisy_prefix_sums_example =
    compute_noisy_prefix_sums_lem counter (pos 1000) 2 (1 ∷ 2 ∷ []) (record { stream = 5 }) refl
      refl (omega arith) (omega arith, (omega arith, tt)) (thousandths-CeilLogReaches 2)

bind_block_allocation_example :
    (bound : BoundBlockAllocation ℕ ℤ) × (bind_block_allocation source_run plan source ≡ ok bound)
    × IsBinding source_run plan source bound
bind_block_allocation_example =
    bind_block_allocation_lem source_run plan source source_run-IsRun plan-IsSoundPlan

make_run_view_example :
    Ensures IsRun
      (make_run_view {W = ℤ} (int (pos 0)) (map snapshot source_run.blocks) (int (pos 2)))
make_run_view_example =
    make_run_view-IsRun {W = ℤ} (int (pos 0)) (map snapshot source_run.blocks) (int (pos 2))
      (block-IsSnapshot, (last_block-IsSnapshot, tt))

abbrev two_each : PerSide
two_each = record { of_source = 2; of_target = 1 }

abbrev points : List TaggedBinInteriorPoint
points = tag_of target 0 (at_key 1) ∷ tag_of source 0 (at_key 3) ∷ tag_of source 1 (at_key 8) ∷ []

read_order-schedule_reads_example : read_order source (schedule_reads two_each points) ≡ range 0 2
read_order-schedule_reads_example = read_order-schedule_reads two_each points source (omega arith)

compute_bin_capacity_blocks_example :
    Settles IsBinCapacity
      (compute_bin_capacity_blocks (int (pos 2)) (float (pos 1000)) (float (pos 10)) (int (pos 1)))
compute_bin_capacity_blocks_example =
    compute_bin_capacity_blocks_lem (int (pos 2)) (float (pos 1000)) (float (pos 10)) (int (pos 1))

geom_conv_example :
    Settles
      (λ (pmf : List ℤ).
        (c : ℕ) × (n : ℕ) × Path (Value ℤ) (int (pos 2)) (int (pos c))
        × Path (Value ℤ) (int (pos 3)) (int (pos n))
        × (length pmf ≡ c * n + 1))
      (geom_conv (int (pos 2)) (float (pos 1000)) (int (pos 3)))
geom_conv_example = geom_conv_lem (int (pos 2)) (float (pos 1000)) (int (pos 3))

build_abstract_merge_schedule_example :
    (schedule : SwatBlockMergeSchedule ℕ ℤ) × ((build_abstract_merge_schedule
          (sampled_at source_side 3 8)
          (sampled_at target_side 1 6)
        >>= λ reads. make_schedule (sampled_at source_side 3 8) (sampled_at target_side 1 6) reads (
            sorted_tagged_interior_points
              (sampled_at source_side 3 8)
              (sampled_at target_side 1 6)))
      ≡ ok schedule)
    × IsExactSchedule (sampled_at source_side 3 8) (sampled_at target_side 1 6) schedule
build_abstract_merge_schedule_example =
    build_abstract_merge_schedule_lem (sampled_at source_side 3 8) (sampled_at target_side 1 6)
      source-IsSampledSide target-IsSampledSide

sample_bin_interior_points_example :
    Ensures
      (λ (r : BoundBlockAllocation ℕ ℤ × Option ℕ). IsSampled source_side r.0)
      (sample_bin_interior_points counter source_side first_record (some 0))
sample_bin_interior_points_example =
    sample_bin_interior_points_lem counter source_side first_record (some 0)

sample_geometric_example :
    (r : ℕ × GeometricLoadSampler ℕ ℤ) × (sample_geometric counter loads_sampler ≡ ok r)
    × (r.0 ≤ 2)
    × IsSampler r.1
    × (r.1.bin_capacity_blocks ≡ 2)
sample_geometric_example = sample_geometric_lem counter loads_sampler loads_sampler-IsSampler

make_geometric_example :
    Ensures
      (λ (sampler : GeometricLoadSampler ℕ ℤ).
        IsSampler sampler × Path (Value ℤ) (int (pos 2)) (int (pos sampler.bin_capacity_blocks)))
      (make_geometric counter (int (pos 2)) (float (pos 1000)) (int (pos 7)) (97 ∷ []))
make_geometric_example =
    make_geometric-IsSampler counter (int (pos 2)) (float (pos 1000)) (int (pos 7)) (97 ∷ [])

draw_index_example :
    ((ltb_ℤ (pos 0) (pos 503) ≡ true)
      × (index : ℕ) × (draw_index counter 4 (pos 368 ∷ pos 135 ∷ [])
          ≡ ok (index, (counter.random 4).1))
      × IsPicked 2 (pos 368 ∷ pos 503 ∷ []) (times (counter.random 4).0 (pos 503)) index)
    ⊎ ((ltb_ℤ (pos 0) (pos 503) ≡ false)
        × (draw_index counter 4 (pos 368 ∷ pos 135 ∷ []) ≡ err content_schedule_error))
unfolding ◌+ℤ◌ accumulate
draw_index_example = draw_index_lem counter 4 (pos 368 ∷ pos 135 ∷ []) (pos 503) (omega arith) refl

trailing_zeros_example : (i : ℕ) × (trailing_zeros 12 ≡ ok i) × IsLowestBit 12 i
trailing_zeros_example = trailing_zeros-IsLowestBit 12 (omega arith)

make_config_example :
    Ensures
      (IsValidConfig thousandths)
      (make_config (int (pos 2)) (float (pos 1000)) (float (pos 10)) (int (pos 7)))
make_config_example =
    make_config-IsValidConfig (int (pos 2)) (float (pos 1000)) (float (pos 10)) (int (pos 7))

make_snapshot_example : Ensures IsSnapshot (
    make_snapshot {W = ℤ}
      (record { value = pos 1 })
      (int (pos 2))
      (block_of 1 (3 ∷ 5 ∷ [])).records)
make_snapshot_example =
    make_snapshot-IsSnapshot {W = ℤ} (record { value = pos 1 }) (int (pos 2))
      (block_of 1 (3 ∷ 5 ∷ [])).records

-- Budgets that are plain positive ints.
abbrev two_then_one : Schedule ℤ
two_then_one = budgets (int (pos 2) ∷ int (pos 1) ∷ [])

abbrev legal : IsLegal two_then_one
legal = ((2, refl, omega arith), ((1, refl, omega arith), tt))

abbrev three_blocks : Pending
three_blocks = (
  record { rank = 0; keys = record { value = pos 1 } ∷ []; values = 1 ∷ [] }
      ∷ record { rank = 1; keys = record { value = pos 4 } ∷ []; values = 4 ∷ [] }
      ∷ record { rank = 2; keys = record { value = pos 6 } ∷ []; values = 6 ∷ [] }
      ∷ [],
  3,
)

collect_output_blocks_example :
    (c : Collected Pending ℕ) × (collect_output_blocks jobs three_blocks two_then_one ≡ ok c)
    × IsCollected jobs jobs_laws three_blocks c
collect_output_blocks_example =
    collect_output_blocks_lem jobs jobs_laws three_blocks two_then_one (pending-IsJob three_blocks)
      legal

functional_merge_oracle_example :
    functional_merge_oracle jobs
      (0, 3 ∷ 5 ∷ [])
      (1, 1 ∷ 5 ∷ 9 ∷ [])
      (int (pos 1))
      (int (pos 2))
      drain
    ≡ functional_merge_oracle jobs
        (0, 3 ∷ 5 ∷ [])
        (1, 1 ∷ 5 ∷ 9 ∷ [])
        (int (pos 1))
        (int (pos 2))
        two_then_one
functional_merge_oracle_example =
    functional_merge_oracle_lem jobs jobs_laws (0, 3 ∷ 5 ∷ []) (1, 1 ∷ 5 ∷ 9 ∷ []) (int (pos 1))
      (int (pos 2)) drain two_then_one tt legal

functional_merge_oracle-IsCanonical_example :
    Ensures
      (λ (r : FunctionalMergeOracleResult ℕ ℕ). (1 ≡ 0 + 1) × IsCanonicalResult r)
      (functional_merge_oracle jobs
        (0, 3 ∷ 5 ∷ [])
        (1, 1 ∷ 5 ∷ 9 ∷ [])
        (int (pos 1))
        (int (pos 2))
        two_then_one)
functional_merge_oracle-IsCanonical_example =
    functional_merge_oracle-IsCanonical jobs (0, 3 ∷ 5 ∷ []) (1, 1 ∷ 5 ∷ 9 ∷ []) (int (pos 1))
      (int (pos 2)) two_then_one

functional_merge_oracle_refuses_example :
    functional_merge_oracle jobs
      (0, 3 ∷ [])
      (1, 5 ∷ [])
      (int (pos 1))
      (int (pos 2))
      (budgets (int (pos 2) ∷ int (pos 0) ∷ []))
    ≡ err functional_oracle_error
functional_merge_oracle_refuses_example =
    functional_merge_oracle_refuses jobs (0, 3 ∷ []) (1, 5 ∷ []) (int (pos 1)) (int (pos 2))
      (budgets (int (pos 2) ∷ int (pos 0) ∷ [])) (inr (_, refl, inr (inl (λ n e. cc))))
