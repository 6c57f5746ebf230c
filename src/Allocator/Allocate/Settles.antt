-- ===== src/Allocator/Allocate/Settles.antt =====
-- `allocate_block_bins` ends: it returns a plan or raises.
use swat_letindex_baseline.Prelude.{
  All, length, ap, ◌∙◌, Follows-Settles, ℕ, ◌≤◌, ◌<◌, ◌≡◌, ℤ, pos, pos_part, List, Option, inl, inr,
  AnyValue, Settles-of_Ensures, Bool-cases, sum, ltb, ltb→lt, ltb→ge, ◌==◌, block_allocation_error,
  Result, ok, ◌>>=◌, Settles, Settles-bind, Settles-then, Settles-any,
}
use swat_letindex_baseline.Floats.{Floats, Streams, CeilLogReaches}
use swat_letindex_baseline.Values.{Value, int, float, require_nat}
use swat_letindex_baseline.Values.Laws.{require_nat-Settles}
use swat_letindex_baseline.Distribution.Numbers.{atomic_bucket_capacity_blocks}
use swat_letindex_baseline.Distribution.Sizing.{compute_bin_capacity_blocks}
use swat_letindex_baseline.Distribution.Sizing.Laws.{IsBinCapacity, compute_bin_capacity_blocks_lem}
use swat_letindex_baseline.Distribution.Streams.{stream_domain_laplace}
use swat_letindex_baseline.Distribution.Samplers.{make_laplace}
use swat_letindex_baseline.Distribution.Samplers.Laws.{make_laplace-Settles}
use swat_letindex_baseline.Allocator.Config.{
  SwatBlockAllocationConfig, compute_factor, compute_bin_count,
}
use swat_letindex_baseline.Allocator.Config.Laws.{IsValidConfig}
use swat_letindex_baseline.Allocator.Prefix.Laws.{compute_noisy_prefix_sums_lem}
use swat_letindex_baseline.Allocator.Allocate.{
  sampled_loads_of, plan_from_loads, allocate_block_bins,
}
use swat_letindex_baseline.Allocator.Allocate.Outcome.{
  IsSoundPlan, IsNoisyPlanOf, noise_of, count_of_enough, plan_from_loads-IsPlanOf,
  plan_from_loads_short, empty_plan_lem,
}
use swat_letindex_baseline.Allocator.Allocate.Whole.{
  AreLoads, not_zero, sampled_loads_of_lem, allocate_block_bins_lem,
}
use swat_letindex_baseline.Allocator.Allocate.Steps.{
  IsTame, compute_factor-Settles, compute_bin_count-Settles, sampled_loads_of-Settles,
}

module _ {W : Type 0} ⦃f : Floats W⦄ where
  -- The number of bins that allocate_block_bins computes for a block count.
  abbrev pub bin_count_of : SwatBlockAllocationConfig W → ℕ → Result ℤ
  bin_count_of config blocks = do
    capacity ←
        compute_bin_capacity_blocks (int (pos config.security_lambda))
          (float config.privacy_epsilon) (float config.privacy_delta)
          (int (pos atomic_bucket_capacity_blocks))
    factor ← compute_factor {W = W} (int (pos config.security_lambda)) (int (pos capacity))
    compute_bin_count (float factor) (int (pos blocks))

module _ {S W : Type 0} ⦃f : Floats W⦄ (streams : Streams S W) where
  noise_of-Settles :
      (config : SwatBlockAllocationConfig W) (capacity : ℕ) (loads : List ℕ)
      → IsValidConfig f config
      → 2 ≤ capacity
      → All (λ l. l ≤ capacity) loads
      → CeilLogReaches f (length loads)
      → Settles AnyValue (noise_of streams config capacity loads)
  noise_of-Settles config capacity loads valid large within law =
      Settles-then AnyValue (make_laplace streams (int (pos config.seed)) stream_domain_laplace) _
        (make_laplace-Settles streams (int (pos config.seed)) stream_domain_laplace)
        (λ laplace.
          Settles-any _ _
            (compute_noisy_prefix_sums_lem streams config.privacy_epsilon capacity loads laplace
              valid.epsilon_finite valid.epsilon_positive large within law).0)

  plan_from_loads-Settles :
      (blocks : ℕ) (config : SwatBlockAllocationConfig W) (capacity : ℕ) (factor : W)
      (bin_count : ℤ) (loads : List ℕ)
      → 0 < blocks
      → IsValidConfig f config
      → 2 ≤ capacity
      → AreLoads capacity (pos_part bin_count) loads
      → ((n : ℕ) → bin_count ≡ pos n → CeilLogReaches f n)
      → Settles AnyValue (plan_from_loads streams blocks config capacity factor bin_count loads)
  plan_from_loads-Settles blocks config capacity factor bin_count loads p valid large
        (count, within) law =
      elim (Bool-cases (ltb (sum loads) blocks)) [
        | inl short ↦
            rw
              (plan_from_loads_short streams blocks config capacity factor bin_count loads
                (ltb→lt _ _ short))
              tt
        | inr enough ↦
            let fits = ltb→ge _ _ enough in
            Follows-Settles (IsNoisyPlanOf blocks config capacity loads)
              (noise_of streams config capacity loads)
              (plan_from_loads streams blocks config capacity factor bin_count loads)
              (plan_from_loads-IsPlanOf streams blocks config capacity factor bin_count loads p
                valid large count within fits)
              (noise_of-Settles config capacity loads valid large within
                (law (length loads) (count_of_enough blocks bin_count loads p count fits)))
      ]

  full_plan-Settles :
      {T : Type 0} (blocks : ℕ) (config : SwatBlockAllocationConfig W)
      (sample : T → Result (Value W × T)) (sampler : Option T) (capacity : ℕ) (factor : W)
      (bin_count : ℤ)
      → 0 < blocks
      → IsValidConfig f config
      → 2 ≤ capacity
      → IsTame sample sampler
      → ((n : ℕ) → bin_count ≡ pos n → CeilLogReaches f n)
      → Settles AnyValue (
          sampled_loads_of streams sample sampler config capacity (pos_part bin_count) >>= λ loads.
          plan_from_loads streams blocks config capacity factor bin_count loads)
  full_plan-Settles blocks config sample sampler capacity factor bin_count p valid large tame law =
      let drawn = sampled_loads_of streams sample sampler config capacity (pos_part bin_count) in
      Settles-bind (AreLoads capacity (pos_part bin_count)) AnyValue drawn _
        (Settles-of_Ensures (AreLoads capacity (pos_part bin_count)) drawn
          (sampled_loads_of_lem streams sample sampler config capacity (pos_part bin_count))
          (sampled_loads_of-Settles streams sample sampler config capacity (pos_part bin_count)
            tame))
        (λ loads _ fit.
          plan_from_loads-Settles blocks config capacity factor bin_count loads p valid large fit
            law)

  -- Under a valid configuration, with a runtime whose rounded-up base-2 logarithm, at the number
  -- of bins that is computed for the block count, reaches that number plus one, and with the
  -- default sampler or one that raises no IndexError: allocate_block_bins ends, and either
  -- returns a sound plan of the block count that was asked for with the given configuration, or
  -- raises, but no IndexError.
  pub allocate_block_bins-Settles :
      {T : Type 0} (block_count : Value W) (config : SwatBlockAllocationConfig W)
      (sample : T → Result (Value W × T)) (sampler : Option T)
      → IsValidConfig f config
      → IsTame sample sampler
      → ((blocks n : ℕ)
          → block_count ≡ int (pos blocks)
          → bin_count_of config blocks ≡ ok (pos n)
          → CeilLogReaches f n)
      → Settles
          (λ plan.
            (blocks : ℕ) × (block_count ≡ int (pos blocks))
            × IsSoundPlan blocks plan
            × (plan.config ≡ config))
          (allocate_block_bins streams block_count config sample sampler)
  unfolding allocate_block_bins
  allocate_block_bins-Settles block_count config sample sampler valid tame law =
      let sized =
        compute_bin_capacity_blocks (int (pos config.security_lambda))
          (float config.privacy_epsilon) (float config.privacy_delta)
          (int (pos atomic_bucket_capacity_blocks)) in
      Settles-of_Ensures _ (allocate_block_bins streams block_count config sample sampler)
        (allocate_block_bins_lem streams block_count config sample sampler valid)
        (Settles-bind (λ n. (block_count ≡ int (pos n)) × (0 ≤ n)) AnyValue
          (require_nat block_allocation_error block_count 0) _
          (require_nat-Settles block_allocation_error block_count 0 tt)
          (λ blocks _ (asked, _).
            Settles-bind IsBinCapacity AnyValue sized _
              (compute_bin_capacity_blocks_lem (int (pos config.security_lambda))
                (float config.privacy_epsilon) (float config.privacy_delta)
                (int (pos atomic_bucket_capacity_blocks)))
              (λ capacity made_capacity fit.
                Settles-bind AnyValue AnyValue
                  (compute_factor (int (pos config.security_lambda)) (int (pos capacity))) _
                  (compute_factor-Settles (int (pos config.security_lambda)) (int (pos capacity)))
                  (λ factor made_factor _.
                    Settles-bind AnyValue AnyValue
                      (compute_bin_count (float factor) (int (pos blocks))) _
                      (compute_bin_count-Settles (float factor) (int (pos blocks)))
                      (λ bin_count made_count _. elim (Bool-cases (blocks == 0)) [
                        | inl empty ↦
                            let (plan, made, _) = empty_plan_lem capacity factor config fit.0 in
                            rw (empty, made) tt
                        | inr full ↦ rw full (
                            full_plan-Settles blocks config sample sampler capacity factor bin_count
                              (not_zero blocks full) valid fit.0 tame
                              (λ n e.
                                law blocks n asked
                                  (rw (made_capacity, made_factor) (made_count ∙ ap ok e))))
                      ])))))
