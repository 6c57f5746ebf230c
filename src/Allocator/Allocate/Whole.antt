-- ===== src/Allocator/Allocate/Whole.antt =====
-- `allocate_block_bins` as a whole.
use swat_letindex_baseline.Prelude.{
  ℕ, ◌≤◌, ◌<◌, ◌≡◌, ap, ◌∙◌, ℤ, pos, pos_part, List, Option, none, some, false, inl, inr,
  Bool-cases, arith, length, sum, All, ltb, ltb→lt, ltb→ge, ◌==◌, ==_iff, block_allocation_error,
  Result, Ensures, Ensures-bind, Ensures-then, Ensures-map, Ensures-of_Settles, Follows-Ensures,
}
use swat_letindex_baseline.Floats.{Floats, Streams}
use swat_letindex_baseline.Values.{Value, int, float, require_nat}
use swat_letindex_baseline.Values.Laws.{require_nat_inv}
use swat_letindex_baseline.Distribution.Numbers.{atomic_bucket_capacity_blocks}
use swat_letindex_baseline.Distribution.Sizing.{compute_bin_capacity_blocks}
use swat_letindex_baseline.Distribution.Sizing.Laws.{IsBinCapacity, compute_bin_capacity_blocks_lem}
use swat_letindex_baseline.Distribution.Streams.{stream_domain_loads}
use swat_letindex_baseline.Distribution.Samplers.{make_geometric}
use swat_letindex_baseline.Allocator.Config.{
  SwatBlockAllocationConfig, compute_factor, compute_bin_count,
}
use swat_letindex_baseline.Allocator.Config.Laws.{IsValidConfig}
use swat_letindex_baseline.Allocator.Plan.{BlockAllocationPlan}
use swat_letindex_baseline.Allocator.Allocate.{
  geometric_draw, sampled_loads_of, plan_from_loads, allocate_block_bins,
}
use swat_letindex_baseline.Allocator.Allocate.Loads.{draw_loads_lem}
use swat_letindex_baseline.Allocator.Allocate.Outcome.{
  IsSoundPlan, IsNoisyPlanOf, noise_of, plan_from_loads-IsPlanOf, plan_from_loads_short,
  empty_plan_lem,
}

abbrev pub AreLoads : ℕ → ℕ → List ℕ → Type 0
AreLoads capacity count loads = (length loads ≡ count) × All (λ l. l ≤ capacity) loads

pub not_zero : (n : ℕ) → (n == 0) ≡ false → 0 < n
not_zero n h = ground arith

module _ {S W : Type 0} ⦃f : Floats W⦄ (streams : Streams S W) where
  pub sampled_loads_of_lem :
      {T : Type 0} (sample : T → Result (Value W × T)) (sampler : Option T)
      (config : SwatBlockAllocationConfig W) (capacity count : ℕ)
      → Ensures
          (AreLoads capacity count)
          (sampled_loads_of streams sample sampler config capacity count)
  unfolding sampled_loads_of
  sampled_loads_of_lem sample none config capacity count =
      Ensures-then (AreLoads capacity count)
        (make_geometric streams (int (pos capacity)) (float config.privacy_epsilon)
          (int (pos config.seed)) stream_domain_loads)
        _ (λ sampler _. draw_loads_lem (geometric_draw streams) capacity count sampler)
  sampled_loads_of_lem sample (some sampler) config capacity count =
      draw_loads_lem sample capacity count sampler

  planned :
      (blocks : ℕ) (config : SwatBlockAllocationConfig W) (capacity : ℕ) (factor : W)
      (bin_count : ℤ) (loads : List ℕ)
      → 0 < blocks
      → IsValidConfig f config
      → 2 ≤ capacity
      → AreLoads capacity (pos_part bin_count) loads
      → Ensures
          (λ plan. IsSoundPlan blocks plan × (plan.config ≡ config))
          (plan_from_loads streams blocks config capacity factor bin_count loads)
  planned blocks config capacity factor bin_count loads p valid large (count, within) =
      elim (Bool-cases (ltb (sum loads) blocks)) [
        | inl short ↦
            rw
              (plan_from_loads_short streams blocks config capacity factor bin_count loads
                (ltb→lt _ _ short))
              tt
        | inr enough ↦
            Follows-Ensures (IsNoisyPlanOf blocks config capacity loads)
              (λ plan. IsSoundPlan blocks plan × (plan.config ≡ config))
              (noise_of streams config capacity loads)
              (plan_from_loads streams blocks config capacity factor bin_count loads)
              (plan_from_loads-IsPlanOf streams blocks config capacity factor bin_count loads p
                valid large count within (ltb→ge _ _ enough))
              (λ noisy plan h. (h.0.0, h.0.2))
      ]

  -- Under a valid configuration, whatever the runtime's float operations, and whatever a load
  -- sampler returns or raises, a plan that allocate_block_bins returns is sound for the block
  -- count that was asked for, which is an int that is not negative, and carries the given
  -- configuration.
  pub allocate_block_bins_lem :
      {T : Type 0} (block_count : Value W) (config : SwatBlockAllocationConfig W)
      (sample : T → Result (Value W × T)) (sampler : Option T)
      → IsValidConfig f config
      → Ensures
          (λ plan.
            (blocks : ℕ) × (block_count ≡ int (pos blocks))
            × IsSoundPlan blocks plan
            × (plan.config ≡ config))
          (allocate_block_bins streams block_count config sample sampler)
  unfolding allocate_block_bins
  allocate_block_bins_lem block_count config sample sampler valid =
      let P = λ (plan : BlockAllocationPlan W).
        (blocks : ℕ) × (block_count ≡ int (pos blocks))
        × IsSoundPlan blocks plan
        × (plan.config ≡ config) in
      Ensures-then P (require_nat block_allocation_error block_count 0) _ (λ blocks accepted.
        let asked = (require_nat_inv block_allocation_error block_count 0 blocks accepted).0 in
        Ensures-bind IsBinCapacity P
          (compute_bin_capacity_blocks (int (pos config.security_lambda))
            (float config.privacy_epsilon) (float config.privacy_delta)
            (int (pos atomic_bucket_capacity_blocks)))
          _
          (Ensures-of_Settles IsBinCapacity
            (compute_bin_capacity_blocks (int (pos config.security_lambda))
              (float config.privacy_epsilon) (float config.privacy_delta)
              (int (pos atomic_bucket_capacity_blocks)))
            (compute_bin_capacity_blocks_lem (int (pos config.security_lambda))
              (float config.privacy_epsilon) (float config.privacy_delta)
              (int (pos atomic_bucket_capacity_blocks))))
          (λ capacity _ fit.
            Ensures-then P (compute_factor (int (pos config.security_lambda)) (int (pos capacity)))
              _
              (λ factor _.
                Ensures-then P (compute_bin_count (float factor) (int (pos blocks))) _
                  (λ bin_count _. elim (Bool-cases (blocks == 0)) [
                    | inl empty ↦ rw empty (
                        let z = (==_iff blocks 0).0 empty in
                        let (plan, made, sound) = empty_plan_lem capacity factor config fit.0 in
                        rw made (0, asked ∙ ap (λ n. int (pos n)) z, sound.0, sound.2))
                    | inr full ↦ rw full (
                        Ensures-bind (AreLoads capacity (pos_part bin_count)) P
                          (sampled_loads_of streams sample sampler config capacity
                            (pos_part bin_count))
                          _
                          (sampled_loads_of_lem sample sampler config capacity (pos_part bin_count))
                          (λ loads _ drawn.
                            Ensures-map (λ plan. IsSoundPlan blocks plan × (plan.config ≡ config)) P
                              (plan_from_loads streams blocks config capacity factor bin_count
                                loads)
                              (planned blocks config capacity factor bin_count loads
                                (not_zero blocks full) valid fit.0 drawn)
                              (λ plan _ h. (blocks, asked, h.0, h.1))))
                  ]))))
