-- ===== src/Allocator/Allocate.antt =====
-- bin_allocator.py: `allocate_block_bins`.
pub mod Loads
pub mod Bins
pub mod Outcome
pub mod Whole
pub mod Steps
pub mod Settles
use swat_letindex_baseline.Prelude.{
  ℕ, zero, suc, ◌+◌, ◌-◌, ℤ, pos, pos_part, sub_ℕ, List, [], ◌∷◌, Option, none, some, map, sum, ltb,
  ◌==◌, min, if◌then◌else◌, block_allocation_error, insufficient_sampled_capacity, Result, ok, err,
  ◌>>=◌, ◌>>◌, refuse_if,
}
use swat_letindex_baseline.Floats.{Floats, Streams}
use swat_letindex_baseline.Values.{Value, int, float, require_nat}
use swat_letindex_baseline.Distribution.Numbers.{atomic_bucket_capacity_blocks}
use swat_letindex_baseline.Distribution.Sizing.{compute_bin_capacity_blocks}
use swat_letindex_baseline.Distribution.Streams.{stream_domain_loads, stream_domain_laplace}
use swat_letindex_baseline.Distribution.Samplers.{
  GeometricLoadSampler, make_geometric, sample_geometric, make_laplace,
}
use swat_letindex_baseline.Allocator.Config.{
  SwatBlockAllocationConfig, compute_factor, compute_bin_count,
}
use swat_letindex_baseline.Allocator.Prefix.{compute_noisy_prefix_sums}
use swat_letindex_baseline.Allocator.Plan.{
  BlockBinPlan, make_bin_plan, BlockAllocationPlan, make_allocation_plan,
}

module _ {W : Type 0} where
  -- `_require_load`
  unfoldable pub require_load : Value W → ℕ → Result ℕ
  require_load value capacity = do
    load ← require_nat block_allocation_error value 0
    refuse_if (ltb capacity load) block_allocation_error
    ok load

  -- The generator over `range(bin_count)`, for a sampler with state `T` whose `sample()` may return
  -- any value or raise.
  unfoldable pub draw_loads :
      {T : Type 0} → (T → Result (Value W × T)) → ℕ → ℕ → T → Result (List ℕ)
  unfolding require_load
  draw_loads sample capacity zero state = ok []
  draw_loads sample capacity (suc rounds) state = do
    drawn ← sample state
    load ← require_load drawn.0 capacity
    rest ← draw_loads sample capacity rounds drawn.1
    ok (load ∷ rest)

-- `for index, load in enumerate(sampled_loads)`. The bins never take more blocks than there are, so the
-- subtraction does not stop at 0.
unfoldable pub plan_bins : (W : Type 0) → ℕ → ℕ → ℕ → ℕ → List ℕ → Result (List BlockBinPlan)
plan_bins W blocks capacity index consumed [] = ok []
plan_bins W blocks capacity index consumed (load ∷ loads) = do
  let real = min load (blocks - consumed)
  bin ←
      make_bin_plan {W = W} (int (pos index)) (int (pos consumed)) (int (pos (consumed + real)))
        (int (pos load)) (int (pos real)) (int (sub_ℕ capacity real)) (int (pos capacity))
  rest ← plan_bins W blocks capacity (index + 1) (consumed + real) loads
  ok (bin ∷ rest)

module _ {S W : Type 0} ⦃f : Floats W⦄ (streams : Streams S W) where
  -- The default sampler's `sample()`.
  unfoldable pub geometric_draw :
      GeometricLoadSampler S W → Result (Value W × GeometricLoadSampler S W)
  geometric_draw sampler = do
    drawn ← sample_geometric streams sampler
    ok (int (pos drawn.0), drawn.1)

  -- The loads of an injected sampler, given by its `sample()` and its state, or of the default one.
  unfoldable pub sampled_loads_of :
      {T : Type 0}
      → (T → Result (Value W × T))
      → Option T
      → SwatBlockAllocationConfig W
      → ℕ
      → ℕ
      → Result (List ℕ)
  sampled_loads_of sample none config capacity bin_count = do
    sampler ←
        make_geometric streams (int (pos capacity)) (float config.privacy_epsilon)
          (int (pos config.seed)) stream_domain_loads
    draw_loads geometric_draw capacity bin_count sampler
  sampled_loads_of sample (some sampler) config capacity bin_count =
      draw_loads sample capacity bin_count sampler

  -- What follows the drawn loads: the capacity check, the noisy prefix sums, the bins and the plan.
  unfoldable pub plan_from_loads :
      ℕ → SwatBlockAllocationConfig W → ℕ → W → ℤ → List ℕ → Result (BlockAllocationPlan W)
  plan_from_loads blocks config capacity factor bin_count loads =
      if ltb (sum loads) blocks
      then err (
          insufficient_sampled_capacity (record {
            block_count = blocks;
            sampled_capacity = sum loads;
            bin_count = bin_count;
            bin_capacity_blocks = capacity;
            seed = config.seed;
          }))
      else do
        laplace ← make_laplace streams (int (pos config.seed)) stream_domain_laplace
        noisy ←
            compute_noisy_prefix_sums streams (map (λ load. int (pos load)) loads)
              (float config.privacy_epsilon) (int (pos capacity)) laplace
        bins ← plan_bins W blocks capacity 0 0 loads
        make_allocation_plan (int (pos blocks)) (int (pos capacity)) (int bin_count) factor bins
            loads noisy.0 (int (pos noisy.1)) config

  unfoldable pub allocate_block_bins :
      {T : Type 0}
      → Value W
      → SwatBlockAllocationConfig W
      → (T → Result (Value W × T))
      → Option T
      → Result (BlockAllocationPlan W)
  unfolding sampled_loads_of plan_from_loads
  allocate_block_bins block_count config sample load_sampler = do
    blocks ← require_nat block_allocation_error block_count 0
    capacity ←
        compute_bin_capacity_blocks (int (pos config.security_lambda))
          (float config.privacy_epsilon) (float config.privacy_delta)
          (int (pos atomic_bucket_capacity_blocks))
    factor ← compute_factor (int (pos config.security_lambda)) (int (pos capacity))
    bin_count ← compute_bin_count (float factor) (int (pos blocks))
    if blocks == 0
        then make_allocation_plan (int (pos 0)) (int (pos capacity)) (int (pos 0)) factor [] []
            (0 ∷ []) (int (pos 0)) config
        else do
          loads ← sampled_loads_of sample load_sampler config capacity (pos_part bin_count)
          plan_from_loads blocks config capacity factor bin_count loads
