-- ===== src/Allocator/Allocate/Outcome.antt =====
-- What the allocator returns for the loads that were drawn: a sound plan, or the shortfall.
use swat_letindex_baseline.Prelude.{
  ℕ, ◌+◌, ◌*◌, ◌≤◌, ◌<◌, ◌≡◌, refl, ap, ◌∙◌, sym, ℤ, pos, negsuc, pos_part, List, [], ◌∷◌, arith,
  length, sum, range, count_up, All, length-map, ==_refl, lt→ltb, ge→ltb, block_allocation_error,
  insufficient_sampled_capacity, map, Result, ok, err, ◌>>=◌, Ensures-ok, Follows, Follows-then,
  Follows-returns,
}
use swat_letindex_baseline.Floats.{Floats, Streams}
use swat_letindex_baseline.Values.{int, float}
use swat_letindex_baseline.Values.Laws.{require_nat_accepts}
use swat_letindex_baseline.Distribution.Streams.{stream_domain_laplace}
use swat_letindex_baseline.Distribution.Samplers.{make_laplace}
use swat_letindex_baseline.Allocator.Prefix.{compute_noisy_prefix_sums}
use swat_letindex_baseline.Allocator.Prefix.Window.{compute_noisy_prefix_sums-IsNoisyPrefix}
use swat_letindex_baseline.Allocator.Config.{SwatBlockAllocationConfig}
use swat_letindex_baseline.Allocator.Config.Laws.{IsValidConfig}
use swat_letindex_baseline.Allocator.Prefix.Window.{IsNoisyPrefix, IsNoisyPrefix-length}
use swat_letindex_baseline.Allocator.Plan.{
  BlockBinPlan, BlockAllocationPlan, make_allocation_plan, planned_slots, dummy_total,
  covered_ranks,
}
use swat_letindex_baseline.Allocator.Plan.Cover.{IsRow, real_total, IsRow-bin_ranks, IsRow-slots}
use swat_letindex_baseline.Allocator.Allocate.{plan_from_loads}
use swat_letindex_baseline.Allocator.Allocate.Bins.{
  loads_of, IsGreedy, IsGreedy-real_total, plan_bins_lem,
}

-- A sound plan of `blocks` blocks: its bins are a row from rank 0 that covers every rank once and in
-- order, each bin takes what its load allows of the blocks that are left, padding fills the slots that
-- hold no block, and the noisy prefix sums are those of the loads.
pub record IsSoundPlan {W : Type 0} (blocks : ℕ) (plan : BlockAllocationPlan W) : Type 0 where
  pub counted : plan.block_count ≡ blocks
  pub capacity_ge : 2 ≤ plan.bin_capacity_blocks
  pub covers : covered_ranks plan ≡ range 0 blocks
  pub row : IsRow plan.bin_capacity_blocks 0 0 plan.bins
  pub greedy : IsGreedy blocks plan.bins
  pub bins_counted : length plan.bins ≡ plan.bin_count
  pub loads_kept : loads_of plan.bins ≡ plan.sampled_loads
  pub enough : blocks ≤ sum plan.sampled_loads
  pub slots : planned_slots plan ≡ blocks + dummy_total plan
  pub noisy :
      IsNoisyPrefix plan.bin_capacity_blocks plan.sampled_loads plan.noisy_prefix_sums
        plan.additive_error_blocks

-- The plan is sound, and it is the plan of these loads under this configuration.
abbrev pub IsPlanOf :
    {W : Type 0} → ℕ → SwatBlockAllocationConfig W → List ℕ → BlockAllocationPlan W → Type 0
IsPlanOf blocks config loads plan =
    IsSoundPlan blocks plan × (plan.sampled_loads ≡ loads) × (plan.config ≡ config)

-- The plan of these loads, with the noisy prefix sums and the error that were drawn.
abbrev pub IsNoisyPlanOf :
    {W : Type 0}
    → ℕ
    → SwatBlockAllocationConfig W
    → ℕ
    → List ℕ
    → List ℕ × ℕ
    → BlockAllocationPlan W
    → Type 0
IsNoisyPlanOf blocks config capacity loads noisy plan =
    IsPlanOf blocks config loads plan
    × (plan.bin_capacity_blocks ≡ capacity)
    × (plan.noisy_prefix_sums ≡ noisy.0)
    × (plan.additive_error_blocks ≡ noisy.1)

module _ {W : Type 0} where
  -- The plan of sound bins, as its checks return it.
  plan_of :
      (blocks capacity : ℕ) (factor : W) (bins : List BlockBinPlan) (loads prefix : List ℕ)
      → ℕ
      → SwatBlockAllocationConfig W
      → BlockAllocationPlan W
  plan_of blocks capacity factor bins loads prefix error config = record {
    block_count = blocks;
    bin_capacity_blocks = capacity;
    bin_count = length loads;
    factor = factor;
    bins = bins;
    sampled_loads = loads;
    noisy_prefix_sums = prefix;
    additive_error_blocks = error;
    config = config;
  }

  module _ (blocks capacity : ℕ) (factor : W) (bins : List BlockBinPlan) (loads prefix : List ℕ)
      (error : ℕ) (config : SwatBlockAllocationConfig W) (large : 2 ≤ capacity)
      (enough : blocks ≤ sum loads) (row : IsRow capacity 0 0 bins) (greedy : IsGreedy blocks bins)
      (same : loads_of bins ≡ loads) (noisy : IsNoisyPrefix capacity loads prefix error) where
    bins_counted : length bins ≡ length loads
    bins_counted = sym (length-map (λ b. b.sampled_load) bins) ∙ ap length same

    all_blocks : real_total bins ≡ blocks
    all_blocks =
        omega (arith, IsGreedy-real_total blocks bins greedy, ap (λ (l : List ℕ). sum l) same)

    make_allocation_plan_accepts :
        make_allocation_plan
          (int (pos blocks))
          (int (pos capacity))
          (int (pos (length loads)))
          factor
          bins
          loads
          prefix
          (int (pos error))
          config
        ≡ ok (plan_of blocks capacity factor bins loads prefix error config)
    unfolding make_allocation_plan plan_of
    make_allocation_plan_accepts =
        let checked = require_nat_accepts W block_allocation_error in
        rw
          (
            checked blocks 0 (omega arith),
            checked capacity 2 large,
            checked (length loads) 0 (omega arith),
            checked error 0 (omega arith),
            bins_counted,
            ==_refl (length loads),
            IsNoisyPrefix-length capacity loads prefix error noisy,
            ==_refl (length loads + 1),
            all_blocks,
            ==_refl blocks,
          )
          refl

    plan_of-IsPlanOf :
        IsPlanOf blocks config loads (plan_of blocks capacity factor bins loads prefix error config)
    unfolding plan_of covered_ranks planned_slots dummy_total
    plan_of-IsPlanOf = (
      record {
        counted = refl;
        capacity_ge = large;
        covers =
            IsRow-bin_ranks capacity 0 0 bins row ∙ ap (count_up 0) (omega (arith, all_blocks));
        row = row;
        greedy = greedy;
        bins_counted = bins_counted;
        loads_kept = same;
        enough = enough;
        slots = omega (
          arith,
          IsRow-slots capacity 0 0 bins row,
          all_blocks,
          ap (λ (n : ℕ). n * capacity) bins_counted,
        );
        noisy = noisy;
      },
      refl,
      refl,
    )

    plan_of-IsNoisyPlanOf :
        IsNoisyPlanOf blocks config capacity loads
          (prefix, error)
          (plan_of blocks capacity factor bins loads prefix error config)
    unfolding plan_of
    plan_of-IsNoisyPlanOf = (plan_of-IsPlanOf, refl, refl, refl)

pub count_of_enough :
    (blocks : ℕ) (bin_count : ℤ) (loads : List ℕ)
    → 0 < blocks
    → length loads ≡ pos_part bin_count
    → blocks ≤ sum loads
    → bin_count ≡ pos (length loads)
count_of_enough blocks (pos n) loads p e h = ap pos (sym e)
count_of_enough blocks (negsuc n) [] p e h = absurd (omega arith)
count_of_enough blocks (negsuc n) (l ∷ loads) p e h = absurd (omega arith)

module _ {S W : Type 0} ⦃f : Floats W⦄ (streams : Streams S W) where
  -- The noise of a plan: the prefix sums of these loads, by the stream of the configuration's seed.
  abbrev pub noise_of : SwatBlockAllocationConfig W → ℕ → List ℕ → Result (List ℕ × ℕ)
  noise_of config capacity loads =
      make_laplace streams (int (pos config.seed)) stream_domain_laplace >>= λ laplace.
      compute_noisy_prefix_sums streams (map (λ load. int (pos load)) loads)
        (float config.privacy_epsilon) (int (pos capacity)) laplace

  -- For a positive block count, a valid configuration, a capacity of at least two, one load per
  -- bin, no load above the capacity, and loads that add up to the block count or more: what
  -- follows the drawn loads raises exactly what drawing their noisy prefix sums raises, and if
  -- these are drawn, it returns a sound plan of these loads with the given configuration and
  -- capacity and with just these prefix sums and their error.
  pub plan_from_loads-IsPlanOf :
      (blocks : ℕ) (config : SwatBlockAllocationConfig W) (capacity : ℕ) (factor : W)
      (bin_count : ℤ) (loads : List ℕ)
      → 0 < blocks
      → IsValidConfig f config
      → 2 ≤ capacity
      → length loads ≡ pos_part bin_count
      → All (λ l. l ≤ capacity) loads
      → blocks ≤ sum loads
      → Follows
          (IsNoisyPlanOf blocks config capacity loads)
          (noise_of config capacity loads)
          (plan_from_loads streams blocks config capacity factor bin_count loads)
  unfolding plan_from_loads
  plan_from_loads-IsPlanOf blocks config capacity factor bin_count loads p valid large count within
        enough =
      let R = IsNoisyPlanOf blocks config capacity loads in
      let (bins, made, row, greedy, same) =
        plan_bins_lem W blocks capacity 0 0 blocks loads large within (omega arith) in
      rw (ge→ltb (sum loads) blocks enough, count_of_enough blocks bin_count loads p count enough)
        (Follows-then R (make_laplace streams (int (pos config.seed)) stream_domain_laplace) _ _
          (λ laplace _.
            let drawn =
              compute_noisy_prefix_sums streams (map (λ load. int (pos load)) loads)
                (float config.privacy_epsilon) (int (pos capacity)) laplace in
            Follows-returns R drawn _ (λ (prefix, error) returned.
              let noisy =
                Ensures-ok (λ (r : List ℕ × ℕ). IsNoisyPrefix capacity loads r.0 r.1) drawn
                  (compute_noisy_prefix_sums-IsNoisyPrefix streams config.privacy_epsilon capacity
                    loads laplace valid.epsilon_finite valid.epsilon_positive large within)
                  returned in
              (
                plan_of blocks capacity factor bins loads prefix error config,
                rw made (
                    make_allocation_plan_accepts blocks capacity factor bins loads prefix error
                      config large enough row greedy same noisy),
                plan_of-IsNoisyPlanOf blocks capacity factor bins loads prefix error config large
                    enough row greedy same noisy,
              ))))

  -- Loads that fall short are refused.
  pub plan_from_loads_short :
      (blocks : ℕ) (config : SwatBlockAllocationConfig W) (capacity : ℕ) (factor : W)
      (bin_count : ℤ) (loads : List ℕ)
      → sum loads < blocks
      → plan_from_loads streams blocks config capacity factor bin_count loads
        ≡ err (
            insufficient_sampled_capacity (record {
              block_count = blocks;
              sampled_capacity = sum loads;
              bin_count = bin_count;
              bin_capacity_blocks = capacity;
              seed = config.seed;
            }))
  unfolding plan_from_loads
  plan_from_loads_short blocks config capacity factor bin_count loads short =
      rw (lt→ltb (sum loads) blocks short) refl

module _ {W : Type 0} where
  -- The plan of no blocks is sound, and has no bins.
  pub empty_plan_lem :
      (capacity : ℕ) (factor : W) (config : SwatBlockAllocationConfig W)
      → 2 ≤ capacity
      → (plan : BlockAllocationPlan W) × (make_allocation_plan
            (int (pos 0))
            (int (pos capacity))
            (int (pos 0))
            factor
            []
            []
            (0 ∷ [])
            (int (pos 0))
            config
          ≡ ok plan)
        × IsPlanOf 0 config [] plan
  empty_plan_lem capacity factor config large = (
    plan_of 0 capacity factor [] [] (0 ∷ []) 0 config,
    make_allocation_plan_accepts 0 capacity factor [] [] (0 ∷ []) 0 config large (omega arith) tt tt
        refl (refl, tt, refl),
    plan_of-IsPlanOf 0 capacity factor [] [] (0 ∷ []) 0 config large (omega arith) tt tt refl
        (refl, tt, refl),
  )
