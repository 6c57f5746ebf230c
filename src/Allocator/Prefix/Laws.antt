-- ===== src/Allocator/Prefix/Laws.antt =====
-- What the noisy prefix sums promise whatever the noise: every round stays inside the levels.
use swat_letindex_baseline.Prelude.{
  ℕ, ◌+◌, ◌≤◌, ◌≡◌, ◌∙◌, true, false, List, [], ◌∷◌, arith, length, max, map, pos, All, inl, inr,
  block_allocation_error, arithmetic_error, ◌<◌, ◌^◌, Settles, Follows, AnyValue,
  Settles-of_Ensures, Settles-bind, Settles-then, set, Settles-or_raise, or_raise, length-set,
  suc-==_zero, length-replicate, replicate, Option-cases,
}
use swat_letindex_baseline.Floats.{Floats, Streams, CeilLogReaches}
use swat_letindex_baseline.Values.{Value, int, float, require_positive_real}
use swat_letindex_baseline.Values.Laws.{require_nat_accepts, require_positive_real_accepts}
use swat_letindex_baseline.Distribution.Numbers.{pinned_uint32_cast}
use swat_letindex_baseline.Distribution.Weights.Array.{write_at_inside}
use swat_letindex_baseline.Distribution.Samplers.{LaplaceSampler, sample_laplace}
use swat_letindex_baseline.Allocator.Prefix.Loops.Bits.{
  trailing_zeros_inside, clear_lower_total, sum_levels_total,
}
use swat_letindex_baseline.Allocator.Prefix.Estimates.{
  nearest, estimates_of, compute_noisy_prefix_sums-estimates,
}
use swat_letindex_baseline.Allocator.Prefix.Window.{
  IsNoisyPrefix, check_loads_accepts, compute_noisy_prefix_sums-IsNoisyPrefix,
}
use swat_letindex_baseline.Allocator.Prefix.{
  clamp_estimate, gap, Levels, estimate_round, prefix_rounds, level_count,
  compute_noisy_prefix_sums,
}

module _ {S W : Type 0} ⦃f : Floats W⦄ (streams : Streams S W) where
  -- The levels of the mechanism are as many as the search for the lowest set bit may name.
  abbrev HasLevels : ℕ → Levels S W → Type 0
  HasLevels k levels = (length levels.block_sums ≡ k) × (length levels.noisy_sums ≡ k)

  -- The noise of one level fails only as a float operation or a sampler does.
  noise-Settles :
      (laplace : LaplaceSampler S) (scale : Value W)
      → Settles (λ _. Unit) (sample_laplace streams laplace scale)
  unfolding sample_laplace require_positive_real
  noise-Settles laplace scale = ground arith

  cast-Settles : (x : W) → Settles (λ _. Unit) (pinned_uint32_cast (float x))
  unfolding pinned_uint32_cast
  cast-Settles x = ground arith

  -- One round never leaves the levels, and its loops end.
  estimate_round-Settles :
      (epsilon : W) (t load k : ℕ) (levels : Levels S W)
      → 0 < t
      → t < 2 ^ k
      → HasLevels k levels
      → Settles
          (λ (r : ℕ × Levels S W). HasLevels k (r.1))
          (estimate_round streams epsilon t load levels)
  unfolding estimate_round
  estimate_round-Settles epsilon t load k levels p lt (b, n) =
      let P = λ (r : ℕ × Levels S W). HasLevels k (r.1) in
      let (i, lowest, inside) = trailing_zeros_inside t k p lt in
      let (c, cleared, bs, ns) =
        clear_lower_total i 0 load k levels.block_sums levels.noisy_sums (omega arith) b n in
      rw (lowest, cleared, write_at_inside c.1 i c.0 (omega arith))
        (Settles-then P (or_raise (f.div f.one epsilon) arithmetic_error) _
          (Settles-or_raise _ arithmetic_error tt)
          λ scale.
            Settles-then P (sample_laplace streams levels.laplace (float scale)) _
              (noise-Settles levels.laplace (float scale))
              λ noise.
                Settles-then P (or_raise (f.of_int (pos c.0)) arithmetic_error) _
                  (Settles-or_raise _ arithmetic_error tt)
                  λ target.
                    let v = f.add target noise.0 in
                    let (running, summed) =
                      sum_levels_total t k f.nought (set c.2 i v) lt (length-set c.2 i v ∙ ns) in
                    rw (write_at_inside c.2 i v (omega arith), summed)
                      (Settles-then P (pinned_uint32_cast (float running)) _ (cast-Settles running)
                        λ estimate. (length-set c.1 i c.0 ∙ bs, length-set c.2 i v ∙ ns)))

  prefix_rounds-Settles :
      (epsilon : W) (capacity t current last least k : ℕ) (loads : List ℕ) (levels : Levels S W)
      → 0 < t
      → t + length loads ≤ 2 ^ k
      → HasLevels k levels
      → Settles AnyValue (prefix_rounds streams epsilon capacity t current last least loads levels)
  unfolding prefix_rounds
  prefix_rounds-Settles epsilon capacity t current last least k [] levels p lt has = tt
  prefix_rounds-Settles epsilon capacity t current last least k (load ∷ loads) levels p lt has =
      Settles-bind (λ (r : ℕ × Levels S W). HasLevels k (r.1)) AnyValue
        (estimate_round streams epsilon t load levels) _
        (estimate_round-Settles epsilon t load k levels p (omega arith) has)
        (λ (estimate, next) _ kept.
          let v = clamp_estimate capacity (current + load) last estimate in
          let error = max least (gap (current + load) v) in
          Settles-then AnyValue
            (prefix_rounds streams epsilon capacity (t + 1) (current + load) v error loads next) _
            (prefix_rounds-Settles epsilon capacity (t + 1) (current + load) v error k loads next
              (omega arith) (omega arith) kept)
            (λ rest. tt))

module _ {W : Type 0} ⦃f : Floats W⦄ where
  level_count-Settles :
      (n : ℕ) → CeilLogReaches f n → Settles (λ (k : ℕ). n < 2 ^ k) (level_count f n)
  unfolding level_count
  level_count-Settles n law = elim (Option-cases (f.log2_int (n + 1))) [
    | inl e ↦ rw e tt
    | inr (x, e) ↦ elim (Option-cases (f.ceil x)) [
      | inl e' ↦ rw (e, e') tt
      | inr (z, e') ↦ rw (e, e') (law x z e e')
    ]
  ]

module _ {S W : Type 0} ⦃f : Floats W⦄ (streams : Streams S W) where
  compute_noisy_prefix_sums_ends :
      (epsilon : W) (capacity : ℕ) (loads : List ℕ) (laplace : LaplaceSampler S)
      → f.is_finite epsilon ≡ true
      → f.le epsilon f.nought ≡ false
      → 2 ≤ capacity
      → All (λ l. l ≤ capacity) loads
      → CeilLogReaches f (length loads)
      → Settles AnyValue (
          compute_noisy_prefix_sums streams
            (map (λ l. int (pos l)) loads)
            (float epsilon)
            (int (pos capacity))
            laplace)
  unfolding compute_noisy_prefix_sums
  compute_noisy_prefix_sums_ends epsilon capacity [] laplace fin gt large within law =
      rw
        (
          require_positive_real_accepts block_allocation_error epsilon fin gt,
          require_nat_accepts W block_allocation_error capacity 2 large,
          check_loads_accepts W capacity [] within,
        )
        tt
  compute_noisy_prefix_sums_ends epsilon capacity (load ∷ loads) laplace fin gt large within law =
      let all = load ∷ loads in
      rw
        (
          require_positive_real_accepts block_allocation_error epsilon fin gt,
          require_nat_accepts W block_allocation_error capacity 2 large,
          check_loads_accepts W capacity all within,
          suc-==_zero (length loads),
        )
        (Settles-bind (λ (k : ℕ). length all < 2 ^ k) AnyValue (level_count f (length all)) _
          (level_count-Settles (length all) law)
          (λ k _ enough.
            let start : Levels S W = record {
              block_sums = replicate k 0;
              noisy_sums = replicate k f.nought;
              laplace = laplace;
            } in
            Settles-then AnyValue (prefix_rounds streams epsilon capacity 1 0 0 0 all start) _
              (prefix_rounds-Settles streams epsilon capacity 1 0 0 0 k all start (omega arith)
                (omega arith) (length-replicate k 0, length-replicate k f.nought))
              (λ rest. tt)))

  -- For a finite positive epsilon, a capacity of at least two, loads within the capacity and a
  -- rounded-up base-2 logarithm that, at the number of loads, reaches that number plus one,
  -- whatever the noise: compute_noisy_prefix_sums ends, and raises exactly what the rounds of the
  -- binary mechanism raise, which is no IndexError. Otherwise the result starts at 0, and each
  -- further entry is the estimate of its round, moved to the nearest number that is not below the
  -- entry before and is within one capacity of the true prefix sum; and the additive error is the
  -- largest distance from the true prefix sums.
  pub compute_noisy_prefix_sums_lem :
      (epsilon : W) (capacity : ℕ) (loads : List ℕ) (laplace : LaplaceSampler S)
      → f.is_finite epsilon ≡ true
      → f.le epsilon f.nought ≡ false
      → 2 ≤ capacity
      → All (λ l. l ≤ capacity) loads
      → CeilLogReaches f (length loads)
      → Settles
          (λ (r : List ℕ × ℕ). IsNoisyPrefix capacity loads r.0 r.1)
          (compute_noisy_prefix_sums streams
            (map (λ l. int (pos l)) loads)
            (float epsilon)
            (int (pos capacity))
            laplace)
        × Follows
            (λ (estimates : List ℕ) (r : List ℕ × ℕ).
              r.0 ≡ 0 ∷ nearest capacity 0 0 loads estimates)
            (estimates_of streams epsilon loads laplace)
            (compute_noisy_prefix_sums streams
              (map (λ l. int (pos l)) loads)
              (float epsilon)
              (int (pos capacity))
              laplace)
  compute_noisy_prefix_sums_lem epsilon capacity loads laplace fin gt large within law =
      let drawn =
        compute_noisy_prefix_sums streams (map (λ l. int (pos l)) loads) (float epsilon)
          (int (pos capacity)) laplace in
      (
        Settles-of_Ensures (λ (r : List ℕ × ℕ). IsNoisyPrefix capacity loads r.0 r.1) drawn
            (compute_noisy_prefix_sums-IsNoisyPrefix streams epsilon capacity loads laplace fin gt
              large within)
            (compute_noisy_prefix_sums_ends epsilon capacity loads laplace fin gt large within law),
        compute_noisy_prefix_sums-estimates streams epsilon capacity loads laplace fin gt large
            within,
      )
