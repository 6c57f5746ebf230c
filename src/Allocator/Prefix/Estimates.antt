-- ===== src/Allocator/Prefix/Estimates.antt =====
-- The noisy prefix sums against the estimates of the binary mechanism, before they are clamped.
use swat_letindex_baseline.Prelude.{
  ℕ, ◌+◌, ◌-◌, ◌≤◌, ◌≡◌, refl, ap, true, false, List, [], ◌∷◌, arith, length, max, min, map, pos,
  replicate, All, suc-==_zero, block_allocation_error, Result, ok, ◌>>=◌, Follows, Follows-then,
  Follows-bind, Follows-map,
}
use swat_letindex_baseline.Floats.{Floats, Streams}
use swat_letindex_baseline.Values.{int, float}
use swat_letindex_baseline.Values.Laws.{require_nat_accepts, require_positive_real_accepts}
use swat_letindex_baseline.Distribution.Samplers.{LaplaceSampler}
use swat_letindex_baseline.Allocator.Prefix.{
  clamp_estimate, gap, Levels, estimate_round, prefix_rounds, level_count,
  compute_noisy_prefix_sums,
}
use swat_letindex_baseline.Allocator.Prefix.Window.{check_loads_accepts}

-- Each estimate, moved to the nearest number that is not below the entry before, and within `capacity` of
-- the true prefix sum.
abbrev pub nearest : ℕ → ℕ → ℕ → List ℕ → List ℕ → List ℕ
nearest capacity current last (load ∷ loads) (estimate ∷ estimates) =
    let sum = current + load in
    let v = min (max estimate (max last (sum - capacity))) (sum + capacity) in
    v ∷ nearest capacity sum v loads estimates
nearest capacity current last _ _ = []

clamp_estimate_lem :
    (capacity current last estimate : ℕ)
    → last ≤ current + capacity
    → clamp_estimate capacity current last estimate
      ≡ min (max estimate (max last (current - capacity))) (current + capacity)
unfolding clamp_estimate
clamp_estimate_lem capacity current last estimate h = ground arith

module _ {S W : Type 0} ⦃f : Floats W⦄ (streams : Streams S W) where
  -- The estimates of the rounds from `t` on.
  abbrev pub estimates_from : W → ℕ → List ℕ → Levels S W → Result (List ℕ)
  estimates_from epsilon t [] levels = ok []
  estimates_from epsilon t (load ∷ loads) levels = do
    estimated ← estimate_round streams epsilon t load levels
    rest ← estimates_from epsilon (t + 1) loads estimated.1
    ok (estimated.0 ∷ rest)

  -- The estimates for some loads, from empty levels.
  abbrev pub estimates_of : W → List ℕ → LaplaceSampler S → Result (List ℕ)
  estimates_of epsilon [] laplace = ok []
  estimates_of epsilon (load ∷ loads) laplace = do
    levels ← level_count f (length (load ∷ loads))
    estimates_from epsilon 1 (load ∷ loads) (record {
      block_sums = replicate levels 0;
      noisy_sums = replicate levels f.nought;
      laplace = laplace;
    })

  prefix_rounds_lem :
      (epsilon : W) (capacity t current last least : ℕ) (loads : List ℕ) (levels : Levels S W)
      → last ≤ current + capacity
      → Follows
          (λ (estimates : List ℕ) (r : List ℕ × ℕ).
            r.0 ≡ nearest capacity current last loads estimates)
          (estimates_from epsilon t loads levels)
          (prefix_rounds streams epsilon capacity t current last least loads levels)
  unfolding prefix_rounds
  prefix_rounds_lem epsilon capacity t current last least [] levels low = refl
  prefix_rounds_lem epsilon capacity t current last least (load ∷ loads) levels low =
      let sum = current + load in
      let R = λ (estimates : List ℕ) (r : List ℕ × ℕ).
        r.0 ≡ nearest capacity current last (load ∷ loads) estimates in
      Follows-then R (estimate_round streams epsilon t load levels) _ _ (λ (estimate, next) _.
        let v = min (max estimate (max last (sum - capacity))) (sum + capacity) in
        let moved = clamp_estimate_lem capacity sum last estimate (omega arith) in
        rw moved (
          Follows-bind
            (λ (estimates : List ℕ) (r : List ℕ × ℕ). r.0 ≡ nearest capacity sum v loads estimates)
            R (estimates_from epsilon (t + 1) loads next) _ _ _
            (prefix_rounds_lem epsilon capacity (t + 1) sum v (max least (gap sum v)) loads next
              (omega arith))
            (λ estimates r same. ap (◌∷◌ v) same)))

  pub compute_noisy_prefix_sums-estimates :
      (epsilon : W) (capacity : ℕ) (loads : List ℕ) (laplace : LaplaceSampler S)
      → f.is_finite epsilon ≡ true
      → f.le epsilon f.nought ≡ false
      → 2 ≤ capacity
      → All (λ l. l ≤ capacity) loads
      → Follows
          (λ (estimates : List ℕ) (r : List ℕ × ℕ). r.0 ≡ 0 ∷ nearest capacity 0 0 loads estimates)
          (estimates_of epsilon loads laplace)
          (compute_noisy_prefix_sums streams
            (map (λ l. int (pos l)) loads)
            (float epsilon)
            (int (pos capacity))
            laplace)
  unfolding compute_noisy_prefix_sums
  compute_noisy_prefix_sums-estimates epsilon capacity [] laplace fin gt large within =
      rw
        (
          require_positive_real_accepts block_allocation_error epsilon fin gt,
          require_nat_accepts W block_allocation_error capacity 2 large,
          check_loads_accepts W capacity [] within,
        )
        refl
  compute_noisy_prefix_sums-estimates epsilon capacity (load ∷ loads) laplace fin gt large within =
      let all = load ∷ loads in
      let R =
        λ (estimates : List ℕ) (r : List ℕ × ℕ). r.0 ≡ 0 ∷ nearest capacity 0 0 all estimates in
      rw
        (
          require_positive_real_accepts block_allocation_error epsilon fin gt,
          require_nat_accepts W block_allocation_error capacity 2 large,
          check_loads_accepts W capacity all within,
          suc-==_zero (length loads),
        )
        (Follows-then R (level_count f (length all)) _ _ (λ k _.
          let start : Levels S W = record {
            block_sums = replicate k 0;
            noisy_sums = replicate k f.nought;
            laplace = laplace;
          } in
          Follows-map
            (λ (estimates : List ℕ) (r : List ℕ × ℕ). r.0 ≡ nearest capacity 0 0 all estimates) R
            (estimates_from epsilon 1 all start)
            (prefix_rounds streams epsilon capacity 1 0 0 0 all start) (λ r. (0 ∷ r.0, r.1))
            (prefix_rounds_lem epsilon capacity 1 0 0 0 all start (omega arith))
            (λ estimates r same. ap (◌∷◌ 0) same)))
