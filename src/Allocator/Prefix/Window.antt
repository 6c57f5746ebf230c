-- ===== src/Allocator/Prefix/Window.antt =====
-- The noisy prefix sums that are returned, with nothing asked of the runtime's logarithm: the clamps alone
-- keep every entry in its window.
use swat_letindex_baseline.Prelude.{
  All, Ensures, Ensures-bind, Ensures-then, List, [], ap, arith, block_allocation_error, false,
  ge→ltb, length, map, max, ok, pos, refl, replicate, suc, suc-==_zero, true, ℕ, ◌+◌, ◌∷◌, ◌≡◌, ◌≤◌,
}
use swat_letindex_baseline.Floats.{Floats, Streams}
use swat_letindex_baseline.Values.{int, float}
use swat_letindex_baseline.Values.Laws.{require_nat_accepts, require_positive_real_accepts}
use swat_letindex_baseline.Distribution.Samplers.{LaplaceSampler}
use swat_letindex_baseline.Allocator.Prefix.{
  clamp_estimate, gap, check_loads, Levels, estimate_round, prefix_rounds, level_count,
  compute_noisy_prefix_sums,
}

-- An entry never falls, and stays within `capacity` of the true prefix sum.
abbrev pub IsTrack : ℕ → ℕ → ℕ → List ℕ → List ℕ → Type 0
IsTrack capacity current last [] [] = Unit
IsTrack capacity current last (load ∷ loads) (v ∷ vs) =
    (last ≤ v)
    × (v ≤ current + load + capacity)
    × (current + load ≤ v + capacity)
    × IsTrack capacity (current + load) v loads vs
IsTrack capacity current last _ _ = ⊥

-- The largest distance between the true prefix sums and the entries, from `least` on.
abbrev pub max_gap : ℕ → ℕ → List ℕ → List ℕ → ℕ
max_gap least current (load ∷ loads) (v ∷ vs) =
    max_gap (max least (gap (current + load) v)) (current + load) loads vs
max_gap least current _ _ = least

pub clamp_estimate_bounds :
    (capacity current last estimate : ℕ)
    → last ≤ current + capacity
    → (last ≤ clamp_estimate capacity current last estimate)
      × (clamp_estimate capacity current last estimate ≤ current + capacity)
      × (current ≤ clamp_estimate capacity current last estimate + capacity)
unfolding clamp_estimate
clamp_estimate_bounds capacity current last estimate h = ground arith

pub check_loads_accepts :
    (W : Type 0) (capacity : ℕ) (loads : List ℕ)
    → All (λ l. l ≤ capacity) loads
    → check_loads {W = W} capacity (map (λ l. int (pos l)) loads) ≡ ok loads
unfolding check_loads
check_loads_accepts W capacity [] h = refl
check_loads_accepts W capacity (l ∷ loads) (h, hs) =
    rw
      (
        require_nat_accepts W block_allocation_error l 0 (omega arith),
        ge→ltb capacity l h,
        check_loads_accepts W capacity loads hs,
      )
      refl

IsTrack-length :
    (capacity current last : ℕ) (loads values : List ℕ)
    → IsTrack capacity current last loads values
    → length values ≡ length loads
IsTrack-length capacity current last [] [] h = refl
IsTrack-length capacity current last [] (v ∷ vs) h = absurd h
IsTrack-length capacity current last (l ∷ ls) [] h = absurd h
IsTrack-length capacity current last (l ∷ ls) (v ∷ vs) (a, b, c, h) =
    ap suc (IsTrack-length capacity (current + l) v ls vs h)

-- The vector starts at 0, never falls, stays within `capacity` of the true prefix sums, and the error
-- is the largest distance from them.
abbrev pub IsNoisyPrefix : ℕ → List ℕ → List ℕ → ℕ → Type 0
IsNoisyPrefix capacity loads [] error = ⊥
IsNoisyPrefix capacity loads (entry ∷ values) error =
    (entry ≡ 0) × IsTrack capacity 0 0 loads values × (error ≡ max_gap 0 0 loads values)

pub IsNoisyPrefix-length :
    (capacity : ℕ) (loads prefix : List ℕ) (error : ℕ)
    → IsNoisyPrefix capacity loads prefix error
    → length prefix ≡ length loads + 1
IsNoisyPrefix-length capacity loads [] error h = absurd h
IsNoisyPrefix-length capacity loads (entry ∷ values) error (z, track, e) =
    omega (arith, IsTrack-length capacity 0 0 loads values track)

module _ {S W : Type 0} ⦃f : Floats W⦄ (streams : Streams S W) where
  prefix_rounds-IsTrack :
      (epsilon : W) (capacity t current last least : ℕ) (loads : List ℕ) (levels : Levels S W)
      → last ≤ current + capacity
      → Ensures
          (λ (r : List ℕ × ℕ).
            IsTrack capacity current last loads r.0 × (r.1 ≡ max_gap least current loads r.0))
          (prefix_rounds streams epsilon capacity t current last least loads levels)
  unfolding prefix_rounds
  prefix_rounds-IsTrack epsilon capacity t current last least [] levels low = (tt, refl)
  prefix_rounds-IsTrack epsilon capacity t current last least (load ∷ loads) levels low =
      let P = λ (r : List ℕ × ℕ).
        IsTrack capacity current last (load ∷ loads) r.0
        × (r.1 ≡ max_gap least current (load ∷ loads) r.0) in
      Ensures-then P (estimate_round streams epsilon t load levels) _ (λ (estimate, next) _.
        let v = clamp_estimate capacity (current + load) last estimate in
        let (a, b, c) =
          clamp_estimate_bounds capacity (current + load) last estimate (omega arith) in
        Ensures-bind
          (λ (r : List ℕ × ℕ).
            IsTrack capacity (current + load) v loads r.0
            × (r.1 ≡ max_gap (max least (gap (current + load) v)) (current + load) loads r.0))
          P _ _
          (prefix_rounds-IsTrack epsilon capacity (t + 1) (current + load) v
            (max least (gap (current + load) v)) loads next b)
          (λ rest _ (track, error). ((a, b, c, track), error)))

  pub compute_noisy_prefix_sums-IsNoisyPrefix :
      (epsilon : W) (capacity : ℕ) (loads : List ℕ) (laplace : LaplaceSampler S)
      → f.is_finite epsilon ≡ true
      → f.le epsilon f.nought ≡ false
      → 2 ≤ capacity
      → All (λ l. l ≤ capacity) loads
      → Ensures
          (λ (r : List ℕ × ℕ). IsNoisyPrefix capacity loads r.0 r.1)
          (compute_noisy_prefix_sums streams
            (map (λ l. int (pos l)) loads)
            (float epsilon)
            (int (pos capacity))
            laplace)
  unfolding compute_noisy_prefix_sums
  compute_noisy_prefix_sums-IsNoisyPrefix epsilon capacity [] laplace fin gt large within =
      rw
        (
          require_positive_real_accepts block_allocation_error epsilon fin gt,
          require_nat_accepts W block_allocation_error capacity 2 large,
          check_loads_accepts W capacity [] within,
        )
        (refl, tt, refl)
  compute_noisy_prefix_sums-IsNoisyPrefix epsilon capacity (load ∷ loads) laplace fin gt large
        within =
      let all = load ∷ loads in
      let P = λ (r : List ℕ × ℕ). IsNoisyPrefix capacity all r.0 r.1 in
      rw
        (
          require_positive_real_accepts block_allocation_error epsilon fin gt,
          require_nat_accepts W block_allocation_error capacity 2 large,
          check_loads_accepts W capacity all within,
          suc-==_zero (length loads),
        )
        (Ensures-then P (level_count f (length all)) _ (λ k _.
          Ensures-bind
            (λ (r : List ℕ × ℕ). IsTrack capacity 0 0 all r.0 × (r.1 ≡ max_gap 0 0 all r.0)) P _ _
            (prefix_rounds-IsTrack epsilon capacity 1 0 0 0 all
              (record {
                block_sums = replicate k 0;
                noisy_sums = replicate k f.nought;
                laplace = laplace;
              })
              (omega arith))
            (λ rest _ (track, error). (refl, track, error))))
