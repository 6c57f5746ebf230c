-- ===== src/Distribution/Samplers/Laws.antt =====
-- What the samplers return.
use swat_letindex_baseline.Prelude.{
  ℕ, suc, ◌+◌, ◌%◌, ◌≤◌, ◌<◌, ◌≡◌, refl, ap, sym, ◌∙◌, pos, List, [], ◌∷◌, arith, length, not,
  block_allocation_error, ok, refuse_if, Settles, Ensures, Ensures-bind, Ensures-then,
  Ensures-of_Settles,
}
use swat_letindex_baseline.Floats.{Floats, Streams}
use swat_letindex_baseline.Values.{Value, int, float, require_nat, require_positive_real}
use swat_letindex_baseline.Distribution.Numbers.{require_even_positive}
use swat_letindex_baseline.Distribution.Weights.{compute_weight}
use swat_letindex_baseline.Distribution.Weights.Laws.{
  require_even_positive-Settles, compute_weight_lem, int_pos_injective,
}
use swat_letindex_baseline.Distribution.Streams.{derive_stream_seed}
use swat_letindex_baseline.Distribution.Samplers.{
  GeometricLoadSampler, accumulate, pick, make_geometric, sample_geometric, make_laplace,
}
use swat_letindex_baseline.Distribution.Samplers.Boundary.{pick-IsPicked}

module _ {S W : Type 0} ⦃f : Floats W⦄ (streams : Streams S W) where
  pub make_laplace-Settles :
      (seed : Value W) (domain : List ℕ) → Settles (λ _. Unit) (make_laplace streams seed domain)
  unfolding make_laplace derive_stream_seed require_nat
  make_laplace-Settles seed domain = ground arith

-- A geometric sampler in use: a weight for each load from 0 to the capacity, and as many sums.
pub record IsSampler {S W : Type 0} (sampler : GeometricLoadSampler S W) : Type 0 where
  pub weighted : length sampler.weights ≡ sampler.bin_capacity_blocks + 1
  pub summed : length sampler.cumulative ≡ length sampler.weights
  pub large : 2 ≤ sampler.bin_capacity_blocks

module _ {W : Type 0} ⦃f : Floats W⦄ where
  length-accumulate :
      (running : W) (weights : List W) → length (accumulate running weights).0 ≡ length weights
  unfolding accumulate
  length-accumulate running [] = refl
  length-accumulate running (w ∷ weights) = ap suc (length-accumulate (f.add running w) weights)

  -- The search ends, and the index is one of the weights'.
  pub pick_lem :
      (weights cumulative : List W) (draw : W)
      → 0 < length weights
      → (i : ℕ) × (pick weights cumulative draw ≡ ok i) × (i < length weights)
  pick_lem weights cumulative draw p =
      let (i, found, picked) = pick-IsPicked weights cumulative draw p in (i, found, picked.inside)

module _ {S W : Type 0} ⦃f : Floats W⦄ (streams : Streams S W) where
  -- A geometric sampler that the constructor returns has the capacity that was asked for, at
  -- least two, one weight for each load up to it, and as many sums.
  pub make_geometric-IsSampler :
      (capacity epsilon seed : Value W) (domain : List ℕ)
      → Ensures
          (λ (sampler : GeometricLoadSampler S W).
            IsSampler sampler × (capacity ≡ int (pos sampler.bin_capacity_blocks)))
          (make_geometric streams capacity epsilon seed domain)
  unfolding make_geometric
  make_geometric-IsSampler capacity epsilon seed domain =
      let P = λ (sampler : GeometricLoadSampler S W).
        IsSampler sampler × (capacity ≡ int (pos sampler.bin_capacity_blocks)) in
      Ensures-bind (λ (n : ℕ). (capacity ≡ int (pos n)) × (2 ≤ n) × (n % 2 ≡ 0)) P
        (require_even_positive capacity) _
        (Ensures-of_Settles (λ (n : ℕ). (capacity ≡ int (pos n)) × (2 ≤ n) × (n % 2 ≡ 0))
          (require_even_positive capacity) (require_even_positive-Settles capacity))
        (λ c _ (e, large, even).
          Ensures-then P (require_positive_real block_allocation_error epsilon) _ (λ eps _.
            Ensures-bind
              (λ (weights : List W).
                (c' : ℕ) × Path (Value W) (int (pos c)) (int (pos c')) × (length weights ≡ c' + 1))
              P (compute_weight (int (pos c)) (float eps)) _
              (Ensures-of_Settles _ (compute_weight (int (pos c)) (float eps))
                (compute_weight_lem (int (pos c)) (float eps)))
              (λ weights _ (c', same, size).
                Ensures-then P
                  (refuse_if (not (f.lt f.nought (accumulate f.nought weights).1))
                    block_allocation_error)
                  _
                  (λ _ _.
                    Ensures-then P (derive_stream_seed streams seed domain) _ (λ stream_seed _. (
                      record {
                        weighted = size ∙ ap (λ k. k + 1) (sym (int_pos_injective W c c' same));
                        summed = length-accumulate f.nought weights;
                        large = large;
                      },
                      e,
                    ))))))

  -- A draw of a geometric sampler that has one weight for each load up to its capacity, and as
  -- many sums, raises nothing: the load is within the capacity, and the next state is again such
  -- a sampler of the same capacity.
  pub sample_geometric_lem :
      (sampler : GeometricLoadSampler S W)
      → IsSampler sampler
      → (r : ℕ × GeometricLoadSampler S W) × (sample_geometric streams sampler ≡ ok r)
        × (r.0 ≤ sampler.bin_capacity_blocks)
        × IsSampler r.1
        × (r.1.bin_capacity_blocks ≡ sampler.bin_capacity_blocks)
  unfolding sample_geometric
  sample_geometric_lem sampler valid =
      let drawn = streams.random sampler.stream in
      let (i, found, inside) =
        pick_lem sampler.weights sampler.cumulative (f.mul drawn.0 sampler.total)
          (omega (arith, valid.weighted)) in
      (
        (i, record sampler { stream = drawn.1 }),
        rw found refl,
        omega (arith, valid.weighted),
        record { weighted = valid.weighted; summed = valid.summed; large = valid.large },
        refl,
      )
