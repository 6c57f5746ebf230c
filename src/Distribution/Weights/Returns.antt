-- ===== src/Distribution/Weights/Returns.antt =====
-- `compute_weight` and `geom_conv` at valid arguments: they return.
use swat_letindex_baseline.Prelude.{
  ℕ, ◌+◌, ◌-◌, ◌*◌, ◌/◌, ◌%◌, ◌≤◌, ◌≡◌, refl, pos, List, some, true, false, length, set, replicate,
  length-set, length-replicate, ◌==◌, ==_refl, not, arith, block_allocation_error, ok, Ensures-ok,
}
use swat_letindex_baseline.Floats.{Floats}
use swat_letindex_baseline.Values.{int, float}
use swat_letindex_baseline.Values.Laws.{require_nat_accepts, require_positive_real_accepts}
use swat_letindex_baseline.Distribution.Numbers.{require_even_positive, fast_power}
use swat_letindex_baseline.Distribution.Weights.{
  weight_loop, centre_weight, compute_weight, geom_conv,
}
use swat_letindex_baseline.Distribution.Weights.Array.{write_at_inside}
use swat_letindex_baseline.Distribution.Weights.Laws.{
  weight_loop_total, convolve_times_total, all_entries,
}
use swat_letindex_baseline.Distribution.Weights.SelfConvolution.{
  IsSelfConvolution, geom_conv-IsSelfConvolution,
}

even_remainder : (half : ℕ) → not (2 * half % 2 == 0) ≡ false
even_remainder half = ground arith

require_even_positive_accepts :
    (W : Type 0) (half : ℕ)
    → 1 ≤ half
    → require_even_positive {W = W} (int (pos (2 * half))) ≡ ok (2 * half)
unfolding require_even_positive
require_even_positive_accepts W half h =
    rw
      (require_nat_accepts W block_allocation_error (2 * half) 2 (omega arith), even_remainder half)
      refl

module _ {W : Type 0} ⦃f : Floats W⦄ where
  compute_weight_step :
      (half : ℕ) (epsilon alpha centre : W) (weights : List W)
      → 1 ≤ half
      → f.is_finite epsilon ≡ true
      → f.le epsilon f.nought ≡ false
      → f.exp (f.neg epsilon) ≡ some alpha
      → f.div
          (f.sub f.one alpha)
          (f.sub (f.add f.one alpha) (f.mul f.two (fast_power alpha (half + 1))))
        ≡ some centre
      → weight_loop half half 1 alpha alpha (set (replicate (2 * half + 1) f.nought) half centre)
        ≡ ok weights
      → compute_weight (int (pos (2 * half))) (float epsilon) ≡ ok weights
  unfolding compute_weight centre_weight
  compute_weight_step half epsilon alpha centre weights some_blocks finite positive raised centred
        made =
      let halved : 2 * half / 2 ≡ half = omega arith in
      rw
        (
          require_even_positive_accepts W half some_blocks,
          require_positive_real_accepts block_allocation_error epsilon finite positive,
          raised,
          halved,
          centred,
          write_at_inside (replicate (2 * half + 1) f.nought) half centre
              (omega (arith, length-replicate (2 * half + 1) f.nought)),
        )
        made

  compute_weight_returns :
      (half : ℕ) (epsilon alpha centre : W)
      → 1 ≤ half
      → f.is_finite epsilon ≡ true
      → f.le epsilon f.nought ≡ false
      → f.exp (f.neg epsilon) ≡ some alpha
      → f.div
          (f.sub f.one alpha)
          (f.sub (f.add f.one alpha) (f.mul f.two (fast_power alpha (half + 1))))
        ≡ some centre
      → (weights : List W) × (compute_weight (int (pos (2 * half))) (float epsilon) ≡ ok weights)
        × (length weights ≡ 2 * half + 1)
  compute_weight_returns half epsilon alpha centre some_blocks finite positive raised centred =
      let start = replicate (2 * half + 1) f.nought in
      let size = length-replicate (2 * half + 1) f.nought in
      let (r, made, n) =
        weight_loop_total half half 1 alpha alpha (set start half centre) (omega arith)
          (omega arith) (omega (arith, size, length-set start half centre)) in
      (
        r,
        compute_weight_step half epsilon alpha centre r some_blocks finite positive raised centred
            made,
        n,
      )

  geom_conv_ends :
      (half count : ℕ) (epsilon alpha centre : W)
      → 1 ≤ half
      → 1 ≤ count
      → f.is_finite epsilon ≡ true
      → f.le epsilon f.nought ≡ false
      → f.exp (f.neg epsilon) ≡ some alpha
      → f.div
          (f.sub f.one alpha)
          (f.sub (f.add f.one alpha) (f.mul f.two (fast_power alpha (half + 1))))
        ≡ some centre
      → (pmf : List W) × (geom_conv (int (pos (2 * half))) (float epsilon) (int (pos count))
          ≡ ok pmf)
  unfolding geom_conv
  geom_conv_ends half count epsilon alpha centre some_blocks some_bins finite positive raised
        centred =
      let (geom, weighed, size) =
        compute_weight_returns half epsilon alpha centre some_blocks finite positive raised
          centred in
      let (r, made, total) =
        convolve_times_total (count - 1) (2 * half) (2 * half) geom geom size size in
      (
        r,
        rw
            (
              require_even_positive_accepts W half some_blocks,
              require_positive_real_accepts block_allocation_error epsilon finite positive,
              require_nat_accepts W block_allocation_error count 1 some_bins,
              weighed,
              made,
              all_entries (2 * half) count (length r) some_bins total,
              ==_refl (2 * half * count + 1),
            )
            refl,
      )

  -- For an even capacity of at least two, at least one bin, a finite positive epsilon, an
  -- exponential that does not overflow and a division for the centre that is defined: geom_conv
  -- returns, and what it returns is the weights of compute_weight convolved with themselves once
  -- for every bin after the first.
  pub geom_conv_returns :
      (half count : ℕ) (epsilon alpha centre : W)
      → 1 ≤ half
      → 1 ≤ count
      → f.is_finite epsilon ≡ true
      → f.le epsilon f.nought ≡ false
      → f.exp (f.neg epsilon) ≡ some alpha
      → f.div
          (f.sub f.one alpha)
          (f.sub (f.add f.one alpha) (f.mul f.two (fast_power alpha (half + 1))))
        ≡ some centre
      → (pmf : List W) × (geom_conv (int (pos (2 * half))) (float epsilon) (int (pos count))
          ≡ ok pmf)
        × IsSelfConvolution (int (pos (2 * half))) (float epsilon) (int (pos count)) pmf
  geom_conv_returns half count epsilon alpha centre some_blocks some_bins finite positive raised
        centred =
      let (pmf, returned) =
        geom_conv_ends half count epsilon alpha centre some_blocks some_bins finite positive raised
          centred in
      (
        pmf,
        returned,
        Ensures-ok (IsSelfConvolution (int (pos (2 * half))) (float epsilon) (int (pos count)))
            (geom_conv (int (pos (2 * half))) (float epsilon) (int (pos count)))
            (geom_conv-IsSelfConvolution (int (pos (2 * half))) (float epsilon) (int (pos count)))
            returned,
      )
