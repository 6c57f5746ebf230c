-- ===== src/Distribution/Samplers.antt =====
-- distribution.py: `GeometricLoadSampler` and `LaplaceSampler`. A sampler is its state; a draw returns
-- the next state beside the value.
pub mod Bisect
pub mod Boundary
pub mod Laws
use swat_letindex_baseline.Prelude.{
  ℕ, ◌-◌, ℤ, pos, negsuc, List, [], ◌∷◌, not, length, leb, if◌then◌else◌, block_allocation_error,
  arithmetic_error, Result, ok, ◌>>=◌, ◌>>◌, refuse_if, or_raise,
}
use swat_letindex_baseline.Floats.{Floats, Streams}
use swat_letindex_baseline.Values.{Value, int, float, require_positive_real}
use swat_letindex_baseline.Distribution.Numbers.{require_even_positive}
use swat_letindex_baseline.Distribution.Weights.{compute_weight}
use swat_letindex_baseline.Distribution.Streams.{derive_stream_seed}
use swat_letindex_baseline.Distribution.Samplers.Bisect.{bisect_right}

pub record GeometricLoadSampler (S W : Type 0) : Type 0 where
  pub bin_capacity_blocks : ℕ
  pub privacy_epsilon : W
  pub weights : List W
  pub cumulative : List W
  pub total : W
  pub stream : S

pub record LaplaceSampler (S : Type 0) : Type 0 where
  pub stream : S

module _ {W : Type 0} ⦃f : Floats W⦄ where
  -- The running sums of a weight vector, and the last of them.
  unfoldable pub accumulate : W → List W → List W × W
  accumulate running [] = ([], running)
  accumulate running (weight ∷ weights) =
      let (sums, total) = accumulate (f.add running weight) weights in
      (f.add running weight ∷ sums, total)

  -- An index drawn from cumulative weights; one past the last weight falls back on the last.
  unfoldable pub pick : List W → List W → W → Result ℕ
  pick weights cumulative draw = do
    index ← bisect_right cumulative draw
    ok (if leb (length weights) index then length weights - 1 else index)

module _ {S W : Type 0} ⦃f : Floats W⦄ (streams : Streams S W) where
  open f use {nought, one, two, half, sub, mul, neg, abs, pow, lt, le, log}

  unfoldable pub make_geometric :
      Value W → Value W → Value W → List ℕ → Result (GeometricLoadSampler S W)
  unfolding accumulate
  make_geometric bin_capacity_blocks privacy_epsilon seed domain = do
    capacity ← require_even_positive bin_capacity_blocks
    epsilon ← require_positive_real block_allocation_error privacy_epsilon
    weights ← compute_weight (int (pos capacity)) (float epsilon)
    let sums = accumulate nought weights
    refuse_if (not (lt nought sums.1)) block_allocation_error
    stream_seed ← derive_stream_seed streams seed domain
    ok (record {
      bin_capacity_blocks = capacity;
      privacy_epsilon = epsilon;
      weights = weights;
      cumulative = sums.0;
      total = sums.1;
      stream = streams.seeded stream_seed;
    })

  unfoldable pub sample_geometric : GeometricLoadSampler S W → Result (ℕ × GeometricLoadSampler S W)
  unfolding pick
  sample_geometric sampler = do
    let drawn = streams.random sampler.stream
    index ← pick sampler.weights sampler.cumulative (mul drawn.0 sampler.total)
    ok (index, record sampler { stream = drawn.1 })

  unfoldable pub make_laplace : Value W → List ℕ → Result (LaplaceSampler S)
  make_laplace seed domain = do
    stream_seed ← derive_stream_seed streams seed domain
    ok (record { stream = streams.seeded stream_seed })

  -- `_SMALLEST_POSITIVE_UNIFORM`, 2.0 ** -53, stands in for a draw of 0.0.
  unfoldable pub sample_laplace : LaplaceSampler S → Value W → Result (W × LaplaceSampler S)
  sample_laplace sampler scale = do
    magnitude ← require_positive_real block_allocation_error scale
    let drawn = streams.random sampler.stream
    smallest ← or_raise (pow two (negsuc 52)) arithmetic_error
    let draw = if le drawn.0 nought then smallest else drawn.0
    let sign = if lt half draw then one else neg one
    logarithm ← or_raise (log (sub one (mul two (abs (sub draw half))))) arithmetic_error
    ok (mul (mul (neg magnitude) sign) logarithm, record { stream = drawn.1 })
