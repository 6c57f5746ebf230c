-- ===== src/Distribution/Weights.antt =====
-- distribution.py: `compute_weight`, `_convolve` and `geom_conv`. Lists are written in place, as the
-- source does, and a position out of range raises IndexError.
pub mod Array
pub mod Laws
pub mod Shape
pub mod Convolution
pub mod SelfConvolution
pub mod Returns
use swat_letindex_baseline.Prelude.{
  ℕ, zero, suc, ◌+◌, ◌-◌, ◌*◌, ◌/◌, ℤ, pos, List, [], ◌∷◌, not, length, get_elem?, replicate, ◌==◌,
  if◌then◌else◌, block_allocation_error, arithmetic_error, index_error, Result, ok, err, ◌>>=◌,
  ◌>>◌, refuse_if, or_raise,
}
use swat_letindex_baseline.Floats.{Floats}
use swat_letindex_baseline.Values.{Value, int, float, require_nat, require_positive_real}
use swat_letindex_baseline.Distribution.Numbers.{require_even_positive, fast_power}
use swat_letindex_baseline.Distribution.Weights.Array.{read_at, write_at}

module _ {W : Type 0} ⦃f : Floats W⦄ where
  open f use {nought, one, two, add, sub, mul, neg, div, eq, exp}

  -- `for index in range(1, half + 1)`, with the rounds that are left
  pub weight_loop : ℕ → ℕ → ℕ → W → W → List W → Result (List W)
  weight_loop zero half index alpha multiplier weights = ok weights
  weight_loop (suc rounds) half index alpha multiplier weights = do
    before ← read_at weights (half + index - 1)
    let weight = mul before multiplier
    right ← write_at weights (half + index) weight
    both ← write_at right (half - index) weight
    weight_loop rounds half (index + 1) alpha (mul multiplier alpha) both

  -- `(1.0 - alpha) / (1.0 + alpha - 2.0 * _fast_power(alpha, half + 1))`
  centre_weight : W → ℕ → Result W
  centre_weight alpha half =
      or_raise (div (sub one alpha) (sub (add one alpha) (mul two (fast_power alpha (half + 1)))))
        arithmetic_error

  unfoldable pub compute_weight : Value W → Value W → Result (List W)
  unfolding weight_loop centre_weight
  compute_weight bin_capacity_blocks privacy_epsilon = do
    capacity ← require_even_positive bin_capacity_blocks
    epsilon ← require_positive_real block_allocation_error privacy_epsilon
    alpha ← or_raise (exp (neg epsilon)) arithmetic_error
    let half = capacity / 2
    centre ← centre_weight alpha half
    weights ← write_at (replicate (capacity + 1) nought) half centre
    weight_loop half half 1 alpha alpha weights

  -- `for j, right_value in enumerate(right)`
  convolve_row : ℕ → W → ℕ → List W → List W → Result (List W)
  convolve_row i left_value j [] result = ok result
  convolve_row i left_value j (right_value ∷ right) result = do
    old ← read_at result (i + j)
    new ← write_at result (i + j) (add old (mul left_value right_value))
    convolve_row i left_value (j + 1) right new

  -- `for i, left_value in enumerate(left)`
  convolve_rows : ℕ → List W → List W → List W → Result (List W)
  convolve_rows i [] right result = ok result
  convolve_rows i (left_value ∷ left) right result = do
    new ← if eq left_value nought then ok result else convolve_row i left_value 0 right result
    convolve_rows (i + 1) left right new

  pub convolve : List W → List W → Result (List W)
  unfolding convolve_rows convolve_row
  convolve [] right = ok []
  convolve (x ∷ left) [] = ok []
  convolve (x ∷ left) (y ∷ right) =
      convolve_rows 0 (x ∷ left) (y ∷ right)
        (replicate (length (x ∷ left) + length (y ∷ right) - 1) nought)

  -- `for _ in range(1, count)`
  pub convolve_times : ℕ → List W → List W → Result (List W)
  convolve_times zero geom current = ok current
  convolve_times (suc rounds) geom current = do
    next ← convolve current geom
    convolve_times rounds geom next

  unfoldable pub geom_conv : Value W → Value W → Value W → Result (List W)
  unfolding convolve_times
  geom_conv bin_capacity_blocks privacy_epsilon bin_count = do
    capacity ← require_even_positive bin_capacity_blocks
    epsilon ← require_positive_real block_allocation_error privacy_epsilon
    count ← require_nat block_allocation_error bin_count 1
    geom ← compute_weight (int (pos capacity)) (float epsilon)
    current ← convolve_times (count - 1) geom geom
    refuse_if (not (length current == (capacity * count + 1))) block_allocation_error
    ok current
