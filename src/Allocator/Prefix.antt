-- ===== src/Allocator/Prefix.antt =====
-- bin_allocator.py: `_trailing_zeros` and `compute_noisy_prefix_sums`, the binary mechanism over the
-- sampled loads. Level `i` of the mechanism holds the sum of a run of 2 ** i loads.
pub mod Loops
pub mod Laws
pub mod Window
pub mod Estimates
use swat_letindex_baseline.Prelude.{
  ℕ, zero, suc, ◌+◌, ◌-◌, ◌*◌, ◌/◌, ◌%◌, ℤ, pos, pos_part, List, [], ◌∷◌, length, replicate, ltb,
  leb, ◌==◌, max, if◌then◌else◌, block_allocation_error, arithmetic_error, Result, ok, err, ◌>>=◌,
  ◌>>◌, refuse_if, or_raise,
}
use swat_letindex_baseline.Floats.{Floats, Streams}
use swat_letindex_baseline.Values.{Value, int, float, require_nat, require_positive_real}
use swat_letindex_baseline.Distribution.Numbers.{pinned_uint32_cast}
use swat_letindex_baseline.Distribution.Weights.Array.{write_at}
use swat_letindex_baseline.Distribution.Samplers.{LaplaceSampler, sample_laplace}
use swat_letindex_baseline.Allocator.Prefix.Loops.{trailing_zeros, clear_lower, sum_levels}

-- The three clamps of one round: not below the last entry, and within `capacity` of the true sum.
-- The subtraction of the last clamp is under the test that its first term is the larger.
unfoldable pub clamp_estimate : ℕ → ℕ → ℕ → ℕ → ℕ
clamp_estimate capacity current_sum last estimate =
    let raised = if ltb estimate last then last else estimate in
    let lowered = if ltb (current_sum + capacity) raised then current_sum + capacity else raised in
    if ltb (lowered + capacity) current_sum then current_sum - capacity else lowered

-- `abs(a - b)`
abbrev pub gap : ℕ → ℕ → ℕ
gap a b = if leb b a then a - b else b - a

module _ {W : Type 0} where
  -- The checks of the sampled loads.
  unfoldable pub check_loads : ℕ → List (Value W) → Result (List ℕ)
  check_loads capacity [] = ok []
  check_loads capacity (load ∷ loads) = do
    value ← require_nat block_allocation_error load 0
    refuse_if (ltb capacity value) block_allocation_error
    rest ← check_loads capacity loads
    ok (value ∷ rest)

-- The mechanism's state: the levels, and the stream of the noise.
pub record Levels (S W : Type 0) : Type 0 where
  pub block_sums : List ℕ
  pub noisy_sums : List W
  pub laplace : LaplaceSampler S

-- `int(math.ceil(math.log2(bin_count + 1)))`. A list of a negative number of zeros is empty.
pub level_count : {W : Type 0} → Floats W → ℕ → Result ℕ
level_count f bin_count = do
  logarithm ← or_raise (f.log2_int (bin_count + 1)) arithmetic_error
  levels ← or_raise (f.ceil logarithm) arithmetic_error
  ok (pos_part levels)

module _ {S W : Type 0} ⦃f : Floats W⦄ (streams : Streams S W) where
  open f use {nought, one, of_int, add, div}

  -- Round `t`: collect the levels below the lowest set bit of `t`, draw the noise of the level that
  -- replaces them, and add up the noisy sums at the set bits of `t`.
  pub estimate_round : W → ℕ → ℕ → Levels S W → Result (ℕ × Levels S W)
  estimate_round epsilon t load levels = do
    index ← trailing_zeros t
    cleared ← clear_lower index 0 load levels.block_sums levels.noisy_sums
    block_sums ← write_at cleared.1 index cleared.0
    scale ← or_raise (div one epsilon) arithmetic_error
    noise ← sample_laplace streams levels.laplace (float scale)
    target ← or_raise (of_int (pos cleared.0)) arithmetic_error
    noisy_sums ← write_at cleared.2 index (add target noise.0)
    running ← sum_levels t 1 0 nought noisy_sums
    estimate ← pinned_uint32_cast (float running)
    ok (estimate, record { block_sums = block_sums; noisy_sums = noisy_sums; laplace = noise.1 })

  -- `for t in range(1, bin_count + 1)`: the entries from `t` on, and the additive error.
  prefix_rounds : W → ℕ → ℕ → ℕ → ℕ → ℕ → List ℕ → Levels S W → Result (List ℕ × ℕ)
  prefix_rounds epsilon capacity t current_sum last additive_error [] levels =
      ok ([], additive_error)
  prefix_rounds epsilon capacity t current_sum last additive_error (load ∷ loads) levels = do
    estimated ← estimate_round epsilon t load levels
    let value = clamp_estimate capacity (current_sum + load) last estimated.0
    rest ←
        prefix_rounds epsilon capacity (t + 1) (current_sum + load) value
          (max additive_error (gap (current_sum + load) value)) loads estimated.1
    ok (value ∷ rest.0, rest.1)

  unfoldable pub compute_noisy_prefix_sums :
      List (Value W) → Value W → Value W → LaplaceSampler S → Result (List ℕ × ℕ)
  unfolding prefix_rounds estimate_round level_count
  compute_noisy_prefix_sums bin_loads privacy_epsilon bin_capacity_blocks laplace = do
    epsilon ← require_positive_real block_allocation_error privacy_epsilon
    capacity ← require_nat block_allocation_error bin_capacity_blocks 2
    loads ← check_loads capacity bin_loads
    if length loads == 0 then ok (0 ∷ [], 0) else do
      levels ← level_count f (length loads)
      rounds ← prefix_rounds epsilon capacity 1 0 0 0 loads (record {
        block_sums = replicate levels 0;
        noisy_sums = replicate levels nought;
        laplace = laplace;
      })
      ok (0 ∷ rounds.0, rounds.1)
