-- ===== src/Allocator/Config.antt =====
-- bin_allocator.py: `SwatBlockAllocationConfig`, `swat_reference_config`, `compute_factor` and
-- `compute_bin_count`.
pub mod Laws
use swat_letindex_baseline.Prelude.{
  ℕ, ◌*◌, ◌^◌, ℤ, pos, Option, not, ◌&&◌, ◌==◌, if◌then◌else◌, block_allocation_error,
  arithmetic_error, Result, ok, ◌>>=◌, ◌>>◌, refuse_if, or_raise,
}
use swat_letindex_baseline.Floats.{Floats}
use swat_letindex_baseline.Values.{
  Value, int, float, require_nat, require_real, require_positive_real,
}
use swat_letindex_baseline.Distribution.Numbers.{atomic_bucket_capacity_blocks, decay}

pub record SwatBlockAllocationConfig (W : Type 0) : Type 0 where
  pub security_lambda : ℕ
  pub privacy_epsilon : W
  pub privacy_delta : W
  pub seed : ℕ

module _ {W : Type 0} ⦃f : Floats W⦄ where
  open f use {nought, one, two, of_int, mul, div, pow, lt, is_finite, log_int, ceil}

  unfoldable pub require_real_in_open_unit : Value W → Result W
  unfolding require_real
  require_real_in_open_unit value = do
    number ← require_real block_allocation_error value
    refuse_if (not (is_finite number && (lt nought number && lt number one))) block_allocation_error
    ok number

  -- `SwatBlockAllocationConfig(...)` with its `__post_init__`
  unfoldable pub make_config :
      Value W → Value W → Value W → Value W → Result (SwatBlockAllocationConfig W)
  unfolding require_real_in_open_unit
  make_config security_lambda privacy_epsilon privacy_delta seed = do
    lam ← require_nat block_allocation_error security_lambda 2
    epsilon ← require_positive_real block_allocation_error privacy_epsilon
    delta ← require_real_in_open_unit privacy_delta
    checked_seed ← require_nat block_allocation_error seed 0
    logarithm ← or_raise (log_int lam) arithmetic_error
    squared ← or_raise (pow logarithm (pos 2)) arithmetic_error
    refuse_if (not (lt one squared)) block_allocation_error
    ok (record {
      security_lambda = lam;
      privacy_epsilon = epsilon;
      privacy_delta = delta;
      seed = checked_seed;
    })

  -- lambda = 512, epsilon = 1.0, delta = 1e-12, which is the float nearest to 1 / 10 ** 12.
  unfoldable pub swat_reference_config : Value W → Result (SwatBlockAllocationConfig W)
  unfolding make_config
  swat_reference_config seed = do
    scale ← or_raise (of_int (pos (10 ^ 12))) arithmetic_error
    delta ← or_raise (div one scale) arithmetic_error
    make_config (int (pos 512)) (float one) (float delta) seed

  -- The `decay` of a configuration.
  unfoldable pub config_decay : SwatBlockAllocationConfig W → Result W
  config_decay config = decay config.security_lambda

  unfoldable pub compute_factor : Value W → Value W → Result W
  unfolding decay
  compute_factor security_lambda bin_capacity_blocks = do
    lam ← require_nat block_allocation_error security_lambda 2
    capacity ← require_nat block_allocation_error bin_capacity_blocks 2
    decayed ← decay lam
    refuse_if (not (lt nought decayed)) block_allocation_error
    buckets ← or_raise (of_int (pos atomic_bucket_capacity_blocks)) arithmetic_error
    blocks ← or_raise (of_int (pos capacity)) arithmetic_error
    or_raise (div (mul two buckets) (mul blocks decayed)) arithmetic_error

  -- The count is an int, and only a law of the float operations makes it positive.
  unfoldable pub compute_bin_count : Value W → Value W → Result ℤ
  compute_bin_count factor block_count = do
    rate ← require_positive_real block_allocation_error factor
    blocks ← require_nat block_allocation_error block_count 0
    if blocks == 0 then ok (pos 0) else do
      count ← or_raise (of_int (pos blocks)) arithmetic_error
      or_raise (ceil (mul rate count)) arithmetic_error
