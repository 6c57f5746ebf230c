-- ===== src/Distribution/Numbers.antt =====
-- The small numeric helpers of distribution.py: `_require_even_positive`, `_fast_power`,
-- `to_even_up`, `_decay` and `pinned_uint32_cast`.
pub mod Power
use swat_letindex_baseline.Prelude.{
  ℕ, zero, suc, ◌+◌, ◌-◌, ◌/◌, ◌%◌, ◌^◌, pos, negsuc, not, ◌==◌, if◌then◌else◌,
  block_allocation_error, arithmetic_error, Result, ok, ◌>>=◌, ◌>>◌, refuse_if, or_raise,
}
use swat_letindex_baseline.Floats.{Floats}
use swat_letindex_baseline.Values.{Value, require_nat, require_real}

-- ATOMIC_BUCKET_CAPACITY_BLOCKS, _UPPER_CANDIDATE_EXPONENT and _UINT32_MAX
abbrev pub atomic_bucket_capacity_blocks : ℕ
atomic_bucket_capacity_blocks = 1

abbrev pub upper_candidate_exponent : ℕ
upper_candidate_exponent = 5

abbrev pub uint32_max : ℕ
uint32_max = 2 ^ 32 - 1

unfoldable pub require_even_positive : {W : Type 0} → Value W → Result ℕ
require_even_positive value = do
  number ← require_nat block_allocation_error value 2
  refuse_if (not (number % 2 == 0)) block_allocation_error
  ok number

unfoldable pub to_even_up : {W : Type 0} → Value W → Result ℕ
to_even_up value = do number ← require_nat block_allocation_error value 0; ok (number + number % 2)

module _ {W : Type 0} ⦃f : Floats W⦄ where
  open f use {nought, one, two, sub, mul, neg, div, pow, le, int_le, is_finite, log_int, trunc}

  -- The loop `while exp > 0`, with the rounds that are left. Each round halves `exp`, so an exponent
  -- is more rounds than the loop makes.
  unfoldable pub fast_power_loop : ℕ → ℕ → W → W → W
  fast_power_loop zero exp value result = result
  fast_power_loop (suc rounds) exp value result =
      let next =
        fast_power_loop rounds (exp / 2) (mul value value)
          (if exp % 2 == 1 then mul result value else result) in
      if exp == 0 then result else next

  unfoldable pub fast_power : W → ℕ → W
  unfolding fast_power_loop
  fast_power base exponent = fast_power_loop exponent exponent base one

  -- `1.0 - math.log(security_lambda) ** -2`
  unfoldable pub decay : ℕ → Result W
  decay security_lambda = do
    logarithm ← or_raise (log_int security_lambda) arithmetic_error
    squared ← or_raise (pow logarithm (negsuc 1)) arithmetic_error
    ok (sub one squared)

  -- A real number between the two clamps is positive, so its truncation is a natural number.
  unfoldable pub pinned_uint32_cast : Value W → Result ℕ
  unfolding require_real
  pinned_uint32_cast value = do
    number ← require_real block_allocation_error value
    refuse_if (not (is_finite number)) block_allocation_error
    if le number nought
        then ok 0
        else if int_le (pos uint32_max) number
        then ok uint32_max
        else or_raise (trunc number) arithmetic_error
