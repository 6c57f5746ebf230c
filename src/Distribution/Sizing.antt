-- ===== src/Distribution/Sizing.antt =====
-- distribution.py: `compute_bin_capacity_blocks`, the search for the bin capacity.
pub mod Laws
use swat_letindex_baseline.Prelude.{
  ℕ, zero, suc, ◌+◌, ◌-◌, ◌/◌, ℤ, pos, List, not, take, ltb, leb, ◌==◌, max, if◌then◌else◌,
  block_allocation_error, arithmetic_error, out_of_fuel, Result, ok, err, ◌>>=◌, ◌>>◌, refuse_if,
  or_raise,
}
use swat_letindex_baseline.Floats.{Floats}
use swat_letindex_baseline.Values.{Value, int, float, require_nat, require_positive_real}
use swat_letindex_baseline.Distribution.Numbers.{
  atomic_bucket_capacity_blocks, upper_candidate_exponent, fast_power, to_even_up, decay,
}
use swat_letindex_baseline.Distribution.Weights.{geom_conv}

module _ {W : Type 0} ⦃f : Floats W⦄ where
  open f use {nought, one, two, of_int, mul, div, lt, log_int, floor, ceil, fsum}

  -- `math.ceil(2.0 * bucket_capacity / (capacity * decay))`
  probe_bins : ℕ → W → ℕ → Result ℤ
  probe_bins bucket_capacity decayed capacity = do
    buckets ← or_raise (of_int (pos bucket_capacity)) arithmetic_error
    blocks ← or_raise (of_int (pos capacity)) arithmetic_error
    ratio ← or_raise (div (mul two buckets) (mul blocks decayed)) arithmetic_error
    or_raise (ceil ratio) arithmetic_error

  -- The tail weight of one probe: `math.fsum(pmf[:bucket_capacity])`
  probe_tail : ℕ → W → W → ℕ → Result W
  unfolding probe_bins
  probe_tail bucket_capacity epsilon decayed capacity = do
    min_bins ← probe_bins bucket_capacity decayed capacity
    pmf ← geom_conv (int (pos capacity)) (float epsilon) (int min_bins)
    or_raise (fsum (take bucket_capacity pmf)) arithmetic_error

  -- `while lower + 2 < upper`. Each round brings the bounds closer, so `upper` is more rounds than
  -- the loop makes.
  search : ℕ → ℕ → W → W → W → ℕ → ℕ → ℕ → Result ℕ
  search zero bucket_capacity epsilon delta decayed lower upper capacity = err out_of_fuel
  search (suc rounds) bucket_capacity epsilon delta decayed lower upper capacity =
      let round = (do
        probe ← to_even_up {W = W} (int (pos ((lower + upper) / 2)))
        tail ← probe_tail bucket_capacity epsilon decayed probe
        search rounds bucket_capacity epsilon delta decayed
            (if lt delta tail then probe + 2 else lower) (if lt delta tail then upper else probe)
            probe) in
      if ltb (lower + 2) upper then round else ok capacity

  -- `to_even_up(math.floor(_fast_power(math.log(lam), _UPPER_CANDIDATE_EXPONENT) / epsilon))`
  upper_candidate : ℕ → W → Result ℕ
  upper_candidate lam epsilon = do
    logarithm ← or_raise (log_int lam) arithmetic_error
    ratio ← or_raise (div (fast_power logarithm upper_candidate_exponent) epsilon) arithmetic_error
    floored ← or_raise (floor ratio) arithmetic_error
    to_even_up {W = W} (int floored)

  unfoldable pub compute_bin_capacity_blocks : Value W → Value W → Value W → Value W → Result ℕ
  unfolding search probe_tail upper_candidate
  compute_bin_capacity_blocks security_lambda privacy_epsilon privacy_delta bucket_capacity_blocks =
      do
        lam ← require_nat block_allocation_error security_lambda 2
        epsilon ← require_positive_real block_allocation_error privacy_epsilon
        delta ← require_positive_real block_allocation_error privacy_delta
        refuse_if (not (lt delta one)) block_allocation_error
        bucket_capacity ← require_nat block_allocation_error bucket_capacity_blocks 1
        refuse_if (not (bucket_capacity == atomic_bucket_capacity_blocks)) block_allocation_error
        decayed ← decay lam
        refuse_if (not (lt nought decayed)) block_allocation_error
        upper ← upper_candidate lam epsilon
        if leb upper (2 + 2)
            then ok (max 2 upper)
            else search upper bucket_capacity epsilon delta decayed 2 upper upper
