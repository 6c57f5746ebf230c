-- ===== src/Allocator/Prefix/Loops.antt =====
-- The inner loops of `compute_noisy_prefix_sums`.
pub mod Bits
use swat_letindex_baseline.Prelude.{
  ℕ, zero, suc, ◌+◌, ◌*◌, ◌/◌, ◌%◌, List, leb, ◌==◌, if◌then◌else◌, out_of_fuel, Result, ok, err,
  ◌>>=◌,
}
use swat_letindex_baseline.Floats.{Floats}
use swat_letindex_baseline.Distribution.Weights.Array.{read_at, write_at}

-- `while (bit & value) == 0`, with `bit` a power of two. The lowest set bit of `value` is at most
-- `value`, so `value` is as many rounds as the loop can make. (At 0 the Python loop does not end.)
zeros_loop : ℕ → ℕ → ℕ → ℕ → Result ℕ
zeros_loop zero value bit count = err out_of_fuel
zeros_loop (suc rounds) value bit count =
    let more = zeros_loop rounds value (bit * 2) (count + 1) in
    if (value / bit) % 2 == 0 then more else ok count

unfoldable pub trailing_zeros : ℕ → Result ℕ
unfolding zeros_loop
trailing_zeros value = zeros_loop value value 1 0

module _ {W : Type 0} ⦃f : Floats W⦄ where
  -- `for lower in range(index)`, with the rounds that are left: the target, and the cleared levels.
  unfoldable pub clear_lower : ℕ → ℕ → ℕ → List ℕ → List W → Result (ℕ × List ℕ × List W)
  clear_lower zero lower target block_sums noisy_sums = ok (target, block_sums, noisy_sums)
  clear_lower (suc rounds) lower target block_sums noisy_sums = do
    collected ← read_at block_sums lower
    sums ← write_at block_sums lower 0
    noisy ← write_at noisy_sums lower f.nought
    clear_lower rounds (lower + 1) (target + collected) sums noisy

  -- `while bit <= t`, with `bit` a power of two. It doubles from 1, so `suc t` rounds are enough.
  sum_loop : ℕ → ℕ → ℕ → ℕ → W → List W → Result W
  sum_loop zero t bit level running noisy_sums = err out_of_fuel
  sum_loop (suc rounds) t bit level running noisy_sums =
      let round = (do
        next ←
            if (t / bit) % 2 == 1
            then (do noisy ← read_at noisy_sums level; ok (f.add running noisy))
            else ok running
        sum_loop rounds t (bit * 2) (level + 1) next noisy_sums) in
      if leb bit t then round else ok running

  unfoldable pub sum_levels : ℕ → ℕ → ℕ → W → List W → Result W
  unfolding sum_loop
  sum_levels t bit level running noisy_sums = sum_loop (suc t) t bit level running noisy_sums
