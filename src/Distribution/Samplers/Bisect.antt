-- ===== src/Distribution/Samplers/Bisect.antt =====
-- `bisect.bisect_right` of the standard library, which both samplers of the package call.
use swat_letindex_baseline.Prelude.{
  ℕ, zero, suc, ◌+◌, ◌/◌, List, length, ltb, if◌then◌else◌, out_of_fuel, Result, ok, err, ◌>>=◌,
}
use swat_letindex_baseline.Floats.{Floats}
use swat_letindex_baseline.Distribution.Weights.Array.{read_at}

module _ {W : Type 0} ⦃f : Floats W⦄ where
  -- `while lo < hi`. Each round brings the bounds closer.
  unfoldable pub bisect_loop : ℕ → List W → W → ℕ → ℕ → Result ℕ
  bisect_loop zero a x lo hi = err out_of_fuel
  bisect_loop (suc rounds) a x lo hi =
      let round = (do
        value ← read_at a ((lo + hi) / 2)
        let below = f.lt x value
        bisect_loop rounds a x (if below then lo else (lo + hi) / 2 + 1)
            (if below then (lo + hi) / 2 else hi)) in
      if ltb lo hi then round else ok lo

  unfoldable pub bisect_right : List W → W → Result ℕ
  unfolding bisect_loop
  bisect_right a x = bisect_loop (suc (length a)) a x 0 (length a)
