-- ===== src/Allocator/Allocate/Bins.antt =====
-- The bins that the allocator hands out for the sampled loads.
use swat_letindex_baseline.Prelude.{
  ℕ, ◌+◌, ◌-◌, ◌≤◌, ◌≡◌, refl, ap, List, [], ◌∷◌, arith, sum, map, min, All, ok,
}
use swat_letindex_baseline.Allocator.Plan.{BlockBinPlan}
use swat_letindex_baseline.Allocator.Plan.Cover.{IsRow, real_total, make_bin_plan_accepts}
use swat_letindex_baseline.Allocator.Allocate.{plan_bins}

abbrev pub loads_of : List BlockBinPlan → List ℕ
loads_of bins = map (λ bin. bin.sampled_load) bins

-- Each bin takes as many of the blocks that are left as its load allows.
abbrev pub IsGreedy : ℕ → List BlockBinPlan → Type 0
IsGreedy left [] = Unit
IsGreedy left (bin ∷ bins) =
    (bin.real_count ≡ min bin.sampled_load left) × IsGreedy (left - bin.real_count) bins

-- Greedy bins take all blocks, or all that their loads allow.
pub IsGreedy-real_total :
    (left : ℕ) (bins : List BlockBinPlan)
    → IsGreedy left bins
    → real_total bins ≡ min (sum (loads_of bins)) left
IsGreedy-real_total left [] h = omega arith
IsGreedy-real_total left (bin ∷ bins) (e, h) =
    omega (arith, IsGreedy-real_total (left - bin.real_count) bins h)

pub plan_bins_lem :
    (W : Type 0) (blocks capacity index consumed left : ℕ) (loads : List ℕ)
    → 2 ≤ capacity
    → All (λ l. l ≤ capacity) loads
    → left ≡ blocks - consumed
    → (bins : List BlockBinPlan) × (plan_bins W blocks capacity index consumed loads ≡ ok bins)
      × IsRow capacity index consumed bins
      × IsGreedy left bins
      × (loads_of bins ≡ loads)
unfolding plan_bins
plan_bins_lem W blocks capacity index consumed left [] large within e = ([], refl, tt, tt, refl)
plan_bins_lem W blocks capacity index consumed left (load ∷ loads) large (fits, within) e =
    let real = min load (blocks - consumed) in
    let (bins, made, row, greedy, same) =
      plan_bins_lem W blocks capacity (index + 1) (consumed + real) (left - real) loads large within
        (omega arith) in
    let accepted =
      make_bin_plan_accepts W index consumed load real capacity large (omega arith) fits in
    (
      record {
        bin_index = index;
        logical_rank_start = consumed;
        logical_rank_stop = consumed + real;
        sampled_load = load;
        real_count = real;
        dummy_count = capacity - real;
        capacity = capacity;
      }
          ∷ bins,
      rw (accepted, made) refl,
      (omega arith, row),
      (rw e refl, greedy),
      ap (◌∷◌ load) same,
    )
