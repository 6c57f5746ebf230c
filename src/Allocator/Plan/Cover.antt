-- ===== src/Allocator/Plan/Cover.antt =====
-- Sound bins: what a bin plan's checks accept, and the ranks that a row of bins covers.
use swat_letindex_baseline.Prelude.{
  ℕ, ◌+◌, ◌-◌, ◌*◌, ◌≤◌, ◌≡◌, refl, pos, sub_ℕ, ◌-ℤ◌, eqb_ℤ, List, [], ◌∷◌, arith, length, sum, map,
  count_up, count_up-append, ==_refl, ge→ltb, le→leb, ok, block_allocation_error, true,
}
use swat_letindex_baseline.Values.{int}
use swat_letindex_baseline.Values.Laws.{require_nat_accepts}
use swat_letindex_baseline.Allocator.Plan.{BlockBinPlan, make_bin_plan, bin_ranks}

-- Bin `index` starts at rank `start` and holds as many real blocks as its interval has ranks, no more
-- than its load; the load fits the capacity and padding fills the bin.
pub record IsBin (capacity index start : ℕ) (bin : BlockBinPlan) : Type 0 where
  pub indexed : bin.bin_index ≡ index
  pub starts : bin.logical_rank_start ≡ start
  pub stops : bin.logical_rank_stop ≡ start + bin.real_count
  pub real_le : bin.real_count ≤ bin.sampled_load
  pub load_le : bin.sampled_load ≤ capacity
  pub padded : bin.real_count + bin.dummy_count ≡ capacity
  pub same_capacity : bin.capacity ≡ capacity

-- Sound bins in a row: each one starts where the one before it stops.
abbrev pub IsRow : ℕ → ℕ → ℕ → List BlockBinPlan → Type 0
IsRow capacity index start [] = Unit
IsRow capacity index start (bin ∷ bins) =
    IsBin capacity index start bin × IsRow capacity (index + 1) (start + bin.real_count) bins

abbrev pub real_total : List BlockBinPlan → ℕ
real_total bins = sum (map (λ bin. bin.real_count) bins)

abbrev pub dummies : List BlockBinPlan → ℕ
dummies bins = sum (map (λ bin. bin.dummy_count) bins)

-- A row of bins covers consecutive ranks, each once and in order.
pub IsRow-bin_ranks :
    (capacity index start : ℕ) (bins : List BlockBinPlan)
    → IsRow capacity index start bins
    → bin_ranks bins ≡ count_up start (real_total bins)
IsRow-bin_ranks capacity index start [] row = refl
IsRow-bin_ranks capacity index start (bin ∷ bins) (sound, row) =
    let width : bin.logical_rank_stop - start ≡ bin.real_count = omega (arith, sound.stops) in
    rw (IsRow-bin_ranks capacity (index + 1) (start + bin.real_count) bins row, sound.starts, width)
      (count_up-append start bin.real_count (real_total bins) (start + bin.real_count) refl)

-- The slots of a row are its real blocks and its padding.
pub IsRow-slots :
    (capacity index start : ℕ) (bins : List BlockBinPlan)
    → IsRow capacity index start bins
    → ◌≡◌ {A = ℕ} (length bins * capacity) (real_total bins + dummies bins)
IsRow-slots capacity index start [] row = omega arith
IsRow-slots capacity index start (bin ∷ bins) (sound, row) =
    omega (arith, sound.padded, IsRow-slots capacity (index + 1) (start + bin.real_count) bins row)

pub sub_ℕ_of_le : (a b : ℕ) → b ≤ a → sub_ℕ a b ≡ pos (a - b)
sub_ℕ_of_le a b h = rw (le→leb b a h) refl

-- The width check of an interval that holds `real` ranks passes.
pub interval_width : (start real : ℕ) → eqb_ℤ (pos (start + real) -ℤ pos start) (pos real) ≡ true
unfolding ◌-ℤ◌
interval_width start real = ground arith

-- The checks of a bin plan pass for such numbers.
pub make_bin_plan_accepts :
    (W : Type 0) (index start load real capacity : ℕ)
    → 2 ≤ capacity
    → real ≤ load
    → load ≤ capacity
    → make_bin_plan {W = W}
        (int (pos index))
        (int (pos start))
        (int (pos (start + real)))
        (int (pos load))
        (int (pos real))
        (int (sub_ℕ capacity real))
        (int (pos capacity))
      ≡ ok (record {
        bin_index = index;
        logical_rank_start = start;
        logical_rank_stop = start + real;
        sampled_load = load;
        real_count = real;
        dummy_count = capacity - real;
        capacity = capacity;
      })
unfolding make_bin_plan
make_bin_plan_accepts W index start load real capacity large r l =
    let checked = require_nat_accepts W block_allocation_error in
    let total : real + (capacity - real) ≡ capacity = omega arith in
    rw
      (
        sub_ℕ_of_le capacity real (omega arith),
        checked index 0 (omega arith),
        checked start 0 (omega arith),
        checked (start + real) 0 (omega arith),
        checked load 0 (omega arith),
        checked real 0 (omega arith),
        checked (capacity - real) 0 (omega arith),
        checked capacity 2 large,
        ge→ltb capacity load l,
        ge→ltb load real r,
        total,
        ==_refl capacity,
        interval_width start real,
      )
      refl
