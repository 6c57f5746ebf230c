-- ===== src/Schedule/Order.antt =====
-- content_schedule.py: what `SwatBlockMergeSchedule` asks of its reads, and `read_order`.
use swat_letindex_baseline.Prelude.{
  ℕ, ◌≡◌, refl, List, [], ◌∷◌, ◌++◌, Bool, true, range, ltb, ◌==◌, ==_refl, ◌&&◌, arith,
  if◌then◌else◌,
}
use swat_letindex_baseline.Sorting.{sorted, list_eq}
use swat_letindex_baseline.Sorting.Laws.{list_eq_refl, sorted_of_IsAscending, count_up-IsAscending}
use swat_letindex_baseline.Schedule.Bins.{Side, side_eq}
use swat_letindex_baseline.Schedule.Reads.{AbstractBinRead, PerSide, at}

-- `[read.bin_index for read in reads if read.side == side]`
unfoldable pub read_order : Side → List AbstractBinRead → List ℕ
read_order side [] = []
read_order side (read ∷ reads) =
    let rest = read_order side reads in
    if side_eq read.side side then read.bin_index ∷ rest else rest

-- Every read is of a bin that its side has.
unfoldable pub in_range : PerSide → List AbstractBinRead → Bool
in_range counts [] = true
in_range counts (read ∷ reads) = ltb read.bin_index (at counts read.side) && in_range counts reads

-- `sorted(scheduled) == list(range(bin_count))`
unfoldable pub once_each : List ℕ → ℕ → Bool
once_each scheduled bin_count =
    list_eq (λ a b. a == b) (sorted (λ a b. ltb a b) scheduled) (range 0 bin_count)

pub read_order-append :
    (side : Side) (xs ys : List AbstractBinRead)
    → read_order side (xs ++ ys) ≡ read_order side xs ++ read_order side ys
unfolding read_order
read_order-append side [] ys = refl
read_order-append side (x ∷ xs) ys = ground (arith, read_order-append side xs ys)

pub in_range-append :
    (counts : PerSide) (xs ys : List AbstractBinRead)
    → in_range counts xs ≡ true
    → in_range counts ys ≡ true
    → in_range counts (xs ++ ys) ≡ true
unfolding in_range
in_range-append counts [] ys h k = k
in_range-append counts (x ∷ xs) ys h k = ground (arith, in_range-append counts xs ys)

-- The check of the reads passes for the bins in order.
pub once_each-range : (n : ℕ) → once_each (range 0 n) n ≡ true
unfolding once_each
once_each-range n =
    rw (sorted_of_IsAscending (λ a b. ltb a b) (range 0 n) (count_up-IsAscending 0 _))
      (list_eq_refl (λ a b. a == b) ==_refl (range 0 n))
