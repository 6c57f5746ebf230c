-- ===== src/Schedule/Reads.antt =====
-- content_schedule.py: `AbstractBinRead`, `sorted_tagged_interior_points` and
-- `build_abstract_merge_schedule`.
pub mod Laws
use swat_letindex_baseline.Prelude.{
  ℕ, zero, suc, ◌+◌, List, [], ◌∷◌, ◌++◌, Bool, length, ltb, not, content_schedule_error, Result,
  ok, ◌>>=◌, ◌>>◌, refuse_if, if◌then◌else◌,
}
use swat_letindex_baseline.Sorting.{sorted}
use swat_letindex_baseline.Schedule.Bins.{Side, source, target, TaggedBinInteriorPoint, ordering_lt}
use swat_letindex_baseline.Schedule.Allocation.{BoundBlockAllocation}

pub record AbstractBinRead : Type 0 where
  pub side : Side
  pub bin_index : ℕ

module _ {V W : Type 0} where
  unfoldable pub sorted_tagged_interior_points :
      BoundBlockAllocation V W → BoundBlockAllocation V W → List TaggedBinInteriorPoint
  sorted_tagged_interior_points from to =
      sorted ordering_lt (from.tagged_interior_points ++ to.tagged_interior_points)

-- A number for each side: `next_unread` and `bin_counts`.
pub record PerSide : Type 0 where
  pub of_source : ℕ
  pub of_target : ℕ

abbrev pub at : PerSide → Side → ℕ
at counts source = counts.of_source
at counts target = counts.of_target

abbrev pub advance : PerSide → Side → PerSide
advance counts source = record counts { of_source = counts.of_source + 1 }
advance counts target = record counts { of_target = counts.of_target + 1 }

-- The preload of one side: a read of bin 0 if the side has one.
abbrev pub preload : Side → ℕ → List AbstractBinRead
preload side zero = []
preload side (suc n) = record { side = side; bin_index = 0 } ∷ []

abbrev pub preloaded : ℕ → ℕ
preloaded zero = 0
preloaded (suc n) = 1

-- `for point in sorted_tagged_interior_points(...)`
scan_points : PerSide → PerSide → List TaggedBinInteriorPoint → List AbstractBinRead
scan_points bin_counts next_unread [] = []
scan_points bin_counts next_unread (point ∷ points) =
    let fetched =
      record { side = point.side; bin_index = at next_unread point.side }
      ∷ scan_points bin_counts (advance next_unread point.side) points in
    let skipped = scan_points bin_counts next_unread points in
    if ltb (at next_unread point.side) (at bin_counts point.side) then fetched else skipped

-- The reads of two sides with these numbers of bins, along the sorted points.
unfoldable pub schedule_reads : PerSide → List TaggedBinInteriorPoint → List AbstractBinRead
unfolding scan_points
schedule_reads bin_counts points =
    preload source bin_counts.of_source
    ++ preload target bin_counts.of_target
    ++ scan_points bin_counts
        (record {
          of_source = preloaded bin_counts.of_source;
          of_target = preloaded bin_counts.of_target;
        })
        points

module _ {V W : Type 0} where
  unfoldable pub build_abstract_merge_schedule :
      BoundBlockAllocation V W → BoundBlockAllocation V W → Result (List AbstractBinRead)
  build_abstract_merge_schedule from to = do
    refuse_if (not from.sampled) content_schedule_error
    refuse_if (not to.sampled) content_schedule_error
    ok (
        schedule_reads (record { of_source = length from.bins; of_target = length to.bins })
          (sorted_tagged_interior_points from to))
