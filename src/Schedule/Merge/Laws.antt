-- ===== src/Schedule/Merge/Laws.antt =====
-- The merge schedule of two sampled sides.
use mathlib.Core.List.{Perm}
use swat_letindex_baseline.Prelude.{
  ◌+◌, ◌≤◌, ◌≡◌, refl, List, [], ◌∷◌, ◌++◌, true, false, arith, length, range, ◌==◌, ==_refl,
  length-append, ok, ◌>>=◌,
}
use swat_letindex_baseline.Sorting.{sorted}
use swat_letindex_baseline.Sorting.Laws.{
  IsAscending, sorted-IsAscending, sorted-perm, length-sorted,
}
use swat_letindex_baseline.Content.Interior.{InteriorPoint}
use swat_letindex_baseline.Schedule.Bins.{
  Side, source, target, side_eq, BoundBlockBin, TaggedBinInteriorPoint, ordering_lt,
}
use swat_letindex_baseline.Schedule.Allocation.{BoundBlockAllocation}
use swat_letindex_baseline.Schedule.Sampling.Laws.{AreChosen}
use swat_letindex_baseline.Schedule.Order.{read_order, in_range, once_each, once_each-range}
use swat_letindex_baseline.Schedule.Reads.{
  AbstractBinRead, at, schedule_reads, sorted_tagged_interior_points, build_abstract_merge_schedule,
}
use swat_letindex_baseline.Schedule.Reads.Laws.{
  count_side, count_side-sorted, read_order-schedule_reads, schedule_reads-in_range,
}
use swat_letindex_baseline.Schedule.Merge.{
  SwatBlockMergeSchedule, counts_of, make_schedule, source_read_order, target_read_order,
}

pub ordering_lt_asym :
    (a b : TaggedBinInteriorPoint) → ordering_lt a b ≡ true → ordering_lt b a ≡ false
ordering_lt_asym a b h = ground arith

pub side_eq_refl : (side : Side) → side_eq side side ≡ true
side_eq_refl source = refl
side_eq_refl target = refl

count_side-append :
    (side : Side) (xs ys : List TaggedBinInteriorPoint)
    → count_side side (xs ++ ys) ≡ count_side side xs + count_side side ys
count_side-append side [] ys = omega arith
count_side-append side (x ∷ xs) ys = omega (arith, count_side-append side xs ys)

module _ {V : Type 0} where
  pub AreChosen-count :
      (side : Side) (bins : List (BoundBlockBin V)) (points : List InteriorPoint)
      (tagged : List TaggedBinInteriorPoint)
      → AreChosen side bins points tagged
      → (count_side side tagged ≡ length bins) × (length tagged ≡ length bins)
  AreChosen-count side [] [] [] h = (refl, refl)
  AreChosen-count side [] [] (t ∷ tagged) h = elim h [ ]
  AreChosen-count side [] (point ∷ points) tagged h = elim h [ ]
  AreChosen-count side (bin ∷ bins) [] tagged h = elim h [ ]
  AreChosen-count side (bin ∷ bins) (point ∷ points) [] h = elim h [ ]
  AreChosen-count side (bin ∷ bins) (point ∷ points) (t ∷ tagged) (h, e, more) =
      let later = AreChosen-count side bins points tagged more in
      (rw (e, side_eq_refl side) (omega (arith, later.0)), omega (arith, later.1))

-- The schedule of two sides: each side's bins are read in order, each once, and the tagged points are
-- those of both sides, in ascending order.
pub record IsExactSchedule {V W : Type 0} (from to : BoundBlockAllocation V W)
    (schedule : SwatBlockMergeSchedule V W) : Type 0 where
  pub from_kept : schedule.from ≡ from
  pub to_kept : schedule.to ≡ to
  pub source_reads : source_read_order schedule ≡ range 0 (length from.bins)
  pub target_reads : target_read_order schedule ≡ range 0 (length to.bins)
  pub points_kept :
      Perm schedule.tagged_interior_points
        (from.tagged_interior_points ++ to.tagged_interior_points)
  pub ascending : IsAscending ordering_lt schedule.tagged_interior_points

module _ {V W : Type 0} where
  -- A side that has been sampled.
  pub record IsSampledSide (side : Side) (bound : BoundBlockAllocation V W) : Type 0 where
    pub of_side : bound.side ≡ side
    pub sampled : bound.sampled ≡ true
    pub chosen : AreChosen side bound.bins bound.interiors bound.tagged_interior_points

  module _ (from to : BoundBlockAllocation V W) (first : IsSampledSide source from)
      (second : IsSampledSide target to) where
    tagged : List TaggedBinInteriorPoint
    tagged = from.tagged_interior_points ++ to.tagged_interior_points

    reads_of : List AbstractBinRead
    reads_of = schedule_reads (counts_of from to) (sorted ordering_lt tagged)

    enough :
        (side : Side) → at (counts_of from to) side ≤ count_side side (sorted ordering_lt tagged)
    unfolding tagged
    enough source = omega (
      arith,
      count_side-sorted source (from.tagged_interior_points ++ to.tagged_interior_points),
      count_side-append source from.tagged_interior_points to.tagged_interior_points,
      (AreChosen-count source from.bins from.interiors from.tagged_interior_points first.chosen).0,
    )
    enough target = omega (
      arith,
      count_side-sorted target (from.tagged_interior_points ++ to.tagged_interior_points),
      count_side-append target from.tagged_interior_points to.tagged_interior_points,
      (AreChosen-count target to.bins to.interiors to.tagged_interior_points second.chosen).0,
    )

    exact_reads : (side : Side) → read_order side reads_of ≡ range 0 (at (counts_of from to) side)
    unfolding reads_of
    exact_reads side =
        read_order-schedule_reads (counts_of from to) (sorted ordering_lt tagged) side (enough side)

    read_once :
        (side : Side) → once_each (read_order side reads_of) (at (counts_of from to) side) ≡ true
    read_once side = rw (exact_reads side) (once_each-range (at (counts_of from to) side))

    reads_inside : in_range (counts_of from to) reads_of ≡ true
    unfolding reads_of
    reads_inside = schedule_reads-in_range (counts_of from to) (sorted ordering_lt tagged)

    points_counted :
        (length (sorted ordering_lt tagged) == (length from.bins + length to.bins)) ≡ true
    unfolding tagged
    points_counted =
        rw
          (
            length-sorted ordering_lt (from.tagged_interior_points ++ to.tagged_interior_points),
            length-append from.tagged_interior_points to.tagged_interior_points,
            (AreChosen-count source from.bins from.interiors from.tagged_interior_points
                first.chosen).1,
            (AreChosen-count target to.bins to.interiors to.tagged_interior_points second.chosen).1,
          )
          (==_refl (length from.bins + length to.bins))

    built : build_abstract_merge_schedule from to ≡ ok reads_of
    unfolding build_abstract_merge_schedule reads_of tagged sorted_tagged_interior_points
    built = rw (first.sampled, second.sampled) refl

    schedule : SwatBlockMergeSchedule V W
    unfolding tagged
    schedule = record {
      from = from;
      to = to;
      reads = reads_of;
      tagged_interior_points = sorted ordering_lt tagged;
    }

    made : make_schedule from to reads_of (sorted_tagged_interior_points from to) ≡ ok schedule
    unfolding make_schedule schedule tagged sorted_tagged_interior_points
    made =
        rw
          (
            first.of_side,
            first.sampled,
            second.of_side,
            second.sampled,
            reads_inside,
            read_once source,
            read_once target,
            points_counted,
          )
          refl

    -- For a sampled source side and a sampled target side, build_abstract_merge_schedule and the
    -- checks of SwatBlockMergeSchedule both succeed: the reads of each side are its bins in
    -- order, each once, and the tagged points are those of both sides in ascending order.
    pub build_abstract_merge_schedule_lem :
        (schedule : SwatBlockMergeSchedule V W) × (((build_abstract_merge_schedule from to)
            >>= λ reads. make_schedule from to reads (sorted_tagged_interior_points from to))
          ≡ ok schedule)
        × IsExactSchedule from to schedule
    unfolding schedule tagged
    build_abstract_merge_schedule_lem = (
      schedule,
      rw built made,
      record {
        from_kept = refl;
        to_kept = refl;
        source_reads = exact_reads source;
        target_reads = exact_reads target;
        points_kept =
            sorted-perm ordering_lt (from.tagged_interior_points ++ to.tagged_interior_points);
        ascending =
            sorted-IsAscending ordering_lt ordering_lt_asym
              (from.tagged_interior_points ++ to.tagged_interior_points);
      },
    )
