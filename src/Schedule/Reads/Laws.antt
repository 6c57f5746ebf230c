-- ===== src/Schedule/Reads/Laws.antt =====
-- The reads of a merge: each side's bins in order, each once.
use native.Mathlib.Nat.{zero-add}
use swat_letindex_baseline.Prelude.{
  ℕ, zero, suc, ◌+◌, ◌-◌, ◌≤◌, ◌<◌, ◌≡◌, refl, ap, ◌∙◌, sym, true, false, List, [], ◌∷◌, ◌++◌,
  arith, sum, map, min, range, count_up, ltb, ltb→lt, ltb→ge, inl, inr, Bool-cases, if◌then◌else◌,
  count_up_step, range_zero,
}
use swat_letindex_baseline.Sorting.{sorted}
use swat_letindex_baseline.Sorting.Laws.{sorted-sum}
use swat_letindex_baseline.Schedule.Bins.{
  Side, source, target, side_eq, TaggedBinInteriorPoint, ordering_lt,
}
use swat_letindex_baseline.Schedule.Reads.{
  AbstractBinRead, PerSide, at, advance, preload, preloaded, scan_points, schedule_reads,
}
use swat_letindex_baseline.Schedule.Order.{read_order, in_range}

-- How many points belong to a side.
abbrev pub on : Side → TaggedBinInteriorPoint → ℕ
on side point = if side_eq point.side side then 1 else 0

abbrev pub count_side : Side → List TaggedBinInteriorPoint → ℕ
count_side side points = sum (map (on side) points)

-- What the scan reads of one side, in closed form: the next unread bins, one for each point of the
-- side while bins are left.
abbrev reads_left : Side → PerSide → PerSide → ℕ → List ℕ
reads_left side counts next points =
    count_up (at next side) (min points (at counts side - at next side))

count_next :
    (start points room : ℕ)
    → 0 < room
    → count_up start (min (1 + points) room) ≡ start ∷ count_up (start + 1) (min points (room - 1))
count_next start points room h = count_up_step start _ (min points (room - 1)) (omega arith)

room_after : (start count : ℕ) → count - start - 1 ≡ count - (start + 1)
room_after start count = omega arith

-- One point, at which a bin of its side is read.
fetch_step :
    (s side : Side) (counts next : PerSide) (points : ℕ) (rest : List ℕ)
    → at next s < at counts s
    → rest ≡ reads_left side counts (advance next s) points
    → (if side_eq s side then at next s ∷ rest else rest)
      ≡ reads_left side counts next ((if side_eq s side then 1 else 0) + points)
fetch_step source source counts next points rest lt e =
    rw
      (
        count_next (at next source) points (at counts source - at next source) (omega arith),
        e,
        room_after (at next source) (at counts source),
      )
      refl
fetch_step target target counts next points rest lt e =
    rw
      (
        count_next (at next target) points (at counts target - at next target) (omega arith),
        e,
        room_after (at next target) (at counts target),
      )
      refl
fetch_step source target counts next points rest lt e = rw (zero-add points) e
fetch_step target source counts next points rest lt e = rw (zero-add points) e

-- One point, whose side has no bin left.
skip_step :
    (s side : Side) (counts next : PerSide) (points : ℕ)
    → at counts s ≤ at next s
    → reads_left side counts next points
      ≡ reads_left side counts next ((if side_eq s side then 1 else 0) + points)
skip_step source source counts next points le = ap (count_up (at next source)) (omega arith)
skip_step target target counts next points le = ap (count_up (at next target)) (omega arith)
skip_step source target counts next points le = rw (zero-add points) refl
skip_step target source counts next points le = rw (zero-add points) refl

read_order-fetch :
    (side : Side) (counts next : PerSide) (point : TaggedBinInteriorPoint)
    (points : List TaggedBinInteriorPoint)
    → ltb (at next point.side) (at counts point.side) ≡ true
    → read_order side (scan_points counts next (point ∷ points)) ≡ (
        let rest = read_order side (scan_points counts (advance next point.side) points) in
        if side_eq point.side side then at next point.side ∷ rest else rest)
unfolding scan_points read_order
read_order-fetch side counts next point points h = rw h refl

scan_points-skip :
    (counts next : PerSide) (point : TaggedBinInteriorPoint) (points : List TaggedBinInteriorPoint)
    → ltb (at next point.side) (at counts point.side) ≡ false
    → scan_points counts next (point ∷ points) ≡ scan_points counts next points
unfolding scan_points
scan_points-skip counts next point points h = rw h refl

read_order-scan_points :
    (side : Side) (counts next : PerSide) (points : List TaggedBinInteriorPoint)
    → read_order side (scan_points counts next points)
      ≡ reads_left side counts next (count_side side points)
unfolding scan_points read_order
read_order-scan_points side counts next [] =
    let z : min 0 (at counts side - at next side) ≡ 0 = omega arith in rw z refl
read_order-scan_points side counts next (point ∷ points) =
    elim (Bool-cases (ltb (at next point.side) (at counts point.side))) [
      | inl left ↦
          read_order-fetch side counts next point points left
          ∙ fetch_step point.side side counts next (count_side side points) _ (ltb→lt _ _ left)
              (read_order-scan_points side counts (advance next point.side) points)
      | inr done ↦
          ap (read_order side) (scan_points-skip counts next point points done)
          ∙ read_order-scan_points side counts next points
          ∙ skip_step point.side side counts next (count_side side points) (ltb→ge _ _ done)
    ]

preload_order :
    (counts : PerSide) (rest : List AbstractBinRead) (side : Side)
    → read_order side (preload source counts.of_source ++ preload target counts.of_target ++ rest)
      ≡ count_up 0 (preloaded (at counts side)) ++ read_order side rest
unfolding read_order
preload_order counts rest source = ground arith
preload_order counts rest target = ground arith

abbrev after_preload : PerSide → PerSide
after_preload counts = record {
  of_source = preloaded counts.of_source;
  of_target = preloaded counts.of_target;
}

at-after_preload :
    (counts : PerSide) (side : Side) → at (after_preload counts) side ≡ preloaded (at counts side)
at-after_preload counts source = refl
at-after_preload counts target = refl

preloaded_split :
    (n points : ℕ)
    → n ≤ points
    → count_up 0 (preloaded n) ++ count_up (preloaded n) (min points (n - preloaded n))
      ≡ count_up 0 n
preloaded_split zero points h = let e : min points (0 - 0) ≡ 0 = omega arith in rw e refl
preloaded_split (suc n) points h = ap (λ k. 0 ∷ count_up 1 k) (omega arith)

-- If a side has at least as many tagged points as bins, the reads of that side are its bins in
-- order, each once, in whatever order the points of both sides come.
pub read_order-schedule_reads :
    (counts : PerSide) (points : List TaggedBinInteriorPoint) (side : Side)
    → at counts side ≤ count_side side points
    → read_order side (schedule_reads counts points) ≡ range 0 (at counts side)
unfolding schedule_reads
read_order-schedule_reads counts points side h =
    rw
      (
        preload_order counts (scan_points counts (after_preload counts) points) side,
        read_order-scan_points side counts (after_preload counts) points,
        at-after_preload counts side,
      )
      (preloaded_split (at counts side) (count_side side points) h
        ∙ sym (range_zero (at counts side)))

-- Sorting keeps the number of points of each side.
pub count_side-sorted :
    (side : Side) (points : List TaggedBinInteriorPoint)
    → count_side side (sorted ordering_lt points) ≡ count_side side points
count_side-sorted side points = sorted-sum ordering_lt (on side) points

preload-in_range :
    (counts : PerSide) (rest : List AbstractBinRead)
    → in_range counts rest ≡ true
    → in_range counts (preload source counts.of_source ++ preload target counts.of_target ++ rest)
      ≡ true
unfolding in_range
preload-in_range counts rest h = ground arith

scan_points-in_range :
    (counts next : PerSide) (points : List TaggedBinInteriorPoint)
    → in_range counts (scan_points counts next points) ≡ true
unfolding scan_points in_range
scan_points-in_range counts next [] = refl
scan_points-in_range counts next (point ∷ points) =
    elim (Bool-cases (ltb (at next point.side) (at counts point.side))) [
      | inl left ↦ rw (left, left) (scan_points-in_range counts (advance next point.side) points)
      | inr done ↦ rw done (scan_points-in_range counts next points)
    ]

-- No read is of a bin that its side lacks.
pub schedule_reads-in_range :
    (counts : PerSide) (points : List TaggedBinInteriorPoint)
    → in_range counts (schedule_reads counts points) ≡ true
unfolding schedule_reads
schedule_reads-in_range counts points =
    preload-in_range counts _ (scan_points-in_range counts (after_preload counts) points)
