-- ===== src/Schedule/Binding/Laws.antt =====
-- A plan that covers a run binds each of its blocks once and in order.
use swat_letindex_baseline.Prelude.{
  ℕ, suc, ◌+◌, ◌-◌, ◌≤◌, ◌≡◌, refl, ap, ◌∙◌, sym, pos, ◌-ℤ◌, eqb_ℤ, true, List, [], ◌∷◌, ◌++◌,
  arith, length, map, take, drop, length-take, length-drop, take-append-drop, drop-drop,
  take-append-take, ==_refl, ge→ltb, content_schedule_error, ok, count_up, count_up-append,
}
use swat_letindex_baseline.Values.{int}
use swat_letindex_baseline.Values.Laws.{require_nat_accepts}
use swat_letindex_baseline.Substrate.{RecordKey, key_lt, key_eq}
use swat_letindex_baseline.Sorting.Laws.{
  IsStrict, IsStrict-append_left, IsStrict-append_right, IsStrict-IsAscending, distinct_of_IsStrict,
  sorted_of_IsAscending, list_eq_refl,
}
use swat_letindex_baseline.Substrate.Laws.{key_lt_asym, key_lt_trans, key_lt_apart, key_eq_refl}
use swat_letindex_baseline.Content.Snapshot.{LogicalBlockSnapshot, snapshot, as_snapshots, keys_of}
use swat_letindex_baseline.Content.RunView.{slice, block_records, keys}
use swat_letindex_baseline.Content.RunView.Laws.{keys_of-append, block_records-append}
use swat_letindex_baseline.Allocator.Plan.{BlockBinPlan}
use swat_letindex_baseline.Allocator.Plan.Cover.{IsBin, IsRow, real_total}
use swat_letindex_baseline.Schedule.Bins.{BoundBlockBin, make_bound_bin}
use swat_letindex_baseline.Schedule.Allocation.{in_order, ranks_of_bins, records_of_bins}
use swat_letindex_baseline.Schedule.Binding.{strictly_sorted, bind_bin, bind_bins}

-- Strictly increasing keys pass the check.
pub strictly_sorted_of_IsStrict :
    (keys : List RecordKey) → IsStrict key_lt keys → strictly_sorted keys ≡ true
unfolding strictly_sorted
strictly_sorted_of_IsStrict keys h =
    rw
      (
        distinct_of_IsStrict key_lt key_lt_asym key_lt_trans key_eq key_lt_apart keys h,
        sorted_of_IsAscending key_lt keys
            (IsStrict-IsAscending key_lt key_lt_asym key_lt_trans key_eq key_lt_apart keys h),
      )
      (list_eq_refl key_eq key_eq_refl keys)

interval_check :
    (start stop real : ℕ) → stop ≡ start + real → eqb_ℤ (pos stop -ℤ pos start) (pos real) ≡ true
unfolding ◌-ℤ◌
interval_check start stop real e = ground arith

slice_width : (start stop real : ℕ) → stop ≡ start + real → stop - start ≡ real
slice_width start stop real e = omega arith

module _ {V : Type 0} where
  as_snapshots-map :
      (W : Type 0) (blocks : List (LogicalBlockSnapshot V))
      → as_snapshots W (map snapshot blocks) ≡ ok blocks
  unfolding as_snapshots
  as_snapshots-map W [] = refl
  as_snapshots-map W (b ∷ blocks) = rw (as_snapshots-map W blocks) refl

  -- The bin that a plan's bin becomes.
  bound_of : ℕ → List (LogicalBlockSnapshot V) → BlockBinPlan → BoundBlockBin V
  bound_of capacity blocks bin = record {
    bin_index = bin.bin_index;
    logical_rank_start = bin.logical_rank_start;
    logical_rank_stop = bin.logical_rank_stop;
    sampled_load = bin.sampled_load;
    real_block_count = bin.real_count;
    dummy_block_count = bin.dummy_count;
    bin_capacity_blocks = capacity;
    blocks = slice bin.logical_rank_start bin.logical_rank_stop blocks;
  }

  make_bound_bin_accepts :
      (W : Type 0) (index start stop load real dummy capacity : ℕ)
      (blocks : List (LogicalBlockSnapshot V))
      → 2 ≤ capacity
      → stop ≡ start + real
      → real + dummy ≡ capacity
      → load ≤ capacity
      → length blocks ≡ real
      → make_bound_bin {W = W}
          (int (pos index))
          (int (pos start))
          (int (pos stop))
          (int (pos load))
          (int (pos real))
          (int (pos dummy))
          (int (pos capacity))
          (map snapshot blocks)
        ≡ ok (record {
          bin_index = index;
          logical_rank_start = start;
          logical_rank_stop = stop;
          sampled_load = load;
          real_block_count = real;
          dummy_block_count = dummy;
          bin_capacity_blocks = capacity;
          blocks = blocks;
        })
  unfolding make_bound_bin
  make_bound_bin_accepts W index start stop load real dummy capacity blocks large e pad fits count =
      let checked = require_nat_accepts W content_schedule_error in
      rw
        (
          checked index 0 (omega arith),
          checked start 0 (omega arith),
          checked stop 0 (omega arith),
          checked load 0 (omega arith),
          checked real 0 (omega arith),
          checked dummy 0 (omega arith),
          checked capacity 2 large,
          as_snapshots-map W blocks,
          count,
          ==_refl real,
          interval_check start stop real e,
          pad,
          ==_refl capacity,
          ge→ltb capacity load fits,
        )
        refl

  -- A slice of a run with increasing keys has increasing keys.
  slice-IsStrict :
      (start count : ℕ) (blocks : List (LogicalBlockSnapshot V))
      → IsStrict key_lt (keys_of (block_records blocks))
      → IsStrict key_lt (keys_of (block_records (take count (drop start blocks))))
  slice-IsStrict start count blocks h =
      let part = λ (n : ℕ) (xs : List (LogicalBlockSnapshot V)).
        ap (λ ys. keys_of (block_records ys)) (sym (take-append-drop n xs))
        ∙ ap keys_of (block_records-append (take n xs) (drop n xs))
        ∙ keys_of-append (block_records (take n xs)) (block_records (drop n xs)) in
      let tail =
        IsStrict-append_right key_lt (keys_of (block_records (take start blocks)))
          (keys_of (block_records (drop start blocks))) (rw (part start blocks) at h) in
      IsStrict-append_left key_lt _ (keys_of (block_records (drop count (drop start blocks))))
        (rw (part count (drop start blocks)) at tail)

  length_slice :
      (start real : ℕ) (blocks : List (LogicalBlockSnapshot V))
      → start + real ≤ length blocks
      → length (take real (drop start blocks)) ≡ real
  length_slice start real blocks h =
      omega (arith, length-take real (drop start blocks), length-drop start blocks)

  bind_bin_lem :
      (W : Type 0) (capacity index start : ℕ) (blocks : List (LogicalBlockSnapshot V))
      (bin : BlockBinPlan)
      → 2 ≤ capacity
      → IsStrict key_lt (keys_of (block_records blocks))
      → IsBin capacity index start bin
      → start + bin.real_count ≤ length blocks
      → bind_bin W blocks capacity bin ≡ ok (bound_of capacity blocks bin)
  unfolding bind_bin bound_of
  bind_bin_lem W capacity index start blocks bin large strict sound inside =
      let stops : bin.logical_rank_stop ≡ bin.logical_rank_start + bin.real_count =
        omega (arith, sound.stops, sound.starts) in
      let width = slice_width _ _ _ stops in
      let count =
        ap (λ n. length (take n (drop bin.logical_rank_start blocks))) width
        ∙ length_slice bin.logical_rank_start bin.real_count blocks (omega (arith, sound.starts)) in
      rw
        (
          make_bound_bin_accepts W bin.bin_index bin.logical_rank_start bin.logical_rank_stop
              bin.sampled_load bin.real_count bin.dummy_count capacity
              (slice bin.logical_rank_start bin.logical_rank_stop blocks) large stops sound.padded
              sound.load_le count,
          strictly_sorted_of_IsStrict _ (
              slice-IsStrict bin.logical_rank_start (bin.logical_rank_stop - bin.logical_rank_start)
                blocks strict),
        )
        refl

  -- The bins that a row binds: the plan's bins with their blocks, in the plan's order.
  pub bound_row : ℕ → List (LogicalBlockSnapshot V) → List BlockBinPlan → List (BoundBlockBin V)
  bound_row capacity blocks [] = []
  bound_row capacity blocks (bin ∷ bins) =
      bound_of capacity blocks bin ∷ bound_row capacity blocks bins

  pub bind_bins_lem :
      (W : Type 0) (capacity index start : ℕ) (blocks : List (LogicalBlockSnapshot V))
      (bins : List BlockBinPlan)
      → 2 ≤ capacity
      → IsStrict key_lt (keys_of (block_records blocks))
      → IsRow capacity index start bins
      → start + real_total bins ≤ length blocks
      → bind_bins W blocks capacity bins ≡ ok (bound_row capacity blocks bins)
  unfolding bind_bins bound_row
  bind_bins_lem W capacity index start blocks [] large strict row inside = refl
  bind_bins_lem W capacity index start blocks (bin ∷ bins) large strict (sound, row) inside =
      rw
        (
          bind_bin_lem W capacity index start blocks bin large strict sound (omega arith),
          bind_bins_lem W capacity (index + 1) (start + bin.real_count) blocks bins large strict row
              (omega arith),
        )
        refl

  pub length-bound_row :
      (capacity : ℕ) (blocks : List (LogicalBlockSnapshot V)) (bins : List BlockBinPlan)
      → length (bound_row capacity blocks bins) ≡ length bins
  unfolding bound_row
  length-bound_row capacity blocks [] = refl
  length-bound_row capacity blocks (bin ∷ bins) = ap suc (length-bound_row capacity blocks bins)

  pub bound_row-in_order :
      (capacity index start : ℕ) (blocks : List (LogicalBlockSnapshot V)) (bins : List BlockBinPlan)
      → IsRow capacity index start bins
      → in_order index (bound_row capacity blocks bins) ≡ true
  unfolding in_order bound_row bound_of
  bound_row-in_order capacity index start blocks [] row = refl
  bound_row-in_order capacity index start blocks (bin ∷ bins) (sound, row) =
      rw (sound.indexed, ==_refl index)
        (bound_row-in_order capacity (index + 1) (start + bin.real_count) blocks bins row)

  -- The bound bins hold the records of the blocks that the row covers, in order.
  pub bound_row-records :
      (capacity index start : ℕ) (blocks : List (LogicalBlockSnapshot V)) (bins : List BlockBinPlan)
      → IsRow capacity index start bins
      → records_of_bins (bound_row capacity blocks bins)
        ≡ block_records (take (real_total bins) (drop start blocks))
  unfolding bound_row bound_of
  bound_row-records capacity index start blocks [] row = refl
  bound_row-records capacity index start blocks (bin ∷ bins) (sound, row) =
      let width = slice_width _ _ _ sound.stops in
      let first = take bin.real_count (drop start blocks) in
      let later = take (real_total bins) (drop (start + bin.real_count) blocks) in
      rw
        (
          bound_row-records capacity (index + 1) (start + bin.real_count) blocks bins row,
          sound.starts,
          width,
        )
        (sym (block_records-append first later)
          ∙ ap block_records (
              ap (λ xs. first ++ take (real_total bins) xs)
                (sym (drop-drop start bin.real_count blocks))
              ∙ take-append-take bin.real_count (real_total bins) (drop start blocks)))

  pub bound_row-ranks :
      (capacity index start : ℕ) (blocks : List (LogicalBlockSnapshot V)) (bins : List BlockBinPlan)
      → IsRow capacity index start bins
      → ranks_of_bins (bound_row capacity blocks bins) ≡ count_up start (real_total bins)
  unfolding bound_row bound_of
  bound_row-ranks capacity index start blocks [] row = refl
  bound_row-ranks capacity index start blocks (bin ∷ bins) (sound, row) =
      rw
        (
          bound_row-ranks capacity (index + 1) (start + bin.real_count) blocks bins row,
          sound.starts,
          slice_width _ _ _ sound.stops,
        )
        (count_up-append start bin.real_count (real_total bins) (start + bin.real_count) refl)
