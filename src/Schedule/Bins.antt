-- ===== src/Schedule/Bins.antt =====
-- content_schedule.py: `BoundBlockBin`, the sides and `TaggedBinInteriorPoint`.
use swat_letindex_baseline.Prelude.{
  ℕ, ◌+◌, ℤ, pos, negsuc, ◌-ℤ◌, eqb_ℤ, ltb_ℤ, List, Bool, true, false, length, ltb, ◌==◌, ◌&&◌,
  ◌||◌, not, none, content_schedule_error, Result, ok, ◌>>=◌, ◌>>◌, refuse_if,
}
use swat_letindex_baseline.Values.{Value, require_nat, require_plain_int}
use swat_letindex_baseline.Substrate.{RecordKey, Record}
use swat_letindex_baseline.Content.Snapshot.{LogicalBlockSnapshot, BlockItem, as_snapshots, keys_of}
use swat_letindex_baseline.Content.RunView.{block_records}
use swat_letindex_baseline.Content.Interior.{
  InteriorPoint, interior_point_sort_key, sort_key_lt, sort_key_eq,
}

-- SOURCE and TARGET
pub data Side : Type 0 where
  source target : Side

abbrev pub side_eq : Side → Side → Bool
side_eq source source = true
side_eq target target = true
side_eq _ _ = false

pub record BoundBlockBin (V : Type 0) : Type 0 where
  pub bin_index : ℕ
  pub logical_rank_start : ℕ
  pub logical_rank_stop : ℕ
  pub sampled_load : ℕ
  pub real_block_count : ℕ
  pub dummy_block_count : ℕ
  pub bin_capacity_blocks : ℕ
  pub blocks : List (LogicalBlockSnapshot V)

module _ {V : Type 0} where
  unfoldable pub make_bound_bin :
      {W : Type 0} (bin_index logical_rank_start logical_rank_stop sampled_load : Value W)
      → (real_block_count dummy_block_count bin_capacity_blocks : Value W) → List (BlockItem V)
      → Result (BoundBlockBin V)
  make_bound_bin {W} bin_index start_rank stop_rank sampled_load real_count dummy_count capacity
        items =
      do
        index ← require_nat content_schedule_error bin_index 0
        start ← require_nat content_schedule_error start_rank 0
        stop ← require_nat content_schedule_error stop_rank 0
        load ← require_nat content_schedule_error sampled_load 0
        real ← require_nat content_schedule_error real_count 0
        dummy ← require_nat content_schedule_error dummy_count 0
        slots ← require_nat content_schedule_error capacity 2
        blocks ← as_snapshots W items
        refuse_if (not (length blocks == real)) content_schedule_error
        refuse_if (not (eqb_ℤ (pos stop -ℤ pos start) (pos real))) content_schedule_error
        refuse_if (not ((real + dummy) == slots)) content_schedule_error
        refuse_if (ltb slots load) content_schedule_error
        ok (record {
          bin_index = index;
          logical_rank_start = start;
          logical_rank_stop = stop;
          sampled_load = load;
          real_block_count = real;
          dummy_block_count = dummy;
          bin_capacity_blocks = slots;
          blocks = blocks;
        })

  abbrev pub is_empty_real : BoundBlockBin V → Bool
  is_empty_real bin = bin.real_block_count == 0

  abbrev pub real_records : BoundBlockBin V → List (Record V)
  real_records bin = block_records bin.blocks

  abbrev pub real_keys : BoundBlockBin V → List RecordKey
  real_keys bin = keys_of (real_records bin)

pub record TaggedBinInteriorPoint : Type 0 where
  pub side : Side
  pub bin_index : ℕ
  pub interior_point : InteriorPoint
  pub signed_tag : ℤ

-- `+(i + 1)` on the source side, `-(i + 1)` on the target side
abbrev pub expected_tag : Side → ℕ → ℤ
expected_tag source index = pos (index + 1)
expected_tag target index = negsuc index

unfoldable pub make_tagged :
    {W : Type 0} → Side → Value W → InteriorPoint → Value W → Result TaggedBinInteriorPoint
make_tagged side bin_index point signed_tag = do
  index ← require_nat content_schedule_error bin_index 0
  tag ← require_plain_int content_schedule_error signed_tag none
  refuse_if (not (eqb_ℤ tag (expected_tag side index))) content_schedule_error
  ok (record { side = side; bin_index = index; interior_point = point; signed_tag = tag })

-- `<` of two `ordering_key`s: the interior point, then the signed tag.
abbrev pub ordering_lt : TaggedBinInteriorPoint → TaggedBinInteriorPoint → Bool
ordering_lt a b =
    sort_key_lt (interior_point_sort_key a.interior_point)
      (interior_point_sort_key b.interior_point)
    || (sort_key_eq (interior_point_sort_key a.interior_point)
          (interior_point_sort_key b.interior_point)
        && ltb_ℤ a.signed_tag b.signed_tag)
