-- ===== src/Content/RunView.antt =====
-- content_schedule.py: `LogicalBlockRunView`.
pub mod Laws
pub mod Complete
use swat_letindex_baseline.Prelude.{
  ℕ, ◌-◌, ◌≤◌, List, [], ◌∷◌, ◌++◌, Option, none, some, Bool, true, false, length, sum, map, take,
  drop, ltb, leb, ◌==◌, ◌&&◌, ◌||◌, not, if◌then◌else◌, content_schedule_error, Result, ok, err,
  ◌>>=◌, ◌>>◌, refuse_if,
}
use swat_letindex_baseline.Values.{Value, int, require_nat}
use swat_letindex_baseline.Substrate.{RecordKey, BlockId, Record, key_lt, block_id_eq}
use swat_letindex_baseline.Sorting.{contains, distinct}
use swat_letindex_baseline.Content.Snapshot.{
  LogicalBlockSnapshot, BlockItem, as_snapshots, is_empty, is_full, min_key, max_key, size, keys_of,
}

pub record LogicalBlockRunView (V : Type 0) : Type 0 where
  pub level : ℕ
  pub blocks : List (LogicalBlockSnapshot V)
  pub items_per_block : ℕ

-- `left.max_key < right.min_key`. Both blocks hold a record when this is asked.
key_before : Option RecordKey → Option RecordKey → Bool
key_before (some a) (some b) = key_lt a b
key_before _ _ = false

-- `xs[start:stop]` for `start <= stop`
abbrev pub slice {ℓ} : {A : Type ℓ} → ℕ → ℕ → List A → List A
slice start stop xs = take (stop - start) (drop start xs)

module _ {V : Type 0} where
  -- Every block has the run's capacity and holds a record.
  uniform : ℕ → List (LogicalBlockSnapshot V) → Bool
  uniform capacity [] = true
  uniform capacity (block ∷ blocks) =
      block.capacity == capacity && not (is_empty block) && uniform capacity blocks

  -- `len({block.block_id for block in blocks}) == len(blocks)`
  unique_ids : List (LogicalBlockSnapshot V) → Bool
  unique_ids blocks = length (distinct block_id_eq (map (λ b. b.block_id) blocks)) == length blocks

  separated : List (LogicalBlockSnapshot V) → Bool
  unfolding key_before
  separated [] = true
  separated (left ∷ []) = true
  separated (left ∷ right ∷ blocks) =
      key_before (max_key left) (min_key right) && separated (right ∷ blocks)

  -- `all(block.is_full for block in blocks[:-1])`
  full_but_last : List (LogicalBlockSnapshot V) → Bool
  full_but_last [] = true
  full_but_last (block ∷ []) = true
  full_but_last (block ∷ next ∷ blocks) = is_full block && full_but_last (next ∷ blocks)

  -- `not blocks or 1 <= blocks[-1].size <= capacity`
  last_fits : ℕ → List (LogicalBlockSnapshot V) → Bool
  last_fits capacity [] = true
  last_fits capacity (block ∷ []) = leb 1 (size block) && leb (size block) capacity
  last_fits capacity (block ∷ next ∷ blocks) = last_fits capacity (next ∷ blocks)

  unfoldable pub make_run_view :
      {W : Type 0} → Value W → List (BlockItem V) → Value W → Result (LogicalBlockRunView V)
  unfolding uniform unique_ids separated full_but_last last_fits
  make_run_view {W} level items items_per_block = do
    checked_level ← require_nat content_schedule_error level 0
    capacity ← require_nat content_schedule_error items_per_block 1
    blocks ← as_snapshots W items
    refuse_if (not (uniform capacity blocks)) content_schedule_error
    refuse_if (not (unique_ids blocks)) content_schedule_error
    refuse_if (not (separated blocks)) content_schedule_error
    refuse_if (not (full_but_last blocks)) content_schedule_error
    refuse_if (not (last_fits capacity blocks)) content_schedule_error
    ok (record { level = checked_level; blocks = blocks; items_per_block = capacity })

  -- The records of some blocks, in order.
  abbrev pub block_records : List (LogicalBlockSnapshot V) → List (Record V)
  block_records [] = []
  block_records (block ∷ blocks) = block.records ++ block_records blocks

  abbrev pub block_count : LogicalBlockRunView V → ℕ
  block_count run = length run.blocks

  unfoldable pub run_is_empty : LogicalBlockRunView V → Bool
  run_is_empty run = length run.blocks == 0

  unfoldable pub item_count : LogicalBlockRunView V → ℕ
  item_count run = sum (map size run.blocks)

  unfoldable pub records : LogicalBlockRunView V → List (Record V)
  records run = block_records run.blocks

  unfoldable pub keys : LogicalBlockRunView V → List RecordKey
  unfolding records
  keys run = keys_of (records run)

  unfoldable pub records_of :
      {W : Type 0} → LogicalBlockRunView V → Value W → Value W → Result (List (Record V))
  records_of run start stop = do
    from ← require_nat content_schedule_error start 0
    to ← require_nat content_schedule_error stop from
    refuse_if (ltb (length run.blocks) to) content_schedule_error
    ok (block_records (slice from to run.blocks))
