-- ===== src/Content/Snapshot.antt =====
-- content_schedule.py: `LogicalBlockSnapshot`.
pub mod Laws
use swat_letindex_baseline.Prelude.{
  ℕ, List, [], ◌∷◌, Option, none, some, Bool, true, false, length, ltb, leb, ◌==◌, map, ◌&&◌, not,
  if◌then◌else◌, content_schedule_error, Result, ok, err, ◌>>=◌, ◌>>◌, refuse_if,
}
use swat_letindex_baseline.Values.{Value, int, require_nat}
use swat_letindex_baseline.Substrate.{RecordKey, BlockId, Record, Block, key_le}

pub record LogicalBlockSnapshot (V : Type 0) : Type 0 where
  pub block_id : BlockId
  pub capacity : ℕ
  pub records : List (Record V)

module _ {V : Type 0} where
  -- `previous is not None and record.key <= previous`, along the records
  increasing_after : Option RecordKey → List (Record V) → Bool
  increasing_after previous [] = true
  increasing_after none (entry ∷ records) = increasing_after (some entry.key) records
  increasing_after (some previous) (entry ∷ records) =
      not (key_le entry.key previous) && increasing_after (some entry.key) records

  unfoldable pub make_snapshot :
      {W : Type 0} → BlockId → Value W → List (Record V) → Result (LogicalBlockSnapshot V)
  unfolding increasing_after
  make_snapshot block_id capacity records = do
    checked ← require_nat content_schedule_error capacity 1
    refuse_if (ltb checked (length records)) content_schedule_error
    refuse_if (not (increasing_after none records)) content_schedule_error
    ok (record { block_id = block_id; capacity = checked; records = records })

  unfoldable pub from_block : (W : Type 0) → Block V → Result (LogicalBlockSnapshot V)
  unfolding make_snapshot
  from_block W block = make_snapshot {W = W} block.block_id (int block.capacity) block.records

  abbrev pub keys_of : List (Record V) → List RecordKey
  keys_of [] = []
  keys_of (entry ∷ records) = entry.key ∷ keys_of records

  abbrev pub size : LogicalBlockSnapshot V → ℕ
  size snapshot = length snapshot.records

  abbrev pub is_empty : LogicalBlockSnapshot V → Bool
  is_empty snapshot = length snapshot.records == 0

  abbrev pub is_full : LogicalBlockSnapshot V → Bool
  is_full snapshot = leb snapshot.capacity (length snapshot.records)

  abbrev pub first_key : List (Record V) → Option RecordKey
  first_key [] = none
  first_key (entry ∷ records) = some entry.key

  abbrev pub last_key : List (Record V) → Option RecordKey
  last_key [] = none
  last_key (entry ∷ []) = some entry.key
  last_key (entry ∷ next ∷ records) = last_key (next ∷ records)

  abbrev pub min_key : LogicalBlockSnapshot V → Option RecordKey
  min_key snapshot = first_key snapshot.records

  abbrev pub max_key : LogicalBlockSnapshot V → Option RecordKey
  max_key snapshot = last_key snapshot.records

-- What a caller hands over as a block: a snapshot, a mutable block, or something else.
pub data BlockItem (V : Type 0) : Type 0 where
  snapshot : LogicalBlockSnapshot V → BlockItem V
  block : Block V → BlockItem V
  foreign : BlockItem V

module _ {V : Type 0} where
  unfoldable pub as_snapshot : (W : Type 0) → BlockItem V → Result (LogicalBlockSnapshot V)
  unfolding from_block
  as_snapshot W (snapshot s) = ok s
  as_snapshot W (block b) = from_block W b
  as_snapshot W foreign = err content_schedule_error

  unfoldable pub as_snapshots :
      (W : Type 0) → List (BlockItem V) → Result (List (LogicalBlockSnapshot V))
  unfolding as_snapshot
  as_snapshots W [] = ok []
  as_snapshots W (item ∷ items) = do
    first ← as_snapshot W item
    rest ← as_snapshots W items
    ok (first ∷ rest)
