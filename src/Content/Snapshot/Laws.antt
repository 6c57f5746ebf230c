-- ===== src/Content/Snapshot/Laws.antt =====
-- What a block snapshot guarantees.
use swat_letindex_baseline.Prelude.{
  ℕ, ◌≤◌, ◌≡◌, true, List, [], ◌∷◌, none, some, arith, length, ltb, ltb→ge, content_schedule_error,
  Ensures, Ensures-bind, Ensures-of_ok, inl, inr, Bool-cases, All,
}
use swat_letindex_baseline.Values.{Value, int, require_nat}
use swat_letindex_baseline.Values.Laws.{require_nat_inv}
use swat_letindex_baseline.Substrate.{RecordKey, BlockId, Record, key_lt}
use swat_letindex_baseline.Sorting.Laws.{IsStrict}
use swat_letindex_baseline.Content.Snapshot.{
  LogicalBlockSnapshot, increasing_after, make_snapshot, from_block, BlockItem, snapshot, block,
  foreign, as_snapshot, as_snapshots, keys_of,
}

-- A snapshot holds at most `capacity` records, with strictly increasing keys.
pub record IsSnapshot {V : Type 0} (s : LogicalBlockSnapshot V) : Type 0 where
  pub capacity_ge : 1 ≤ s.capacity
  pub fits : length s.records ≤ s.capacity
  pub strict : IsStrict key_lt (keys_of s.records)

module _ {V : Type 0} where
  increasing_after-IsStrict :
      (previous : RecordKey) (records : List (Record V))
      → increasing_after (some previous) records ≡ true
      → IsStrict key_lt (previous ∷ keys_of records)
  unfolding increasing_after
  increasing_after-IsStrict previous [] h = tt
  increasing_after-IsStrict previous (r ∷ records) h =
      (ground arith, increasing_after-IsStrict r.key records (ground arith))

  increasing-IsStrict :
      (records : List (Record V))
      → increasing_after none records ≡ true
      → IsStrict key_lt (keys_of records)
  unfolding increasing_after
  increasing-IsStrict [] h = tt
  increasing-IsStrict (r ∷ records) h = increasing_after-IsStrict r.key records h

  -- A snapshot that the constructor returns has a capacity of at least one, no more records than
  -- that, and strictly increasing keys.
  pub make_snapshot-IsSnapshot :
      {W : Type 0} (block_id : BlockId) (capacity : Value W) (records : List (Record V))
      → Ensures IsSnapshot (make_snapshot block_id capacity records)
  unfolding make_snapshot
  make_snapshot-IsSnapshot block_id capacity records =
      Ensures-bind (λ (n : ℕ). 1 ≤ n) IsSnapshot (require_nat content_schedule_error capacity 1) _
        (Ensures-of_ok (λ (n : ℕ). 1 ≤ n) (require_nat content_schedule_error capacity 1)
          λ n e. (require_nat_inv content_schedule_error capacity 1 n e).1)
        λ n _ large. elim (Bool-cases (ltb n (length records))) [
          | inl over ↦ rw over tt
          | inr fits ↦ elim (Bool-cases (increasing_after none records)) [
            | inr mixed ↦ rw (fits, mixed) tt
            | inl rising ↦
                rw (fits, rising)
                  (record {
                    capacity_ge = large;
                    fits = ltb→ge _ _ fits;
                    strict = increasing-IsStrict records rising;
                  })
          ]
        ]

  -- A snapshot that a caller hands over has been built by its constructor.
  abbrev pub IsItem : BlockItem V → Type 0
  IsItem (snapshot s) = IsSnapshot s
  IsItem (block b) = Unit
  IsItem foreign = Unit

  as_snapshot-IsSnapshot :
      (W : Type 0) (item : BlockItem V) → IsItem item → Ensures IsSnapshot (as_snapshot W item)
  unfolding as_snapshot from_block
  as_snapshot-IsSnapshot W (snapshot s) h = h
  as_snapshot-IsSnapshot W (block b) h =
      make_snapshot-IsSnapshot {W = W} b.block_id (int b.capacity) b.records
  as_snapshot-IsSnapshot W foreign h = tt

  pub as_snapshots-IsSnapshot :
      (W : Type 0) (items : List (BlockItem V))
      → All IsItem items
      → Ensures (All IsSnapshot) (as_snapshots W items)
  unfolding as_snapshots
  as_snapshots-IsSnapshot W [] h = tt
  as_snapshots-IsSnapshot W (item ∷ items) (h, hs) =
      Ensures-bind IsSnapshot (All IsSnapshot) (as_snapshot W item) _
        (as_snapshot-IsSnapshot W item h)
        λ first _ good.
          Ensures-bind (All IsSnapshot) (All IsSnapshot) (as_snapshots W items) _
            (as_snapshots-IsSnapshot W items hs) λ rest _ all. (good, all)
