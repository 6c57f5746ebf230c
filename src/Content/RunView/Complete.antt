-- ===== src/Content/RunView/Complete.antt =====
-- Every well-formed run is accepted.
use swat_letindex_baseline.Prelude.{
  ℕ, ◌≤◌, ◌≡◌, refl, ap, ◌∙◌, pos, true, false, List, [], ◌∷◌, ◌++◌, map, arith, length, length-map,
  length-append, ◌==◌, ==_refl, leb, content_schedule_error, All, ok, le→leb,
}
use swat_letindex_baseline.Values.{int}
use swat_letindex_baseline.Values.Laws.{require_nat_accepts}
use swat_letindex_baseline.Substrate.{Record, key_lt, block_id_eq}
use swat_letindex_baseline.Substrate.Laws.{block_id_eq_sound}
use swat_letindex_baseline.Sorting.{distinct}
use swat_letindex_baseline.Sorting.Laws.{IsStrict, IsStrict-append_right}
use swat_letindex_baseline.Sorting.Members.{IsUnique, distinct_of_unique}
use swat_letindex_baseline.Content.Snapshot.{
  LogicalBlockSnapshot, snapshot, as_snapshot, as_snapshots, size, first_key, last_key, keys_of,
}
use swat_letindex_baseline.Content.RunView.{
  LogicalBlockRunView, uniform, unique_ids, key_before, separated, full_but_last, last_fits,
  make_run_view, block_records, records, keys,
}
use swat_letindex_baseline.Content.RunView.Laws.{IsPacked, IsRun, keys_of-append, first_key-append}

-- A run that a caller may hand over: beside what its view guarantees, the blocks have the run's capacity
-- and ids of their own.
pub record IsWellFormed {V : Type 0} (run : LogicalBlockRunView V) : Type 0 where
  pub of_run : IsRun run
  pub capacities : All (λ b. b.capacity ≡ run.items_per_block) run.blocks
  pub ids : IsUnique (map (λ b. b.block_id) run.blocks)

module _ {V : Type 0} where
  as_snapshots-snapshot :
      (W : Type 0) (blocks : List (LogicalBlockSnapshot V))
      → as_snapshots W (map snapshot blocks) ≡ ok blocks
  unfolding as_snapshots as_snapshot
  as_snapshots-snapshot W [] = refl
  as_snapshots-snapshot W (b ∷ blocks) = rw (as_snapshots-snapshot W blocks) refl

  IsPacked-holds :
      (capacity : ℕ) (b : LogicalBlockSnapshot V) (blocks : List (LogicalBlockSnapshot V))
      → 1 ≤ capacity
      → IsPacked capacity (b ∷ blocks)
      → (1 ≤ size b) × IsPacked capacity blocks
  IsPacked-holds capacity b [] large (h, fits) = (h, tt)
  IsPacked-holds capacity b (c ∷ blocks) large (h, more) = (omega (arith, h), more)

  uniform_of :
      (capacity : ℕ) (blocks : List (LogicalBlockSnapshot V))
      → 1 ≤ capacity
      → All (λ b. b.capacity ≡ capacity) blocks
      → IsPacked capacity blocks
      → uniform capacity blocks ≡ true
  unfolding uniform
  uniform_of capacity [] large same packed = refl
  uniform_of capacity (b ∷ blocks) large (same, more) packed =
      let (holds, later) = IsPacked-holds capacity b blocks large packed in
      let rest = uniform_of capacity blocks large more later in ground (arith, rest)

  full_of :
      (capacity : ℕ) (blocks : List (LogicalBlockSnapshot V))
      → All (λ b. b.capacity ≡ capacity) blocks
      → IsPacked capacity blocks
      → (full_but_last blocks ≡ true) × (last_fits capacity blocks ≡ true)
  unfolding full_but_last last_fits
  full_of capacity [] same packed = (refl, refl)
  full_of capacity (b ∷ []) same (h, k) = (refl, rw (le→leb _ _ h, le→leb _ _ k) refl)
  full_of capacity (b ∷ c ∷ blocks) (same, more) (h, packed) =
      let rest = full_of capacity (c ∷ blocks) more packed in
      let first : leb b.capacity (size b) ≡ true = le→leb _ _ (omega arith) in
      (rw (first, rest.0) refl, rest.1)

  key_before_of :
      (xs ys : List (Record V))
      → 1 ≤ length xs
      → 1 ≤ length ys
      → IsStrict key_lt (keys_of (xs ++ ys))
      → key_before (last_key xs) (first_key ys) ≡ true
  unfolding key_before
  key_before_of [] ys h k s = absurd (omega arith)
  key_before_of (x ∷ xs) [] h k s = absurd (omega arith)
  key_before_of (x ∷ []) (y ∷ ys) h k s = s.0
  key_before_of (x ∷ z ∷ xs) (y ∷ ys) h k s = key_before_of (z ∷ xs) (y ∷ ys) (omega arith) k s.1

  separated_of :
      (capacity : ℕ) (blocks : List (LogicalBlockSnapshot V))
      → 1 ≤ capacity
      → IsPacked capacity blocks
      → IsStrict key_lt (keys_of (block_records blocks))
      → separated blocks ≡ true
  unfolding separated
  separated_of capacity [] large packed s = refl
  separated_of capacity (b ∷ []) large packed s = refl
  separated_of capacity (b ∷ c ∷ blocks) large packed s =
      let (holds, more) = IsPacked-holds capacity b (c ∷ blocks) large packed in
      let (next_holds, _) = IsPacked-holds capacity c blocks large more in
      let filled : (length c.records == 0) ≡ false = ground arith in
      let wide : 1 ≤ length (c.records ++ block_records blocks) =
        omega (arith, length-append c.records (block_records blocks)) in
      let apart : key_before (last_key b.records) (first_key c.records) ≡ true =
        rw (first_key-append c.records (block_records blocks) filled) at
          (key_before_of b.records (c.records ++ block_records blocks) holds wide s) in
      let split = keys_of-append b.records (c.records ++ block_records blocks) in
      let inner =
        IsStrict-append_right key_lt (keys_of b.records)
          (keys_of (c.records ++ block_records blocks)) (rw split at s) in
      rw (apart, separated_of capacity (c ∷ blocks) large more inner) refl

  -- The constructor of a run view accepts every well-formed run, and returns it: a capacity of at
  -- least one that all blocks share, blocks with ids of their own, strictly increasing keys
  -- across all blocks, every block but the last full, and the last one neither empty nor
  -- overfull.
  pub make_run_view_accepts :
      (W : Type 0) (run : LogicalBlockRunView V)
      → IsWellFormed run
      → make_run_view {W = W}
          (int (pos run.level))
          (map snapshot run.blocks)
          (int (pos run.items_per_block))
        ≡ ok run
  unfolding make_run_view unique_ids keys records
  make_run_view_accepts W run h =
      let capacity = run.items_per_block in
      let blocks = run.blocks in
      let ids = map (λ (b : LogicalBlockSnapshot V). b.block_id) blocks in
      let (full, fits) = full_of capacity blocks h.capacities h.of_run.packed in
      let unique : (length (distinct block_id_eq ids) == length blocks) ≡ true =
        ap (λ xs. length xs == length blocks)
          (distinct_of_unique block_id_eq block_id_eq_sound ids h.ids)
        ∙ ap (λ n. n == length blocks)
            (length-map (λ (b : LogicalBlockSnapshot V). b.block_id) blocks)
        ∙ ==_refl (length blocks) in
      rw
        (
          require_nat_accepts W content_schedule_error run.level 0 (omega arith),
          require_nat_accepts W content_schedule_error capacity 1 h.of_run.capacity_ge,
          as_snapshots-snapshot W blocks,
          uniform_of capacity blocks h.of_run.capacity_ge h.capacities h.of_run.packed,
          unique,
          separated_of capacity blocks h.of_run.capacity_ge h.of_run.packed h.of_run.strict,
          full,
          fits,
        )
        refl
