-- ===== src/Content/RunView/Laws.antt =====
-- What the view of a run guarantees.
use mathlib.Core.List.{append_assoc, append-nil}
use swat_letindex_baseline.Prelude.{
  ℕ, ◌≤◌, ◌≡◌, refl, ap, sym, true, false, List, [], ◌∷◌, ◌++◌, arith, length, ◌==◌,
  content_schedule_error, Ensures, Ensures-bind, Ensures-then, Ensures-check, Ensures-of_ok, All,
}
use swat_letindex_baseline.Values.{Value, require_nat}
use swat_letindex_baseline.Values.Laws.{require_nat_inv}
use swat_letindex_baseline.Substrate.{Record, key_lt}
use swat_letindex_baseline.Sorting.Laws.{IsStrict}
use swat_letindex_baseline.Content.Snapshot.{
  LogicalBlockSnapshot, BlockItem, as_snapshots, size, first_key, last_key, keys_of,
}
use swat_letindex_baseline.Content.Snapshot.Laws.{IsSnapshot, IsItem, as_snapshots-IsSnapshot}
use swat_letindex_baseline.Content.RunView.{
  LogicalBlockRunView, uniform, unique_ids, key_before, separated, full_but_last, last_fits,
  make_run_view, block_records, records, keys,
}

module _ {V : Type 0} where
  pub keys_of-append : (xs ys : List (Record V)) → keys_of (xs ++ ys) ≡ keys_of xs ++ keys_of ys
  keys_of-append [] ys = refl
  keys_of-append (x ∷ xs) ys = ap (◌∷◌ x.key) (keys_of-append xs ys)

  pub block_records-append :
      (xs ys : List (LogicalBlockSnapshot V))
      → block_records (xs ++ ys) ≡ block_records xs ++ block_records ys
  block_records-append [] ys = refl
  block_records-append (x ∷ xs) ys =
      rw (block_records-append xs ys)
        (sym (append_assoc x.records (block_records xs) (block_records ys)))

  IsStrict-join :
      (xs ys : List (Record V))
      → IsStrict key_lt (keys_of xs)
      → IsStrict key_lt (keys_of ys)
      → key_before (last_key xs) (first_key ys) ≡ true
      → IsStrict key_lt (keys_of (xs ++ ys))
  unfolding key_before
  IsStrict-join [] ys p q h = q
  IsStrict-join (x ∷ []) [] p q h = tt
  IsStrict-join (x ∷ []) (y ∷ ys) p q h = (h, q)
  IsStrict-join (x ∷ z ∷ xs) ys (k, p) q h = (k, IsStrict-join (z ∷ xs) ys p q h)

  pub first_key-append :
      (xs ys : List (Record V)) → (length xs == 0) ≡ false → first_key (xs ++ ys) ≡ first_key xs
  first_key-append [] ys h = cc
  first_key-append (x ∷ xs) ys h = refl

  -- Blocks with increasing keys that do not overlap hold increasing keys together.
  separated-IsStrict :
      (capacity : ℕ) (blocks : List (LogicalBlockSnapshot V))
      → All IsSnapshot blocks
      → uniform capacity blocks ≡ true
      → separated blocks ≡ true
      → IsStrict key_lt (keys_of (block_records blocks))
  unfolding uniform separated
  separated-IsStrict capacity [] good u s = tt
  separated-IsStrict capacity (b ∷ []) (g, _) u s = rw (append-nil b.records) g.strict
  separated-IsStrict capacity (b ∷ c ∷ blocks) (g, all) u s =
      let filled : (length c.records == 0) ≡ false = ground arith in
      let later : uniform capacity (c ∷ blocks) ≡ true = ground arith in
      IsStrict-join b.records (block_records (c ∷ blocks)) g.strict
        (separated-IsStrict capacity (c ∷ blocks) all later (ground arith))
        (rw (first_key-append c.records (block_records blocks) filled) (ground arith))

  -- The canonical packing: every block but the last holds exactly `capacity` records, and the last one
  -- between 1 and `capacity`.
  abbrev pub IsPacked : ℕ → List (LogicalBlockSnapshot V) → Type 0
  IsPacked capacity [] = Unit
  IsPacked capacity (b ∷ []) = (1 ≤ size b) × (size b ≤ capacity)
  IsPacked capacity (b ∷ c ∷ blocks) = (size b ≡ capacity) × IsPacked capacity (c ∷ blocks)

  full-IsPacked :
      (capacity : ℕ) (blocks : List (LogicalBlockSnapshot V))
      → All IsSnapshot blocks
      → uniform capacity blocks ≡ true
      → full_but_last blocks ≡ true
      → last_fits capacity blocks ≡ true
      → IsPacked capacity blocks
  unfolding uniform full_but_last last_fits
  full-IsPacked capacity [] good u full fits = tt
  full-IsPacked capacity (b ∷ []) (g, _) u full fits = ground arith
  full-IsPacked capacity (b ∷ c ∷ blocks) (g, all) u full fits =
      (ground arith, full-IsPacked capacity (c ∷ blocks) all (ground arith) (ground arith) fits)

  -- A view's records have strictly increasing keys across all its blocks, and its blocks are packed.
  pub record IsRun (run : LogicalBlockRunView V) : Type 0 where
    pub capacity_ge : 1 ≤ run.items_per_block
    pub strict : IsStrict key_lt (keys run)
    pub packed : IsPacked run.items_per_block run.blocks

  -- For blocks that are snapshots that their own constructor accepted, mutable blocks, or values
  -- of another type, a run view that the constructor returns has a capacity of at least one,
  -- strictly increasing keys across all its blocks, every block but the last full and the last
  -- one not empty.
  pub make_run_view-IsRun :
      {W : Type 0} (level : Value W) (items : List (BlockItem V)) (items_per_block : Value W)
      → All IsItem items
      → Ensures IsRun (make_run_view level items items_per_block)
  unfolding make_run_view keys records
  make_run_view-IsRun {W} level items items_per_block given =
      Ensures-then IsRun (require_nat content_schedule_error level 0) _ λ l _.
        Ensures-bind (λ (n : ℕ). 1 ≤ n) IsRun (require_nat content_schedule_error items_per_block 1)
          _
          (Ensures-of_ok (λ (n : ℕ). 1 ≤ n) (require_nat content_schedule_error items_per_block 1)
            λ n e. (require_nat_inv content_schedule_error items_per_block 1 n e).1)
          λ capacity _ large.
            Ensures-bind (All IsSnapshot) IsRun (as_snapshots W items) _
              (as_snapshots-IsSnapshot W items given)
              λ blocks _ good.
                Ensures-check IsRun (uniform capacity blocks) content_schedule_error _ λ same.
                  Ensures-check IsRun (unique_ids blocks) content_schedule_error _ λ _.
                    Ensures-check IsRun (separated blocks) content_schedule_error _ λ apart.
                      Ensures-check IsRun (full_but_last blocks) content_schedule_error _ λ full.
                        Ensures-check IsRun (last_fits capacity blocks) content_schedule_error _
                          λ fits. record {
                            capacity_ge = large;
                            strict = separated-IsStrict capacity blocks good same apart;
                            packed = full-IsPacked capacity blocks good same full fits;
                          }
