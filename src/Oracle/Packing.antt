-- ===== src/Oracle/Packing.antt =====
-- What the packing check of the functional oracle lets through.
use swat_letindex_baseline.Prelude.{
  ℕ, ◌+◌, ◌≤◌, ◌≡◌, refl, ap, List, [], ◌∷◌, true, length, sum, map, count_up, arith, ==_iff, ◌==◌,
  functional_oracle_error, refuse_if, ltb, Ensures, Ensures-then, Ensures-bind, Ensures-map,
  Ensures-check,
}
use swat_letindex_baseline.Values.{Value}
use swat_letindex_baseline.Substrate.{key_lt, key_eq}
use swat_letindex_baseline.Substrate.Laws.{key_lt_asym, key_lt_total, key_eq_sound}
use swat_letindex_baseline.Sorting.{sorted, distinct, list_eq}
use swat_letindex_baseline.Sorting.Laws.{IsStrict}
use swat_letindex_baseline.Sorting.Strict.{IsStrict-of_test}
use swat_letindex_baseline.Oracle.Job.{OutputBlock, MergeJobs}
use swat_letindex_baseline.Oracle.{
  block_items, ranked, full_blocks, final_fits, output_key_stream, check_canonical_packing,
  validate_merge_identity, Schedule, Collected, collect_output_blocks, FunctionalMergeOracleResult,
  oracle_result, functional_merge_oracle,
}

module _ {V : Type 0} where
  -- Every block but the last is full, and the last is not empty and not overfull.
  abbrev pub IsFilled : ℕ → List (OutputBlock V) → Type 0
  IsFilled items [] = Unit
  IsFilled items (block ∷ []) = (1 ≤ block_items block) × (block_items block ≤ items)
  IsFilled items (block ∷ next ∷ blocks) =
      (block_items block ≡ items) × IsFilled items (next ∷ blocks)

  full-IsFilled :
      (items : ℕ) (blocks : List (OutputBlock V))
      → full_blocks items blocks ≡ true
      → final_fits items blocks ≡ true
      → IsFilled items blocks
  full-IsFilled items [] full fits = tt
  full-IsFilled items (block ∷ []) full fits = ground arith
  full-IsFilled items (block ∷ next ∷ blocks) full fits =
      (ground arith, full-IsFilled items (next ∷ blocks) (ground arith) fits)

  ranked_lem :
      (index : ℕ) (blocks : List (OutputBlock V))
      → ranked index blocks ≡ true
      → map (λ b. b.rank) blocks ≡ count_up index (length blocks)
  ranked_lem index [] h = refl
  ranked_lem index (block ∷ blocks) h =
      let first : block.rank ≡ index = ground arith in
      rw (first, ranked_lem (index + 1) blocks (ground arith))
        (ap (λ n. index ∷ count_up n (length blocks)) (omega arith))

adjacent :
    (source_level target_level : ℕ)
    → Ensures
        (λ (_ : Unit {0}). target_level ≡ source_level + 1)
        (validate_merge_identity source_level target_level)
unfolding validate_merge_identity
adjacent source_level target_level =
    let Q = λ (_ : Unit {0}). target_level ≡ source_level + 1 in
    Ensures-then Q (refuse_if (source_level == target_level) functional_oracle_error) _ (λ _ _.
      Ensures-then Q (refuse_if (ltb target_level source_level) functional_oracle_error) _ (λ _ _.
        Ensures-check Q (target_level == (source_level + 1)) functional_oracle_error _
          (λ e. (==_iff _ _).0 e)))

-- Blocks in canonical form: they are numbered from 0 in order, as many as `block_count`, they hold
-- `record_count` records, and only the last may be short.
pub record IsCanonical {V : Type 0} (blocks : List (OutputBlock V))
    (items_per_block record_count block_count : ℕ) : Type 0 where
  pub counted : length blocks ≡ block_count
  pub ranks : map (λ b. b.rank) blocks ≡ count_up 0 (length blocks)
  pub records_counted : sum (map block_items blocks) ≡ record_count
  pub filled : IsFilled items_per_block blocks
  pub strict : IsStrict key_lt (output_key_stream blocks)

module _ {V : Type 0} where
  check_canonical_packing_lem :
      (blocks : List (OutputBlock V)) (items records count : ℕ)
      → Ensures
          (λ _. IsCanonical blocks items records count)
          (check_canonical_packing blocks items records count)
  unfolding check_canonical_packing
  check_canonical_packing_lem blocks items records count =
      let Q = λ (_ : Unit {0}). IsCanonical blocks items records count in
      Ensures-check Q (length blocks == count) functional_oracle_error _ (λ e.
        Ensures-check Q (ranked 0 blocks) functional_oracle_error _ (λ ranks.
          Ensures-check Q (sum (map block_items blocks) == records) functional_oracle_error _
            (λ total. Ensures-check Q (full_blocks items blocks) functional_oracle_error _ (λ full.
              Ensures-check Q (final_fits items blocks) functional_oracle_error _ (λ fits.
                Ensures-check Q
                  (list_eq key_eq (output_key_stream blocks)
                    (sorted key_lt (distinct key_eq (output_key_stream blocks))))
                  functional_oracle_error _
                  (λ increasing. record {
                    counted = (==_iff _ _).0 e;
                    ranks = ranked_lem 0 blocks ranks;
                    records_counted = (==_iff _ _).0 total;
                    filled = full-IsFilled items blocks full fits;
                    strict =
                        IsStrict-of_test key_lt key_eq key_lt_total key_eq_sound key_lt_asym
                          (output_key_stream blocks) increasing;
                  }))))))

module _ {V P : Type 0} where
  -- The result's own geometry and counts.
  abbrev pub IsCanonicalResult : FunctionalMergeOracleResult V P → Type 0
  IsCanonicalResult r = IsCanonical r.blocks r.items_per_block r.record_count r.block_count

module _ {J R V P W : Type 0} (jobs : MergeJobs J R V P W) where
  oracle_result_lem :
      (collected : Collected J V) → Ensures IsCanonicalResult (oracle_result jobs collected)
  unfolding oracle_result
  oracle_result_lem collected =
      Ensures-then IsCanonicalResult (jobs.finalize collected.job) _ (λ merged _.
        Ensures-bind
          (λ _.
            IsCanonical collected.blocks (jobs.items_per_block collected.job) merged.record_count
              merged.block_count)
          IsCanonicalResult
          (check_canonical_packing collected.blocks (jobs.items_per_block collected.job)
            merged.record_count merged.block_count)
          _
          (check_canonical_packing_lem collected.blocks (jobs.items_per_block collected.job)
            merged.record_count merged.block_count)
          (λ _ _ h. record {
            counted = h.counted;
            ranks = h.ranks;
            records_counted = h.records_counted;
            filled = h.filled;
            strict = h.strict;
          }))

  -- Whatever the merge job does, a result that functional_merge_oracle returns merges two
  -- adjacent levels, its blocks are numbered from 0 in order, their number and their records are
  -- as many as the result says, every block but the last is full, the last one is neither empty
  -- nor overfull, and the keys of all records strictly increase.
  pub functional_merge_oracle-IsCanonical :
      (from to : R) (items_per_block epsilon : Value W) (schedule : Schedule W)
      → Ensures
          (λ r. (jobs.level to ≡ jobs.level from + 1) × IsCanonicalResult r)
          (functional_merge_oracle jobs from to items_per_block epsilon schedule)
  unfolding functional_merge_oracle
  functional_merge_oracle-IsCanonical from to items_per_block epsilon schedule =
      let Q = λ (r : FunctionalMergeOracleResult V P).
        (jobs.level to ≡ jobs.level from + 1) × IsCanonicalResult r in
      Ensures-bind (λ (_ : Unit {0}). jobs.level to ≡ jobs.level from + 1) Q
        (validate_merge_identity (jobs.level from) (jobs.level to)) _
        (adjacent (jobs.level from) (jobs.level to))
        (λ _ _ next. Ensures-then Q (jobs.begin from to items_per_block epsilon) _ (λ job _.
          Ensures-then Q (collect_output_blocks jobs job schedule) _ (λ collected _.
            Ensures-map IsCanonicalResult Q (oracle_result jobs collected)
              (oracle_result_lem collected) (λ r _ h. (next, h)))))
