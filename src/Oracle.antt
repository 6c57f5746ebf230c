-- ===== src/Oracle.antt =====
-- functional_oracle.py: the logical merge, driven through the job of the frozen snapshot.
pub mod Job
pub mod Laws
pub mod Packing
pub mod Refusals
use swat_letindex_baseline.Prelude.{
  ℕ, zero, suc, ◌+◌, ℤ, pos, List, [], ◌∷◌, ◌++◌, Option, Bool, true, false, length, sum, map, max,
  ltb, leb, ◌==◌, ◌&&◌, not, eqb_ℤ, ltb_ℤ, if◌then◌else◌, functional_oracle_error, out_of_fuel,
  Result, ok, err, ◌>>=◌, ◌>>◌, refuse_if,
}
use swat_letindex_baseline.Values.{Value, require_nat}
use swat_letindex_baseline.Substrate.{RecordKey, key_lt, key_eq}
use swat_letindex_baseline.Sorting.{sorted, distinct, list_eq}
use swat_letindex_baseline.Oracle.Job.{OutputBlock, IncrementalMergeResult, MergeJobs}

module _ {V : Type 0} where
  -- `zip(keys, values)` with the keys' numbers
  abbrev pub zip_records : List RecordKey → List V → List (ℤ × V)
  zip_records [] values = []
  zip_records (key ∷ keys) [] = []
  zip_records (key ∷ keys) (value ∷ values) = (key.value, value) ∷ zip_records keys values

  abbrev pub flatten_blocks : List (OutputBlock V) → List (ℤ × V)
  flatten_blocks [] = []
  flatten_blocks (block ∷ blocks) = zip_records block.keys block.values ++ flatten_blocks blocks

  abbrev pub output_key_stream : List (OutputBlock V) → List RecordKey
  output_key_stream [] = []
  output_key_stream (block ∷ blocks) = block.keys ++ output_key_stream blocks

  abbrev pub block_items : OutputBlock V → ℕ
  block_items block = length block.keys

  -- `block.rank != index` along the blocks
  abbrev pub ranked : ℕ → List (OutputBlock V) → Bool
  ranked index [] = true
  ranked index (block ∷ blocks) = block.rank == index && ranked (index + 1) blocks

  -- Every block but the last holds `items_per_block` records.
  abbrev pub full_blocks : ℕ → List (OutputBlock V) → Bool
  full_blocks items_per_block [] = true
  full_blocks items_per_block (block ∷ []) = true
  full_blocks items_per_block (block ∷ next ∷ blocks) =
      block_items block == items_per_block && full_blocks items_per_block (next ∷ blocks)

  -- The last block, if there is one, holds between 1 and `items_per_block` records.
  abbrev pub final_fits : ℕ → List (OutputBlock V) → Bool
  final_fits items_per_block [] = true
  final_fits items_per_block (block ∷ []) =
      leb 1 (block_items block) && leb (block_items block) items_per_block
  final_fits items_per_block (block ∷ next ∷ blocks) = final_fits items_per_block (next ∷ blocks)

  -- `_check_canonical_packing`
  unfoldable pub check_canonical_packing : List (OutputBlock V) → ℕ → ℕ → ℕ → Result (Unit {0})
  check_canonical_packing blocks items_per_block record_count block_count = do
    refuse_if (not (length blocks == block_count)) functional_oracle_error
    refuse_if (not (ranked 0 blocks)) functional_oracle_error
    refuse_if (not (sum (map block_items blocks) == record_count)) functional_oracle_error
    refuse_if (not (full_blocks items_per_block blocks)) functional_oracle_error
    refuse_if (not (final_fits items_per_block blocks)) functional_oracle_error
    refuse_if
        (not (
          list_eq key_eq (output_key_stream blocks)
            (sorted key_lt (distinct key_eq (output_key_stream blocks)))))
        functional_oracle_error
    ok tt

-- `_validate_merge_identity`
unfoldable pub validate_merge_identity : ℕ → ℕ → Result (Unit {0})
validate_merge_identity source_level target_level = do
  refuse_if (source_level == target_level) functional_oracle_error
  refuse_if (ltb target_level source_level) functional_oracle_error
  refuse_if (not (target_level == (source_level + 1))) functional_oracle_error
  ok tt

-- The `schedule` argument: None, a str or bytes, or a sequence.
pub data Schedule (W : Type 0) : Type 0 where
  drain text : Schedule W
  budgets : List (Value W) → Schedule W

module _ {W : Type 0} where
  -- `_require_positive_int` along the budgets
  abbrev pub require_budgets : List (Value W) → Result (List ℕ)
  require_budgets [] = ok []
  require_budgets (q ∷ qs) = do
    budget ← require_nat functional_oracle_error q 1
    rest ← require_budgets qs
    ok (budget ∷ rest)

  -- The default is one budget that covers every remaining decision; any other schedule goes through
  -- `_validate_schedule`.
  unfoldable pub schedule_budgets : ℕ → Schedule W → Result (List ℕ)
  schedule_budgets item_count drain = ok (max 1 item_count ∷ [])
  schedule_budgets item_count text = err functional_oracle_error
  schedule_budgets item_count (budgets qs) = require_budgets qs

-- The blocks that a job completed, the budgets that were applied, and the job.
pub record Collected (J V : Type 0) : Type 0 where
  pub blocks : List (OutputBlock V)
  pub applied : List ℕ
  pub job : J

module _ {J R V P W : Type 0} (jobs : MergeJobs J R V P W) where
  open jobs use {level, begin, done, advance, finalize, item_count, items_per_block, epsilon}

  -- `while not job.done`, with the rounds that are left
  drain_job : ℕ → J → Result (Collected J V)
  drain_job zero job =
      if done job then ok (record { blocks = []; applied = []; job = job }) else err out_of_fuel
  drain_job (suc rounds) job =
      let round = (do
        step ← advance job 1
        rest ← drain_job rounds step.1
        ok (record {
          blocks = step.0 ++ rest.blocks;
          applied = 1 ∷ rest.applied;
          job = rest.job;
        })) in
      if done job then ok (record { blocks = []; applied = []; job = job }) else round

  -- `for budget in budgets`, and then the draining loop
  apply_budgets : ℕ → List ℕ → J → Result (Collected J V)
  unfolding drain_job
  apply_budgets rounds [] job = drain_job rounds job
  apply_budgets rounds (budget ∷ later) job =
      let round = (do
        step ← advance job budget
        rest ← apply_budgets rounds later step.1
        ok (record {
          blocks = step.0 ++ rest.blocks;
          applied = budget ∷ rest.applied;
          job = rest.job;
        })) in
      if done job then drain_job rounds job else round

  -- A round of draining makes a decision or is the last, so the input records are rounds enough.
  unfoldable pub collect_output_blocks : J → Schedule W → Result (Collected J V)
  unfolding apply_budgets
  collect_output_blocks job schedule = do
    qs ← schedule_budgets (item_count job) schedule
    apply_budgets (item_count job + 1) qs job

pub record FunctionalMergeOracleResult (V P : Type 0) : Type 0 where
  pub source_level : ℕ
  pub target_level : ℕ
  pub items_per_block : ℕ
  pub epsilon : ℕ
  pub record_count : ℕ
  pub block_count : ℕ
  pub duplicate_count : ℕ
  pub blocks : List (OutputBlock V)
  pub pgm : P
  pub first_key : Option RecordKey
  pub last_key : Option RecordKey

module _ {V P : Type 0} where
  abbrev pub is_empty : FunctionalMergeOracleResult V P → Bool
  is_empty result = result.record_count == 0

  abbrev pub records : FunctionalMergeOracleResult V P → List (ℤ × V)
  records result = flatten_blocks result.blocks

  abbrev pub keys : FunctionalMergeOracleResult V P → List RecordKey
  keys result = output_key_stream result.blocks

module _ {J R V P W : Type 0} (jobs : MergeJobs J R V P W) where
  -- What follows the collected blocks. The geometry is read from the job that was driven.
  unfoldable pub oracle_result : Collected J V → Result (FunctionalMergeOracleResult V P)
  oracle_result collected = do
    merged ← jobs.finalize collected.job
    check_canonical_packing collected.blocks (jobs.items_per_block collected.job)
        merged.record_count merged.block_count
    ok (record {
      source_level = merged.source_level;
      target_level = merged.target_level;
      items_per_block = jobs.items_per_block collected.job;
      epsilon = jobs.epsilon collected.job;
      record_count = merged.record_count;
      block_count = merged.block_count;
      duplicate_count = merged.duplicate_count;
      blocks = collected.blocks;
      pgm = merged.pgm;
      first_key = merged.first_key;
      last_key = merged.last_key;
    })

  unfoldable pub functional_merge_oracle :
      R → R → Value W → Value W → Schedule W → Result (FunctionalMergeOracleResult V P)
  unfolding oracle_result
  functional_merge_oracle from to items_per_block epsilon schedule = do
    validate_merge_identity (jobs.level from) (jobs.level to)
    job ← jobs.begin from to items_per_block epsilon
    collected ← collect_output_blocks jobs job schedule
    oracle_result collected
