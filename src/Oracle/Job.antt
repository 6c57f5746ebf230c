-- ===== src/Oracle/Job.antt =====
-- The merge job of the frozen snapshot (codes/src/enhanced_letindex/incremental_merge.py), which the
-- functional oracle drives: its operations as an interface, and what its documentation promises.
use swat_letindex_baseline.Prelude.{
  ℕ, ◌≤◌, ◌<◌, ◌≡◌, ◌⊎◌, List, [], ◌++◌, Option, Bool, true, false, Result, ok,
}
use swat_letindex_baseline.Values.{Value}
use swat_letindex_baseline.Substrate.{RecordKey}

-- `OutputBlock`
pub record OutputBlock (V : Type 0) : Type 0 where
  pub rank : ℕ
  pub keys : List RecordKey
  pub values : List V

-- `IncrementalMergeResult`, with an index of any type `P`
pub record IncrementalMergeResult (P : Type 0) : Type 0 where
  pub source_level : ℕ
  pub target_level : ℕ
  pub record_count : ℕ
  pub block_count : ℕ
  pub duplicate_count : ℕ
  pub first_key : Option RecordKey
  pub last_key : Option RecordKey
  pub pgm : P

-- The operations on jobs `J` that merge runs `R`. A job is its state: `advance` returns the blocks that
-- it completed and the next state.
pub record MergeJobs (J R V P W : Type 0) : Type 0 where
  pub level : R → ℕ
  pub begin : R → R → Value W → Value W → Result J
  pub done : J → Bool
  pub advance : J → ℕ → Result (List (OutputBlock V) × J)
  pub finalize : J → Result (IncrementalMergeResult P)
  -- `job.source.item_count + job.target.item_count`
  pub item_count : J → ℕ
  pub items_per_block : J → ℕ
  pub epsilon : J → ℕ

-- What the documentation of the job promises. A job has a number of decisions left, a stream of blocks
-- that it has yet to complete, and a result that it will finalize to.
pub record MergeJobLaws {J R V P W : Type 0} (jobs : MergeJobs J R V P W) : Type 1 where
  pub IsJob : J → Type 0
  pub remaining : J → ℕ
  pub stream : J → List (OutputBlock V)
  pub final : J → Result (IncrementalMergeResult P)
  -- No more decisions than input records.
  pub bounded : (j : J) → IsJob j → remaining j ≤ jobs.item_count j
  -- A job that is done has nothing left to complete.
  pub stream_done : (j : J) → IsJob j → jobs.done j ≡ true → stream j ≡ []
  pub finalize_done : (j : J) → IsJob j → jobs.done j ≡ true → jobs.finalize j ≡ final j
  -- A budget makes a job advance: it is done, or it has fewer decisions left.
  pub advances :
      (j : J) (q : ℕ)
      → IsJob j
      → 1 ≤ q
      → jobs.done j ≡ false
      → (r : List (OutputBlock V) × J) × (jobs.advance j q ≡ ok r)
        × IsJob r.1
        × (r.0 ++ stream r.1 ≡ stream j)
        × (final r.1 ≡ final j)
        × (jobs.items_per_block r.1 ≡ jobs.items_per_block j)
        × (jobs.epsilon r.1 ≡ jobs.epsilon j)
        × (remaining r.1 ≤ remaining j)
        × ((jobs.done r.1 ≡ true) ⊎ (remaining r.1 < remaining j))
  pub begins : (a b : R) (items eps : Value W) (j : J) → jobs.begin a b items eps ≡ ok j → IsJob j
