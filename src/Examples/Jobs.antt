-- ===== src/Examples/Jobs.antt =====
-- A small merge job for runs of numbers, one record in a block, that keeps what `MergeJobLaws` asks.
use swat_letindex_baseline.Prelude.{
  ℕ, ◌+◌, ◌≤◌, ◌≡◌, refl, ℤ, pos, List, [], ◌∷◌, none, Bool, true, false, inr, arith, length, take,
  drop, ◌++◌, length-drop, take-append-drop, ltb, ◌==◌, ok,
}
use swat_letindex_baseline.Sorting.{sorted, distinct}
use swat_letindex_baseline.Oracle.Job.{OutputBlock, IncrementalMergeResult, MergeJobs, MergeJobLaws}

-- The blocks that are left, and the number of all blocks.
abbrev pub Pending : Type 0
Pending = List (OutputBlock ℕ) × ℕ

-- A run: its level and its keys, which stand for the values too.
abbrev pub Run : Type 0
Run = ℕ × List ℕ

abbrev blocks_from : ℕ → List ℕ → List (OutputBlock ℕ)
blocks_from rank [] = []
blocks_from rank (k ∷ ks) =
    record { rank = rank; keys = record { value = pos k } ∷ []; values = k ∷ [] }
    ∷ blocks_from (rank + 1) ks

pub merged : Run → Run → List ℕ
unfolding sorted distinct
merged a b = sorted (λ m n. ltb m n) (distinct (λ m n. m == n) (a.1 ++ b.1))

abbrev empty : List (OutputBlock ℕ) → Bool
empty [] = true
empty (b ∷ bs) = false

abbrev result_of : ℕ → IncrementalMergeResult ℕ
result_of n = record {
  source_level = 0;
  target_level = 1;
  record_count = n;
  block_count = n;
  duplicate_count = 0;
  first_key = none;
  last_key = none;
  pgm = n;
}

abbrev pub jobs : MergeJobs Pending Run ℕ ℕ ℤ
jobs = record {
  level = λ run. run.0;
  begin = λ a b items epsilon. ok (blocks_from 0 (merged a b), length (merged a b));
  done = λ job. empty job.0;
  advance = λ job q. ok (take q job.0, (drop q job.0, job.1));
  finalize = λ job. ok (result_of job.1);
  item_count = λ job. length job.0;
  items_per_block = λ job. 1;
  epsilon = λ job. 2;
}

empty_list : (bs : List (OutputBlock ℕ)) → empty bs ≡ true → bs ≡ []
empty_list [] h = refl
empty_list (b ∷ bs) h = cc

not_empty : (bs : List (OutputBlock ℕ)) → empty bs ≡ false → 1 ≤ length bs
not_empty [] h = cc
not_empty (b ∷ bs) h = omega arith

pub jobs_laws : MergeJobLaws jobs
jobs_laws = record {
  IsJob = λ _. Unit;
  remaining = λ job. length job.0;
  stream = λ job. job.0;
  final = λ job. ok (result_of job.1);
  bounded = λ job _. omega arith;
  stream_done = λ job _ over. empty_list job.0 over;
  finalize_done = λ job _ over. refl;
  advances = λ job q _ positive open_job. (
    (take q job.0, (drop q job.0, job.1)),
    refl,
    tt,
    take-append-drop q job.0,
    refl,
    refl,
    refl,
    omega (arith, length-drop q job.0),
    inr (omega (arith, length-drop q job.0, not_empty job.0 open_job)),
  );
  begins = λ a b items epsilon job _. tt;
}

pub pending-IsJob : (job : Pending) → jobs_laws.IsJob job
unfolding jobs_laws
pending-IsJob job = tt
