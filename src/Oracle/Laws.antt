-- ===== src/Oracle/Laws.antt =====
-- The functional oracle does not depend on how its job is stepped.
use swat_letindex_baseline.Prelude.{
  ℕ, zero, suc, ◌+◌, ◌≤◌, ◌<◌, ◌≡◌, refl, ap, sym, ◌∙◌, List, [], ◌∷◌, ◌++◌, true, inl, inr,
  Bool-cases, arith, max, All, Result, ok, err, ◌>>=◌, pos, functional_oracle_error,
}
use swat_letindex_baseline.Values.{Value, int}
use swat_letindex_baseline.Values.Laws.{require_nat_accepts}
use swat_letindex_baseline.Oracle.Job.{OutputBlock, MergeJobs, MergeJobLaws}
use swat_letindex_baseline.Oracle.{
  Schedule, drain, text, budgets, require_budgets, validate_merge_identity, schedule_budgets,
  Collected, drain_job, apply_budgets, collect_output_blocks, oracle_result,
  functional_merge_oracle,
}

module _ {W : Type 0} where
  -- A schedule that the oracle accepts: the default, or plain positive ints.
  abbrev pub IsLegal : Schedule W → Type 0
  IsLegal drain = Unit
  IsLegal text = ⊥
  IsLegal (budgets qs) = All (λ q. (n : ℕ) × (q ≡ int (pos n)) × (1 ≤ n)) qs

  require_budgets-positive :
      (qs : List (Value W))
      → IsLegal (budgets qs)
      → (ns : List ℕ) × (require_budgets qs ≡ ok ns) × All (λ n. 1 ≤ n) ns
  require_budgets-positive [] h = ([], refl, tt)
  require_budgets-positive (q ∷ qs) ((n, e, p), hs) =
      let (ns, made, positive) = require_budgets-positive qs hs in
      (
        n ∷ ns,
        rw (e, require_nat_accepts W functional_oracle_error n 1 p, made) refl,
        (p, positive),
      )

  schedule_budgets-positive :
      (item_count : ℕ) (schedule : Schedule W)
      → IsLegal schedule
      → (ns : List ℕ) × (schedule_budgets item_count schedule ≡ ok ns) × All (λ n. 1 ≤ n) ns
  unfolding schedule_budgets
  schedule_budgets-positive item_count drain h = (max 1 item_count ∷ [], refl, (omega arith, tt))
  schedule_budgets-positive item_count text h = absurd h
  schedule_budgets-positive item_count (budgets qs) h = require_budgets-positive qs h

>>=-cong {ℓ κ} :
    {A : Type ℓ} {B : Type κ} (m : Result A) (f g : A → Result B)
    → ((a : A) → m ≡ ok a → f a ≡ g a)
    → (m >>= f) ≡ (m >>= g)
>>=-cong (ok a) f g h = h a refl
>>=-cong (err e) f g h = refl

module _ {J R V P W : Type 0} (jobs : MergeJobs J R V P W) (laws : MergeJobLaws jobs) where
  -- The blocks are the job's whole stream, and the job is done with the same result and parameters.
  pub record IsCollected (j : J) (c : Collected J V) : Type 0 where
    pub whole : c.blocks ≡ laws.stream j
    pub result : jobs.finalize c.job ≡ laws.final j
    pub same_items : jobs.items_per_block c.job ≡ jobs.items_per_block j
    pub same_epsilon : jobs.epsilon c.job ≡ jobs.epsilon j

  finished :
      (j : J)
      → laws.IsJob j
      → jobs.done j ≡ true
      → IsCollected j (record { blocks = []; applied = []; job = j })
  finished j valid over = record {
    whole = sym (laws.stream_done j valid over);
    result = laws.finalize_done j valid over;
    same_items = refl;
    same_epsilon = refl;
  }

  drain_done :
      (rounds : ℕ) (j : J)
      → jobs.done j ≡ true
      → drain_job jobs rounds j ≡ ok (record { blocks = []; applied = []; job = j })
  unfolding drain_job
  drain_done zero j over = rw over refl
  drain_done (suc rounds) j over = rw over refl

  -- One step before the rest.
  stepped :
      (j : J) (q : ℕ) (applied : List ℕ) (r : List (OutputBlock V) × J) (c : Collected J V)
      → r.0 ++ laws.stream r.1 ≡ laws.stream j
      → laws.final r.1 ≡ laws.final j
      → jobs.items_per_block r.1 ≡ jobs.items_per_block j
      → jobs.epsilon r.1 ≡ jobs.epsilon j
      → IsCollected r.1 c
      → IsCollected j (record { blocks = r.0 ++ c.blocks; applied = q ∷ applied; job = c.job })
  stepped j q applied r c blocks final items eps rest = record {
    whole = ap (λ xs. r.0 ++ xs) rest.whole ∙ blocks;
    result = rest.result ∙ final;
    same_items = rest.same_items ∙ items;
    same_epsilon = rest.same_epsilon ∙ eps;
  }

  drain_lem :
      (rounds : ℕ) (j : J)
      → laws.IsJob j
      → laws.remaining j < rounds
      → (c : Collected J V) × (drain_job jobs rounds j ≡ ok c) × IsCollected j c
  unfolding drain_job
  drain_lem zero j valid enough = absurd (omega arith)
  drain_lem (suc rounds) j valid enough = elim (Bool-cases (jobs.done j)) [
    | inl over ↦ (_, rw over refl, finished j valid over)
    | inr open_job ↦
        let (r, step, valid', blocks, final, items, eps, less, ends) =
          laws.advances j 1 valid (omega arith) open_job in
        elim ends [
          | inl over ↦ (
            _,
            rw (open_job, step, drain_done rounds r.1 over) refl,
            stepped j 1 [] r _ blocks final items eps (finished r.1 valid' over),
          )
          | inr fewer ↦
              let (c, e, h) = drain_lem rounds r.1 valid' (omega arith) in
              (_, rw (open_job, step, e) refl, stepped j 1 c.applied r c blocks final items eps h)
        ]
  ]

  apply_lem :
      (rounds : ℕ) (qs : List ℕ) (j : J)
      → laws.IsJob j
      → laws.remaining j < rounds
      → All (λ q. 1 ≤ q) qs
      → (c : Collected J V) × (apply_budgets jobs rounds qs j ≡ ok c) × IsCollected j c
  unfolding apply_budgets
  apply_lem rounds [] j valid enough positive = drain_lem rounds j valid enough
  apply_lem rounds (q ∷ qs) j valid enough (p, ps) = elim (Bool-cases (jobs.done j)) [
    | inl over ↦ (_, rw (over, drain_done rounds j over) refl, finished j valid over)
    | inr open_job ↦
        let (r, step, valid', blocks, final, items, eps, less, ends) =
          laws.advances j q valid p open_job in
        let (c, e, h) = apply_lem rounds qs r.1 valid' (omega arith) ps in
        (_, rw (open_job, step, e) refl, stepped j q c.applied r c blocks final items eps h)
  ]

  -- For a job that keeps the documented laws of its interface and a legal schedule,
  -- collect_output_blocks ends without an exception: its blocks are the whole stream that the job
  -- has yet to complete, in order, and the job it leaves finalizes to the same result with the
  -- same geometry and epsilon.
  pub collect_output_blocks_lem :
      (j : J) (schedule : Schedule W)
      → laws.IsJob j
      → IsLegal schedule
      → (c : Collected J V) × (collect_output_blocks jobs j schedule ≡ ok c) × IsCollected j c
  unfolding collect_output_blocks
  collect_output_blocks_lem j schedule valid legal =
      let enough = laws.bounded j valid in
      let (qs, e, positive) = schedule_budgets-positive (jobs.item_count j) schedule legal in
      rw e (apply_lem (jobs.item_count j + 1) qs j valid (omega arith) positive)

  -- What follows the collected blocks sees only what every schedule agrees on.
  oracle_result-IsCollected :
      (j : J) (c d : Collected J V)
      → IsCollected j c
      → IsCollected j d
      → oracle_result jobs c ≡ oracle_result jobs d
  unfolding oracle_result
  oracle_result-IsCollected j c d h k =
      rw
        (
          h.whole, k.whole, h.result, k.result, h.same_items, k.same_items, h.same_epsilon,
          k.same_epsilon,
        )
        refl

  collected_alike :
      (j : J) (one other : Schedule W)
      → laws.IsJob j
      → IsLegal one
      → IsLegal other
      → (collect_output_blocks jobs j one >>= oracle_result jobs)
        ≡ (collect_output_blocks jobs j other >>= oracle_result jobs)
  collected_alike j one other valid h k =
      let (c, e, collected) = collect_output_blocks_lem j one valid h in
      let (d, e', collected') = collect_output_blocks_lem j other valid k in
      rw (e, e') (oracle_result-IsCollected j c d collected collected')

  -- For a merge job that keeps the documented laws of its interface, functional_merge_oracle
  -- gives the same result, or the same exception, under any two legal schedules: the default one,
  -- or budgets that are plain positive ints.
  pub functional_merge_oracle_lem :
      (from to : R) (items_per_block epsilon : Value W) (one other : Schedule W)
      → IsLegal one
      → IsLegal other
      → functional_merge_oracle jobs from to items_per_block epsilon one
        ≡ functional_merge_oracle jobs from to items_per_block epsilon other
  unfolding functional_merge_oracle
  functional_merge_oracle_lem from to items_per_block epsilon one other h k =
      >>=-cong (validate_merge_identity (jobs.level from) (jobs.level to)) _ _ (λ _ _.
        >>=-cong (jobs.begin from to items_per_block epsilon) _ _ (λ j begun.
          collected_alike j one other (laws.begins from to items_per_block epsilon j begun) h k))
