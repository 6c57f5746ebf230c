-- ===== src/Oracle/Refusals.antt =====
-- What `functional_merge_oracle` refuses before it drives the job.
use swat_letindex_baseline.Prelude.{
  ◌∙◌, ◌-◌, ◌⊎◌, ltb_ℤ, pos_part, ge→ltb, ==_iff, ℕ, suc, ◌+◌, ◌≡◌, ◌≢◌, refl, ap, pos, List, [],
  ◌∷◌, Any, Bool-cases, inl, inr, true, arith, ltb, ◌==◌, ne→==, functional_oracle_error, ok, err,
}
use swat_letindex_baseline.Values.{Value, int, bool, float, other, require_nat, require_plain_int}
use swat_letindex_baseline.Values.Laws.{require_nat_inv}
use swat_letindex_baseline.Oracle.Job.{MergeJobs}
use swat_letindex_baseline.Oracle.{
  validate_merge_identity, Schedule, drain, text, budgets, require_budgets, schedule_budgets,
  collect_output_blocks, functional_merge_oracle,
}

module _ {W : Type 0} where
  -- A budget that is no plain int above 0.
  abbrev pub IsBadBudget : Value W → Type 0
  IsBadBudget q = (n : ℕ) → q ≢ int (pos (suc n))

  -- A text, or budgets one of which is bad.
  abbrev pub IsIllegal : Schedule W → Type 0
  IsIllegal drain = ⊥
  IsIllegal text = Unit
  IsIllegal (budgets qs) = Any IsBadBudget qs

  require_nat_either :
      (q : Value W)
      → ((n : ℕ) × (require_nat functional_oracle_error q 1 ≡ ok n))
        ⊎ (require_nat functional_oracle_error q 1 ≡ err functional_oracle_error)
  unfolding require_nat require_plain_int
  require_nat_either (int z) = elim (Bool-cases (ltb_ℤ z (pos 1))) [
    | inl below ↦ inr (rw below refl)
    | inr above ↦ inl (pos_part z, rw above refl)
  ]
  require_nat_either (bool b) = inr refl
  require_nat_either (float x) = inr refl
  require_nat_either other = inr refl

  require_nat_bad :
      (q : Value W)
      → IsBadBudget q
      → require_nat functional_oracle_error q 1 ≡ err functional_oracle_error
  require_nat_bad q bad = elim (require_nat_either q) [
    | inr refused ↦ refused
    | inl (n, accepted) ↦
        let (same, large) = require_nat_inv functional_oracle_error q 1 n accepted in
        absurd (bad (n - 1) (same ∙ ap (λ k. int (pos k)) (omega arith)))
  ]

  require_budgets_bad :
      (qs : List (Value W)) → Any IsBadBudget qs → require_budgets qs ≡ err functional_oracle_error
  require_budgets_bad [] h = absurd h
  require_budgets_bad (q ∷ qs) (inl bad) = rw (require_nat_bad q bad) refl
  require_budgets_bad (q ∷ qs) (inr later) = elim (require_nat_either q) [
    | inr refused ↦ rw refused refl
    | inl (n, accepted) ↦ rw (accepted, require_budgets_bad qs later) refl
  ]

  schedule_budgets_bad :
      (item_count : ℕ) (schedule : Schedule W)
      → IsIllegal schedule
      → schedule_budgets item_count schedule ≡ err functional_oracle_error
  unfolding schedule_budgets
  schedule_budgets_bad item_count drain h = absurd h
  schedule_budgets_bad item_count text h = refl
  schedule_budgets_bad item_count (budgets qs) h = require_budgets_bad qs h

not_adjacent :
    (source_level target_level : ℕ)
    → target_level ≢ source_level + 1
    → validate_merge_identity source_level target_level ≡ err functional_oracle_error
unfolding validate_merge_identity
not_adjacent source_level target_level h = elim (Bool-cases (source_level == target_level)) [
  | inl same ↦ rw same refl
  | inr apart ↦ elim (Bool-cases (ltb target_level source_level)) [
    | inl below ↦ rw (apart, below) refl
    | inr above ↦ rw (apart, above, ne→== target_level (source_level + 1) h) refl
  ]
]

adjacent_accepted :
    (source_level target_level : ℕ)
    → (target_level == (source_level + 1)) ≡ true
    → validate_merge_identity source_level target_level ≡ ok tt
unfolding validate_merge_identity
adjacent_accepted source_level target_level h =
    let next = (==_iff target_level (source_level + 1)).0 h in
    rw
      (
        ne→== source_level target_level (λ e. omega (arith, next, e)),
        ge→ltb target_level source_level (omega arith),
        h,
      )
      refl

module _ {J R V P W : Type 0} (jobs : MergeJobs J R V P W) where
  refuses_levels :
      (from to : R) (items_per_block epsilon : Value W) (schedule : Schedule W)
      → jobs.level to ≢ jobs.level from + 1
      → functional_merge_oracle jobs from to items_per_block epsilon schedule
        ≡ err functional_oracle_error
  unfolding functional_merge_oracle
  refuses_levels from to items_per_block epsilon schedule apart =
      rw (not_adjacent (jobs.level from) (jobs.level to) apart) refl

  refuses_schedule :
      (from to : R) (items_per_block epsilon : Value W) (schedule : Schedule W) (job : J)
      → jobs.begin from to items_per_block epsilon ≡ ok job
      → IsIllegal schedule
      → (jobs.level to == (jobs.level from + 1)) ≡ true
      → functional_merge_oracle jobs from to items_per_block epsilon schedule
        ≡ err functional_oracle_error
  unfolding functional_merge_oracle collect_output_blocks
  refuses_schedule from to items_per_block epsilon schedule job begun illegal adjacent =
      rw
        (
          adjacent_accepted (jobs.level from) (jobs.level to) adjacent,
          begun,
          schedule_budgets_bad (jobs.item_count job) schedule illegal,
        )
        refl

  -- Whatever the merge job does: if the levels are not adjacent, or if the job begins and the
  -- schedule is a text or has a budget that is no positive int, functional_merge_oracle raises
  -- the error of its module.
  pub functional_merge_oracle_refuses :
      (from to : R) (items_per_block epsilon : Value W) (schedule : Schedule W)
      → (jobs.level to ≢ jobs.level from + 1)
        ⊎ ((job : J) × (jobs.begin from to items_per_block epsilon ≡ ok job) × IsIllegal schedule)
      → functional_merge_oracle jobs from to items_per_block epsilon schedule
        ≡ err functional_oracle_error
  functional_merge_oracle_refuses from to items_per_block epsilon schedule (inl apart) =
      refuses_levels from to items_per_block epsilon schedule apart
  functional_merge_oracle_refuses from to items_per_block epsilon schedule
        (inr (job, begun, illegal)) =
      elim (Bool-cases (jobs.level to == (jobs.level from + 1))) [
        | inl adjacent ↦
            refuses_schedule from to items_per_block epsilon schedule job begun illegal adjacent
        | inr apart ↦
            refuses_levels from to items_per_block epsilon schedule
              (λ e. cc (rw ((==_iff _ _).1 e) at apart))
      ]
