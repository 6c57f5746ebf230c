-- ===== src/Distribution/Sizing/Laws.antt =====
-- The search for the bin capacity ends, on an even capacity of at least two blocks.
use swat_letindex_baseline.Prelude.{
  ℕ, zero, suc, ◌+◌, ◌-◌, ◌/◌, ◌%◌, ◌≤◌, ◌<◌, ◌≡◌, ℤ, pos, inl, inr, Bool-cases, arith, ltb, leb,
  max, not, take, ltb→lt, negsuc, leb→gt, ◌==◌, if◌then◌else◌, block_allocation_error,
  arithmetic_error, ok, refuse_if, or_raise, Settles, Settles-bind, Settles-then, Settles-any,
  Settles-or_raise, Settles-refuse_if,
}
use swat_letindex_baseline.Floats.{Floats}
use swat_letindex_baseline.Values.{Value, int, float, require_nat, require_positive_real}
use swat_letindex_baseline.Values.Laws.{
  require_nat_accepts, require_nat-Settles, require_positive_real-Settles,
}
use swat_letindex_baseline.Distribution.Numbers.{
  atomic_bucket_capacity_blocks, upper_candidate_exponent, fast_power, to_even_up, decay,
}
use swat_letindex_baseline.Distribution.Weights.{geom_conv}
use swat_letindex_baseline.Distribution.Weights.Laws.{geom_conv_lem}
use swat_letindex_baseline.Distribution.Sizing.{
  probe_bins, probe_tail, search, upper_candidate, compute_bin_capacity_blocks,
}

-- A capacity that a bin may have.
abbrev pub IsBinCapacity : ℕ → Type 0
IsBinCapacity n = (2 ≤ n) × (n % 2 ≡ 0)

probe_even : (n : ℕ) → (n + n % 2) % 2 ≡ 0
probe_even n = omega arith

module _ (W : Type 0) ⦃f : Floats W⦄ where
  pub decay-Settles : (lam : ℕ) → Settles (λ (_ : W). Unit {0}) (decay {W = W} lam)
  unfolding decay
  decay-Settles lam =
      let P = λ (_ : W). Unit {0} in
      Settles-then P (or_raise (f.log_int lam) arithmetic_error) _
        (Settles-or_raise (f.log_int lam) arithmetic_error tt)
        (λ logarithm.
          Settles-then P (or_raise (f.pow logarithm (negsuc 1)) arithmetic_error) _
            (Settles-or_raise (f.pow logarithm (negsuc 1)) arithmetic_error tt) (λ squared. tt))

module _ {W : Type 0} ⦃f : Floats W⦄ where
  probe_bins-Settles :
      (bucket_capacity : ℕ) (decayed : W) (capacity : ℕ)
      → Settles (λ _. Unit) (probe_bins bucket_capacity decayed capacity)
  unfolding probe_bins
  probe_bins-Settles bucket_capacity decayed capacity =
      let P = λ (_ : ℤ). Unit {0} in
      Settles-then P (or_raise (f.of_int (pos bucket_capacity)) arithmetic_error) _
        (Settles-or_raise (f.of_int (pos bucket_capacity)) arithmetic_error tt)
        (λ buckets.
          Settles-then P (or_raise (f.of_int (pos capacity)) arithmetic_error) _
            (Settles-or_raise (f.of_int (pos capacity)) arithmetic_error tt)
            (λ blocks.
              Settles-then P
                (or_raise (f.div (f.mul f.two buckets) (f.mul blocks decayed)) arithmetic_error) _
                (Settles-or_raise (f.div (f.mul f.two buckets) (f.mul blocks decayed))
                  arithmetic_error tt)
                (λ ratio. Settles-or_raise (f.ceil ratio) arithmetic_error tt)))

  probe_tail-Settles :
      (bucket_capacity : ℕ) (epsilon decayed : W) (capacity : ℕ)
      → Settles (λ _. Unit) (probe_tail bucket_capacity epsilon decayed capacity)
  unfolding probe_tail
  probe_tail-Settles bucket_capacity epsilon decayed capacity =
      let P = λ (_ : W). Unit {0} in
      Settles-then P (probe_bins bucket_capacity decayed capacity) _
        (probe_bins-Settles bucket_capacity decayed capacity)
        (λ bins.
          Settles-then P (geom_conv (int (pos capacity)) (float epsilon) (int bins)) _
            (Settles-any _ _ (geom_conv_lem (int (pos capacity)) (float epsilon) (int bins)))
            (λ pmf. Settles-or_raise (f.fsum (take bucket_capacity pmf)) arithmetic_error tt))

  search-Settles :
      (rounds bucket_capacity : ℕ) (epsilon delta decayed : W) (lower upper capacity : ℕ)
      → upper - lower < rounds
      → 2 ≤ lower
      → IsBinCapacity capacity
      → Settles IsBinCapacity
          (search rounds bucket_capacity epsilon delta decayed lower upper capacity)
  unfolding search to_even_up
  search-Settles zero bucket_capacity epsilon delta decayed lower upper capacity h l c =
      absurd (omega arith)
  search-Settles (suc rounds) bucket_capacity epsilon delta decayed lower upper capacity h l c =
      elim (Bool-cases (ltb (lower + 2) upper)) [
        | inr done ↦ rw done c
        | inl more ↦
            let apart : lower + 2 < upper = ltb→lt _ _ more in
            let middle = (lower + upper) / 2 in
            let probe = middle + middle % 2 in
            rw (more, require_nat_accepts W block_allocation_error middle 0 (omega arith))
              (Settles-then IsBinCapacity (probe_tail bucket_capacity epsilon decayed probe) _
                (probe_tail-Settles bucket_capacity epsilon decayed probe)
                (λ tail. elim (Bool-cases (f.lt delta tail)) [
                  | inl heavy ↦ rw heavy (
                      search-Settles rounds bucket_capacity epsilon delta decayed (probe + 2) upper
                        probe (omega arith) (omega arith) (omega arith, probe_even middle))
                  | inr light ↦ rw light (
                      search-Settles rounds bucket_capacity epsilon delta decayed lower probe probe
                        (omega arith) l (omega arith, probe_even middle))
                ]))
      ]

  to_even_up-Settles : (v : Value W) → Settles (λ (n : ℕ). n % 2 ≡ 0) (to_even_up v)
  unfolding to_even_up
  to_even_up-Settles v =
      Settles-bind (λ (n : ℕ). (v ≡ int (pos n)) × (0 ≤ n)) (λ (n : ℕ). n % 2 ≡ 0)
        (require_nat block_allocation_error v 0) _
        (require_nat-Settles block_allocation_error v 0 tt) (λ n _ _. probe_even n)

  upper_candidate-Settles :
      (lam : ℕ) (epsilon : W) → Settles (λ (n : ℕ). n % 2 ≡ 0) (upper_candidate lam epsilon)
  unfolding upper_candidate
  upper_candidate-Settles lam epsilon =
      let P = λ (n : ℕ). n % 2 ≡ 0 in
      Settles-then P (or_raise (f.log_int lam) arithmetic_error) _
        (Settles-or_raise (f.log_int lam) arithmetic_error tt)
        (λ logarithm.
          let ratio = f.div (fast_power logarithm upper_candidate_exponent) epsilon in
          Settles-then P (or_raise ratio arithmetic_error) _
            (Settles-or_raise ratio arithmetic_error tt)
            (λ quotient.
              Settles-then P (or_raise (f.floor quotient) arithmetic_error) _
                (Settles-or_raise (f.floor quotient) arithmetic_error tt)
                (λ floored. to_even_up-Settles (int floored))))

  choose-Settles :
      (bucket_capacity : ℕ) (epsilon delta decayed : W) (upper : ℕ)
      → upper % 2 ≡ 0
      → Settles IsBinCapacity (
          if leb upper (2 + 2)
          then ok (max 2 upper)
          else search upper bucket_capacity epsilon delta decayed 2 upper upper)
  choose-Settles bucket_capacity epsilon delta decayed upper even =
      elim (Bool-cases (leb upper (2 + 2))) [
        | inl small ↦ rw small (omega arith, omega arith)
        | inr large ↦
            let above : 4 < upper = leb→gt _ _ large in
            rw large (
              search-Settles upper bucket_capacity epsilon delta decayed 2 upper upper (omega arith)
                (omega arith) (omega arith, even))
      ]

  -- For any arguments and any float operations, compute_bin_capacity_blocks either raises an
  -- exception of its callers' kinds or returns an even capacity of at least two: the search
  -- always ends and no weight vector is read out of range.
  pub compute_bin_capacity_blocks_lem :
      (security_lambda privacy_epsilon privacy_delta bucket_capacity : Value W)
      → Settles IsBinCapacity (
          compute_bin_capacity_blocks security_lambda privacy_epsilon privacy_delta bucket_capacity)
  unfolding compute_bin_capacity_blocks
  compute_bin_capacity_blocks_lem security_lambda privacy_epsilon privacy_delta bucket_capacity =
      let P = IsBinCapacity in
      Settles-then P (require_nat block_allocation_error security_lambda 2) _
        (Settles-any _ _ (require_nat-Settles block_allocation_error security_lambda 2 tt))
        (λ lam.
          Settles-then P (require_positive_real block_allocation_error privacy_epsilon) _
            (require_positive_real-Settles block_allocation_error privacy_epsilon tt)
            (λ epsilon.
              Settles-then P (require_positive_real block_allocation_error privacy_delta) _
                (require_positive_real-Settles block_allocation_error privacy_delta tt)
                (λ delta.
                  Settles-then P (refuse_if (not (f.lt delta f.one)) block_allocation_error) _
                    (Settles-any _ _
                      (Settles-refuse_if (not (f.lt delta f.one)) block_allocation_error tt))
                    (λ _.
                      Settles-then P (require_nat block_allocation_error bucket_capacity 1) _
                        (Settles-any _ _
                          (require_nat-Settles block_allocation_error bucket_capacity 1 tt))
                        (λ buckets.
                          Settles-then P
                            (refuse_if (not (buckets == atomic_bucket_capacity_blocks))
                              block_allocation_error)
                            _
                            (Settles-any _ _ (
                              Settles-refuse_if (not (buckets == atomic_bucket_capacity_blocks))
                                block_allocation_error tt))
                            (λ _. Settles-then P (decay lam) _ (decay-Settles W lam) (λ decayed.
                              Settles-then P
                                (refuse_if (not (f.lt f.nought decayed)) block_allocation_error) _
                                (Settles-any _ _ (
                                  Settles-refuse_if (not (f.lt f.nought decayed))
                                    block_allocation_error tt))
                                (λ _.
                                  Settles-bind (λ (n : ℕ). n % 2 ≡ 0) P
                                    (upper_candidate lam epsilon) _
                                    (upper_candidate-Settles lam epsilon)
                                    (λ upper _ even.
                                      choose-Settles buckets epsilon delta decayed upper
                                        even)))))))))
