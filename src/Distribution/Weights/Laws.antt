-- ===== src/Distribution/Weights/Laws.antt =====
-- The weight vectors have the lengths that the code expects, so no index is out of range.
use swat_letindex_baseline.Prelude.{
  ℕ, zero, suc, ◌+◌, ◌-◌, ◌*◌, ◌/◌, ◌%◌, ◌≤◌, ◌≡◌, refl, ap, ◌∙◌, sym, pos, List, [], ◌∷◌, false,
  inl, inr, Bool-cases, arith, length, length-set, length-replicate, replicate, set, ◌==◌, ==_refl,
  not, block_allocation_error, arithmetic_error, ok, refuse_if, or_raise, Settles, Settles-bind,
  Settles-then, Settles-or_raise, Settles-refuse_if,
}
use swat_letindex_baseline.Floats.{Floats}
use swat_letindex_baseline.Values.{Value, int, float, require_nat, require_positive_real}
use swat_letindex_baseline.Values.Laws.{require_nat-Settles, require_positive_real-Settles}
use swat_letindex_baseline.Distribution.Numbers.{require_even_positive}
use swat_letindex_baseline.Distribution.Weights.{
  weight_loop, centre_weight, compute_weight, convolve_row, convolve_rows, convolve, convolve_times,
  geom_conv,
}
use swat_letindex_baseline.Distribution.Weights.Array.{read_at_inside, write_at_inside}

pub int_pos_injective : (W : Type 0) (a b : ℕ) → Path (Value W) (int (pos a)) (int (pos b)) → a ≡ b
int_pos_injective W a b h = cc

pub all_entries : (c n size : ℕ) → 1 ≤ n → size ≡ c + c * (n - 1) + 1 → size ≡ c * n + 1
all_entries c zero size p e = absurd (omega arith)
all_entries c (suc n) size p e =
    let back : suc n - 1 ≡ n = omega arith in omega (arith, e ∙ ap (λ k. c + c * k + 1) back)

module _ {W : Type 0} ⦃f : Floats W⦄ where
  pub weight_loop_total :
      (rounds half index : ℕ) (alpha multiplier : W) (weights : List W)
      → 1 ≤ index
      → index + rounds ≤ half + 1
      → length weights ≡ 2 * half + 1
      → (r : List W) × (weight_loop rounds half index alpha multiplier weights ≡ ok r)
        × (length r ≡ 2 * half + 1)
  unfolding weight_loop
  weight_loop_total zero half index alpha multiplier weights p q e = (weights, refl, e)
  weight_loop_total (suc rounds) half index alpha multiplier weights p q e =
      let (before, found) = read_at_inside weights (half + index - 1) (omega arith) in
      let weight = f.mul before multiplier in
      let right = set weights (half + index) weight in
      let both = set right (half - index) weight in
      let size = length-set weights (half + index) weight in
      rw
        (
          found,
          write_at_inside weights (half + index) weight (omega arith),
          write_at_inside right (half - index) weight (omega (arith, size)),
        )
        (weight_loop_total rounds half (index + 1) alpha (f.mul multiplier alpha) both (omega arith)
          (omega arith) (omega (arith, size, length-set right (half - index) weight)))

  convolve_row_total :
      (i : ℕ) (left_value : W) (j : ℕ) (right result : List W)
      → i + j + length right ≤ length result
      → (r : List W) × (convolve_row i left_value j right result ≡ ok r)
        × (length r ≡ length result)
  unfolding convolve_row
  convolve_row_total i x j [] result h = (result, refl, refl)
  convolve_row_total i x j (y ∷ right) result h =
      let (old, found) = read_at_inside result (i + j) (omega arith) in
      let value = f.add old (f.mul x y) in
      let size = length-set result (i + j) value in
      let (r, e, n) =
        convolve_row_total i x (j + 1) right (set result (i + j) value) (omega (arith, size)) in
      (r, rw (found, write_at_inside result (i + j) value (omega arith)) e, n ∙ size)

  convolve_rows_total :
      (i : ℕ) (left right result : List W)
      → i + length left + length right ≤ length result + 1
      → (r : List W) × (convolve_rows i left right result ≡ ok r) × (length r ≡ length result)
  unfolding convolve_rows
  convolve_rows_total i [] right result h = (result, refl, refl)
  convolve_rows_total i (x ∷ left) right result h = elim (Bool-cases (f.eq x f.nought)) [
    | inl skipped ↦
        let (r, e, n) = convolve_rows_total (i + 1) left right result (omega arith) in
        (r, rw skipped e, n)
    | inr added ↦
        let (new, e1, n1) = convolve_row_total i x 0 right result (omega arith) in
        let (r, e2, n2) = convolve_rows_total (i + 1) left right new (omega (arith, n1)) in
        (r, rw (added, e1) e2, n2 ∙ n1)
  ]

  convolve_total :
      (left right : List W)
      → 1 ≤ length left
      → 1 ≤ length right
      → (r : List W) × (convolve left right ≡ ok r) × (length r ≡ length left + length right - 1)
  unfolding convolve
  convolve_total [] right p q = absurd (omega arith)
  convolve_total (x ∷ left) [] p q = absurd (omega arith)
  convolve_total (x ∷ left) (y ∷ right) p q =
      let size = length-replicate (length (x ∷ left) + length (y ∷ right) - 1) f.nought in
      let (r, e, n) =
        convolve_rows_total 0 (x ∷ left) (y ∷ right)
          (replicate (length (x ∷ left) + length (y ∷ right) - 1) f.nought) (omega (arith, size)) in
      (r, e, n ∙ size)

  pub convolve_times_total :
      (rounds capacity size : ℕ) (geom current : List W)
      → length geom ≡ capacity + 1
      → length current ≡ size + 1
      → (r : List W) × (convolve_times rounds geom current ≡ ok r)
        × (length r ≡ size + capacity * rounds + 1)
  unfolding convolve_times
  convolve_times_total zero capacity size geom current g c = (current, refl, omega arith)
  convolve_times_total (suc rounds) capacity size geom current g c =
      let (next, e1, n1) = convolve_total current geom (omega arith) (omega arith) in
      let (r, e2, n2) =
        convolve_times_total rounds capacity (size + capacity) geom next g (omega arith) in
      (r, rw e1 e2, omega (arith, n2))

  -- An even capacity of at least two is accepted, and any other value raises the caller's exception.
  pub require_even_positive-Settles :
      (v : Value W)
      → Settles (λ (n : ℕ). (v ≡ int (pos n)) × (2 ≤ n) × (n % 2 ≡ 0)) (require_even_positive v)
  unfolding require_even_positive
  require_even_positive-Settles v =
      let P = λ (n : ℕ). (v ≡ int (pos n)) × (2 ≤ n) × (n % 2 ≡ 0) in
      Settles-bind (λ (n : ℕ). (v ≡ int (pos n)) × (2 ≤ n)) P
        (require_nat block_allocation_error v 2) _
        (require_nat-Settles block_allocation_error v 2 tt)
        (λ n _ (e, large).
          Settles-bind (λ _. not (n % 2 == 0) ≡ false) P
            (refuse_if (not (n % 2 == 0)) block_allocation_error) _
            (Settles-refuse_if (not (n % 2 == 0)) block_allocation_error tt)
            (λ _ _ even. (e, large, ground arith)))

  -- The weights of a capacity are one more than the capacity.
  pub compute_weight_lem :
      (capacity epsilon : Value W)
      → Settles
          (λ (weights : List W). (c : ℕ) × (capacity ≡ int (pos c)) × (length weights ≡ c + 1))
          (compute_weight capacity epsilon)
  unfolding compute_weight centre_weight
  compute_weight_lem capacity epsilon =
      let P = λ (weights : List W). (c : ℕ) × (capacity ≡ int (pos c)) × (length weights ≡ c + 1) in
      Settles-bind (λ (n : ℕ). (capacity ≡ int (pos n)) × (2 ≤ n) × (n % 2 ≡ 0)) P
        (require_even_positive capacity) _ (require_even_positive-Settles capacity)
        (λ c _ (e, large, even).
          Settles-then P (require_positive_real block_allocation_error epsilon) _
            (require_positive_real-Settles block_allocation_error epsilon tt)
            (λ eps.
              Settles-then P (or_raise (f.exp (f.neg eps)) arithmetic_error) _
                (Settles-or_raise (f.exp (f.neg eps)) arithmetic_error tt)
                (λ alpha.
                  Settles-then P (centre_weight alpha (c / 2)) _
                    (Settles-or_raise _ arithmetic_error tt)
                    (λ centre.
                      let start = replicate (c + 1) f.nought in
                      let size = length-replicate (c + 1) f.nought in
                      let first = set start (c / 2) centre in
                      let (r, made, n) =
                        weight_loop_total (c / 2) (c / 2) 1 alpha alpha first (omega arith)
                          (omega arith)
                          (omega (arith, size, even, length-set start (c / 2) centre)) in
                      rw (write_at_inside start (c / 2) centre (omega (arith, size)), made)
                        (c, e, omega (arith, n, even))))))

  -- For any arguments and any float operations, geom_conv raises an exception of its callers'
  -- kinds, and no IndexError, or the capacity and the count are ints and the result has capacity
  -- times count plus one entries.
  pub geom_conv_lem :
      (capacity epsilon bin_count : Value W)
      → Settles
          (λ (pmf : List W).
            (c : ℕ) × (n : ℕ) × (capacity ≡ int (pos c))
            × (bin_count ≡ int (pos n))
            × (length pmf ≡ c * n + 1))
          (geom_conv capacity epsilon bin_count)
  unfolding geom_conv
  geom_conv_lem capacity epsilon bin_count =
      let P = λ (pmf : List W).
        (c : ℕ) × (n : ℕ) × (capacity ≡ int (pos c))
        × (bin_count ≡ int (pos n))
        × (length pmf ≡ c * n + 1) in
      Settles-bind (λ (n : ℕ). (capacity ≡ int (pos n)) × (2 ≤ n) × (n % 2 ≡ 0)) P
        (require_even_positive capacity) _ (require_even_positive-Settles capacity)
        (λ c _ (e, large, even).
          Settles-then P (require_positive_real block_allocation_error epsilon) _
            (require_positive_real-Settles block_allocation_error epsilon tt)
            (λ eps.
              Settles-bind (λ (n : ℕ). (bin_count ≡ int (pos n)) × (1 ≤ n)) P
                (require_nat block_allocation_error bin_count 1) _
                (require_nat-Settles block_allocation_error bin_count 1 tt)
                (λ n _ (e', positive).
                  Settles-bind
                    (λ (weights : List W).
                      (c' : ℕ) × Path (Value W) (int (pos c)) (int (pos c'))
                      × (length weights ≡ c' + 1))
                    P (compute_weight (int (pos c)) (float eps)) _
                    (compute_weight_lem (int (pos c)) (float eps))
                    (λ geom _ (c', same, size).
                      let width = size ∙ ap (λ k. k + 1) (sym (int_pos_injective W c c' same)) in
                      let (r, made, total) =
                        convolve_times_total (n - 1) c c geom geom width width in
                      let whole = all_entries c n (length r) positive total in
                      rw (made, whole, ==_refl (c * n + 1)) (c, n, e, e', whole)))))
