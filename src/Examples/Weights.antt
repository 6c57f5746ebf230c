-- ===== src/Examples/Weights.antt =====
-- In the small runtime, the weights of a bin's records add up to a positive number.
use swat_letindex_baseline.Prelude.{
  length, Bool, ℕ, zero, suc, ◌+◌, ◌-◌, ◌*◌, ◌/◌, ◌%◌, ◌≡◌, refl, ap, sym, ◌∙◌, ℤ, pos, ◌+ℤ◌, List,
  [], ◌∷◌, some, true, false, ◌==◌, if◌then◌else◌, ltb_ℤ, All, map, min, range, count_up,
  range_zero, suc-==_zero, content_schedule_error, ok, arith,
}
use swat_letindex_baseline.Values.{int, float}
use swat_letindex_baseline.Values.Laws.{require_nat_accepts, require_positive_real_accepts}
use swat_letindex_baseline.Distribution.Numbers.{fast_power, fast_power_loop}
use swat_letindex_baseline.Content.Interior.{interior_point_weights}
use swat_letindex_baseline.Schedule.Sampling.Returns.{IsUsable, AddUp, weights_returns}
use swat_letindex_baseline.Schedule.Bins.{BoundBlockBin, real_keys}
use swat_letindex_baseline.Examples.Runtime.{thousandths, total_of, times}

IsPos : ℤ → Type 0
IsPos z = (n : ℕ) × (z ≡ pos n)

times-IsPos : (a b : ℤ) → IsPos a → IsPos b → IsPos (times a b)
unfolding IsPos
times-IsPos a b (m, em) (n, en) = rw (em, en) ((m + 0) * (n + 0) / 1000, refl)

if-IsPos : (b : Bool) (x y : ℤ) → IsPos x → IsPos y → IsPos (if b then x else y)
if-IsPos true x y h k = h
if-IsPos false x y h k = k

fast_power_loop-IsPos :
    (rounds exp : ℕ) (value result : ℤ)
    → IsPos value
    → IsPos result
    → IsPos (fast_power_loop rounds exp value result)
unfolding fast_power_loop
fast_power_loop-IsPos zero exp value result h k = k
fast_power_loop-IsPos (suc rounds) exp value result h k = if-IsPos (exp == 0) result _ k (
    fast_power_loop-IsPos rounds (exp / 2) (times value value) _ (times-IsPos value value h h)
      (if-IsPos (exp % 2 == 1) (times result value) result (times-IsPos result value k h) k))

add_pos : (m n : ℕ) → pos m +ℤ pos n ≡ pos (m + n)
unfolding ◌+ℤ◌
add_pos m n = ground arith

total_of-IsPos : (xs : List ℤ) → All IsPos xs → IsPos (total_of xs)
unfolding IsPos
total_of-IsPos [] h = (0, refl)
total_of-IsPos (x ∷ xs) ((m, em), h) =
    let (n, en) = total_of-IsPos xs h in rw (em, en) (m + n, add_pos m n)

powers : ℕ → List ℕ → List ℤ
powers count indices = map (λ i. fast_power (pos 368) (min i (count - i) + 1)) indices

powers-IsPos : (count : ℕ) (indices : List ℕ) → All IsPos (powers count indices)
unfolding powers IsPos fast_power
powers-IsPos count [] = tt
powers-IsPos count (i ∷ indices) =
    let exponent = min i (count - i) + 1 in
    (
      fast_power_loop-IsPos exponent exponent (pos 368) (pos 1000) (368, refl) (1000, refl),
      powers-IsPos count indices,
    )

-- The first record has the weight 0.368.
first_power : (records : ℕ) → fast_power (pos 368) (min 0 (suc records - 0) + 1) ≡ pos 368
unfolding fast_power fast_power_loop
first_power records = let e : min 0 (suc records - 0) + 1 ≡ 1 = omega arith in rw e refl

computed_weights :
    (epsilon : ℤ) (records : ℕ) (weights : List ℤ)
    → IsUsable epsilon
    → interior_point_weights (int (pos (suc records))) (float epsilon) ≡ ok weights
    → powers (suc records) (range 0 (suc records)) ≡ weights
unfolding interior_point_weights powers
computed_weights epsilon records weights usable h =
    let reduced =
      rw
        (
          require_nat_accepts ℤ content_schedule_error (suc records) 0 (omega arith),
          require_positive_real_accepts content_schedule_error epsilon usable.finite
              usable.positive,
          suc-==_zero records,
        )
        at h in
    cc reduced

-- The first weight, and the rest.
split_total :
    (records n : ℕ)
    → total_of (powers (suc records) (count_up 1 records)) ≡ pos n
    → total_of (powers (suc records) (range 0 (suc records))) ≡ pos (368 + n)
unfolding powers
split_total records n h =
    ap (λ indices. total_of (powers (suc records) indices)) (range_zero (suc records))
    ∙ ap (λ x. x +ℤ total_of (powers (suc records) (count_up 1 records))) (first_power records)
    ∙ ap (λ x. pos 368 +ℤ x) h
    ∙ add_pos 368 n

above_zero : (n : ℕ) → ltb_ℤ (pos 0) (pos (368 + n)) ≡ true
above_zero n = ground arith

weights-AddUp : (epsilon : ℤ) (records : ℕ) → IsUsable epsilon → AddUp epsilon records
unfolding IsPos
weights-AddUp epsilon zero usable = tt
weights-AddUp epsilon (suc records) usable =
    let (weights, h) = weights_returns epsilon records usable in
    let e = computed_weights epsilon records weights usable h in
    let (n, en) =
      total_of-IsPos (powers (suc records) (count_up 1 records))
        (powers-IsPos (suc records) (count_up 1 records)) in
    (
      weights,
      pos (368 + n),
      h,
      ap some (ap total_of (sym e) ∙ split_total records n en),
      above_zero n,
    )

pub bins-AddUp :
    {V : Type 0} (epsilon : ℤ)
    → IsUsable epsilon
    → (bins : List (BoundBlockBin V)) → All (λ bin. AddUp epsilon (length (real_keys bin))) bins
bins-AddUp epsilon usable [] = tt
bins-AddUp epsilon usable (bin ∷ bins) =
    (weights-AddUp epsilon (length (real_keys bin)) usable, bins-AddUp epsilon usable bins)
