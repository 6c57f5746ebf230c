-- ===== src/Allocator/Prefix/Loops/Bits.antt =====
-- The inner loops end, compute what their names say, and stay inside the levels.
use native.Mathlib.Nat.{pow-suc, pow-le-pow_right, div-eq_of_eq-mul_left}
use swat_letindex_baseline.Prelude.{
  ℕ, zero, suc, ◌+◌, ◌*◌, ◌/◌, ◌%◌, ◌^◌, ◌≤◌, ◌<◌, ◌≡◌, refl, ap, ◌∙◌, inl, inr, List, arith,
  length, set, length-set, leb, leb→le, ◌==◌, ==_iff, Bool-cases, ok,
}
use swat_letindex_baseline.Floats.{Floats}
use swat_letindex_baseline.Distribution.Weights.Array.{read_at_inside, write_at_inside}
use swat_letindex_baseline.Allocator.Prefix.Loops.{
  zeros_loop, trailing_zeros, clear_lower, sum_loop, sum_levels,
}

-- An exponent whose power is below another power is below its exponent.
lt_of_pow-lt : (i k n : ℕ) → 2 ^ i ≤ n → n < 2 ^ k → i < k
lt_of_pow-lt i k n h l = grind (arith, λ (p : k ≤ i). pow-le-pow_right {n = 2} (omega arith) p)

div_of_mul : (bit m value : ℕ) → 0 < bit → value ≡ m * bit → value / bit ≡ m
div_of_mul bit m value h e = div-eq_of_eq-mul_left h e

pow_double : (count bit : ℕ) → bit ≡ 2 ^ count → bit * 2 ≡ 2 ^ (count + 1)
pow_double count bit e = let s : count + 1 ≡ suc count = omega arith in rw (s, pow-suc 2 count, e)

-- The result is the exponent of the largest power of two that divides the value.
abbrev pub IsLowestBit : ℕ → ℕ → Type 0
IsLowestBit value i = (m : ℕ) × (value ≡ m * 2 ^ i) × (m % 2 ≡ 1)

-- A product that is not 0 is at least its second factor.
factor_le : (value m bit : ℕ) → value ≡ m * bit → 0 < value → bit ≤ value
factor_le value zero bit e p = absurd (omega arith)
factor_le value (suc m) bit e p = omega arith

zeros_loop_lem :
    (rounds value m bit count : ℕ)
    → value ≡ m * bit
    → 0 < value
    → bit ≡ 2 ^ count
    → count < bit
    → rounds + count ≡ value
    → (i : ℕ) × (zeros_loop rounds value bit count ≡ ok i) × IsLowestBit value i
unfolding zeros_loop
zeros_loop_lem zero value m bit count e p b l r = absurd (omega (arith, factor_le value m bit e p))
zeros_loop_lem (suc rounds) value m bit count e p b l r =
    let q : value / bit ≡ m = div_of_mul bit m value (omega arith) e in
    elim (Bool-cases ((value / bit) % 2 == 0)) [
      | inl even ↦
          let even' : m % 2 ≡ 0 = (==_iff _ _).0 (rw q at even) in
          let halved : m ≡ 2 * (m / 2) = omega arith in
          rw even (
            zeros_loop_lem rounds value (m / 2) (bit * 2) (count + 1)
              (omega (arith, ap (λ (t : ℕ). t * bit) halved)) p (pow_double count bit b)
              (omega arith) (omega arith))
      | inr odd ↦ (count, rw odd refl, (m, rw (← b) e, ground (arith, q)))
    ]

-- For a positive number, the loop of _trailing_zeros ends and returns the position of the lowest
-- set bit: the number is an odd multiple of that power of two.
pub trailing_zeros-IsLowestBit :
    (value : ℕ) → 0 < value → (i : ℕ) × (trailing_zeros value ≡ ok i) × IsLowestBit value i
unfolding trailing_zeros
trailing_zeros-IsLowestBit value h =
    zeros_loop_lem value value value 1 0 (omega arith) h refl (omega arith) (omega arith)

lowest_bit_lt : (value i k : ℕ) → 0 < value → value < 2 ^ k → IsLowestBit value i → i < k
lowest_bit_lt value i k p l (m, e, odd) = lt_of_pow-lt i k value (factor_le value m (2 ^ i) e p) l

pub trailing_zeros_inside :
    (value k : ℕ) → 0 < value → value < 2 ^ k → (i : ℕ) × (trailing_zeros value ≡ ok i) × (i < k)
trailing_zeros_inside value k p l =
    let (i, e, low) = trailing_zeros-IsLowestBit value p in (i, e, lowest_bit_lt value i k p l low)

module _ {W : Type 0} ⦃f : Floats W⦄ where
  -- The levels below `lower + rounds` exist, so the loop returns, and keeps the numbers of levels.
  pub clear_lower_total :
      (rounds lower target k : ℕ) (sums : List ℕ) (noisy : List W)
      → lower + rounds ≤ k
      → length sums ≡ k
      → length noisy ≡ k
      → (r : ℕ × List ℕ × List W) × (clear_lower rounds lower target sums noisy ≡ ok r)
        × (length (r.1) ≡ k)
        × (length (r.2) ≡ k)
  unfolding clear_lower
  clear_lower_total zero lower target k sums noisy h p q = ((target, sums, noisy), refl, p, q)
  clear_lower_total (suc rounds) lower target k sums noisy h p q =
      let (collected, found) = read_at_inside sums lower (omega arith) in
      rw
        (
          found,
          write_at_inside sums lower 0 (omega arith),
          write_at_inside noisy lower f.nought (omega arith),
        )
        (clear_lower_total rounds (lower + 1) (target + collected) k (set sums lower 0)
          (set noisy lower f.nought) (omega arith) (length-set sums lower 0 ∙ p)
          (length-set noisy lower f.nought ∙ q))

  sum_loop_total :
      (rounds t bit level k : ℕ) (running : W) (noisy : List W)
      → bit ≡ 2 ^ level
      → level < bit
      → level ≤ t
      → rounds + level ≡ suc t
      → t < 2 ^ k
      → length noisy ≡ k
      → (r : W) × (sum_loop rounds t bit level running noisy ≡ ok r)
  unfolding sum_loop
  sum_loop_total zero t bit level k running noisy b l le r lt n = absurd (omega arith)
  sum_loop_total (suc rounds) t bit level k running noisy b l le r lt n =
      elim (Bool-cases (leb bit t)) [
        | inr past ↦ (running, rw past refl)
        | inl more ↦
            let small : bit ≤ t = leb→le _ _ more in
            let inside : level < k = lt_of_pow-lt level k t (rw (← b) small) lt in
            let (noise, found) = read_at_inside noisy level (omega arith) in
            let next = λ (x : W).
              sum_loop_total rounds t (bit * 2) (level + 1) k x noisy (pow_double level bit b)
                (omega arith) (omega arith) (omega arith) lt n in
            elim (Bool-cases ((t / bit) % 2 == 1)) [
              | inl set_bit ↦ rw (more, set_bit, found) (next (f.add running noise))
              | inr clear_bit ↦ rw (more, clear_bit) (next running)
            ]
      ]

  pub sum_levels_total :
      (t k : ℕ) (running : W) (noisy : List W)
      → t < 2 ^ k
      → length noisy ≡ k
      → (r : W) × (sum_levels t 1 0 running noisy ≡ ok r)
  unfolding sum_levels
  sum_levels_total t k running noisy lt n =
      sum_loop_total (suc t) t 1 0 k running noisy refl (omega arith) (omega arith) (omega arith) lt
        n
