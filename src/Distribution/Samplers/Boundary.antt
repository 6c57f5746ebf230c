-- ===== src/Distribution/Samplers/Boundary.antt =====
-- Where `bisect_right` stops: the entry before is not above `x`, and the entry there is.
use swat_letindex_baseline.Prelude.{
  ℕ, zero, suc, ◌+◌, ◌-◌, ◌/◌, ◌≤◌, ◌<◌, ◌≡◌, refl, true, false, inl, inr, List, some, arith,
  length, get_elem?, get_elem?-some, ltb, Bool-cases, ltb→lt, ltb→ge, min, leb, leb→gt, leb→le, ok,
}
use swat_letindex_baseline.Floats.{Floats}
use swat_letindex_baseline.Distribution.Weights.Array.{read_at}
use swat_letindex_baseline.Distribution.Samplers.{pick}
use swat_letindex_baseline.Distribution.Samplers.Bisect.{bisect_loop, bisect_right}

module _ {W : Type 0} ⦃f : Floats W⦄ where
  -- The entry before position `i`, if there is one, is not above `x`.
  abbrev pub IsPassed : List W → W → ℕ → Type 0
  IsPassed a x zero = Unit
  IsPassed a x (suc j) = (v : W) × (get_elem? a j ≡ some v) × (f.lt x v ≡ false)

  -- The entry at position `i` is above `x`, or there is none.
  abbrev pub IsAbove : List W → W → ℕ → Type 0
  IsAbove a x i = i < length a → (v : W) × (get_elem? a i ≡ some v) × (f.lt x v ≡ true)

  found_at : (xs : List W) (i : ℕ) (a : W) → get_elem? xs i ≡ some a → read_at xs i ≡ ok a
  unfolding read_at
  found_at xs i a h = rw h refl

  IsPassed-after :
      (a : List W) (x v : W) (i : ℕ)
      → get_elem? a i ≡ some v
      → f.lt x v ≡ false
      → IsPassed a x (i + 1)
  IsPassed-after a x v i found h = let e : i + 1 ≡ suc i = omega arith in rw e (v, found, h)

  bisect_loop_lem :
      (rounds : ℕ) (a : List W) (x : W) (lo hi : ℕ)
      → lo ≤ hi
      → hi ≤ length a
      → hi - lo < rounds
      → IsPassed a x lo
      → IsAbove a x hi
      → (i : ℕ) × (bisect_loop rounds a x lo hi ≡ ok i)
        × (i ≤ length a)
        × IsPassed a x i
        × IsAbove a x i
  unfolding bisect_loop
  bisect_loop_lem zero a x lo hi p q h passed above = absurd (omega arith)
  bisect_loop_lem (suc rounds) a x lo hi p q h passed above = elim (Bool-cases (ltb lo hi)) [
    | inr done ↦
        let met : hi ≡ lo = omega (arith, ltb→ge _ _ done) in
        let above' = rw met at above in (lo, rw done refl, omega arith, passed, above')
    | inl more ↦
        let less : lo < hi = ltb→lt _ _ more in
        let (value, found) = get_elem?-some a ((lo + hi) / 2) (omega arith) in
        let was_read = found_at a ((lo + hi) / 2) value found in
        elim (Bool-cases (f.lt x value)) [
          | inl below ↦
              rw (more, was_read, below)
                (bisect_loop_lem rounds a x lo ((lo + hi) / 2) (omega arith) (omega arith)
                  (omega arith) passed (λ _. (value, found, below)))
          | inr beyond ↦
              rw (more, was_read, beyond)
                (bisect_loop_lem rounds a x ((lo + hi) / 2 + 1) hi (omega arith) (omega arith)
                  (omega arith) (IsPassed-after a x value ((lo + hi) / 2) found beyond) above)
        ]
  ]

  -- An index of the weights: where the search among the sums stops, or the last one if it stops behind it.
  pub record IsPicked (count : ℕ) (cumulative : List W) (draw : W) (index : ℕ) : Type 0 where
    pub stop : ℕ
    pub passed : IsPassed cumulative draw stop
    pub above : IsAbove cumulative draw stop
    pub clamped : index ≡ min stop (count - 1)
    pub inside : index < count

  pub pick-IsPicked :
      (weights cumulative : List W) (draw : W)
      → 0 < length weights
      → (i : ℕ) × (pick weights cumulative draw ≡ ok i)
        × IsPicked (length weights) cumulative draw i
  unfolding pick bisect_right
  pick-IsPicked weights cumulative draw p =
      let (stop, found, within, passed, above) =
        bisect_loop_lem (suc (length cumulative)) cumulative draw 0 (length cumulative)
          (omega arith) (omega arith) (omega arith) tt (λ h. absurd (omega (arith, h))) in
      elim (Bool-cases (leb (length weights) stop)) [
        | inl past ↦ (
          length weights - 1,
          rw (found, past) refl,
          record {
            stop = stop;
            passed = passed;
            above = above;
            clamped = omega (arith, leb→le _ _ past);
            inside = omega arith;
          },
        )
        | inr near ↦ (
          stop,
          rw (found, near) refl,
          record {
            stop = stop;
            passed = passed;
            above = above;
            clamped = omega (arith, leb→gt _ _ near);
            inside = leb→gt _ _ near;
          },
        )
      ]
