-- ===== src/Distribution/Numbers/Power.antt =====
-- `_fast_power` against the binary digits of the exponent.
use mathlib.Core.List.{foldl}
use swat_letindex_baseline.Prelude.{
  ℕ, zero, suc, ◌+◌, ◌*◌, ◌/◌, ◌%◌, ◌≤◌, ◌≡◌, refl, Bool, true, false, List, [], ◌∷◌, inl, inr,
  Bool-cases, ◌==◌, ==_iff, arith,
}
use swat_letindex_baseline.Floats.{Floats}
use swat_letindex_baseline.Distribution.Numbers.{fast_power_loop, fast_power}

-- The number of some binary digits, the lowest first.
abbrev pub binary : List Bool → ℕ
binary [] = 0
binary (false ∷ bits) = 2 * binary bits
binary (true ∷ bits) = 2 * binary bits + 1

half_within : (m rounds : ℕ) → (2 * m == 0) ≡ false → 2 * m ≤ suc rounds → m ≤ rounds
half_within m rounds h k = ground arith

module _ {W : Type 0} ⦃f : Floats W⦄ where
  -- The repeated squares of `value` at the digits that are 1.
  abbrev pub factors : List Bool → W → List W
  factors [] value = []
  factors (false ∷ bits) value = factors bits (f.mul value value)
  factors (true ∷ bits) value = value ∷ factors bits (f.mul value value)

  no_factors : (bits : List Bool) (value : W) → binary bits ≡ 0 → factors bits value ≡ []
  no_factors [] value h = refl
  no_factors (false ∷ bits) value h = no_factors bits (f.mul value value) (omega arith)
  no_factors (true ∷ bits) value h = absurd (omega (arith, h))

  fast_power_loop_lem :
      (rounds : ℕ) (bits : List Bool) (value result : W)
      → binary bits ≤ rounds
      → fast_power_loop rounds (binary bits) value result ≡ foldl f.mul result (factors bits value)
  unfolding fast_power_loop
  fast_power_loop_lem zero bits value result h =
      let none_left : binary bits ≡ 0 = omega arith in rw (no_factors bits value none_left) refl
  fast_power_loop_lem (suc rounds) [] value result h = refl
  fast_power_loop_lem (suc rounds) (false ∷ bits) value result h =
      elim (Bool-cases (2 * binary bits == 0)) [
        | inl done ↦
            let none_left : binary bits ≡ 0 = omega (arith, (==_iff (2 * binary bits) 0).0 done) in
            rw (done, no_factors bits (f.mul value value) none_left) refl
        | inr more ↦
            let halved : 2 * binary bits / 2 ≡ binary bits = omega arith in
            let even : (2 * binary bits % 2 == 1) ≡ false = ground arith in
            rw (more, halved, even)
              (fast_power_loop_lem rounds bits (f.mul value value) result
                (half_within (binary bits) rounds more h))
      ]
  fast_power_loop_lem (suc rounds) (true ∷ bits) value result h =
      let more : ((2 * binary bits + 1) == 0) ≡ false = ground arith in
      let halved : (2 * binary bits + 1) / 2 ≡ binary bits = omega arith in
      let odd : ((2 * binary bits + 1) % 2 == 1) ≡ true = ground arith in
      rw (more, halved, odd)
        (fast_power_loop_lem rounds bits (f.mul value value) (f.mul result value) (omega arith))

  -- For any base, any float multiplication and an exponent that is given by its binary digits:
  -- _fast_power returns the product, from 1.0 on and lowest digit first, of the repeated squares
  -- of the base at the digits that are 1.
  pub fast_power_lem :
      (base : W) (bits : List Bool)
      → fast_power base (binary bits) ≡ foldl f.mul f.one (factors bits base)
  unfolding fast_power
  fast_power_lem base bits = fast_power_loop_lem (binary bits) bits base f.one (omega arith)
