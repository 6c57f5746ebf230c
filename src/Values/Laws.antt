-- ===== src/Values/Laws.antt =====
-- What the argument checks accept.
use swat_letindex_baseline.Prelude.{
  ℕ, ◌≤◌, ◌≡◌, pos, true, false, arith, Error, ok, negsuc, refl, ltb_ℤ, false, inl, inr, Bool-cases,
  Settles, Settles-then, Settles-map, Settles-or_raise, Settles-refuse_if, IsFault,
  arithmetic_error, refuse_if, not, ◌||◌,
}
use swat_letindex_baseline.Floats.{Floats}
use swat_letindex_baseline.Values.{
  Value, int, bool, float, other, require_nat, require_real, require_positive_real,
}

pub require_nat_accepts :
    (W : Type 0) (e : Error) (n minimum : ℕ)
    → minimum ≤ n
    → require_nat {W = W} e (int (pos n)) minimum ≡ ok n
unfolding require_nat
require_nat_accepts W e n minimum h = ground arith

not_below : (n minimum : ℕ) → ltb_ℤ (pos n) (pos minimum) ≡ false → minimum ≤ n
not_below n minimum h = ground arith

negative : (n minimum : ℕ) → ltb_ℤ (negsuc n) (pos minimum) ≡ true
negative n minimum = ground arith

module _ {W : Type 0} where
  -- Only a plain int that reaches the minimum is accepted, and it comes back unchanged.
  pub require_nat_inv :
      (e : Error) (v : Value W) (minimum n : ℕ)
      → require_nat e v minimum ≡ ok n
      → (v ≡ int (pos n)) × (minimum ≤ n)
  unfolding require_nat
  require_nat_inv e (int z) minimum n h = ground arith
  require_nat_inv e (bool b) minimum n h = cc
  require_nat_inv e (float x) minimum n h = cc
  require_nat_inv e other minimum n h = cc

  -- A refused argument raises the caller's exception.
  pub require_nat-Settles :
      (e : Error) (v : Value W) (minimum : ℕ)
      → IsFault e
      → Settles (λ (n : ℕ). (v ≡ int (pos n)) × (minimum ≤ n)) (require_nat e v minimum)
  unfolding require_nat
  require_nat-Settles e (int (pos n)) minimum h = elim (Bool-cases (ltb_ℤ (pos n) (pos minimum))) [
    | inl below ↦ rw below h
    | inr above ↦ rw above (refl, not_below n minimum above)
  ]
  require_nat-Settles e (int (negsuc n)) minimum h = rw (negative n minimum) h
  require_nat-Settles e (bool b) minimum h = h
  require_nat-Settles e (float x) minimum h = h
  require_nat-Settles e other minimum h = h

module _ {W : Type 0} ⦃f : Floats W⦄ where
  require_real-Settles :
      (e : Error) (v : Value W) → IsFault e → Settles (λ _. Unit) (require_real e v)
  unfolding require_real
  require_real-Settles e (int n) h = Settles-or_raise (f.of_int n) arithmetic_error tt
  require_real-Settles e (bool b) h = h
  require_real-Settles e (float x) h = tt
  require_real-Settles e other h = h

  pub require_positive_real-Settles :
      (e : Error) (v : Value W) → IsFault e → Settles (λ _. Unit) (require_positive_real e v)
  unfolding require_positive_real require_real
  require_positive_real-Settles e v h =
      Settles-then (λ _. Unit) (require_real e v) _ (require_real-Settles e v h)
        (λ number.
          Settles-then (λ _. Unit) (refuse_if (not (f.is_finite number) || f.le number f.nought) e)
            _
            (Settles-map (λ _. not (f.is_finite number) || f.le number f.nought ≡ false) (λ _. Unit)
              _ (Settles-refuse_if (not (f.is_finite number) || f.le number f.nought) e h)
              (λ _ _ _. tt))
            (λ _. tt))

  pub require_positive_real_accepts :
      (e : Error) (x : W)
      → f.is_finite x ≡ true
      → f.le x f.nought ≡ false
      → require_positive_real e (float x) ≡ ok x
  unfolding require_positive_real
  require_positive_real_accepts e x h k = rw (h, k)
