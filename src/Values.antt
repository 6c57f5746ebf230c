-- ===== src/Values.antt =====
-- Values that a caller may hand over, and the argument checks `_require_plain_int` and
-- `_require_positive_real`, which distribution.py, bin_allocator.py and content_schedule.py each
-- declare with an exception class of their own: the class is the first argument here.
pub mod Laws
use swat_letindex_baseline.Prelude.{
  ℕ, ℤ, pos, pos_part, Bool, Option, none, some, not, ◌||◌, ltb_ℤ, Error, arithmetic_error, Result,
  ok, err, ◌>>=◌, ◌>>◌, refuse_if, or_raise,
}
use swat_letindex_baseline.Floats.{Floats}

-- A plain int, a bool (which Python counts as an int), a float, or a value of any other type.
pub data Value (W : Type 0) : Type 0 where
  int : ℤ → Value W
  bool : Bool → Value W
  float : W → Value W
  other : Value W

module _ {W : Type 0} where
  unfoldable pub require_plain_int : Error → Value W → Option ℤ → Result ℤ
  require_plain_int e (int n) none = ok n
  require_plain_int e (int n) (some minimum) = do refuse_if (ltb_ℤ n minimum) e; ok n
  require_plain_int e _ minimum = err e

  -- `_require_plain_int` with a minimum that is not negative, as the number that it returns.
  unfoldable pub require_nat : Error → Value W → ℕ → Result ℕ
  unfolding require_plain_int
  require_nat e v minimum = do n ← require_plain_int e v (some (pos minimum)); ok (pos_part n)

module _ {W : Type 0} ⦃f : Floats W⦄ where
  open f use {nought, of_int, le, is_finite}

  -- `float(value)` of an int or a float
  unfoldable pub require_real : Error → Value W → Result W
  require_real e (int n) = or_raise (of_int n) arithmetic_error
  require_real e (float x) = ok x
  require_real e _ = err e

  unfoldable pub require_positive_real : Error → Value W → Result W
  unfolding require_real
  require_positive_real e v = do
    number ← require_real e v
    refuse_if (not (is_finite number) || le number nought) e
    ok number
