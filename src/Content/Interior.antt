-- ===== src/Content/Interior.antt =====
-- content_schedule.py: interior points, their weights, their order and the draw of one.
pub mod Laws
use swat_letindex_baseline.Prelude.{
  ℕ, zero, suc, ◌+◌, ◌-◌, ℤ, pos, ltb_ℤ, eqb_ℤ, List, [], ◌∷◌, Option, none, some, Bool, true,
  false, map, min, ltb, ◌==◌, ◌&&◌, ◌||◌, not, range, if◌then◌else◌, content_schedule_error,
  arithmetic_error, Result, ok, err, ◌>>=◌, ◌>>◌, refuse_if, or_raise,
}
use swat_letindex_baseline.Floats.{Floats, Streams}
use swat_letindex_baseline.Values.{Value, int, require_nat, require_positive_real}
use swat_letindex_baseline.Substrate.{RecordKey}
use swat_letindex_baseline.Distribution.Numbers.{fast_power}
use swat_letindex_baseline.Distribution.Samplers.{accumulate, pick}

-- A key of the database, or the DUMMY_POS_INF sentinel of a bin with no real block.
pub data PointKey : Type 0 where
  real : RecordKey → PointKey
  dummy_pos_inf : PointKey

pub record InteriorPoint : Type 0 where
  pub key : PointKey
  pub record_index : Option ℕ

-- `InteriorPoint(...)` with its `__post_init__`
unfoldable pub make_interior_point :
    {W : Type 0} → PointKey → Option (Value W) → Result InteriorPoint
make_interior_point dummy_pos_inf none = ok (record { key = dummy_pos_inf; record_index = none })
make_interior_point dummy_pos_inf (some index) = err content_schedule_error
make_interior_point (real key) none = ok (record { key = real key; record_index = none })
make_interior_point (real key) (some index) = do
  checked ← require_nat content_schedule_error index 0
  ok (record { key = real key; record_index = some checked })

abbrev pub is_sentinel : PointKey → Bool
is_sentinel (real key) = false
is_sentinel dummy_pos_inf = true

abbrev pub is_dummy : InteriorPoint → Bool
is_dummy point = is_sentinel point.key

key_or_refuse : PointKey → Result RecordKey
key_or_refuse (real key) = ok key
key_or_refuse dummy_pos_inf = err content_schedule_error

unfoldable pub record_key : InteriorPoint → Result RecordKey
unfolding key_or_refuse
record_key point = key_or_refuse point.key

-- The sentinel's `(1, 0)` and a key's `(0, value)`
abbrev pub point_sort_key : PointKey → ℕ × ℤ
point_sort_key (real key) = (0, key.value)
point_sort_key dummy_pos_inf = (1, pos 0)

abbrev pub interior_point_sort_key : InteriorPoint → ℕ × ℤ
interior_point_sort_key point = point_sort_key point.key

-- `<` of such pairs
abbrev pub sort_key_lt : ℕ × ℤ → ℕ × ℤ → Bool
sort_key_lt a b = ltb a.0 b.0 || (a.0 == b.0 && ltb_ℤ a.1 b.1)

abbrev pub sort_key_eq : ℕ × ℤ → ℕ × ℤ → Bool
sort_key_eq a b = a.0 == b.0 && eqb_ℤ a.1 b.1

module _ {W : Type 0} ⦃f : Floats W⦄ where
  unfoldable pub interior_point_weights : Value W → Value W → Result (List W)
  interior_point_weights load privacy_epsilon = do
    count ← require_nat content_schedule_error load 0
    epsilon ← require_positive_real content_schedule_error privacy_epsilon
    if count == 0 then ok [] else do
      base_exp ← or_raise (f.exp epsilon) arithmetic_error
      ok (map (λ index. fast_power base_exp (min index (count - index) + 1)) (range 0 count))

module _ {S W : Type 0} ⦃f : Floats W⦄ (streams : Streams S W) where
  unfoldable pub draw_index : S → List W → Result (ℕ × S)
  unfolding pick accumulate
  draw_index stream weights = do
    total ← or_raise (f.fsum weights) arithmetic_error
    refuse_if (not (f.lt f.nought total)) content_schedule_error
    let drawn = streams.random stream
    index ← pick weights (accumulate f.nought weights).0 (f.mul drawn.0 total)
    ok (index, drawn.1)
