-- ===== src/Distribution/Weights/Array.antt =====
-- Python's `xs[i]` and `xs[i] = v` at an index that is not negative: IndexError past the end.
use swat_letindex_baseline.Prelude.{
  ℕ, ◌<◌, ◌≡◌, refl, List, arith, length, get_elem?, set, ltb, length-set, index_error, Result, ok,
  err, or_raise, if◌then◌else◌, lt→ltb, get_elem?-some,
}

module _ {ℓ} {A : Type ℓ} where
  unfoldable pub read_at : List A → ℕ → Result A
  read_at xs i = or_raise (get_elem? xs i) index_error

  unfoldable pub write_at : List A → ℕ → A → Result (List A)
  write_at xs i v = if ltb i (length xs) then ok (set xs i v) else err index_error

  pub read_at_inside : (xs : List A) (i : ℕ) → i < length xs → (a : A) × (read_at xs i ≡ ok a)
  unfolding read_at
  read_at_inside xs i h = let (a, e) = get_elem?-some xs i h in (a, rw e refl)

  pub write_at_inside :
      (xs : List A) (i : ℕ) (v : A) → i < length xs → write_at xs i v ≡ ok (set xs i v)
  unfolding write_at
  write_at_inside xs i v h = rw (lt→ltb _ _ h) refl

  pub length-write_at :
      (xs : List A) (i : ℕ) (v : A) {ys : List A} → write_at xs i v ≡ ok ys → length ys ≡ length xs
  unfolding write_at
  length-write_at xs i v h = ground (arith, length-set xs i v)
