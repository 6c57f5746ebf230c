-- ===== src/Sorting.antt =====
-- Python's `sorted` and `sorted(set(...))`. `sorted` is stable, so its result is that of a stable
-- insertion sort.
pub mod Laws
pub mod Strict
pub mod Members
pub mod Sublists
use swat_letindex_baseline.Prelude.{Bool, true, false, List, [], ◌∷◌, ◌&&◌, ◌||◌, if◌then◌else◌}

module _ {ℓ} {A : Type ℓ} (lt : A → A → Bool) where
  -- An element goes in front of the first one that is not below it.
  unfoldable pub insert_sorted : A → List A → List A
  insert_sorted x [] = x ∷ []
  insert_sorted x (y ∷ ys) =
      let later = y ∷ insert_sorted x ys in if lt y x then later else x ∷ y ∷ ys

  unfoldable pub sorted : List A → List A
  unfolding insert_sorted
  sorted [] = []
  sorted (x ∷ xs) = insert_sorted x (sorted xs)

module _ {ℓ} {A : Type ℓ} (eq : A → A → Bool) where
  unfoldable pub contains : A → List A → Bool
  contains x [] = false
  contains x (y ∷ ys) = eq x y || contains x ys

  -- The elements of a list without repetitions: `set(xs)`, in some order.
  unfoldable pub distinct : List A → List A
  unfolding contains
  distinct [] = []
  distinct (x ∷ xs) = let rest = distinct xs in if contains x xs then rest else x ∷ rest

  -- `xs == ys` of two lists
  unfoldable pub list_eq : List A → List A → Bool
  list_eq [] [] = true
  list_eq (x ∷ xs) (y ∷ ys) = eq x y && list_eq xs ys
  list_eq _ _ = false
