-- ===== src/Sorting/Sublists.antt =====
-- Elements picked from a strictly increasing list in its order increase strictly.
use swat_letindex_baseline.Prelude.{
  Bool, ℕ, zero, suc, ◌≡◌, true, List, [], ◌∷◌, ◌++◌, some, All, get_elem?,
}
use swat_letindex_baseline.Sorting.Laws.{IsStrict}

-- The first list is what is left of the second when some elements are dropped.
pub data Sublist {A : Type 0} : List A → List A → Type 0 where
  done : Sublist [] []
  dropped : (x : A) {xs ys : List A} → Sublist xs ys → Sublist xs (x ∷ ys)
  kept : (x : A) {xs ys : List A} → Sublist xs ys → Sublist (x ∷ xs) (x ∷ ys)

module _ {A : Type 0} where
  pub Sublist-dropped_all :
      (front : List A) {xs ys : List A} → Sublist xs ys → Sublist xs (front ++ ys)
  Sublist-dropped_all [] h = h
  Sublist-dropped_all (x ∷ front) h = dropped x (Sublist-dropped_all front h)

  -- One element of a front.
  pub Sublist-one :
      (front : List A) (i : ℕ) (a : A) {xs ys : List A}
      → get_elem? front i ≡ some a
      → Sublist xs ys
      → Sublist (a ∷ xs) (front ++ ys)
  Sublist-one [] i a found h = cc
  Sublist-one (x ∷ front) zero a {xs} {ys} found h =
      let same : x ≡ a = cc in rw same (kept a (Sublist-dropped_all front h))
  Sublist-one (x ∷ front) (suc i) a found h = dropped x (Sublist-one front i a found h)

  Sublist-All : (P : A → Type 0) (xs ys : List A) → Sublist xs ys → All P ys → All P xs
  Sublist-All P xs ys done h = tt
  Sublist-All P xs ys (dropped x s) (h, hs) = Sublist-All P _ _ s hs
  Sublist-All P xs ys (kept x s) (h, hs) = (h, Sublist-All P _ _ s hs)

module _ {A : Type 0} (lt : A → A → Bool)
    (trans : (x y z : A) → lt x y ≡ true → lt y z ≡ true → lt x z ≡ true) where
  -- Every element is below all that follow it.
  abbrev IsPairwise : List A → Type 0
  IsPairwise [] = Unit
  IsPairwise (x ∷ xs) = All (λ y. lt x y ≡ true) xs × IsPairwise xs

  below-All :
      (x y : A) (ys : List A)
      → lt x y ≡ true
      → All (λ z. lt y z ≡ true) ys
      → All (λ z. lt x z ≡ true) ys
  below-All x y [] h hs = tt
  below-All x y (z ∷ ys) h (k, hs) = (trans x y z h k, below-All x y ys h hs)

  IsPairwise-of_strict : (xs : List A) → IsStrict lt xs → IsPairwise xs
  IsPairwise-of_strict [] h = tt
  IsPairwise-of_strict (x ∷ []) h = (tt, tt)
  IsPairwise-of_strict (x ∷ y ∷ xs) (h, hs) =
      let rest = IsPairwise-of_strict (y ∷ xs) hs in ((h, below-All x y xs h rest.0), rest)

  IsStrict-of_pairwise : (xs : List A) → IsPairwise xs → IsStrict lt xs
  IsStrict-of_pairwise [] h = tt
  IsStrict-of_pairwise (x ∷ []) h = tt
  IsStrict-of_pairwise (x ∷ y ∷ xs) ((h, _), hs) = (h, IsStrict-of_pairwise (y ∷ xs) hs)

  Sublist-IsPairwise : (xs ys : List A) → Sublist xs ys → IsPairwise ys → IsPairwise xs
  Sublist-IsPairwise xs ys done h = tt
  Sublist-IsPairwise xs ys (dropped x s) (h, hs) = Sublist-IsPairwise _ _ s hs
  Sublist-IsPairwise xs ys (kept x s) (h, hs) =
      (Sublist-All (λ z. lt x z ≡ true) _ _ s h, Sublist-IsPairwise _ _ s hs)

  pub Sublist-IsStrict : (xs ys : List A) → Sublist xs ys → IsStrict lt ys → IsStrict lt xs
  Sublist-IsStrict xs ys s h =
      IsStrict-of_pairwise xs (Sublist-IsPairwise xs ys s (IsPairwise-of_strict ys h))
