-- ===== src/Sorting/Laws.antt =====
-- `sorted` rearranges its input into ascending order and leaves an ascending list alone.
use mathlib.Core.List.{Perm}
use mathlib.Core.List.Perm
use swat_letindex_baseline.Prelude.{
  ℕ, zero, suc, ◌+◌, ◌≡◌, refl, ap, ◌∙◌, Bool, true, false, List, [], ◌∷◌, ◌++◌, arith, length, sum,
  map, inl, inr, Bool-cases, count_up, ltb, ge→ltb,
}
use swat_letindex_baseline.Sorting.{insert_sorted, sorted, contains, distinct, list_eq}

module _ {ℓ} {A : Type ℓ} (lt : A → A → Bool) where
  insert_sorted-sum :
      (f : A → ℕ) (x : A) (ys : List A) → sum (map f (insert_sorted lt x ys)) ≡ f x + sum (map f ys)
  unfolding insert_sorted
  insert_sorted-sum f x [] = refl
  insert_sorted-sum f x (y ∷ ys) = ground (arith, insert_sorted-sum f x ys)

  -- Whatever is added up over the elements, sorting keeps the sum.
  pub sorted-sum : (f : A → ℕ) (xs : List A) → sum (map f (sorted lt xs)) ≡ sum (map f xs)
  unfolding sorted
  sorted-sum f [] = refl
  sorted-sum f (x ∷ xs) = insert_sorted-sum f x (sorted lt xs) ∙ ap (λ n. f x + n) (sorted-sum f xs)

  insert_sorted-perm : (x : A) (ys : List A) → Perm (insert_sorted lt x ys) (x ∷ ys)
  unfolding insert_sorted
  insert_sorted-perm x [] = Perm.refl (x ∷ [])
  insert_sorted-perm x (y ∷ ys) = elim (Bool-cases (lt y x)) [
    | inl below ↦ rw below (Perm.trans (Perm.cons y (insert_sorted-perm x ys)) (Perm.swap x y ys))
    | inr above ↦ rw above (Perm.refl (x ∷ y ∷ ys))
  ]

  pub sorted-perm : (xs : List A) → Perm (sorted lt xs) xs
  unfolding sorted
  sorted-perm [] = Perm.refl []
  sorted-perm (x ∷ xs) =
      Perm.trans (insert_sorted-perm x (sorted lt xs)) (Perm.cons x (sorted-perm xs))

  -- No element is above its right neighbour.
  abbrev pub IsAscending : List A → Type 0
  IsAscending [] = Unit
  IsAscending (x ∷ []) = Unit
  IsAscending (x ∷ y ∷ ys) = (lt y x ≡ false) × IsAscending (y ∷ ys)

  -- Every element is below its right neighbour.
  abbrev pub IsStrict : List A → Type 0
  IsStrict [] = Unit
  IsStrict (x ∷ []) = Unit
  IsStrict (x ∷ y ∷ ys) = (lt x y ≡ true) × IsStrict (y ∷ ys)

  module _ (asym : (x y : A) → lt x y ≡ true → lt y x ≡ false) where
    insert_sorted-IsAscending :
        (x : A) (ys : List A) → IsAscending ys → IsAscending (insert_sorted lt x ys)
    unfolding insert_sorted
    insert_sorted-IsAscending x [] h = tt
    insert_sorted-IsAscending x (y ∷ []) h = elim (Bool-cases (lt y x)) [
      | inl below ↦ rw below (asym y x below, tt)
      | inr above ↦ rw above (above, tt)
    ]
    insert_sorted-IsAscending x (y ∷ z ∷ zs) (h, hs) = elim (Bool-cases (lt y x)) [
      | inr above ↦ rw above (above, (h, hs))
      | inl below ↦
          let rest = insert_sorted-IsAscending x (z ∷ zs) hs in
          elim (Bool-cases (lt z x)) [
            | inl deep ↦ rw (below, deep) (h, rw deep at rest)
            | inr here ↦ rw (below, here) (asym y x below, rw here at rest)
          ]
    ]

    pub sorted-IsAscending : (xs : List A) → IsAscending (sorted lt xs)
    unfolding sorted
    sorted-IsAscending [] = tt
    sorted-IsAscending (x ∷ xs) = insert_sorted-IsAscending x (sorted lt xs) (sorted-IsAscending xs)

  pub sorted_of_IsAscending : (xs : List A) → IsAscending xs → sorted lt xs ≡ xs
  unfolding sorted insert_sorted
  sorted_of_IsAscending [] h = refl
  sorted_of_IsAscending (x ∷ []) h = refl
  sorted_of_IsAscending (x ∷ y ∷ ys) (h, hs) = rw (sorted_of_IsAscending (y ∷ ys) hs, h) refl

module _ {ℓ} {A : Type ℓ} (eq : A → A → Bool) (eq_refl : (x : A) → eq x x ≡ true) where
  pub list_eq_refl : (xs : List A) → list_eq eq xs xs ≡ true
  unfolding list_eq
  list_eq_refl [] = refl
  list_eq_refl (x ∷ xs) = rw (eq_refl x) (list_eq_refl xs)

pub count_up-IsAscending : (start n : ℕ) → IsAscending (λ a b. ltb a b) (count_up start n)
count_up-IsAscending start zero = tt
count_up-IsAscending start (suc zero) = tt
count_up-IsAscending start (suc (suc n)) =
    (ge→ltb _ _ (omega arith), count_up-IsAscending (suc start) (suc n))

module _ {ℓ} {A : Type ℓ} (lt : A → A → Bool) where
  pub IsStrict-append_left : (xs ys : List A) → IsStrict lt (xs ++ ys) → IsStrict lt xs
  IsStrict-append_left [] ys h = tt
  IsStrict-append_left (x ∷ []) ys h = tt
  IsStrict-append_left (x ∷ y ∷ xs) ys (h, hs) = (h, IsStrict-append_left (y ∷ xs) ys hs)

  pub IsStrict-tail : (x : A) (xs : List A) → IsStrict lt (x ∷ xs) → IsStrict lt xs
  IsStrict-tail x [] h = tt
  IsStrict-tail x (y ∷ xs) h = h.1

  pub IsStrict-append_right : (xs ys : List A) → IsStrict lt (xs ++ ys) → IsStrict lt ys
  IsStrict-append_right [] ys h = h
  IsStrict-append_right (x ∷ xs) ys h = IsStrict-append_right xs ys (IsStrict-tail x (xs ++ ys) h)

  length-insert_sorted : (x : A) (ys : List A) → length (insert_sorted lt x ys) ≡ suc (length ys)
  unfolding insert_sorted
  length-insert_sorted x [] = refl
  length-insert_sorted x (y ∷ ys) = ground (arith, length-insert_sorted x ys)

  pub length-sorted : (xs : List A) → length (sorted lt xs) ≡ length xs
  unfolding sorted
  length-sorted [] = refl
  length-sorted (x ∷ xs) = length-insert_sorted x (sorted lt xs) ∙ ap suc (length-sorted xs)

  -- For a strict order whose elements are all different: nothing to remove, nothing to move.
  module _ (asym : (x y : A) → lt x y ≡ true → lt y x ≡ false)
      (trans : (x y z : A) → lt x y ≡ true → lt y z ≡ true → lt x z ≡ true) (eq : A → A → Bool)
      (apart : (x y : A) → lt x y ≡ true → eq x y ≡ false) where
    pub IsStrict-IsAscending : (xs : List A) → IsStrict lt xs → IsAscending lt xs
    IsStrict-IsAscending [] h = tt
    IsStrict-IsAscending (x ∷ []) h = tt
    IsStrict-IsAscending (x ∷ y ∷ xs) (h, hs) = (asym x y h, IsStrict-IsAscending (y ∷ xs) hs)

    below_absent :
        (x y : A) (xs : List A)
        → lt x y ≡ true
        → IsStrict lt (y ∷ xs)
        → contains eq x (y ∷ xs) ≡ false
    unfolding contains
    below_absent x y [] h s = rw (apart x y h) refl
    below_absent x y (z ∷ xs) h (k, s) = rw (apart x y h) (below_absent x z xs (trans x y z h k) s)

    pub distinct_of_IsStrict : (xs : List A) → IsStrict lt xs → distinct eq xs ≡ xs
    unfolding distinct
    distinct_of_IsStrict [] h = refl
    distinct_of_IsStrict (x ∷ []) h = refl
    distinct_of_IsStrict (x ∷ y ∷ xs) (h, hs) =
        rw (below_absent x y xs h hs, distinct_of_IsStrict (y ∷ xs) hs) refl
