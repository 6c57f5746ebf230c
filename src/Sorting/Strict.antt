-- ===== src/Sorting/Strict.antt =====
-- `xs == sorted(set(xs))` is the test that a list increases strictly.
use swat_letindex_baseline.Prelude.{
  ◌≤◌, ◌≡◌, refl, ap, sym, ◌∙◌, Bool, true, false, List, [], ◌∷◌, arith, length, inl, inr,
  Bool-cases,
}
use swat_letindex_baseline.Sorting.{sorted, contains, distinct, list_eq}
use swat_letindex_baseline.Sorting.Laws.{IsAscending, IsStrict, sorted-IsAscending, length-sorted}

module _ {ℓ} {A : Type ℓ} (eq : A → A → Bool) where
  pub list_eq_sound :
      ((x y : A) → eq x y ≡ true → x ≡ y) → (xs ys : List A) → list_eq eq xs ys ≡ true → xs ≡ ys
  unfolding list_eq
  list_eq_sound sound [] [] h = refl
  list_eq_sound sound [] (y ∷ ys) h = cc
  list_eq_sound sound (x ∷ xs) [] h = cc
  list_eq_sound sound (x ∷ xs) (y ∷ ys) h = elim (Bool-cases (eq x y)) [
    | inl same ↦ rw (sound x y same) (ap (◌∷◌ y) (list_eq_sound sound xs ys (rw same at h)))
    | inr differ ↦ cc (rw differ at h)
  ]

  length-distinct-le : (xs : List A) → length (distinct eq xs) ≤ length xs
  unfolding distinct
  length-distinct-le [] = omega arith
  length-distinct-le (x ∷ xs) = ground (arith, length-distinct-le xs)

  distinct_found :
      (x : A) (xs : List A) → contains eq x xs ≡ true → distinct eq (x ∷ xs) ≡ distinct eq xs
  unfolding distinct
  distinct_found x xs h = rw h refl

  distinct_new :
      (x : A) (xs : List A) → contains eq x xs ≡ false → distinct eq (x ∷ xs) ≡ x ∷ distinct eq xs
  unfolding distinct
  distinct_new x xs h = rw h refl

  differs : (x y : A) (ys : List A) → contains eq x (y ∷ ys) ≡ false → eq x y ≡ false
  unfolding contains
  differs x y ys h = ground arith

  -- If nothing was removed, the first element differs from the next, and nothing is removed later.
  nothing_removed :
      (x y : A) (ys : List A)
      → length (distinct eq (x ∷ y ∷ ys)) ≡ length (x ∷ y ∷ ys)
      → (eq x y ≡ false) × (length (distinct eq (y ∷ ys)) ≡ length (y ∷ ys))
  nothing_removed x y ys e = elim (Bool-cases (contains eq x (y ∷ ys))) [
    | inl found ↦
        absurd (
          omega
            (arith, ap length (distinct_found x (y ∷ ys) found), e, length-distinct-le (y ∷ ys)))
    | inr new ↦ (differs x y ys new, omega (arith, ap length (distinct_new x (y ∷ ys) new), e))
  ]

module _ {ℓ} {A : Type ℓ} (lt eq : A → A → Bool)
    (total : (x y : A) → eq x y ≡ false → lt y x ≡ false → lt x y ≡ true) where
  full_length-IsStrict :
      (xs : List A) → IsAscending lt xs → length (distinct eq xs) ≡ length xs → IsStrict lt xs
  full_length-IsStrict [] h e = tt
  full_length-IsStrict (x ∷ []) h e = tt
  full_length-IsStrict (x ∷ y ∷ ys) (h, hs) e =
      let (apart, later) = nothing_removed eq x y ys e in
      (total x y apart h, full_length-IsStrict (y ∷ ys) hs later)

  -- A list that passes the test increases strictly.
  pub IsStrict-of_test :
      ((x y : A) → eq x y ≡ true → x ≡ y)
      → ((x y : A) → lt x y ≡ true → lt y x ≡ false)
      → (xs : List A) → list_eq eq xs (sorted lt (distinct eq xs)) ≡ true
      → IsStrict lt xs
  IsStrict-of_test sound asym xs h =
      let same = list_eq_sound eq sound xs (sorted lt (distinct eq xs)) h in
      full_length-IsStrict xs (rw (← same) at (sorted-IsAscending lt asym (distinct eq xs)))
        (sym (length-sorted lt (distinct eq xs)) ∙ sym (ap length same))
