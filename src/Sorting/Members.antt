-- ===== src/Sorting/Members.antt =====
-- What holds for every element, or for some element, of a list that is sorted or freed of repetitions.
use swat_letindex_baseline.Prelude.{
  ap, ◌≢◌, sym, ◌≡◌, ◌↔◌, refl, Bool, true, false, List, [], ◌∷◌, map, ◌⊎◌, inl, inr, Bool-cases,
  All, Any,
}
use swat_letindex_baseline.Sorting.{insert_sorted, sorted, contains, distinct}

module _ {ℓ} {A : Type ℓ} (lt : A → A → Bool) (P : A → Type 0) where
  insert_sorted_low :
      (x y : A) (ys : List A)
      → lt y x ≡ true
      → insert_sorted lt x (y ∷ ys) ≡ y ∷ insert_sorted lt x ys
  unfolding insert_sorted
  insert_sorted_low x y ys h = rw h refl

  insert_sorted_high :
      (x y : A) (ys : List A) → lt y x ≡ false → insert_sorted lt x (y ∷ ys) ≡ x ∷ y ∷ ys
  unfolding insert_sorted
  insert_sorted_high x y ys h = rw h refl

  insert_sorted-All : (x : A) (ys : List A) → All P (insert_sorted lt x ys) ↔ (P x × All P ys)
  unfolding insert_sorted
  insert_sorted-All x [] = (λ h. h, λ h. h)
  insert_sorted-All x (y ∷ ys) = elim (Bool-cases (lt y x)) [
    | inl low ↦
        let later = insert_sorted-All x ys in
        rw low (λ h. ((later.0 h.1).0, (h.0, (later.0 h.1).1)), λ h. (h.1.0, later.1 (h.0, h.1.1)))
    | inr high ↦ rw high (λ h. h, λ h. h)
  ]

  pub sorted-All : (xs : List A) → All P (sorted lt xs) ↔ All P xs
  unfolding sorted
  sorted-All [] = (λ h. h, λ h. h)
  sorted-All (x ∷ xs) =
      let first = insert_sorted-All x (sorted lt xs) in
      let later = sorted-All xs in
      (λ h. ((first.0 h).0, later.0 (first.0 h).1), λ h. first.1 (h.0, later.1 h.1))

  insert_sorted-Any : (x : A) (ys : List A) → Any P (insert_sorted lt x ys) ↔ (P x ⊎ Any P ys)
  unfolding insert_sorted
  insert_sorted-Any x [] = (λ h. h, λ h. h)
  insert_sorted-Any x (y ∷ ys) = elim (Bool-cases (lt y x)) [
    | inl low ↦
        let later = insert_sorted-Any x ys in
        rw low (
          λ h. elim h [
            | inl k ↦ inr (inl k)
            | inr k ↦ elim (later.0 k) [ inl k ↦ inl k | inr k ↦ inr (inr k) ]
          ],
          λ h. elim h [
            | inl k ↦ inr (later.1 (inl k))
            | inr k ↦ elim k [ inl k ↦ inl k | inr k ↦ inr (later.1 (inr k)) ]
          ],
        )
    | inr high ↦ rw high (λ h. h, λ h. h)
  ]

  pub sorted-Any : (xs : List A) → Any P (sorted lt xs) ↔ Any P xs
  unfolding sorted
  sorted-Any [] = (λ h. h, λ h. h)
  sorted-Any (x ∷ xs) =
      let first = insert_sorted-Any x (sorted lt xs) in
      let later = sorted-Any xs in
      (
        λ h. elim (first.0 h) [ inl k ↦ inl k | inr k ↦ inr (later.0 k) ],
        λ h. elim h [ inl h ↦ first.1 (inl h) | inr h ↦ first.1 (inr (later.1 h)) ],
      )

module _ {ℓ} {A : Type ℓ} (eq : A → A → Bool) (P : A → Type 0)
    (sound : (x y : A) → eq x y ≡ true → x ≡ y) where
  contains-All : (x : A) (xs : List A) → contains eq x xs ≡ true → All P xs → P x
  unfolding contains
  contains-All x [] h all = cc
  contains-All x (y ∷ ys) h all = elim (Bool-cases (eq x y)) [
    | inl same ↦ rw (sound x y same) all.0
    | inr differ ↦ contains-All x ys (rw differ at h) all.1
  ]

  contains-Any : (x : A) (xs : List A) → contains eq x xs ≡ true → P x → Any P xs
  unfolding contains
  contains-Any x [] h p = cc
  contains-Any x (y ∷ ys) h p = elim (Bool-cases (eq x y)) [
    | inl same ↦ inl (rw (sound x y same) at p)
    | inr differ ↦ inr (contains-Any x ys (rw differ at h) p)
  ]

  pub distinct-All : (xs : List A) → All P (distinct eq xs) ↔ All P xs
  unfolding distinct
  distinct-All [] = (λ h. h, λ h. h)
  distinct-All (x ∷ xs) =
      let later = distinct-All xs in
      elim (Bool-cases (contains eq x xs)) [
        | inl found ↦
            rw found (λ h. (contains-All x xs found (later.0 h), later.0 h), λ h. later.1 h.1)
        | inr new ↦ rw new (λ h. (h.0, later.0 h.1), λ h. (h.0, later.1 h.1))
      ]

  pub distinct-Any : (xs : List A) → Any P (distinct eq xs) ↔ Any P xs
  unfolding distinct
  distinct-Any [] = (λ h. h, λ h. h)
  distinct-Any (x ∷ xs) =
      let later = distinct-Any xs in
      elim (Bool-cases (contains eq x xs)) [
        | inl found ↦ rw found (
          λ h. inr (later.0 h),
          λ h. elim h [ inl h ↦ later.1 (contains-Any x xs found h) | inr h ↦ later.1 h ],
        )
        | inr new ↦ rw new (
          λ h. elim h [ inl h ↦ inl h | inr h ↦ inr (later.0 h) ],
          λ h. elim h [ inl h ↦ inl h | inr h ↦ inr (later.1 h) ],
        )
      ]

module _ {A : Type 0} (eq : A → A → Bool) (sound : (x y : A) → eq x y ≡ true → x ≡ y)
    (eq_refl : (x : A) → eq x x ≡ true) where
  -- `x in xs`
  pub contains_iff : (x : A) (xs : List A) → (contains eq x xs ≡ true) ↔ Any (λ y. y ≡ x) xs
  unfolding contains
  contains_iff x [] = (λ h. cc, λ h. absurd h)
  contains_iff x (y ∷ ys) =
      let later = contains_iff x ys in
      elim (Bool-cases (eq x y)) [
        | inl same ↦ rw same (λ h. inl (sym (sound x y same)), λ h. refl)
        | inr differ ↦ rw differ (
          λ h. inr (later.0 h),
          λ h. elim h [ inl equal ↦ cc (rw equal at differ, eq_refl x) | inr k ↦ later.1 k ],
        )
      ]

module _ {ℓ κ} {A : Type ℓ} {B : Type κ} (f : A → B) (P : B → Type 0) where
  pub map-Any : (xs : List A) → Any P (map f xs) ↔ Any (λ a. P (f a)) xs
  map-Any [] = (λ h. h, λ h. h)
  map-Any (x ∷ xs) =
      let later = map-Any xs in
      (
        λ h. elim h [ inl k ↦ inl k | inr k ↦ inr (later.0 k) ],
        λ h. elim h [ inl k ↦ inl k | inr k ↦ inr (later.1 k) ],
      )

  pub map-All : (xs : List A) → All P (map f xs) ↔ All (λ a. P (f a)) xs
  map-All [] = (λ h. h, λ h. h)
  map-All (x ∷ xs) = let later = map-All xs in (λ h. (h.0, later.0 h.1), λ h. (h.0, later.1 h.1))

module _ {ℓ} {A : Type ℓ} {P Q : A → Type 0} where
  pub All-imp : ((a : A) → P a → Q a) → (xs : List A) → All P xs → All Q xs
  All-imp f [] h = tt
  All-imp f (x ∷ xs) (h, hs) = (f x h, All-imp f xs hs)

-- No element occurs twice.
abbrev pub IsUnique : {A : Type 0} → List A → Type 0
IsUnique [] = Unit
IsUnique (x ∷ xs) = All (λ y. x ≢ y) xs × IsUnique xs

module _ {A : Type 0} (eq : A → A → Bool) (sound : (x y : A) → eq x y ≡ true → x ≡ y) where
  absent_from : (x : A) (xs : List A) → All (λ y. x ≢ y) xs → contains eq x xs ≡ false
  unfolding contains
  absent_from x [] h = refl
  absent_from x (y ∷ ys) (h, hs) = elim (Bool-cases (eq x y)) [
    | inl same ↦ absurd (h (sound x y same))
    | inr differ ↦ rw differ (absent_from x ys hs)
  ]

  pub distinct_of_unique : (xs : List A) → IsUnique xs → distinct eq xs ≡ xs
  unfolding distinct
  distinct_of_unique [] h = refl
  distinct_of_unique (x ∷ xs) (h, hs) =
      rw (absent_from x xs h) (ap (λ rest. x ∷ rest) (distinct_of_unique xs hs))
