-- ===== src/Distribution/Weights/Convolution.antt =====
-- `_convolve` against the sum that defines a convolution, term by term in the order of the code.
use swat_letindex_baseline.Prelude.{
  ℕ, zero, suc, ◌+◌, ◌-◌, ◌≤◌, ◌<◌, ◌≡◌, refl, ap, sym, ◌∙◌, List, [], ◌∷◌, Option, some, none, inl,
  inr, Bool-cases, length, get_elem?, set, replicate, get_elem?-set_same, get_elem?-set_other,
  length-set, length-replicate, arith, map, count_up, get_elem?-some, ok, if◌then◌else◌,
}
use swat_letindex_baseline.Floats.{Floats}
use swat_letindex_baseline.Distribution.Weights.{convolve_row, convolve_rows, convolve}
use swat_letindex_baseline.Distribution.Weights.Array.{read_at, write_at_inside}

module _ {W : Type 0} ⦃f : Floats W⦄ where
  -- A product is added if there is a right factor.
  abbrev pub add_product : W → Option W → W → W
  add_product x none total = total
  add_product x (some y) total = f.add total (f.mul x y)

  -- A left factor of 0.0 adds nothing.
  abbrev pub add_term : W → Option W → W → W
  add_term x y total = if f.eq x f.nought then total else add_product x y total

  -- `total` and the products of the left factors with the right factors at `k`, `k - 1`, and so on down.
  abbrev pub terms_down : List W → List W → ℕ → W → W
  terms_down right [] k total = total
  terms_down right (x ∷ left) zero total = add_term x (get_elem? right 0) total
  terms_down right (x ∷ left) (suc k) total =
      terms_down right left k (add_term x (get_elem? right (suc k)) total)

  read_some : (xs : List W) (i : ℕ) (a : W) → get_elem? xs i ≡ some a → read_at xs i ≡ ok a
  unfolding read_at
  read_some xs i a h = rw h refl

  -- What loops from position `start` on leave: the value at `start + m` changed by `change m`, and everything
  -- before as it was.
  record IsChanged (start : ℕ) (change : ℕ → W → W) (before after : List W) : Type 0 where
    sized : length after ≡ length before
    changed :
        (m : ℕ) (a : W)
        → get_elem? before (start + m) ≡ some a
        → get_elem? after (start + m) ≡ some (change m a)
    kept : (p : ℕ) → p < start → get_elem? after p ≡ get_elem? before p

  abbrev IsRow : ℕ → W → List W → List W → List W → Type 0
  IsRow start x right before after =
      IsChanged start (λ m a. add_product x (get_elem? right m) a) before after

  row_changed :
      (start : ℕ) (x y old : W) (right before after : List W)
      → start < length before
      → get_elem? before start ≡ some old
      → IsRow (start + 1) x right (set before start (f.add old (f.mul x y))) after
      → (m : ℕ) (a : W) → get_elem? before (start + m) ≡ some a
      → get_elem? after (start + m) ≡ some (add_product x (get_elem? (y ∷ right) m) a)
  row_changed start x y old right before after inside found row zero a e =
      let here : start + zero ≡ start = omega arith in
      let same : old ≡ a = cc (found, rw here at e) in
      rw (here, sym same)
        (row.kept start (omega arith)
          ∙ get_elem?-set_same before start (f.add old (f.mul x y)) inside)
  row_changed start x y old right before after inside found row (suc m) a e =
      let there : start + suc m ≡ start + 1 + m = omega arith in
      rw there (
        row.changed m a (
          get_elem?-set_other before start (start + 1 + m) (f.add old (f.mul x y))
            (λ same. omega (arith, same))
          ∙ rw there at e))

  IsRow-step :
      (start : ℕ) (x y old : W) (right before after : List W)
      → start < length before
      → get_elem? before start ≡ some old
      → IsRow (start + 1) x right (set before start (f.add old (f.mul x y))) after
      → IsRow start x (y ∷ right) before after
  IsRow-step start x y old right before after inside found row = record {
    sized = row.sized ∙ length-set before start (f.add old (f.mul x y));
    changed = row_changed start x y old right before after inside found row;
    kept = λ p below.
        row.kept p (omega arith)
        ∙ get_elem?-set_other before start p (f.add old (f.mul x y)) (λ e. omega (arith, e));
  }

  convolve_row-IsRow :
      (i : ℕ) (x : W) (j : ℕ) (right result : List W)
      → i + j + length right ≤ length result
      → (r : List W) × (convolve_row i x j right result ≡ ok r) × IsRow (i + j) x right result r
  unfolding convolve_row
  convolve_row-IsRow i x j [] result h =
      (result, refl, record { sized = refl; changed = λ m a e. e; kept = λ p below. refl })
  convolve_row-IsRow i x j (y ∷ right) result h =
      let inside : i + j < length result = omega arith in
      let (old, found) = get_elem?-some result (i + j) inside in
      let new = set result (i + j) (f.add old (f.mul x y)) in
      let (r, made, row) =
        convolve_row-IsRow i x (j + 1) right new
          (omega (arith, length-set result (i + j) (f.add old (f.mul x y)))) in
      let along : i + (j + 1) ≡ i + j + 1 = omega arith in
      (
        r,
        rw
            (
              read_some result (i + j) old found,
              write_at_inside result (i + j) (f.add old (f.mul x y)) inside,
            )
            made,
        IsRow-step (i + j) x y old right result r inside found (rw along at row),
      )

  -- The body of the outer loop: a left factor of 0.0 skips its row.
  outer_row :
      (i : ℕ) (x : W) (right result : List W)
      → i + length right ≤ length result
      → (r : List W) × ((if f.eq x f.nought then ok result else convolve_row i x 0 right result)
          ≡ ok r)
        × IsChanged i (λ m a. add_term x (get_elem? right m) a) result r
  outer_row i x right result h = elim (Bool-cases (f.eq x f.nought)) [
    | inl skipped ↦ (
      result,
      rw skipped refl,
      record { sized = refl; changed = λ m a e. rw skipped e; kept = λ p below. refl },
    )
    | inr taken ↦
        let (r, made, row) = convolve_row-IsRow i x 0 right result (omega arith) in
        let same : i + 0 ≡ i = omega arith in
        let at_i = rw same at row in
        (
          r,
          rw taken made,
          record {
            sized = at_i.sized;
            changed = λ m a e. rw taken (at_i.changed m a e);
            kept = at_i.kept;
          },
        )
  ]

  rows_changed :
      (i : ℕ) (x : W) (left right before middle after : List W)
      → IsChanged i (λ m a. add_term x (get_elem? right m) a) before middle
      → IsChanged (i + 1) (λ m a. terms_down right left m a) middle after
      → (m : ℕ) (a : W) → get_elem? before (i + m) ≡ some a
      → get_elem? after (i + m) ≡ some (terms_down right (x ∷ left) m a)
  rows_changed i x left right before middle after row rest zero a e =
      rest.kept (i + zero) (omega arith) ∙ row.changed zero a e
  rows_changed i x left right before middle after row rest (suc m) a e =
      let there : i + suc m ≡ i + 1 + m = omega arith in
      let now = row.changed (suc m) a e in
      rw there (rest.changed m (add_term x (get_elem? right (suc m)) a) (rw there at now))

  convolve_rows_lem :
      (i : ℕ) (left right result : List W)
      → i + length left + length right ≤ length result + 1
      → (r : List W) × (convolve_rows i left right result ≡ ok r)
        × IsChanged i (λ m a. terms_down right left m a) result r
  unfolding convolve_rows
  convolve_rows_lem i [] right result h =
      (result, refl, record { sized = refl; changed = λ m a e. e; kept = λ p below. refl })
  convolve_rows_lem i (x ∷ left) right result h =
      let (middle, made, row) = outer_row i x right result (omega arith) in
      let (r, finished, rest) =
        convolve_rows_lem (i + 1) left right middle (omega (arith, row.sized)) in
      (
        r,
        rw made finished,
        record {
          sized = rest.sized ∙ row.sized;
          changed = rows_changed i x left right result middle r row rest;
          kept = λ p below. rest.kept p (omega arith) ∙ row.kept p below;
        },
      )

  get_elem?-replicate : (n i : ℕ) (a : W) → i < n → get_elem? (replicate n a) i ≡ some a
  get_elem?-replicate zero i a h = absurd (omega arith)
  get_elem?-replicate (suc n) zero a h = refl
  get_elem?-replicate (suc n) (suc i) a h = get_elem?-replicate n i a (omega arith)

  -- A list is known by its length and its entries.
  tabulated :
      (g : ℕ → W) (start n : ℕ) (xs : List W)
      → length xs ≡ n
      → ((k : ℕ) → k < n → get_elem? xs k ≡ some (g (start + k)))
      → xs ≡ map g (count_up start n)
  tabulated g start zero [] size h = refl
  tabulated g start zero (x ∷ xs) size h = absurd (omega (arith, size))
  tabulated g start (suc n) [] size h = absurd (omega (arith, size))
  tabulated g start (suc n) (x ∷ xs) size h =
      let here : start + zero ≡ start = omega arith in
      let found = h zero (omega arith) in
      let first : x ≡ g start = let e = rw here at found in cc e in
      let rest = tabulated g (suc start) n xs (omega (arith, size)) (λ k below.
        let there : suc start + k ≡ start + suc k = omega arith in
        rw there (h (suc k) (omega arith))) in
      rw (first, rest) refl

  -- The convolution of two lists: an entry per sum of positions, and none if either list is empty.
  abbrev pub convolution : List W → List W → List W
  convolution [] right = []
  convolution (x ∷ left) [] = []
  convolution (x ∷ left) (y ∷ right) =
      map (λ k. terms_down (y ∷ right) (x ∷ left) k f.nought)
        (count_up 0 (length (x ∷ left) + length (y ∷ right) - 1))

  -- For any two lists and any float operations, _convolve returns the list whose entry at every
  -- position adds up, to 0.0 and from the left, the products of the left factors that are not 0.0
  -- with the right factors at the positions that make up the sum; it is empty if either list is.
  pub convolve_lem : (left right : List W) → convolve left right ≡ ok (convolution left right)
  unfolding convolve
  convolve_lem [] right = refl
  convolve_lem (x ∷ left) [] = refl
  convolve_lem (x ∷ left) (y ∷ right) =
      let size = length (x ∷ left) + length (y ∷ right) - 1 in
      let wide = length-replicate size f.nought in
      let (r, made, all) =
        convolve_rows_lem 0 (x ∷ left) (y ∷ right) (replicate size f.nought)
          (omega (arith, wide)) in
      let entries =
        tabulated (λ k. terms_down (y ∷ right) (x ∷ left) k f.nought) 0 size r (all.sized ∙ wide)
          (λ k below.
            let start : 0 + k ≡ k = omega arith in
            let found = get_elem?-replicate size k f.nought below in
            let there = all.changed k f.nought (rw start found) in rw start (rw start at there)) in
      made ∙ ap ok entries
