-- ===== src/Distribution/Weights/Shape.antt =====
-- The weights of `compute_weight`: the same on both sides of the centre, each the one before it times one
-- more power of alpha.
use swat_letindex_baseline.Prelude.{
  ◌*◌, ℕ, zero, suc, ◌+◌, ◌-◌, ◌/◌, ◌%◌, ◌≤◌, ◌<◌, ◌≡◌, refl, ap, ◌∙◌, pos, List, some, inl, inr,
  Bool-cases, length, get_elem?, set, replicate, get_elem?-set_same, get_elem?-set_other,
  length-set, length-replicate, arith, arithmetic_error, block_allocation_error, ok, or_raise,
  or_raise_inv, Ensures, Ensures-then, Ensures-bind, Ensures-of_Settles, ==_iff, ◌==◌,
}
use swat_letindex_baseline.Floats.{Floats}
use swat_letindex_baseline.Values.{Value, int, require_positive_real}
use swat_letindex_baseline.Distribution.Numbers.{require_even_positive, fast_power}
use swat_letindex_baseline.Distribution.Weights.{weight_loop, centre_weight, compute_weight}
use swat_letindex_baseline.Distribution.Weights.Array.{read_at, write_at_inside}
use swat_letindex_baseline.Distribution.Weights.Laws.{require_even_positive-Settles}

module _ {W : Type 0} ⦃f : Floats W⦄ where
  -- The multiplier of the round after `i` rounds.
  abbrev pub multiplier_after : W → ℕ → W
  multiplier_after alpha zero = alpha
  multiplier_after alpha (suc i) = f.mul (multiplier_after alpha i) alpha

  -- The weight at distance `i` of the centre.
  abbrev pub weight_at : W → W → ℕ → W
  weight_at centre alpha zero = centre
  weight_at centre alpha (suc i) = f.mul (weight_at centre alpha i) (multiplier_after alpha i)

  -- The weights at the distances below `k`, on both sides.
  abbrev pub IsTwoSided : W → W → ℕ → ℕ → List W → Type 0
  IsTwoSided centre alpha half k weights =
      (i : ℕ)
      → i < k
      → (get_elem? weights (half + i) ≡ some (weight_at centre alpha i))
        × (get_elem? weights (half - i) ≡ some (weight_at centre alpha i))

  read_at-some : (xs : List W) (i : ℕ) (a : W) → get_elem? xs i ≡ some a → read_at xs i ≡ ok a
  unfolding read_at
  read_at-some xs i a h = rw h refl

  -- One round writes the weights at distance `k + 1`.
  two_written :
      (centre alpha : W) (half k : ℕ) (weights : List W)
      → suc k ≤ half
      → length weights ≡ half + half + 1
      → IsTwoSided centre alpha half (suc k) weights
      → IsTwoSided centre alpha half (suc (suc k)) (
          set
            (set weights (half + suc k) (weight_at centre alpha (suc k)))
            (half - suc k)
            (weight_at centre alpha (suc k)))
  two_written centre alpha half k weights inside size h i below =
      let right = half + suc k in
      let left = half - suc k in
      let weight = weight_at centre alpha (suc k) in
      let first = set weights right weight in
      let wide = length-set weights right weight in
      elim (Bool-cases (i == suc k)) [
        | inl here ↦
            let same = (==_iff i (suc k)).0 here in
            rw same (
              get_elem?-set_other first left right weight (λ e. absurd (omega (arith, e)))
                  ∙ get_elem?-set_same weights right weight (omega arith),
              get_elem?-set_same first left weight (omega (arith, wide)),
            )
        | inr nearer ↦
            let near : i < suc k = ground arith in
            let (on_right, on_left) = h i near in
            (
              get_elem?-set_other first left (half + i) weight (λ e. omega (arith, e))
                  ∙ get_elem?-set_other weights right (half + i) weight (λ e. omega (arith, e))
                  ∙ on_right,
              get_elem?-set_other first left (half - i) weight (λ e. omega (arith, e))
                  ∙ get_elem?-set_other weights right (half - i) weight (λ e. omega (arith, e))
                  ∙ on_left,
            )
      ]

  weight_round :
      (rounds half k : ℕ) (alpha multiplier before : W) (weights : List W)
      → get_elem? weights (half + k) ≡ some before
      → half + suc k < length weights
      → weight_loop (suc rounds) half (suc k) alpha multiplier weights
        ≡ weight_loop rounds half (suc (suc k)) alpha (f.mul multiplier alpha) (
            set
              (set weights (half + suc k) (f.mul before multiplier))
              (half - suc k)
              (f.mul before multiplier))
  unfolding weight_loop
  weight_round rounds half k alpha multiplier before weights found inside =
      let weight = f.mul before multiplier in
      let last : half + suc k - 1 ≡ half + k = omega arith in
      let next : suc k + 1 ≡ suc (suc k) = omega arith in
      rw
        (
          last,
          read_at-some weights (half + k) before found,
          write_at_inside weights (half + suc k) weight inside,
          write_at_inside (set weights (half + suc k) weight) (half - suc k) weight
              (omega (arith, length-set weights (half + suc k) weight)),
          next,
        )
        refl

  weight_loop-IsTwoSided :
      (centre alpha : W) (rounds half k : ℕ) (weights : List W)
      → rounds + k ≡ half
      → length weights ≡ half + half + 1
      → IsTwoSided centre alpha half (suc k) weights
      → (r : List W) × (weight_loop rounds half (suc k) alpha (multiplier_after alpha k) weights
          ≡ ok r)
        × (length r ≡ half + half + 1)
        × IsTwoSided centre alpha half (suc half) r
  unfolding weight_loop
  weight_loop-IsTwoSided centre alpha zero half k weights e size h =
      let same : k ≡ half = omega arith in (weights, refl, size, rw same at h)
  weight_loop-IsTwoSided centre alpha (suc rounds) half k weights e size h =
      let weight = weight_at centre alpha (suc k) in
      let right = set weights (half + suc k) weight in
      let both = set right (half - suc k) weight in
      let wide = length-set weights (half + suc k) weight in
      let (r, made, counted, shaped) =
        weight_loop-IsTwoSided centre alpha rounds half (suc k) both (omega arith)
          (length-set right (half - suc k) weight ∙ wide ∙ size)
          (two_written centre alpha half k weights (omega arith) size h) in
      (
        r,
        weight_round rounds half k alpha (multiplier_after alpha k) (weight_at centre alpha k)
              weights (h k (omega arith)).0 (omega arith)
            ∙ made,
        counted,
        shaped,
      )

  -- At the centre, before the loop.
  centre_written :
      (centre alpha : W) (half : ℕ) (weights : List W)
      → half < length weights
      → IsTwoSided centre alpha half 1 (set weights half centre)
  centre_written centre alpha half weights inside i below =
      let z : i ≡ 0 = omega arith in
      let e1 : half + 0 ≡ half = omega arith in
      let e2 : half - 0 ≡ half = omega arith in
      let found = get_elem?-set_same weights half centre inside in
      rw z (
        ap (get_elem? (set weights half centre)) e1 ∙ found,
        ap (get_elem? (set weights half centre)) e2 ∙ found,
      )

  -- The weights of a capacity, from the alpha and the centre that the code computes.
  pub record IsWeights (capacity epsilon : Value W) (weights : List W) : Type 0 where
    pub half : ℕ
    pub number : W
    pub alpha : W
    pub centre : W
    pub of_capacity : capacity ≡ int (pos (2 * half))
    pub of_epsilon : require_positive_real block_allocation_error epsilon ≡ ok number
    pub of_alpha : f.exp (f.neg number) ≡ some alpha
    pub of_centre :
        f.div
          (f.sub f.one alpha)
          (f.sub (f.add f.one alpha) (f.mul f.two (fast_power alpha (half + 1))))
        ≡ some centre
    pub counted : length weights ≡ 2 * half + 1
    pub two_sided : IsTwoSided centre alpha half (suc half) weights

  -- For any arguments and any float operations, the weights that compute_weight returns are those
  -- of an even int capacity, one more than it, and the same on both sides of the centre: the
  -- centre has the pinned normalising constant, and each weight is the one before it times the
  -- multiplier, which starts at alpha and is multiplied by alpha after every weight.
  pub compute_weight-IsWeights :
      (capacity epsilon : Value W)
      → Ensures (IsWeights capacity epsilon) (compute_weight capacity epsilon)
  unfolding compute_weight centre_weight
  compute_weight-IsWeights capacity epsilon =
      let P = IsWeights capacity epsilon in
      Ensures-bind (λ (n : ℕ). (capacity ≡ int (pos n)) × (2 ≤ n) × (n % 2 ≡ 0)) P
        (require_even_positive capacity) _
        (Ensures-of_Settles (λ (n : ℕ). (capacity ≡ int (pos n)) × (2 ≤ n) × (n % 2 ≡ 0))
          (require_even_positive capacity) (require_even_positive-Settles capacity))
        (λ c _ (e, large, even).
          Ensures-then P (require_positive_real block_allocation_error epsilon) _
            (λ number accepted.
              Ensures-then P (or_raise (f.exp (f.neg number)) arithmetic_error) _ (λ alpha raised.
                Ensures-then P (centre_weight alpha (c / 2)) _ (λ centre centred.
                  let half = c / 2 in
                  let start = replicate (c + 1) f.nought in
                  let size = length-replicate (c + 1) f.nought in
                  let first = set start half centre in
                  let double : c ≡ 2 * half = omega (arith, even) in
                  let (r, made, counted, shaped) =
                    weight_loop-IsTwoSided centre alpha half half 0 first (omega arith)
                      (omega (arith, double, size, length-set start half centre))
                      (centre_written centre alpha half start (omega (arith, double, size))) in
                  rw (write_at_inside start half centre (omega (arith, size)), made)
                    (record {
                      half = half;
                      number = number;
                      alpha = alpha;
                      centre = centre;
                      of_capacity = e ∙ ap (λ n. int (pos n)) double;
                      of_epsilon = accepted;
                      of_alpha = or_raise_inv _ _ raised;
                      of_centre = or_raise_inv _ _ centred;
                      counted = omega (arith, counted);
                      two_sided = shaped;
                    })))))
