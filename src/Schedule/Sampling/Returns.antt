-- ===== src/Schedule/Sampling/Returns.antt =====
-- When sampling returns: a sampler that answers every draw.
use swat_letindex_baseline.Prelude.{
  ℕ, zero, All, suc, ◌<◌, ◌≡◌, refl, ap, sym, ◌∙◌, pos, List, [], ◌∷◌, Option, none, some, true,
  false, length, get_elem?-some, suc-==_zero, map, length-map, length-count_up, range_zero, range,
  min, ◌-◌, ◌+◌, lt→ltb, content_schedule_error, Result, ok, arith,
}
use swat_letindex_baseline.Floats.{Floats, Streams}
use swat_letindex_baseline.Values.{Value, int, float}
use swat_letindex_baseline.Values.Laws.{require_nat_accepts, require_positive_real_accepts}
use swat_letindex_baseline.Substrate.{RecordKey}
use swat_letindex_baseline.Distribution.Streams.{derive_stream_seed}
use swat_letindex_baseline.Distribution.Streams.Laws.{derive_stream_seed_returns}
use swat_letindex_baseline.Distribution.Numbers.{fast_power}
use swat_letindex_baseline.Content.Interior.{
  InteriorPoint, real, make_interior_point, interior_point_weights, draw_index,
}
use swat_letindex_baseline.Distribution.Samplers.{accumulate}
use swat_letindex_baseline.Distribution.Samplers.Laws.{pick_lem}
use swat_letindex_baseline.Schedule.Bins.{
  Side, source, target, BoundBlockBin, real_keys, TaggedBinInteriorPoint,
}
use swat_letindex_baseline.Schedule.Sampling.{
  checked_index, point_of_keys, sample_points, stream_draw, points_of, interior_stream_domain,
}
use swat_letindex_baseline.Schedule.Sampling.Laws.{tag_of, make_tagged_lem}

module _ {W : Type 0} ⦃f : Floats W⦄ where
  -- An epsilon that the weights can be computed from: finite, positive, and `math.exp` takes it.
  pub record IsUsable (epsilon : W) : Type 0 where
    pub finite : f.is_finite epsilon ≡ true
    pub positive : f.le epsilon f.nought ≡ false
    pub base : W
    pub raised : f.exp epsilon ≡ some base

  -- A sampler that answers every draw for a bin of so many records by the index of one of them. A bin
  -- without a record is not drawn for.
  abbrev pub Answers : {T : Type 0} → (T → List W → Result (Value W × T)) → W → ℕ → Type 0
  Answers draw epsilon zero = Unit
  Answers {T} draw epsilon (suc records) =
      (state : T) (weights : List W)
      → interior_point_weights (int (pos (suc records))) (float epsilon) ≡ ok weights
      → (index : ℕ) × (next : T) × (draw state weights ≡ ok (int (pos index), next))
        × (index < suc records)

  pub weights_returns :
      (epsilon : W) (records : ℕ)
      → IsUsable epsilon
      → (weights : List W) × (interior_point_weights (int (pos (suc records))) (float epsilon)
          ≡ ok weights)
  unfolding interior_point_weights
  weights_returns epsilon records usable = (
    map (λ index. fast_power usable.base (min index (suc records - index) + 1))
        (range 0 (suc records)),
    rw
        (
          require_nat_accepts W content_schedule_error (suc records) 0 (omega arith),
          require_positive_real_accepts content_schedule_error epsilon usable.finite
              usable.positive,
          suc-==_zero records,
          usable.raised,
        )
        refl,
  )

  module _ {T : Type 0} (draw : T → List W → Result (Value W × T)) (epsilon : W)
      (usable : IsUsable epsilon) where
    point_of_keys_returns :
        (keys : List RecordKey) (state : T)
        → Answers draw epsilon (length keys)
        → (r : InteriorPoint × T) × (point_of_keys draw epsilon keys state ≡ ok r)
    unfolding point_of_keys make_interior_point checked_index
    point_of_keys_returns [] state answers = (_, refl)
    point_of_keys_returns (key ∷ keys) state answers =
        let (weights, weighted) = weights_returns epsilon (length keys) usable in
        let (index, next, drawn, inside) = answers state weights weighted in
        let (chosen, found) = get_elem?-some (key ∷ keys) index inside in
        (
          (record { key = real chosen; record_index = some index }, next),
          rw
              (
                weighted,
                drawn,
                require_nat_accepts W content_schedule_error index 0 (omega arith),
                lt→ltb index (suc (length keys)) inside,
                found,
                require_nat_accepts W content_schedule_error index 0 (omega arith),
              )
              refl,
        )

  module _ {T V : Type 0} (draw : T → List W → Result (Value W × T)) (epsilon : W)
      (usable : IsUsable epsilon) (side : Side) where
    sample_points_returns :
        (bins : List (BoundBlockBin V)) (state : T)
        → All (λ bin. Answers draw epsilon (length (real_keys bin))) bins
        → (r : List InteriorPoint × List TaggedBinInteriorPoint × T) × (sample_points draw epsilon
              side bins state
            ≡ ok r)
    unfolding sample_points
    sample_points_returns [] state answers = (([], [], state), refl)
    sample_points_returns (bin ∷ bins) state (answered, answers) =
        let (sampled, first) =
          point_of_keys_returns draw epsilon usable (real_keys bin) state answered in
        let (rest, later) = sample_points_returns bins sampled.1 answers in
        (
          (sampled.0 ∷ rest.0, tag_of side bin.bin_index sampled.0 ∷ rest.1, rest.2),
          rw (first, make_tagged_lem W side bin.bin_index sampled.0, later) refl,
        )

  -- The weights of so many records add up to a positive number. A bin without a record needs none.
  abbrev pub AddUp : W → ℕ → Type 0
  AddUp epsilon zero = Unit
  AddUp epsilon (suc records) =
      (weights : List W) × (total : W) × (interior_point_weights (int (pos (suc records)))
          (float epsilon)
        ≡ ok weights)
      × (f.fsum weights ≡ some total)
      × (f.lt f.nought total ≡ true)

  length-weights :
      (epsilon : W) (records : ℕ) (weights : List W)
      → IsUsable epsilon
      → interior_point_weights (int (pos (suc records))) (float epsilon) ≡ ok weights
      → length weights ≡ suc records
  unfolding weights_returns
  length-weights epsilon records weights usable weighted =
      let (computed, same) = weights_returns epsilon records usable in
      let e : computed ≡ weights = cc (same, weighted) in
      ap length (sym e)
      ∙ length-map _ (range 0 (suc records))
      ∙ ap length (range_zero (suc records))
      ∙ length-count_up 0 (suc records)

module _ {S W : Type 0} ⦃f : Floats W⦄ (streams : Streams S W) where
  -- The default sampler answers if the weights add up.
  stream-Answers :
      (epsilon : W) (records : ℕ)
      → IsUsable epsilon
      → AddUp epsilon records
      → Answers (stream_draw streams) epsilon records
  unfolding stream_draw draw_index
  stream-Answers epsilon zero usable adds = tt
  stream-Answers epsilon (suc records) usable (known, total, computed, added, positive) =
      λ state weights weighted.
        let counted = length-weights epsilon records weights usable weighted in
        let same : known ≡ weights = cc (computed, weighted) in
        let summed = rw same at added in
        let drawn = streams.random state in
        let (index, found, inside) =
          pick_lem weights (accumulate f.nought weights).0 (f.mul drawn.0 total)
            (omega (arith, counted)) in
        (index, drawn.1, rw (summed, positive, found) refl, omega (arith, counted, inside))

  stream-Answers-All :
      {V : Type 0} (epsilon : W) (bins : List (BoundBlockBin V))
      → IsUsable epsilon
      → All (λ bin. AddUp epsilon (length (real_keys bin))) bins
      → All (λ bin. Answers (stream_draw streams) epsilon (length (real_keys bin))) bins
  stream-Answers-All epsilon [] usable adds = tt
  stream-Answers-All epsilon (bin ∷ bins) usable (adds, more) = (
    stream-Answers epsilon (length (real_keys bin)) usable adds,
    stream-Answers-All epsilon bins usable more,
  )

-- The two kinds of sampler: the default one, and an injected one.
abbrev pub IsSameKind : {T : Type 0} → Option T → Option T → Type 0
IsSameKind none none = Unit
IsSameKind (some a) (some b) = Unit
IsSameKind _ _ = ⊥

module _ {S W : Type 0} ⦃f : Floats W⦄ (streams : Streams S W) where
  -- For each of these bins, the weights that the default sampler draws by add up, or the injected
  -- sampler answers.
  abbrev pub CanDraw :
      {T V : Type 0}
      → (T → List W → Result (Value W × T))
      → Option T
      → W
      → List (BoundBlockBin V)
      → Type 0
  CanDraw draw none epsilon bins = All (λ bin. AddUp epsilon (length (real_keys bin))) bins
  CanDraw draw (some injected) epsilon bins =
      All (λ bin. Answers draw epsilon (length (real_keys bin))) bins

  seed_returns :
      (seed : ℕ) (side : Side)
      → (s : ℕ) × (derive_stream_seed streams (int (pos seed)) (interior_stream_domain side) ≡ ok s)
  seed_returns seed source =
      (_, derive_stream_seed_returns streams seed (interior_stream_domain source) refl)
  seed_returns seed target =
      (_, derive_stream_seed_returns streams seed (interior_stream_domain target) refl)

  module _ {T V : Type 0} (draw : T → List W → Result (Value W × T)) (epsilon : W)
      (usable : IsUsable epsilon) (seed : ℕ) (side : Side) (bins : List (BoundBlockBin V)) where
    pub points_of_returns :
        (sampler : Option T)
        → CanDraw draw sampler epsilon bins
        → (r : List InteriorPoint × List TaggedBinInteriorPoint × Option T) × (points_of streams
              draw sampler epsilon seed
              (interior_stream_domain side)
              side
              bins
            ≡ ok r)
          × IsSameKind sampler r.2
    unfolding points_of
    points_of_returns none answers =
        let (s, seeded) = seed_returns seed side in
        let (points, found) =
          sample_points_returns (stream_draw streams) epsilon usable side bins (streams.seeded s)
            (stream-Answers-All streams epsilon bins usable answers) in
        ((points.0, points.1, none), rw (seeded, found) refl, tt)
    points_of_returns (some injected) answers =
        let (points, found) =
          sample_points_returns draw epsilon usable side bins injected answers in
        ((points.0, points.1, some points.2), rw found refl, tt)
