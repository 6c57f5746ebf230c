-- ===== src/Schedule/Sampling/Laws.antt =====
-- The interior points that sampling attaches.
use swat_letindex_baseline.Prelude.{
  is_empty_text, ℕ, ◌≡◌, refl, pos, List, [], ◌∷◌, Option, none, some, true, length, get_elem?,
  content_schedule_error, index_error, Result, ok, or_raise, or_raise_inv, refuse_if, Ensures,
  Ensures-then, Ensures-bind, arith, eqb_ℤ_refl,
}
use swat_letindex_baseline.Floats.{Floats, Streams}
use swat_letindex_baseline.Values.{Value, int, float, require_plain_int, require_positive_real}
use swat_letindex_baseline.Values.Laws.{require_nat_accepts}
use swat_letindex_baseline.Substrate.{RecordKey}
use swat_letindex_baseline.Distribution.Streams.{derive_stream_seed}
use swat_letindex_baseline.Content.Interior.{
  InteriorPoint, real, dummy_pos_inf, make_interior_point, interior_point_weights,
}
use swat_letindex_baseline.Schedule.Bins.{
  Side, BoundBlockBin, real_keys, TaggedBinInteriorPoint, expected_tag, make_tagged,
}
use swat_letindex_baseline.Schedule.Allocation.{BoundBlockAllocation}
use swat_letindex_baseline.Schedule.Allocation.Laws.{allocation_of, make_bound_allocation_returns}
use swat_letindex_baseline.Schedule.Sampling.{
  checked_index, point_of_keys, sample_points, sampled_bound, stream_draw, points_of, sample_with,
  sample_bin_interior_points, interior_stream_domain,
}

-- The interior point of a bin with these keys: the sentinel of a bin without a block, else one of the
-- bin's keys, with its index.
abbrev pub IsChosen : List RecordKey → InteriorPoint → Type 0
IsChosen [] point = point ≡ record { key = dummy_pos_inf; record_index = none }
IsChosen (key ∷ keys) point =
    (index : ℕ) × (chosen : RecordKey) × (get_elem? (key ∷ keys) index ≡ some chosen)
    × (point ≡ record { key = real chosen; record_index = some index })

-- The tag of a bin's point.
abbrev pub tag_of : Side → ℕ → InteriorPoint → TaggedBinInteriorPoint
tag_of side index point = record {
  side = side;
  bin_index = index;
  interior_point = point;
  signed_tag = expected_tag side index;
}

-- One point for each bin, in the order of the bins, each with the bin's tag.
abbrev pub AreChosen :
    {V : Type 0}
    → Side
    → List (BoundBlockBin V)
    → List InteriorPoint
    → List TaggedBinInteriorPoint
    → Type 0
AreChosen side [] [] [] = Unit
AreChosen side (bin ∷ bins) (point ∷ points) (tagged ∷ more) =
    IsChosen (real_keys bin) point
    × (tagged ≡ tag_of side bin.bin_index point)
    × AreChosen side bins points more
AreChosen side _ _ _ = ⊥

module _ (W : Type 0) where
  pub make_tagged_lem :
      (side : Side) (index : ℕ) (point : InteriorPoint)
      → make_tagged {W = W} side (int (pos index)) point (int (expected_tag side index))
        ≡ ok (tag_of side index point)
  unfolding make_tagged require_plain_int
  make_tagged_lem side index point =
      rw
        (
          require_nat_accepts W content_schedule_error index 0 (omega arith),
          eqb_ℤ_refl (expected_tag side index),
        )
        refl

module _ {W : Type 0} ⦃f : Floats W⦄ where
  point_of_keys_lem :
      {T : Type 0} (draw : T → List W → Result (Value W × T)) (epsilon : W) (keys : List RecordKey)
      (state : T)
      → Ensures (λ r. IsChosen keys r.0) (point_of_keys draw epsilon keys state)
  unfolding point_of_keys make_interior_point
  point_of_keys_lem draw epsilon [] state = refl
  point_of_keys_lem {T} draw epsilon (key ∷ keys) state =
      let P = λ (r : InteriorPoint × T). IsChosen (key ∷ keys) r.0 in
      Ensures-then P (interior_point_weights (int (pos (length (key ∷ keys)))) (float epsilon)) _
        (λ weights _. Ensures-then P (draw state weights) _ (λ drawn _.
          Ensures-then P (checked_index drawn.0 (length (key ∷ keys))) _ (λ index _.
            Ensures-then P (or_raise (get_elem? (key ∷ keys) index) index_error) _ (λ chosen e.
              rw (require_nat_accepts W content_schedule_error index 0 (omega arith))
                (index, chosen, or_raise_inv _ _ e, refl)))))

module _ {V W : Type 0} ⦃f : Floats W⦄ where
  sample_points_lem :
      {T : Type 0} (draw : T → List W → Result (Value W × T)) (epsilon : W) (side : Side)
      (bins : List (BoundBlockBin V)) (state : T)
      → Ensures (λ r. AreChosen side bins r.0 r.1) (sample_points draw epsilon side bins state)
  unfolding sample_points
  sample_points_lem draw epsilon side [] state = tt
  sample_points_lem {T} draw epsilon side (bin ∷ bins) state =
      let P = λ (r : List InteriorPoint × List TaggedBinInteriorPoint × T).
        AreChosen side (bin ∷ bins) r.0 r.1 in
      Ensures-bind (λ r. IsChosen (real_keys bin) r.0) P
        (point_of_keys draw epsilon (real_keys bin) state) _
        (point_of_keys_lem draw epsilon (real_keys bin) state)
        (λ sampled _ chosen. rw (make_tagged_lem W side bin.bin_index sampled.0) (
          Ensures-bind (λ r. AreChosen side bins r.0 r.1) P
            (sample_points draw epsilon side bins sampled.1) _
            (sample_points_lem draw epsilon side bins sampled.1)
            (λ rest _ more. (chosen, refl, more))))

-- The bound allocation with its interior points.
pub record IsSampled {V W : Type 0} (bound result : BoundBlockAllocation V W) : Type 0 where
  pub same :
      result
      ≡ allocation_of bound.side bound.level bound.items_per_block bound.bins bound.plan
          result.interiors result.tagged_interior_points true
  pub chosen : AreChosen bound.side bound.bins result.interiors result.tagged_interior_points

module _ {S V W : Type 0} ⦃f : Floats W⦄ (streams : Streams S W) where
  pub points_of_lem :
      {T : Type 0} (draw : T → List W → Result (Value W × T)) (sampler : Option T) (epsilon : W)
      (seed : ℕ) (domain : List ℕ) (side : Side) (bins : List (BoundBlockBin V))
      → Ensures
          (λ r. AreChosen side bins r.0 r.1)
          (points_of streams draw sampler epsilon seed domain side bins)
  unfolding points_of
  points_of_lem {T} draw none epsilon seed domain side bins =
      let P = λ (r : List InteriorPoint × List TaggedBinInteriorPoint × Option T).
        AreChosen side bins r.0 r.1 in
      Ensures-then P (derive_stream_seed streams (int (pos seed)) domain) _ (λ s _.
        Ensures-bind (λ r. AreChosen side bins r.0 r.1) P
          (sample_points (stream_draw streams) epsilon side bins (streams.seeded s)) _
          (sample_points_lem (stream_draw streams) epsilon side bins (streams.seeded s))
          (λ _ _ h. h))
  points_of_lem {T} draw (some injected) epsilon seed domain side bins =
      let P = λ (r : List InteriorPoint × List TaggedBinInteriorPoint × Option T).
        AreChosen side bins r.0 r.1 in
      Ensures-bind (λ r. AreChosen side bins r.0 r.1) P
        (sample_points draw epsilon side bins injected) _
        (sample_points_lem draw epsilon side bins injected) (λ _ _ h. h)

  -- Whatever the sampler returns or raises, an allocation that sample_bin_interior_points returns
  -- is the given one, marked as sampled, with one interior point per bin in the order of the
  -- bins: the sentinel for a bin without a record, else one of the bin's own keys with its index,
  -- tagged with the signed number of the bin.
  pub sample_bin_interior_points_lem :
      {T : Type 0} (bound : BoundBlockAllocation V W) (draw : T → List W → Result (Value W × T))
      (sampler : Option T)
      → Ensures (λ r. IsSampled bound r.0) (sample_bin_interior_points streams bound draw sampler)
  unfolding sample_bin_interior_points sample_with sampled_bound allocation_of
  sample_bin_interior_points_lem {T} bound draw sampler =
      let P = λ (r : BoundBlockAllocation V W × Option T). IsSampled bound r.0 in
      let domain = interior_stream_domain bound.side in
      Ensures-then P (refuse_if bound.sampled content_schedule_error) _ (λ _ _.
        Ensures-then P
          (require_positive_real content_schedule_error (float bound.plan.config.privacy_epsilon)) _
          (λ epsilon _.
            Ensures-then P (refuse_if (is_empty_text domain) content_schedule_error) _ (λ _ _.
              Ensures-bind (λ r. AreChosen bound.side bound.bins r.0 r.1) P
                (points_of streams draw sampler epsilon bound.plan.config.seed domain bound.side
                  bound.bins)
                _
                (points_of_lem draw sampler epsilon bound.plan.config.seed domain bound.side
                  bound.bins)
                (λ points _ chosen.
                  Ensures-bind
                    (λ r.
                      r
                      ≡ allocation_of bound.side bound.level bound.items_per_block bound.bins
                          bound.plan points.0 points.1 true)
                    P (sampled_bound bound points.0 points.1) _
                    (make_bound_allocation_returns bound.side bound.level bound.items_per_block
                      bound.bins bound.plan points.0 points.1 true)
                    (λ result _ e. rw e (record { same = refl; chosen = chosen }))))))
