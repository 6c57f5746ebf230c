-- ===== src/Schedule/Sampling/Accepts.antt =====
-- A binding whose bins have their points is accepted, so sampling returns.
use swat_letindex_baseline.Prelude.{
  is_empty_text, ℕ, suc, ◌≤◌, ◌≡◌, refl, ap, pos, List, [], ◌∷◌, Option, true, false, length,
  ==_refl, content_schedule_error, Result, ok, Ensures-ok, arith,
}
use swat_letindex_baseline.Floats.{Floats, Streams}
use swat_letindex_baseline.Values.{Value, int}
use swat_letindex_baseline.Values.Laws.{require_nat_accepts, require_positive_real_accepts}
use swat_letindex_baseline.Content.Interior.{InteriorPoint}
use swat_letindex_baseline.Allocator.Plan.{BlockAllocationPlan}
use swat_letindex_baseline.Schedule.Bins.{
  Side, source, target, BoundBlockBin, TaggedBinInteriorPoint,
}
use swat_letindex_baseline.Schedule.Allocation.{
  BoundBlockAllocation, make_bound_allocation, in_order, on_side,
}
use swat_letindex_baseline.Schedule.Allocation.Laws.{allocation_of}
use swat_letindex_baseline.Schedule.Sampling.{
  sampled_bound, points_of, sample_with, sample_bin_interior_points, interior_stream_domain,
}
use swat_letindex_baseline.Schedule.Sampling.Laws.{AreChosen, points_of_lem}
use swat_letindex_baseline.Schedule.Sampling.Returns.{
  IsUsable, CanDraw, IsSameKind, points_of_returns,
}
use swat_letindex_baseline.Schedule.Merge.Laws.{AreChosen-count, side_eq_refl}

module _ {V : Type 0} where
  AreChosen-on_side :
      (side : Side) (bins : List (BoundBlockBin V)) (points : List InteriorPoint)
      (tagged : List TaggedBinInteriorPoint)
      → AreChosen side bins points tagged
      → (length points ≡ length bins) × (on_side side tagged ≡ true)
  unfolding on_side
  AreChosen-on_side side [] [] [] h = (refl, refl)
  AreChosen-on_side side [] [] (t ∷ tagged) h = elim h [ ]
  AreChosen-on_side side [] (point ∷ points) tagged h = elim h [ ]
  AreChosen-on_side side (bin ∷ bins) [] tagged h = elim h [ ]
  AreChosen-on_side side (bin ∷ bins) (point ∷ points) [] h = elim h [ ]
  AreChosen-on_side side (bin ∷ bins) (point ∷ points) (t ∷ tagged) (h, e, more) =
      let later = AreChosen-on_side side bins points tagged more in
      (ap suc later.0, rw (e, side_eq_refl side, later.1) refl)

module _ {V W : Type 0} where
  sampled_accepts :
      (side : Side) (level items : ℕ) (bins : List (BoundBlockBin V)) (plan : BlockAllocationPlan W)
      (points : List InteriorPoint) (tagged : List TaggedBinInteriorPoint)
      → 1 ≤ items
      → length bins ≡ plan.bin_count
      → in_order 0 bins ≡ true
      → AreChosen side bins points tagged
      → make_bound_allocation side (int (pos level)) (int (pos items)) bins plan points tagged true
        ≡ ok (allocation_of side level items bins plan points tagged true)
  unfolding make_bound_allocation allocation_of
  sampled_accepts side level items bins plan points tagged large counted ordered chosen =
      let (pointed, sided) = AreChosen-on_side side bins points tagged chosen in
      let marked = (AreChosen-count side bins points tagged chosen).1 in
      rw
        (
          require_nat_accepts W content_schedule_error level 0 (omega arith),
          require_nat_accepts W content_schedule_error items 1 large,
          counted,
          ordered,
          pointed,
          marked,
          sided,
          counted,
          ==_refl plan.bin_count,
        )
        refl

domain_is_named : (side : Side) → is_empty_text (interior_stream_domain side) ≡ false
domain_is_named source = refl
domain_is_named target = refl

-- An allocation that can be sampled: not yet sampled, with its bins numbered and counted.
pub record IsUnsampled {V W : Type 0} (bound : BoundBlockAllocation V W) : Type 0 where
  pub unsampled : bound.sampled ≡ false
  pub large : 1 ≤ bound.items_per_block
  pub counted : length bound.bins ≡ bound.plan.bin_count
  pub ordered : in_order 0 bound.bins ≡ true

module _ {S V W : Type 0} ⦃f : Floats W⦄ (streams : Streams S W) where
  -- Sampling returns, with a sampler of the same kind.
  pub sample_bin_interior_points_returns :
      {T : Type 0} (bound : BoundBlockAllocation V W) (draw : T → List W → Result (Value W × T))
      (sampler : Option T)
      → IsUnsampled bound
      → IsUsable bound.plan.config.privacy_epsilon
      → CanDraw streams draw sampler bound.plan.config.privacy_epsilon bound.bins
      → (r : BoundBlockAllocation V W × Option T) × (sample_bin_interior_points streams bound draw
            sampler
          ≡ ok r)
        × IsSameKind sampler r.1
  unfolding sample_bin_interior_points sample_with sampled_bound
  sample_bin_interior_points_returns bound draw sampler ready usable answers =
      let epsilon = bound.plan.config.privacy_epsilon in
      let seed = bound.plan.config.seed in
      let domain = interior_stream_domain bound.side in
      let (points, found, kind) =
        points_of_returns streams draw epsilon usable seed bound.side bound.bins sampler answers in
      let chosen =
        Ensures-ok
          (λ (r : List InteriorPoint × List TaggedBinInteriorPoint × Option _).
            AreChosen bound.side bound.bins r.0 r.1)
          (points_of streams draw sampler epsilon seed domain bound.side bound.bins)
          (points_of_lem streams draw sampler epsilon seed domain bound.side bound.bins) found in
      (
        (
          allocation_of bound.side bound.level bound.items_per_block bound.bins bound.plan points.0
              points.1 true,
          points.2,
        ),
        rw
            (
              ready.unsampled,
              require_positive_real_accepts content_schedule_error epsilon usable.finite
                  usable.positive,
              domain_is_named bound.side,
              found,
              sampled_accepts bound.side bound.level bound.items_per_block bound.bins bound.plan
                  points.0 points.1 ready.large ready.counted ready.ordered chosen,
            )
            refl,
        kind,
      )
