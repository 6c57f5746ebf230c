-- ===== src/Schedule/Allocation/Laws.antt =====
-- What `BoundBlockAllocation` returns when its checks pass.
use swat_letindex_baseline.Prelude.{
  ℕ, ◌≡◌, refl, pos, List, Bool, length, ◌==◌, not, ◌&&◌, ◌||◌, content_schedule_error, refuse_if,
  Ensures, Ensures-then,
}
use swat_letindex_baseline.Values.{Value, int, require_nat}
use swat_letindex_baseline.Values.Laws.{require_nat_inv}
use swat_letindex_baseline.Allocator.Plan.{BlockAllocationPlan}
use swat_letindex_baseline.Content.Interior.{InteriorPoint}
use swat_letindex_baseline.Schedule.Bins.{Side, BoundBlockBin, TaggedBinInteriorPoint}
use swat_letindex_baseline.Schedule.Allocation.{
  BoundBlockAllocation, make_bound_allocation, in_order, on_side, is_nil,
}

int-injective : (W : Type 0) (a b : ℕ) → Path (Value W) (int (pos a)) (int (pos b)) → a ≡ b
int-injective W a b h = cc

module _ {V W : Type 0} where
  -- The allocation with these fields.
  unfoldable pub allocation_of :
      Side
      → ℕ
      → ℕ
      → List (BoundBlockBin V)
      → BlockAllocationPlan W
      → List InteriorPoint
      → List TaggedBinInteriorPoint
      → Bool
      → BoundBlockAllocation V W
  allocation_of side level items bins plan interiors tagged sampled = record {
    side = side;
    level = level;
    items_per_block = items;
    bins = bins;
    plan = plan;
    interiors = interiors;
    tagged_interior_points = tagged;
    sampled = sampled;
  }

  pub make_bound_allocation_returns :
      (side : Side) (level items : ℕ) (bins : List (BoundBlockBin V)) (plan : BlockAllocationPlan W)
      (interiors : List InteriorPoint) (tagged : List TaggedBinInteriorPoint) (sampled : Bool)
      → Ensures
          (λ r. r ≡ allocation_of side level items bins plan interiors tagged sampled)
          (make_bound_allocation side
            (int (pos level))
            (int (pos items))
            bins
            plan
            interiors
            tagged
            sampled)
  unfolding make_bound_allocation allocation_of
  make_bound_allocation_returns side level items bins plan interiors tagged sampled =
      let P = λ (r : BoundBlockAllocation V W).
        r ≡ allocation_of side level items bins plan interiors tagged sampled in
      Ensures-then P (require_nat content_schedule_error (int (pos level)) 0) _ (λ l el.
        Ensures-then P (require_nat content_schedule_error (int (pos items)) 1) _ (λ i ei.
          let e1 : level ≡ l =
            int-injective W _ _
              (require_nat_inv content_schedule_error (int (pos level)) 0 l el).0 in
          let e2 : items ≡ i =
            int-injective W _ _
              (require_nat_inv content_schedule_error (int (pos items)) 1 i ei).0 in
          Ensures-then P (refuse_if (not (length bins == plan.bin_count)) content_schedule_error) _
            (λ _ _.
              Ensures-then P (refuse_if (not (in_order 0 bins)) content_schedule_error) _ (λ _ _.
                Ensures-then P
                  (refuse_if (not sampled && (not (is_nil interiors) || not (is_nil tagged)))
                    content_schedule_error)
                  _
                  (λ _ _.
                    Ensures-then P
                      (refuse_if (sampled && not (length interiors == length bins))
                        content_schedule_error)
                      _
                      (λ _ _.
                        Ensures-then P
                          (refuse_if (sampled && not (length tagged == length bins))
                            content_schedule_error)
                          _
                          (λ _ _.
                            Ensures-then P
                              (refuse_if (sampled && not (on_side side tagged))
                                content_schedule_error)
                              _ (λ _ _. rw (e1, e2) refl))))))))
