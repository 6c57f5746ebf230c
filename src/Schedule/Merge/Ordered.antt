-- ===== src/Schedule/Merge/Ordered.antt =====
-- The interior points of a side ascend along its bins.
use mathlib.Core.Path.{subst}
use swat_letindex_baseline.Prelude.{
  sym, List, [], ◌∷◌, ◌++◌, Option, length, Result, Ensures, Ensures-map,
}
use swat_letindex_baseline.Floats.{Floats, Streams}
use swat_letindex_baseline.Values.{Value}
use swat_letindex_baseline.Substrate.{RecordKey, key_lt}
use swat_letindex_baseline.Substrate.Laws.{key_lt_trans}
use swat_letindex_baseline.Sorting.Laws.{IsStrict}
use swat_letindex_baseline.Sorting.Sublists.{Sublist, done, Sublist-one, Sublist-IsStrict}
use swat_letindex_baseline.Content.Snapshot.{keys_of}
use swat_letindex_baseline.Content.Interior.{PointKey, real, dummy_pos_inf, InteriorPoint}
use swat_letindex_baseline.Content.RunView.{LogicalBlockRunView, records, keys}
use swat_letindex_baseline.Content.RunView.Laws.{IsRun, keys_of-append}
use swat_letindex_baseline.Allocator.Plan.{BlockAllocationPlan}
use swat_letindex_baseline.Allocator.Allocate.Outcome.{IsSoundPlan}
use swat_letindex_baseline.Schedule.Bins.{Side, BoundBlockBin, TaggedBinInteriorPoint, real_keys}
use swat_letindex_baseline.Schedule.Bins
use swat_letindex_baseline.Schedule.Allocation.{BoundBlockAllocation, records_of_bins, real_records}
use swat_letindex_baseline.Schedule.Sampling.Laws.{IsChosen, AreChosen}
use swat_letindex_baseline.Schedule.Merge.{plan_swat_block_merge_schedule}
use swat_letindex_baseline.Schedule.Merge.Planned.{
  IsBoundSide, IsPlannedMerge, plan_swat_block_merge_schedule_lem,
}

-- The keys of the points that are no sentinels.
abbrev pub with_key : PointKey → List RecordKey → List RecordKey
with_key (real key) keys = key ∷ keys
with_key dummy_pos_inf keys = keys

abbrev pub chosen_keys : List InteriorPoint → List RecordKey
chosen_keys [] = []
chosen_keys (point ∷ points) = with_key point.key (chosen_keys points)

chosen-Sublist :
    (keys : List RecordKey) (point : InteriorPoint) (xs ys : List RecordKey)
    → IsChosen keys point
    → Sublist xs ys
    → Sublist (with_key point.key xs) (keys ++ ys)
chosen-Sublist [] point xs ys h s = rw h s
chosen-Sublist (key ∷ keys) point xs ys (index, chosen, found, e) s =
    rw e (Sublist-one (key ∷ keys) index chosen found s)

module _ {V : Type 0} where
  AreChosen-Sublist :
      (side : Side) (bins : List (BoundBlockBin V)) (points : List InteriorPoint)
      (tagged : List TaggedBinInteriorPoint)
      → AreChosen side bins points tagged
      → Sublist (chosen_keys points) (keys_of (records_of_bins bins))
  AreChosen-Sublist side [] [] [] h = done
  AreChosen-Sublist side [] [] (t ∷ tagged) h = elim h [ ]
  AreChosen-Sublist side [] (point ∷ points) tagged h = elim h [ ]
  AreChosen-Sublist side (bin ∷ bins) [] tagged h = elim h [ ]
  AreChosen-Sublist side (bin ∷ bins) (point ∷ points) [] h = elim h [ ]
  AreChosen-Sublist side (bin ∷ bins) (point ∷ points) (t ∷ tagged) (h, e, more) =
      rw (keys_of-append (Bins.real_records bin) (records_of_bins bins)) (
        chosen-Sublist (real_keys bin) point (chosen_keys points) (keys_of (records_of_bins bins)) h
          (AreChosen-Sublist side bins points tagged more))

module _ {V W : Type 0} where
  bound_side-IsStrict :
      (run : LogicalBlockRunView V) (plan : BlockAllocationPlan W) (side : Side)
      (bound : BoundBlockAllocation V W)
      → IsRun run
      → IsBoundSide run plan side bound
      → IsStrict key_lt (chosen_keys bound.interiors)
  unfolding real_records keys records
  bound_side-IsStrict run plan side bound valid h =
      Sublist-IsStrict key_lt key_lt_trans (chosen_keys bound.interiors)
        (keys_of (records_of_bins bound.bins))
        (AreChosen-Sublist side bound.bins bound.interiors bound.tagged_interior_points
          h.sampled.chosen)
        (subst (λ held. IsStrict key_lt (keys_of held)) (sym h.held) valid.strict)

module _ {S V W : Type 0} ⦃f : Floats W⦄ (streams : Streams S W) where
  -- For two valid runs with sound plans of their block counts, and whatever an interior-index
  -- sampler returns or raises: in a schedule that plan_swat_block_merge_schedule returns, the
  -- keys of the interior points of each side that are no sentinels strictly increase along the
  -- bins.
  pub interior_points-IsStrict :
      {T : Type 0} (source_run target_run : LogicalBlockRunView V)
      (source_plan target_plan : BlockAllocationPlan W) (draw : T → List W → Result (Value W × T))
      (sampler : Option T)
      → IsRun source_run
      → IsRun target_run
      → IsSoundPlan (length source_run.blocks) source_plan
      → IsSoundPlan (length target_run.blocks) target_plan
      → Ensures
          (λ schedule.
            IsStrict key_lt (chosen_keys schedule.from.interiors)
            × IsStrict key_lt (chosen_keys schedule.to.interiors))
          (plan_swat_block_merge_schedule streams source_run target_run source_plan target_plan draw
            sampler)
  interior_points-IsStrict source_run target_run source_plan target_plan draw sampler valid_s
        valid_t sound_s sound_t =
      Ensures-map (IsPlannedMerge source_run target_run source_plan target_plan) _
        (plan_swat_block_merge_schedule streams source_run target_run source_plan target_plan draw
          sampler)
        (plan_swat_block_merge_schedule_lem streams source_run target_run source_plan target_plan
          draw sampler valid_s valid_t sound_s sound_t)
        (λ schedule _ h. (
          bound_side-IsStrict source_run source_plan _ schedule.from valid_s h.from_side,
          bound_side-IsStrict target_run target_plan _ schedule.to valid_t h.to_side,
        ))
