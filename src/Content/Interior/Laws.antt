-- ===== src/Content/Interior/Laws.antt =====
-- The draw of a record by the weights of a bin.
use swat_letindex_baseline.Prelude.{
  ℕ, ◌<◌, ◌≡◌, refl, ◌⊎◌, inl, inr, Bool-cases, true, false, List, length, some,
  content_schedule_error, ok, err,
}
use swat_letindex_baseline.Floats.{Floats, Streams}
use swat_letindex_baseline.Distribution.Samplers.{accumulate}
use swat_letindex_baseline.Distribution.Samplers.Boundary.{IsPicked, pick-IsPicked}
use swat_letindex_baseline.Content.Interior.{draw_index}

module _ {S W : Type 0} ⦃f : Floats W⦄ (streams : Streams S W) where
  -- For weights that are not empty and whose sum math.fsum gives: if the sum is positive, the
  -- draw returns an index of the weights, where the search among the running sums for the drawn
  -- number stops, so that the sum before is not above it and the sum there is, or the last index
  -- if the search stops behind it; and if the sum is not positive, the draw raises the error of
  -- the module.
  pub draw_index_lem :
      (stream : S) (weights : List W) (total : W)
      → 0 < length weights
      → f.fsum weights ≡ some total
      → ((f.lt f.nought total ≡ true)
          × (index : ℕ) × (draw_index streams stream weights
              ≡ ok (index, (streams.random stream).1))
          × IsPicked
              (length weights)
              (accumulate f.nought weights).0
              (f.mul (streams.random stream).0 total)
              index)
        ⊎ ((f.lt f.nought total ≡ false)
            × (draw_index streams stream weights ≡ err content_schedule_error))
  unfolding draw_index
  draw_index_lem stream weights total p summed = elim (Bool-cases (f.lt f.nought total)) [
    | inl positive ↦
        let drawn = streams.random stream in
        let (index, found, picked) =
          pick-IsPicked weights (accumulate f.nought weights).0 (f.mul drawn.0 total) p in
        inl (positive, index, rw (summed, positive, found) refl, picked)
    | inr other ↦ inr (other, rw (summed, other) refl)
  ]
