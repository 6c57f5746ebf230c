-- ===== src/Schedule/Sampling.antt =====
-- content_schedule.py: `_sample_bin_interior_points` and `sample_bin_interior_points`.
pub mod Laws
pub mod Returns
pub mod Accepts
use swat_letindex_baseline.Prelude.{
  codes, is_empty_text, ℕ, ℤ, pos, ltb, List, [], ◌∷◌, Option, none, some, Bool, true, length,
  get_elem?, not, refuse_if, or_raise, content_schedule_error, index_error, Result, ok, err, ◌>>=◌,
  ◌>>◌, if◌then◌else◌,
}
use swat_letindex_baseline.Floats.{Floats, Streams}
use swat_letindex_baseline.Values.{
  Value, int, float, require_nat, require_plain_int, require_positive_real,
}
use swat_letindex_baseline.Substrate.{RecordKey}
use swat_letindex_baseline.Distribution.Streams.{derive_stream_seed}
use swat_letindex_baseline.Content.Interior.{
  InteriorPoint, real, dummy_pos_inf, make_interior_point, interior_point_weights, draw_index,
}
use swat_letindex_baseline.Schedule.Bins.{
  Side, source, target, BoundBlockBin, real_keys, TaggedBinInteriorPoint, expected_tag, make_tagged,
}
use swat_letindex_baseline.Schedule.Allocation.{BoundBlockAllocation, make_bound_allocation}

-- STREAM_DOMAIN_INTERIOR_SOURCE, STREAM_DOMAIN_INTERIOR_TARGET and `interior_stream_domain`
abbrev pub interior_stream_domain : Side → List ℕ
interior_stream_domain source = codes "swat-m-block/interior/source"
interior_stream_domain target = codes "swat-m-block/interior/target"

module _ {W : Type 0} ⦃f : Floats W⦄ where
  -- The index of a chosen record must be a plain int inside the bin.
  checked_index : Value W → ℕ → Result ℕ
  checked_index index count = do
    chosen ← require_nat content_schedule_error index 0
    refuse_if (not (ltb chosen count)) content_schedule_error
    ok chosen

  -- The interior point of a bin with these keys. `draw` chooses an index by a weight vector; it has a
  -- state, and may return any value or raise.
  point_of_keys :
      {T : Type 0}
      → (T → List W → Result (Value W × T))
      → W
      → List RecordKey
      → T
      → Result (InteriorPoint × T)
  unfolding checked_index
  point_of_keys draw epsilon [] state = do
    point ← make_interior_point {W = W} dummy_pos_inf none
    ok (point, state)
  point_of_keys draw epsilon (key ∷ keys) state = do
    weights ← interior_point_weights (int (pos (length (key ∷ keys)))) (float epsilon)
    drawn ← draw state weights
    index ← checked_index drawn.0 (length (key ∷ keys))
    chosen ← or_raise (get_elem? (key ∷ keys) index) index_error
    point ← make_interior_point {W = W} (real chosen) (some (int (pos index)))
    ok (point, drawn.1)

module _ {V W : Type 0} ⦃f : Floats W⦄ where
  -- `for bin_ in bound.bins`
  sample_points :
      {T : Type 0}
      → (T → List W → Result (Value W × T))
      → W
      → Side
      → List (BoundBlockBin V)
      → T
      → Result (List InteriorPoint × List TaggedBinInteriorPoint × T)
  sample_points draw epsilon side [] state = ok ([], [], state)
  sample_points draw epsilon side (bin ∷ bins) state = do
    sampled ← point_of_keys draw epsilon (real_keys bin) state
    tagged ←
        make_tagged {W = W} side (int (pos bin.bin_index)) sampled.0
          (int (expected_tag side bin.bin_index))
    rest ← sample_points draw epsilon side bins sampled.1
    ok (sampled.0 ∷ rest.0, tagged ∷ rest.1, rest.2)

  -- `replace(bound, interiors=..., tagged_interior_points=..., sampled=True)`
  sampled_bound :
      BoundBlockAllocation V W
      → List InteriorPoint
      → List TaggedBinInteriorPoint
      → Result (BoundBlockAllocation V W)
  sampled_bound bound interiors tagged =
      make_bound_allocation bound.side (int (pos bound.level)) (int (pos bound.items_per_block))
        bound.bins bound.plan interiors tagged true

module _ {S W : Type 0} ⦃f : Floats W⦄ (streams : Streams S W) where
  -- The draw of the planner-owned stream.
  unfoldable pub stream_draw : S → List W → Result (Value W × S)
  stream_draw stream weights = do
    drawn ← draw_index streams stream weights
    ok (int (pos drawn.0), drawn.1)

module _ {S V W : Type 0} ⦃f : Floats W⦄ (streams : Streams S W) where
  -- The points of the default sampler, from a fresh stream, or of an injected one, whose state comes
  -- back.
  pub points_of :
      {T : Type 0}
      → (T → List W → Result (Value W × T))
      → Option T
      → W
      → ℕ
      → List ℕ
      → Side
      → List (BoundBlockBin V)
      → Result (List InteriorPoint × List TaggedBinInteriorPoint × Option T)
  points_of draw none epsilon seed domain side bins = do
    stream_seed ← derive_stream_seed streams (int (pos seed)) domain
    points ← sample_points (stream_draw streams) epsilon side bins (streams.seeded stream_seed)
    ok (points.0, points.1, none)
  points_of draw (some injected) epsilon seed domain side bins = do
    points ← sample_points draw epsilon side bins injected
    ok (points.0, points.1, some points.2)

  -- `_sample_bin_interior_points`
  sample_with :
      {T : Type 0}
      → BoundBlockAllocation V W
      → W
      → ℕ
      → List ℕ
      → (T → List W → Result (Value W × T))
      → Option T
      → Result (BoundBlockAllocation V W × Option T)
  unfolding points_of stream_draw sample_points point_of_keys sampled_bound
  sample_with bound privacy_epsilon seed domain draw sampler = do
    refuse_if bound.sampled content_schedule_error
    epsilon ← require_positive_real content_schedule_error (float privacy_epsilon)
    refuse_if (is_empty_text domain) content_schedule_error
    points ← points_of draw sampler epsilon seed domain bound.side bound.bins
    result ← sampled_bound bound points.0 points.1
    ok (result, points.2)

  unfoldable pub sample_bin_interior_points :
      {T : Type 0}
      → BoundBlockAllocation V W
      → (T → List W → Result (Value W × T))
      → Option T
      → Result (BoundBlockAllocation V W × Option T)
  unfolding sample_with
  sample_bin_interior_points bound draw sampler =
      sample_with bound bound.plan.config.privacy_epsilon bound.plan.config.seed
        (interior_stream_domain bound.side) draw sampler
