-- ===== src/Allocator/Allocate/Steps.antt =====
-- The steps of `allocate_block_bins` end, with the default sampler or one that does not raise what the
-- allocator never raises itself.
use swat_letindex_baseline.Prelude.{
  is_empty_text, Ensures-map, ℕ, zero, suc, pos, List, Option, none, some, not, AnyValue,
  Settles-guard, Settles-if, Settles-raise, Settles-of_Ensures, ltb, ◌==◌, block_allocation_error,
  arithmetic_error, Result, ok, ◌>>=◌, Settles, Settles-bind, Settles-then, Settles-any,
  Settles-or_raise,
}
use swat_letindex_baseline.Floats.{Floats, Streams}
use swat_letindex_baseline.Values.{Value, int, float, require_nat, require_positive_real}
use swat_letindex_baseline.Values.Laws.{require_nat-Settles, require_positive_real-Settles}
use swat_letindex_baseline.Distribution.Numbers.{
  atomic_bucket_capacity_blocks, decay, require_even_positive,
}
use swat_letindex_baseline.Distribution.Weights.{compute_weight}
use swat_letindex_baseline.Distribution.Weights.Laws.{
  compute_weight_lem, require_even_positive-Settles,
}
use swat_letindex_baseline.Distribution.Sizing.Laws.{decay-Settles}
use swat_letindex_baseline.Distribution.Streams.{stream_domain_loads, derive_stream_seed}
use swat_letindex_baseline.Distribution.Samplers.{GeometricLoadSampler, make_geometric, accumulate}
use swat_letindex_baseline.Distribution.Samplers.Laws.{
  IsSampler, make_geometric-IsSampler, sample_geometric_lem,
}
use swat_letindex_baseline.Allocator.Config.{
  SwatBlockAllocationConfig, compute_factor, compute_bin_count,
}
use swat_letindex_baseline.Allocator.Allocate.{
  require_load, draw_loads, geometric_draw, sampled_loads_of,
}

module _ {W : Type 0} where
  -- A check of an int in front of a step that settles.
  pub Settles-nat {κ} :
      {B : Type κ} (P : B → Type 0) (v : Value W) (minimum : ℕ) (k : ℕ → Result B)
      → ((n : ℕ) → Settles P (k n))
      → Settles P (require_nat block_allocation_error v minimum >>= k)
  Settles-nat P v minimum k next =
      Settles-then P (require_nat block_allocation_error v minimum) k
        (Settles-any _ _ (require_nat-Settles block_allocation_error v minimum tt)) next

  require_load-Settles :
      (value : Value W) (capacity : ℕ) → Settles AnyValue (require_load value capacity)
  unfolding require_load
  require_load-Settles value capacity =
      Settles-nat AnyValue value 0 _
        (λ load. Settles-guard AnyValue (ltb capacity load) block_allocation_error _ tt tt)

  -- A sampler with an invariant settles on its loads.
  pub draw_loads-Settles :
      {T : Type 0} (I : T → Type 0) (sample : T → Result (Value W × T)) (capacity rounds : ℕ)
      (state : T)
      → ((s : T) → I s → Settles (λ r. I r.1) (sample s))
      → I state
      → Settles AnyValue (draw_loads sample capacity rounds state)
  unfolding draw_loads
  draw_loads-Settles I sample capacity zero state keeps h = tt
  draw_loads-Settles I sample capacity (suc rounds) state keeps h =
      Settles-bind (λ (r : Value W × _). I r.1) AnyValue (sample state) _ (keeps state h)
        (λ drawn _ later.
          Settles-then AnyValue (require_load drawn.0 capacity) _
            (require_load-Settles drawn.0 capacity)
            (λ load.
              Settles-then AnyValue (draw_loads sample capacity rounds drawn.1) _
                (draw_loads-Settles I sample capacity rounds drawn.1 keeps later) (λ _. tt)))

  -- A sampler that is not the default one raises neither IndexError nor what is no exception.
  abbrev pub IsTame : {T : Type 0} → (T → Result (Value W × T)) → Option T → Type 0
  IsTame sample none = Unit
  IsTame {T} sample (some _) = (state : T) → Settles (λ _. Unit) (sample state)

module _ {W : Type 0} ⦃f : Floats W⦄ where
  pub compute_factor-Settles :
      (lam capacity : Value W) → Settles AnyValue (compute_factor lam capacity)
  unfolding compute_factor
  compute_factor-Settles lam capacity = Settles-nat AnyValue lam 2 _ (λ checked.
      Settles-nat AnyValue capacity 2 _ (λ blocks.
        Settles-then AnyValue (decay checked) _ (decay-Settles W checked) (λ decayed.
          Settles-guard AnyValue (not (f.lt f.nought decayed)) block_allocation_error _ tt (
            Settles-raise AnyValue (f.of_int (pos atomic_bucket_capacity_blocks)) arithmetic_error _
              tt
              (λ buckets.
                Settles-raise AnyValue (f.of_int (pos blocks)) arithmetic_error _ tt (λ count.
                  Settles-or_raise (f.div (f.mul f.two buckets) (f.mul count decayed))
                    arithmetic_error tt))))))

  pub compute_bin_count-Settles :
      (rate blocks : Value W) → Settles AnyValue (compute_bin_count rate blocks)
  unfolding compute_bin_count
  compute_bin_count-Settles rate blocks =
      Settles-then AnyValue (require_positive_real block_allocation_error rate) _
        (require_positive_real-Settles block_allocation_error rate tt)
        (λ factor. Settles-nat AnyValue blocks 0 _ (λ count.
          Settles-if AnyValue (count == 0) (ok (pos 0)) _ tt (
            Settles-raise AnyValue (f.of_int (pos count)) arithmetic_error _ tt
              (λ real. Settles-or_raise (f.ceil (f.mul factor real)) arithmetic_error tt))))

module _ {S W : Type 0} ⦃f : Floats W⦄ (streams : Streams S W) where
  derive_stream_seed-Settles :
      (seed : Value W) (domain : List ℕ) → Settles AnyValue (derive_stream_seed streams seed domain)
  unfolding derive_stream_seed
  derive_stream_seed-Settles seed domain =
      Settles-nat AnyValue seed 0 _
        (λ base. Settles-guard AnyValue (is_empty_text domain) block_allocation_error _ tt tt)

  make_geometric-Settles :
      (capacity epsilon seed : Value W) (domain : List ℕ)
      → Settles AnyValue (make_geometric streams capacity epsilon seed domain)
  unfolding make_geometric
  make_geometric-Settles capacity epsilon seed domain =
      Settles-then AnyValue (require_even_positive capacity) _
        (Settles-any _ _ (require_even_positive-Settles capacity))
        (λ c.
          Settles-then AnyValue (require_positive_real block_allocation_error epsilon) _
            (require_positive_real-Settles block_allocation_error epsilon tt)
            (λ eps.
              Settles-then AnyValue (compute_weight (int (pos c)) (float eps)) _
                (Settles-any _ _ (compute_weight_lem (int (pos c)) (float eps)))
                (λ weights.
                  Settles-guard AnyValue (not (f.lt f.nought (accumulate f.nought weights).1))
                    block_allocation_error _ tt
                    (Settles-then AnyValue (derive_stream_seed streams seed domain) _
                      (derive_stream_seed-Settles seed domain) (λ _. tt)))))

  geometric_draw-Settles :
      (sampler : GeometricLoadSampler S W)
      → IsSampler sampler
      → Settles (λ r. IsSampler r.1) (geometric_draw streams sampler)
  unfolding geometric_draw
  geometric_draw-Settles sampler valid =
      let (r, drawn, _, later, _) = sample_geometric_lem streams sampler valid in rw drawn later

  pub sampled_loads_of-Settles :
      {T : Type 0} (sample : T → Result (Value W × T)) (sampler : Option T)
      (config : SwatBlockAllocationConfig W) (capacity count : ℕ)
      → IsTame sample sampler
      → Settles AnyValue (sampled_loads_of streams sample sampler config capacity count)
  unfolding sampled_loads_of
  sampled_loads_of-Settles sample none config capacity count tame =
      let made =
        make_geometric streams (int (pos capacity)) (float config.privacy_epsilon)
          (int (pos config.seed)) stream_domain_loads in
      Settles-bind IsSampler AnyValue made _
        (Settles-of_Ensures IsSampler made
          (Ensures-map
            (λ (g : GeometricLoadSampler S W).
              IsSampler g × Path (Value W) (int (pos capacity)) (int (pos g.bin_capacity_blocks)))
            IsSampler made
            (make_geometric-IsSampler streams (int (pos capacity)) (float config.privacy_epsilon)
              (int (pos config.seed)) stream_domain_loads)
            (λ g _ h. h.0))
          (make_geometric-Settles (int (pos capacity)) (float config.privacy_epsilon)
            (int (pos config.seed)) stream_domain_loads))
        (λ sampler _ valid.
          draw_loads-Settles IsSampler (geometric_draw streams) capacity count sampler
            geometric_draw-Settles valid)
  sampled_loads_of-Settles sample (some sampler) config capacity count tame =
      draw_loads-Settles AnyValue sample capacity count sampler (λ s _. tame s) tt
