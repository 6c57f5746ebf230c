-- ===== src/Allocator/Allocate/Loads.antt =====
-- The loads that a sampler hands over, once they have passed the checks.
use swat_letindex_baseline.Prelude.{
  ℕ, zero, suc, ◌≤◌, ◌≡◌, refl, ap, List, arith, length, All, Result, ok, Ensures, Ensures-bind,
  Ensures-then,
}
use swat_letindex_baseline.Values.{Value}
use swat_letindex_baseline.Allocator.Allocate.{require_load, draw_loads}

module _ {W : Type 0} where
  require_load_le :
      (value : Value W) (capacity load : ℕ)
      → require_load value capacity ≡ ok load
      → load ≤ capacity
  unfolding require_load
  require_load_le value capacity load h = ground arith

  -- As many loads as bins are drawn, and each fits the capacity.
  pub draw_loads_lem :
      {T : Type 0} (sample : T → Result (Value W × T)) (capacity rounds : ℕ) (state : T)
      → Ensures
          (λ (loads : List ℕ). (length loads ≡ rounds) × All (λ l. l ≤ capacity) loads)
          (draw_loads sample capacity rounds state)
  unfolding draw_loads
  draw_loads_lem sample capacity zero state = (refl, tt)
  draw_loads_lem sample capacity (suc rounds) state =
      let P = λ (loads : List ℕ). (length loads ≡ suc rounds) × All (λ l. l ≤ capacity) loads in
      Ensures-then P (sample state) _ λ drawn _.
        Ensures-then P (require_load drawn.0 capacity) _ λ load accepted.
          Ensures-bind (λ (loads : List ℕ). (length loads ≡ rounds) × All (λ l. l ≤ capacity) loads)
            P (draw_loads sample capacity rounds drawn.1) _
            (draw_loads_lem sample capacity rounds drawn.1)
            λ rest _ (count, fit).
              (ap suc count, (require_load_le drawn.0 capacity load accepted, fit))
