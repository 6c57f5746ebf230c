-- ===== src/Allocator/Config/Laws.antt =====
-- What `SwatBlockAllocationConfig` guarantees of a configuration that it accepts.
use swat_letindex_baseline.Prelude.{
  ◌≤◌, ◌≡◌, refl, pos, Bool, true, false, not, ◌&&◌, ◌||◌, block_allocation_error, arithmetic_error,
  refuse_if, or_raise, Ensures, Ensures-then, Ensures-bind, Ensures-check, Ensures-guard, Error,
}
use swat_letindex_baseline.Floats.{Floats}
use swat_letindex_baseline.Values.{Value, require_nat, require_real, require_positive_real}
use swat_letindex_baseline.Values.Laws.{require_nat_inv}
use swat_letindex_baseline.Allocator.Config.{
  SwatBlockAllocationConfig, require_real_in_open_unit, make_config,
}

-- The parameters of an accepted configuration.
pub record IsValidConfig {W : Type 0} (f : Floats W) (config : SwatBlockAllocationConfig W)
    : Type 0 where
  pub lambda_ge : 2 ≤ config.security_lambda
  pub epsilon_finite : f.is_finite config.privacy_epsilon ≡ true
  pub epsilon_positive : f.le config.privacy_epsilon f.nought ≡ false
  pub delta_positive : f.lt f.nought config.privacy_delta ≡ true
  pub delta_below_one : f.lt config.privacy_delta f.one ≡ true

positive_parts :
    (finite below : Bool) → (not finite || below) ≡ false → (finite ≡ true) × (below ≡ false)
positive_parts true false h = (refl, refl)
positive_parts true true h = cc
positive_parts false below h = cc

open_parts :
    (finite above below : Bool)
    → (finite && (above && below)) ≡ true
    → (above ≡ true) × (below ≡ true)
open_parts true true true h = (refl, refl)
open_parts true true false h = cc
open_parts true false below h = cc
open_parts false above below h = cc

module _ {W : Type 0} ⦃f : Floats W⦄ where
  require_positive_real_lem :
      (e : Error) (v : Value W)
      → Ensures
          (λ x. (f.is_finite x ≡ true) × (f.le x f.nought ≡ false))
          (require_positive_real e v)
  unfolding require_positive_real
  require_positive_real_lem e v =
      let P = λ (x : W). (f.is_finite x ≡ true) × (f.le x f.nought ≡ false) in
      Ensures-then P (require_real e v) _ (λ x _.
        Ensures-guard P (not (f.is_finite x) || f.le x f.nought) e _
          (λ passed. positive_parts (f.is_finite x) (f.le x f.nought) passed))

  require_real_in_open_unit_lem :
      (v : Value W)
      → Ensures
          (λ x. (f.lt f.nought x ≡ true) × (f.lt x f.one ≡ true))
          (require_real_in_open_unit v)
  unfolding require_real_in_open_unit
  require_real_in_open_unit_lem v =
      let P = λ (x : W). (f.lt f.nought x ≡ true) × (f.lt x f.one ≡ true) in
      Ensures-then P (require_real block_allocation_error v) _ (λ x _.
        Ensures-check P (f.is_finite x && (f.lt f.nought x && f.lt x f.one)) block_allocation_error
          _ (λ passed. open_parts (f.is_finite x) (f.lt f.nought x) (f.lt x f.one) passed))

  -- Whatever values are handed over, a configuration that the constructor returns has a lambda of
  -- at least two, a finite positive epsilon and a delta strictly between 0 and 1.
  pub make_config-IsValidConfig :
      (security_lambda privacy_epsilon privacy_delta seed : Value W)
      → Ensures (IsValidConfig f) (make_config security_lambda privacy_epsilon privacy_delta seed)
  unfolding make_config
  make_config-IsValidConfig security_lambda privacy_epsilon privacy_delta seed =
      let P = IsValidConfig f in
      Ensures-then P (require_nat block_allocation_error security_lambda 2) _ (λ lam large.
        Ensures-bind (λ x. (f.is_finite x ≡ true) × (f.le x f.nought ≡ false)) P
          (require_positive_real block_allocation_error privacy_epsilon) _
          (require_positive_real_lem block_allocation_error privacy_epsilon)
          (λ epsilon _ (finite, positive).
            Ensures-bind (λ x. (f.lt f.nought x ≡ true) × (f.lt x f.one ≡ true)) P
              (require_real_in_open_unit privacy_delta) _
              (require_real_in_open_unit_lem privacy_delta)
              (λ delta _ (above, below).
                Ensures-then P (require_nat block_allocation_error seed 0) _ (λ checked_seed _.
                  Ensures-then P (or_raise (f.log_int lam) arithmetic_error) _ (λ logarithm _.
                    Ensures-then P (or_raise (f.pow logarithm (pos 2)) arithmetic_error) _
                      (λ squared _.
                        Ensures-then P (refuse_if (not (f.lt f.one squared)) block_allocation_error)
                          _
                          (λ _ _. record {
                            lambda_ge =
                                (require_nat_inv block_allocation_error security_lambda 2 lam
                                  large).1;
                            epsilon_finite = finite;
                            epsilon_positive = positive;
                            delta_positive = above;
                            delta_below_one = below;
                          })))))))
