-- ===== src/Distribution/Weights/SelfConvolution.antt =====
-- `geom_conv`: the weights of one sampler, convolved with themselves once per further bin.
use swat_letindex_baseline.Prelude.{
  ℕ, zero, suc, ◌+◌, ◌-◌, ◌*◌, ◌%◌, ◌≤◌, ◌≡◌, refl, pos, List, length, ◌==◌, block_allocation_error,
  ok, Ensures, Ensures-bind, Ensures-then, Ensures-of_Settles, Ensures-check, ==_iff,
}
use swat_letindex_baseline.Floats.{Floats}
use swat_letindex_baseline.Values.{Value, int, float, require_nat, require_positive_real}
use swat_letindex_baseline.Values.Laws.{require_nat-Settles}
use swat_letindex_baseline.Distribution.Numbers.{require_even_positive}
use swat_letindex_baseline.Distribution.Weights.{compute_weight, convolve_times, geom_conv}
use swat_letindex_baseline.Distribution.Weights.Laws.{require_even_positive-Settles}
use swat_letindex_baseline.Distribution.Weights.Shape.{IsWeights, compute_weight-IsWeights}
use swat_letindex_baseline.Distribution.Weights.Convolution.{convolution, convolve_lem}

module _ {W : Type 0} ⦃f : Floats W⦄ where
  -- `current`, convolved with `geom` as often as `rounds` says.
  abbrev pub convolutions : ℕ → List W → List W → List W
  convolutions zero geom current = current
  convolutions (suc rounds) geom current = convolutions rounds geom (convolution current geom)

  convolve_times_lem :
      (rounds : ℕ) (geom current : List W)
      → convolve_times rounds geom current ≡ ok (convolutions rounds geom current)
  unfolding convolve_times
  convolve_times_lem zero geom current = refl
  convolve_times_lem (suc rounds) geom current =
      rw (convolve_lem current geom) (convolve_times_lem rounds geom (convolution current geom))

  -- The distribution of the sum of the loads of the bins, from the weights of one bin.
  pub record IsSelfConvolution (capacity epsilon bin_count : Value W) (pmf : List W) : Type 0 where
    pub blocks : ℕ
    pub count : ℕ
    pub number : W
    pub geom : List W
    pub of_capacity : capacity ≡ int (pos blocks)
    pub of_count : bin_count ≡ int (pos count)
    pub some_bins : 1 ≤ count
    pub of_epsilon : require_positive_real block_allocation_error epsilon ≡ ok number
    pub of_geom : IsWeights (int (pos blocks)) (float number) geom
    pub folded : pmf ≡ convolutions (count - 1) geom geom
    pub sized : length pmf ≡ blocks * count + 1

  -- For any arguments and any float operations, what geom_conv returns is the weights of
  -- compute_weight for the same capacity and epsilon, convolved with themselves once for every
  -- bin after the first, by the sum that defines a convolution: the capacity and the count are
  -- ints, and the result has capacity times count plus one entries.
  pub geom_conv-IsSelfConvolution :
      (capacity epsilon bin_count : Value W)
      → Ensures
          (IsSelfConvolution capacity epsilon bin_count)
          (geom_conv capacity epsilon bin_count)
  unfolding geom_conv
  geom_conv-IsSelfConvolution capacity epsilon bin_count =
      let P = IsSelfConvolution capacity epsilon bin_count in
      let IsEven = λ (n : ℕ). (capacity ≡ int (pos n)) × (2 ≤ n) × (n % 2 ≡ 0) in
      let IsCount = λ (n : ℕ). (bin_count ≡ int (pos n)) × (1 ≤ n) in
      Ensures-bind IsEven P (require_even_positive capacity) _
        (Ensures-of_Settles IsEven (require_even_positive capacity)
          (require_even_positive-Settles capacity))
        (λ c _ (e, large, even).
          Ensures-then P (require_positive_real block_allocation_error epsilon) _
            (λ number accepted.
              Ensures-bind IsCount P (require_nat block_allocation_error bin_count 1) _
                (Ensures-of_Settles IsCount (require_nat block_allocation_error bin_count 1)
                  (require_nat-Settles block_allocation_error bin_count 1 tt))
                (λ n _ (e', positive).
                  Ensures-bind (IsWeights (int (pos c)) (float number)) P
                    (compute_weight (int (pos c)) (float number)) _
                    (compute_weight-IsWeights (int (pos c)) (float number))
                    (λ geom _ shaped.
                      let pmf = convolutions (n - 1) geom geom in
                      rw (convolve_times_lem (n - 1) geom geom) (
                        Ensures-check P (length pmf == (c * n + 1)) block_allocation_error _
                          (λ sized. record {
                            blocks = c;
                            count = n;
                            number = number;
                            geom = geom;
                            of_capacity = e;
                            of_count = e';
                            some_bins = positive;
                            of_epsilon = accepted;
                            of_geom = shaped;
                            folded = refl;
                            sized = (==_iff (length pmf) (c * n + 1)).0 sized;
                          }))))))
