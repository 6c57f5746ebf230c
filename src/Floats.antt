-- ===== src/Floats.antt =====
-- What the package asks of Python's runtime: float arithmetic and `math`, `hashlib.sha256`, and
-- `random.Random`. None of it is code of the repository, so it is a parameter of every definition that
-- calls it.
use swat_letindex_baseline.Prelude.{ℕ, ◌+◌, ◌^◌, ◌<◌, ◌≡◌, ℤ, pos_part, Bool, Option, some, List}

-- `none` is an operation that raises: ZeroDivisionError of a division, OverflowError of a conversion
-- or of `exp`, ValueError of a rounding of nan, and so on.
pub record Floats (W : Type 0) : Type 0 where
  -- 0.0, 1.0, 2.0, 0.5
  pub nought : W
  pub one : W
  pub two : W
  pub half : W
  -- `float(n)`, also the conversion of the int in a mixed operation
  pub of_int : ℤ → Option W
  pub add : W → W → W
  pub sub : W → W → W
  pub mul : W → W → W
  pub neg : W → W
  pub abs : W → W
  pub div : W → W → Option W
  -- `x ** n`
  pub pow : W → ℤ → Option W
  pub lt : W → W → Bool
  pub le : W → W → Bool
  pub eq : W → W → Bool
  -- `n <= x` for an int `n`, which Python compares exactly
  pub int_le : ℤ → W → Bool
  -- `math.isfinite`, `math.exp`, `math.log`, and `math.log` and `math.log2` of an int
  pub is_finite : W → Bool
  pub exp : W → Option W
  pub log : W → Option W
  pub log_int : ℕ → Option W
  pub log2_int : ℕ → Option W
  -- `math.floor`, `math.ceil`, and `int(x)` of a positive `x`
  pub floor : W → Option ℤ
  pub ceil : W → Option ℤ
  pub trunc : W → Option ℕ
  -- `math.fsum`
  pub fsum : List W → Option W

-- `hashlib.sha256(message).digest()` on bytes, and `random.Random` with its state written out.
pub record Streams (S W : Type 0) : Type 0 where
  pub sha256 : List ℕ → List ℕ
  pub seeded : ℕ → S
  pub random : S → W × S

-- A law of `math.ceil` and `math.log2` at one number: the ceiling of the logarithm of n + 1 is an
-- exponent whose power reaches n + 1. It is what the number of levels of the noisy prefix sums rests
-- on. A rounded logarithm does not have it at every n, so it is asked for at single numbers.
abbrev pub CeilLogReaches : {W : Type 0} → Floats W → ℕ → Type 0
CeilLogReaches {W} f n =
    (x : W) (z : ℤ) → f.log2_int (n + 1) ≡ some x → f.ceil x ≡ some z → n < 2 ^ pos_part z
