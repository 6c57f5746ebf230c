-- ===== src/Distribution/Streams.antt =====
-- distribution.py: `derive_stream_seed` and the domain labels. A str is the list of the bytes of its
-- UTF-8 encoding.
pub mod Bounds
pub mod Laws
use mathlib.Core.List.{foldl}
use swat_letindex_baseline.Prelude.{
  ℕ, zero, suc, ◌+◌, ◌*◌, ◌/◌, ◌%◌, List, [], ◌∷◌, ◌++◌, codes, is_empty_text, take, ltb,
  if◌then◌else◌, block_allocation_error, Result, ok, ◌>>=◌, ◌>>◌, refuse_if,
}
use swat_letindex_baseline.Floats.{Streams}
use swat_letindex_baseline.Values.{Value, require_nat}

-- STREAM_DOMAIN_LOADS and STREAM_DOMAIN_LAPLACE
abbrev pub stream_domain_loads : List ℕ
stream_domain_loads = codes "swat-m-block/geometric-loads"

abbrev pub stream_domain_laplace : List ℕ
stream_domain_laplace = codes "swat-m-block/laplace-prefix"

-- The decimal digits of a number in front of `rest`, least significant digit first. Each round drops
-- a digit, so a number above 0 is more rounds than it has digits beyond the first.
decimal_loop : ℕ → ℕ → List ℕ → List ℕ
decimal_loop zero n rest = (b'0' + n % 10) ∷ rest
decimal_loop (suc rounds) n rest =
    let more = decimal_loop rounds (n / 10) ((b'0' + n % 10) ∷ rest) in
    if ltb n 10 then (b'0' + n % 10) ∷ rest else more

-- `str(n)`
pub decimal : ℕ → List ℕ
unfolding decimal_loop
decimal n = decimal_loop n n []

-- `f"{base}|{domain}".encode("utf-8")`
pub stream_message : ℕ → List ℕ → List ℕ
unfolding decimal
stream_message base domain = decimal base ++ (b'|' ∷ domain)

-- `int.from_bytes(digest, "big")`
pub from_bytes : List ℕ → ℕ
from_bytes = foldl (λ n byte. n * 256 + byte) 0

module _ {S W : Type 0} (streams : Streams S W) where
  unfoldable pub derive_stream_seed : Value W → List ℕ → Result ℕ
  unfolding stream_message from_bytes
  derive_stream_seed seed domain = do
    base ← require_nat block_allocation_error seed 0
    refuse_if (is_empty_text domain) block_allocation_error
    ok (from_bytes (take 8 (streams.sha256 (stream_message base domain))))
