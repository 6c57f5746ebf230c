-- ===== src/Distribution/Streams/Bounds.antt =====
-- The size of the seeds of `derive_stream_seed`.
use mathlib.Core.List.{foldl}
use swat_letindex_baseline.Prelude.{
  ℕ, zero, suc, ◌+◌, ◌*◌, ◌^◌, ◌<◌, ◌≤◌, ◌≡◌, List, [], ◌∷◌, length, take, length-take, All,
  is_empty_text, pos, arith, block_allocation_error, refuse_if, false, Settles, Settles-bind,
  Settles-refuse_if,
}
use swat_letindex_baseline.Floats.{Streams}
use swat_letindex_baseline.Values.{Value, int, require_nat}
use swat_letindex_baseline.Values.Laws.{require_nat-Settles}
use swat_letindex_baseline.Distribution.Streams.{stream_message, from_bytes, derive_stream_seed}

abbrev pub IsByte : ℕ → Type 0
IsByte b = b < 256

-- `bound` times 256 per byte
abbrev scaled : ℕ → ℕ → ℕ
scaled zero bound = bound
scaled (suc n) bound = scaled n (bound * 256)

scaled_grows : (n bound : ℕ) → bound ≤ scaled n bound
scaled_grows zero bound = omega arith
scaled_grows (suc n) bound = omega (arith, scaled_grows n (bound * 256))

foldl_bounded :
    (n bound start : ℕ) (bytes : List ℕ)
    → length bytes ≤ n
    → All IsByte bytes
    → start < bound
    → foldl (λ m byte. m * 256 + byte) start bytes < scaled n bound
foldl_bounded n bound start [] size h below = omega (arith, scaled_grows n bound)
foldl_bounded zero bound start (x ∷ xs) size h below = absurd (omega arith)
foldl_bounded (suc n) bound start (x ∷ xs) size (h, hs) below =
    foldl_bounded n (bound * 256) (start * 256 + x) xs (omega arith) hs (omega arith)

All-take : (n : ℕ) (xs : List ℕ) → All IsByte xs → All IsByte (take n xs)
All-take zero xs h = tt
All-take (suc n) [] h = tt
All-take (suc n) (x ∷ xs) (h, hs) = (h, All-take n xs hs)

eight_bytes : (digest : List ℕ) → All IsByte digest → from_bytes (take 8 digest) < 2 ^ 64
unfolding from_bytes
eight_bytes digest h =
    foldl_bounded 8 1 0 (take 8 digest) (omega (arith, length-take 8 digest)) (All-take 8 digest h)
      (omega arith)

module _ {S W : Type 0} (streams : Streams S W) where
  -- If every digest is a list of bytes: for any seed and any domain, derive_stream_seed returns a
  -- number below 2 to the power of 64, or raises an exception of its callers' kinds, and no
  -- IndexError.
  pub derive_stream_seed_bounds :
      (seed : Value W) (domain : List ℕ)
      → ((message : List ℕ) → All IsByte (streams.sha256 message))
      → Settles (λ n. n < 2 ^ 64) (derive_stream_seed streams seed domain)
  unfolding derive_stream_seed
  derive_stream_seed_bounds seed domain bytes =
      let P = λ (n : ℕ). n < 2 ^ 64 in
      Settles-bind (λ base. (seed ≡ int (pos base)) × (0 ≤ base)) P
        (require_nat block_allocation_error seed 0) _
        (require_nat-Settles block_allocation_error seed 0 tt)
        (λ base _ _.
          Settles-bind (λ _. is_empty_text domain ≡ false) P
            (refuse_if (is_empty_text domain) block_allocation_error) _
            (Settles-refuse_if (is_empty_text domain) block_allocation_error tt)
            (λ _ _ _.
              eight_bytes (streams.sha256 (stream_message base domain))
                (bytes (stream_message base domain))))
