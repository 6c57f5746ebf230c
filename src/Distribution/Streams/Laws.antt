-- ===== src/Distribution/Streams/Laws.antt =====
-- What `derive_stream_seed` hashes: no two pairs of a seed and a domain give the same message.
use mathlib.Core.List.{foldl}
use swat_letindex_baseline.Prelude.{
  ℕ, zero, suc, ◌+◌, ◌-◌, ◌*◌, ◌/◌, ◌%◌, ◌<◌, ◌≤◌, ◌≡◌, refl, ap, sym, ◌∙◌, List, [], ◌∷◌, ◌++◌,
  false, inl, inr, Bool-cases, ltb, ltb→lt, ltb→ge, arith, All, take, is_empty_text, pos,
  block_allocation_error, ok,
}
use swat_letindex_baseline.Floats.{Streams}
use swat_letindex_baseline.Values.{int}
use swat_letindex_baseline.Values.Laws.{require_nat_accepts}
use swat_letindex_baseline.Distribution.Streams.{
  decimal_loop, decimal, stream_message, from_bytes, derive_stream_seed,
}

-- The number of some decimal digits that follow the number `n`.
abbrev pub read_digits : ℕ → List ℕ → ℕ
read_digits = foldl (λ n digit. n * 10 + (digit - b'0'))

IsDigit : ℕ → Type 0
IsDigit c = (b'0' ≤ c) × (c < b'0' + 10)

decimal_loop-read_digits :
    (rounds n : ℕ) (rest : List ℕ)
    → n ≤ rounds
    → read_digits 0 (decimal_loop rounds n rest) ≡ read_digits n rest
unfolding decimal_loop
decimal_loop-read_digits zero n rest h =
    let e : 0 * 10 + (b'0' + n % 10 - b'0') ≡ n = omega arith in ap (λ m. read_digits m rest) e
decimal_loop-read_digits (suc rounds) n rest h = elim (Bool-cases (ltb n 10)) [
  | inl small ↦
      let e : 0 * 10 + (b'0' + n % 10 - b'0') ≡ n = omega (arith, ltb→lt n 10 small) in
      rw small (ap (λ m. read_digits m rest) e)
  | inr large ↦
      let e : n / 10 * 10 + (b'0' + n % 10 - b'0') ≡ n = omega arith in
      rw large (
        decimal_loop-read_digits rounds (n / 10) ((b'0' + n % 10) ∷ rest)
          (omega (arith, ltb→ge n 10 large))
        ∙ ap (λ m. read_digits m rest) e)
]

-- `int(str(n)) == n`
decimal-read_digits : (n : ℕ) → read_digits 0 (decimal n) ≡ n
unfolding decimal
decimal-read_digits n = decimal_loop-read_digits n n [] (omega arith)

decimal_loop-IsDigit :
    (rounds n : ℕ) (rest : List ℕ) → All IsDigit rest → All IsDigit (decimal_loop rounds n rest)
unfolding decimal_loop IsDigit
decimal_loop-IsDigit zero n rest h = ((omega arith, omega arith), h)
decimal_loop-IsDigit (suc rounds) n rest h = elim (Bool-cases (ltb n 10)) [
  | inl small ↦ rw small ((omega arith, omega arith), h)
  | inr large ↦ rw large (
      decimal_loop-IsDigit rounds (n / 10) ((b'0' + n % 10) ∷ rest) ((omega arith, omega arith), h))
]

abbrev first_or_zero : List ℕ → ℕ
first_or_zero [] = 0
first_or_zero (x ∷ xs) = x

abbrev after_first : List ℕ → List ℕ
after_first [] = []
after_first (x ∷ xs) = xs

-- Digits in front of the bar are told apart from what follows it.
bar-injective :
    (xs ys : List ℕ) {ds es : List ℕ}
    → All IsDigit xs
    → All IsDigit ys
    → xs ++ (b'|' ∷ ds) ≡ ys ++ (b'|' ∷ es)
    → (xs ≡ ys) × (ds ≡ es)
unfolding IsDigit
bar-injective [] [] h k e = (refl, ap after_first e)
bar-injective [] (y ∷ ys) h (k, ks) e =
    let same : b'|' ≡ y = ap first_or_zero e in absurd (omega (arith, same, k.1))
bar-injective (x ∷ xs) [] (h, hs) k e =
    let same : x ≡ b'|' = ap first_or_zero e in absurd (omega (arith, same, h.1))
bar-injective (x ∷ xs) (y ∷ ys) (h, hs) (k, ks) e =
    let same : x ≡ y = ap first_or_zero e in
    let (digits, domains) = bar-injective xs ys hs ks (ap after_first e) in
    (rw (same, digits) refl, domains)

-- Two messages that derive_stream_seed hashes are the same only if both their seeds and their
-- domains are the same.
pub stream_message-injective :
    (base base' : ℕ) (domain domain' : List ℕ)
    → stream_message base domain ≡ stream_message base' domain'
    → (base ≡ base') × (domain ≡ domain')
unfolding stream_message decimal
stream_message-injective base base' domain domain' e =
    let (digits, domains) =
      bar-injective (decimal base) (decimal base') (decimal_loop-IsDigit base base [] tt)
        (decimal_loop-IsDigit base' base' [] tt) e in
    (
      sym (decimal-read_digits base) ∙ ap (read_digits 0) digits ∙ decimal-read_digits base',
      domains,
    )

module _ {S W : Type 0} (streams : Streams S W) where
  -- A seed that is a number and a domain that is not empty are accepted.
  pub derive_stream_seed_returns :
      (seed : ℕ) (domain : List ℕ)
      → is_empty_text domain ≡ false
      → derive_stream_seed streams (int (pos seed)) domain
        ≡ ok (from_bytes (take 8 (streams.sha256 (stream_message seed domain))))
  unfolding derive_stream_seed
  derive_stream_seed_returns seed domain h =
      rw (require_nat_accepts W block_allocation_error seed 0 (omega arith), h) refl
