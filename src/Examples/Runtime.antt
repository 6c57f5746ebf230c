-- ===== src/Examples/Runtime.antt =====
-- A small runtime to run the code on: numbers in thousandths, and a counter for a random stream.
use swat_letindex_baseline.Prelude.{
  ℕ, zero, suc, ◌+◌, ◌-◌, ◌*◌, ◌/◌, ◌%◌, ◌^◌, ◌<◌, ◌≡◌, ap, sym, ◌∙◌, ℤ, pos, negsuc, pos_part,
  neg_part, sub_ℕ, ltb_ℤ, leb_ℤ, eqb_ℤ, ◌+ℤ◌, ◌-ℤ◌, List, [], ◌∷◌, Option, none, some, Bool, true,
  ◌==◌, sum, replicate, if◌then◌else◌, arith, ltb,
}
use swat_letindex_baseline.Floats.{Floats, Streams, CeilLogReaches}

abbrev pub magnitude : ℤ → ℕ
magnitude n = pos_part n + neg_part n

abbrev pub opposite : ℤ → ℤ
opposite n = sub_ℕ (neg_part n) (pos_part n)

abbrev pub is_negative : ℤ → Bool
is_negative n = ltb 0 (neg_part n)

-- A magnitude with the sign of a product.
abbrev pub signed : ℤ → ℤ → ℕ → ℤ
signed a b n =
    if is_negative a
    then (if is_negative b then pos n else opposite (pos n))
    else (if is_negative b then opposite (pos n) else pos n)

abbrev pub times : ℤ → ℤ → ℤ
times a b = signed a b (magnitude a * magnitude b / 1000)

abbrev pub divided : ℤ → ℤ → Option ℤ
divided a b =
    if magnitude b == 0 then none else some (signed a b (magnitude a * 1000 / magnitude b))

abbrev power : ℤ → ℕ → ℤ
power x zero = pos 1000
power x (suc n) = times x (power x n)

abbrev raised : ℤ → ℤ → Option ℤ
raised x (pos n) = some (power x n)
raised x (negsuc n) = divided (pos 1000) (power x (n + 1))

abbrev floored : ℤ → ℤ
floored (pos n) = pos (n / 1000)
floored (negsuc n) = negsuc (n / 1000)

abbrev pub total_of : List ℤ → ℤ
total_of [] = pos 0
total_of (x ∷ xs) = x +ℤ total_of xs

-- log(n) is 1.2 for every n, exp(x) is 0.368, and log2(n) is n - 1.
instance abbrev pub thousandths : Floats ℤ
thousandths = record {
  nought = pos 0;
  one = pos 1000;
  two = pos 2000;
  half = pos 500;
  of_int = λ n. some (times n (pos 1000000));
  add = λ a b. a +ℤ b;
  sub = λ a b. a -ℤ b;
  mul = times;
  neg = opposite;
  abs = λ a. pos (magnitude a);
  div = divided;
  pow = raised;
  lt = ltb_ℤ;
  le = leb_ℤ;
  eq = eqb_ℤ;
  int_le = λ n x. leb_ℤ (times n (pos 1000000)) x;
  is_finite = λ _. true;
  exp = λ _. some (pos 368);
  log = λ _. some (negsuc 692);
  log_int = λ _. some (pos 1200);
  log2_int = λ n. some (pos (1000 * (n - 1)));
  floor = λ x. some (floored x);
  ceil = λ x. some (opposite (floored (opposite x)));
  trunc = λ x. some (magnitude x / 1000);
  fsum = λ xs. some (total_of xs);
}

abbrev pub counter : Streams ℕ ℤ
counter = record {
  sha256 = λ message. replicate 32 (sum message % 256);
  seeded = λ seed. seed % 1000;
  random = λ s. (pos ((s * 377 + 131) % 1000), s + 1);
}

below_power : (n : ℕ) → n < 2 ^ n
below_power zero = omega arith
below_power (suc n) = omega (arith, below_power n)

ceil_thousand : (n : ℕ) → pos_part (opposite (floored (opposite (pos (1000 * (n + 1 - 1)))))) ≡ n
ceil_thousand n = ground arith

some_injective : {a b : ℤ} → some a ≡ some b → a ≡ b
some_injective h = cc

pub thousandths-CeilLogReaches : (n : ℕ) → CeilLogReaches thousandths n
thousandths-CeilLogReaches n x z e h =
    let ex = some_injective e in
    let ez = some_injective h in
    let exact =
      ap pos_part (sym ez)
      ∙ ap (λ y. pos_part (opposite (floored (opposite y)))) (sym ex)
      ∙ ceil_thousand n in
    rw exact (below_power n)
