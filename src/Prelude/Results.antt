-- ===== src/Prelude/Results.antt =====
-- Python's exceptions as values: what a function raises, and the sequencing of fallible steps.
use Prim.Native.Nat.{ℕ, ◌-◌}
use swat_letindex_baseline.Prelude.Int.{ℤ}
use mathlib.Core.Path.{◌≡◌, refl}
use mathlib.Core.Bool.{Bool, true, false, not}
use mathlib.Core.Option.{Option, none, some}
use swat_letindex_baseline.Prelude.Texts.{Text}
use swat_letindex_baseline.Prelude.Tests.{if◌then◌else◌}

-- The evidence that `InsufficientSampledCapacity` carries.
pub record InsufficientSampledCapacity : Type 0 where
  pub block_count : ℕ
  pub sampled_capacity : ℕ
  pub bin_count : ℤ
  pub bin_capacity_blocks : ℕ
  pub seed : ℕ

-- How many blocks the loads are short by. The exception is raised for a shortfall only.
abbrev pub shortfall_blocks : InsufficientSampledCapacity → ℕ
shortfall_blocks evidence = evidence.block_count - evidence.sampled_capacity

-- One constructor for each exception class that a modelled function can raise. `arithmetic_error`
-- stands for the ZeroDivisionError, OverflowError and ValueError of a float operation.
-- `out_of_fuel` is raised by no Python code: it marks a loop of the model that ran out of rounds. The two manifest errors
-- are the `SystemExit`s of provenance/verify_manifest.py, and `os_error` is what reading a file raises.
pub data Error : Type 0 where
  block_allocation_error content_schedule_error functional_oracle_error : Error
  incremental_merge_error arithmetic_error index_error out_of_fuel : Error
  insufficient_sampled_capacity : InsufficientSampledCapacity → Error
  malformed_manifest_line : ℕ → Text → Error
  empty_manifest os_error : Error

pub data Result {ℓ} (A : Type ℓ) : Type ℓ where
  ok : A → Result A
  err : Error → Result A

-- `if bad: raise e`
abbrev pub refuse_if : Bool → Error → Result (Unit {0})
refuse_if bad e = if bad then err e else ok tt

-- The value of an operation that may raise, by the exception that it raises.
abbrev pub or_raise {ℓ} : {A : Type ℓ} → Option A → Error → Result A
or_raise none e = err e
or_raise (some a) e = ok a

pub or_raise_inv {ℓ} :
    {A : Type ℓ} (o : Option A) (e : Error) {a : A} → or_raise o e ≡ ok a → o ≡ some a
or_raise_inv none e h = cc
or_raise_inv (some a) e h = cc

infixl 5 ◌>>=◌
-- The next step sees the value, and an exception ends the sequence.
abbrev pub ◌>>=◌ {ℓ κ} : {A : Type ℓ} {B : Type κ} → Result A → (A → Result B) → Result B
ok value >>= next = next value
err e >>= next = err e

infixl 5 ◌>>◌
-- A check, of which only its exception matters.
abbrev pub ◌>>◌ {ℓ} : {B : Type ℓ} → Result (Unit {0}) → Result B → Result B
check >> next = check >>= λ _. next

-- An exception that a caller can meet: not IndexError, and not the model's own mark for a loop that
-- ran out of rounds.
abbrev pub IsFault : Error → Type 0
IsFault index_error = ⊥
IsFault out_of_fuel = ⊥
IsFault _ = Unit

-- `m` returns a value with `P`, or raises an exception other than those two.
abbrev pub Settles {ℓ} : {A : Type ℓ} → (A → Type 0) → Result A → Type 0
Settles P (ok a) = P a
Settles P (err e) = IsFault e

pub Settles-bind {ℓ κ} :
    {A : Type ℓ} {B : Type κ} (Q : A → Type 0) (P : B → Type 0) (m : Result A) (k : A → Result B)
    → Settles Q m
    → ((a : A) → m ≡ ok a → Q a → Settles P (k a))
    → Settles P (m >>= k)
Settles-bind Q P (ok a) k h next = next a refl h
Settles-bind Q P (err e) k h next = h

pub Settles-map {ℓ} :
    {A : Type ℓ} (Q P : A → Type 0) (m : Result A)
    → Settles Q m
    → ((a : A) → m ≡ ok a → Q a → P a)
    → Settles P m
Settles-map Q P (ok a) h next = next a refl h
Settles-map Q P (err e) h next = h

pub Settles-any {ℓ} :
    {A : Type ℓ} (P : A → Type 0) (m : Result A) → Settles P m → Settles (λ _. Unit) m
Settles-any P (ok a) h = tt
Settles-any P (err e) h = h

pub Settles-ok {ℓ} :
    {A : Type ℓ} (P : A → Type 0) (m : Result A) {a : A} → Settles P m → m ≡ ok a → P a
Settles-ok P m h e = rw e at h

pub Settles-or_raise {ℓ} :
    {A : Type ℓ} (o : Option A) (e : Error) → IsFault e → Settles (λ _. Unit) (or_raise o e)
Settles-or_raise none e h = h
Settles-or_raise (some a) e h = tt

pub Settles-refuse_if :
    (bad : Bool) (e : Error) → IsFault e → Settles (λ _. bad ≡ false) (refuse_if bad e)
Settles-refuse_if true e h = h
Settles-refuse_if false e h = refl

-- A step of which only its exceptions matter.
pub Settles-then {ℓ κ} :
    {A : Type ℓ} {B : Type κ} (P : B → Type 0) (m : Result A) (k : A → Result B)
    → Settles (λ _. Unit) m
    → ((a : A) → Settles P (k a))
    → Settles P (m >>= k)
Settles-then P (ok a) k h next = next a
Settles-then P (err e) k h next = h

abbrev pub AnyValue {ℓ} : {A : Type ℓ} → A → Type 0
AnyValue a = Unit

pub Settles-if {ℓ} :
    {A : Type ℓ} (P : A → Type 0) (b : Bool) (x y : Result A)
    → Settles P x
    → Settles P y
    → Settles P (if b then x else y)
Settles-if P true x y h k = h
Settles-if P false x y h k = k

-- A check, and an operation that may raise, in front of a step that settles.
pub Settles-guard {ℓ} :
    {B : Type ℓ} (P : B → Type 0) (bad : Bool) (e : Error) (k : Unit {0} → Result B)
    → IsFault e
    → Settles P (k tt)
    → Settles P (refuse_if bad e >>= k)
Settles-guard P true e k h next = h
Settles-guard P false e k h next = next

pub Settles-raise {ℓ κ} :
    {A : Type ℓ} {B : Type κ} (P : B → Type 0) (o : Option A) (e : Error) (k : A → Result B)
    → IsFault e
    → ((a : A) → Settles P (k a))
    → Settles P (or_raise o e >>= k)
Settles-raise P none e k h next = h
Settles-raise P (some a) e k h next = next a

-- If `m` returns a value, it has `P`.
abbrev pub Ensures {ℓ} : {A : Type ℓ} → (A → Type 0) → Result A → Type 0
Ensures P (ok a) = P a
Ensures P (err e) = Unit

pub Ensures-bind {ℓ κ} :
    {A : Type ℓ} {B : Type κ} (Q : A → Type 0) (P : B → Type 0) (m : Result A) (k : A → Result B)
    → Ensures Q m
    → ((a : A) → m ≡ ok a → Q a → Ensures P (k a))
    → Ensures P (m >>= k)
Ensures-bind Q P (ok a) k h next = next a refl h
Ensures-bind Q P (err e) k h next = tt

pub Ensures-then {ℓ κ} :
    {A : Type ℓ} {B : Type κ} (P : B → Type 0) (m : Result A) (k : A → Result B)
    → ((a : A) → m ≡ ok a → Ensures P (k a))
    → Ensures P (m >>= k)
Ensures-then P (ok a) k next = next a refl
Ensures-then P (err e) k next = tt

pub Ensures-map {ℓ} :
    {A : Type ℓ} (Q P : A → Type 0) (m : Result A)
    → Ensures Q m
    → ((a : A) → m ≡ ok a → Q a → P a)
    → Ensures P m
Ensures-map Q P (ok a) h next = next a refl h
Ensures-map Q P (err e) h next = tt

pub Ensures-ok {ℓ} :
    {A : Type ℓ} (P : A → Type 0) (m : Result A) {a : A} → Ensures P m → m ≡ ok a → P a
Ensures-ok P m h e = rw e at h

pub Ensures-of_ok {ℓ} :
    {A : Type ℓ} (P : A → Type 0) (m : Result A) → ((a : A) → m ≡ ok a → P a) → Ensures P m
Ensures-of_ok P (ok a) h = h a refl
Ensures-of_ok P (err e) h = tt

-- Past a check, the check has passed.
pub Ensures-guard {ℓ} :
    {B : Type ℓ} (P : B → Type 0) (bad : Bool) (e : Error) (k : Unit {0} → Result B)
    → (bad ≡ false → Ensures P (k tt))
    → Ensures P (refuse_if bad e >>= k)
Ensures-guard P true e k next = tt
Ensures-guard P false e k next = next refl

pub Ensures-check {ℓ} :
    {B : Type ℓ} (P : B → Type 0) (good : Bool) (e : Error) (k : Unit {0} → Result B)
    → (good ≡ true → Ensures P (k tt))
    → Ensures P (refuse_if (not good) e >>= k)
Ensures-check P true e k next = next refl
Ensures-check P false e k next = tt

-- What a step settles on, it ensures.
pub Ensures-of_Settles {ℓ} :
    {A : Type ℓ} (P : A → Type 0) (m : Result A) → Settles P m → Ensures P m
Ensures-of_Settles P (ok a) h = h
Ensures-of_Settles P (err e) h = tt

-- What a step ensures, if it settles.
pub Settles-of_Ensures {ℓ} :
    {A : Type ℓ} (P : A → Type 0) (m : Result A) → Ensures P m → Settles AnyValue m → Settles P m
Settles-of_Ensures P (ok a) h k = h
Settles-of_Ensures P (err e) h k = k

-- `n` raises exactly what `m` raises, and returns a value related to the value of `m` if `m` returns.
abbrev pub Follows {ℓ κ} :
    {A : Type ℓ} {B : Type κ} → (A → B → Type 0) → Result A → Result B → Type 0
Follows R (ok a) (ok b) = R a b
Follows R (err e) (err e') = e ≡ e'
Follows R _ _ = ⊥

pub Follows-then {ℓ κ μ} :
    {A : Type ℓ} {B : Type κ} {C : Type μ} (R : B → C → Type 0) (m : Result A) (k : A → Result B)
    (next : A → Result C)
    → ((a : A) → m ≡ ok a → Follows R (k a) (next a))
    → Follows R (m >>= k) (m >>= next)
Follows-then R (ok a) k next h = h a refl
Follows-then R (err e) k next h = refl

pub Follows-bind {ℓ κ μ ν} :
    {A : Type ℓ} {B : Type κ} {C : Type μ} {D : Type ν} (Q : A → B → Type 0) (R : C → D → Type 0)
    (m : Result A) (n : Result B) (k : A → Result C) (next : B → Result D)
    → Follows Q m n
    → ((a : A) (b : B) → Q a b → Follows R (k a) (next b))
    → Follows R (m >>= k) (n >>= next)
Follows-bind Q R (ok a) (ok b) k next h related = related a b h
Follows-bind Q R (ok a) (err e) k next h related = elim h [ ]
Follows-bind Q R (err e) (ok b) k next h related = elim h [ ]
Follows-bind Q R (err e) (err e') k next h related = h

pub Follows-map {ℓ κ μ} :
    {A : Type ℓ} {B : Type κ} {C : Type μ} (Q : A → B → Type 0) (R : A → C → Type 0) (m : Result A)
    (n : Result B) (g : B → C)
    → Follows Q m n
    → ((a : A) (b : B) → Q a b → R a (g b))
    → Follows R m (n >>= λ b. ok (g b))
Follows-map Q R (ok a) (ok b) g h related = related a b h
Follows-map Q R (ok a) (err e) g h related = elim h [ ]
Follows-map Q R (err e) (ok b) g h related = elim h [ ]
Follows-map Q R (err e) (err e') g h related = h

-- Past `m`, nothing raises.
pub Follows-returns {ℓ κ} :
    {A : Type ℓ} {B : Type κ} (R : A → B → Type 0) (m : Result A) (k : A → Result B)
    → ((a : A) → m ≡ ok a → (b : B) × (k a ≡ ok b) × R a b)
    → Follows R m (m >>= k)
Follows-returns R (ok a) k h = let (b, returned, related) = h a refl in rw returned related
Follows-returns R (err e) k h = refl

pub Follows-Ensures {ℓ κ} :
    {A : Type ℓ} {B : Type κ} (R : A → B → Type 0) (P : B → Type 0) (m : Result A) (n : Result B)
    → Follows R m n
    → ((a : A) (b : B) → R a b → P b)
    → Ensures P n
Follows-Ensures R P (ok a) (ok b) h next = next a b h
Follows-Ensures R P (ok a) (err e) h next = tt
Follows-Ensures R P (err e) (ok b) h next = elim h [ ]
Follows-Ensures R P (err e) (err e') h next = tt

pub Follows-Settles {ℓ κ} :
    {A : Type ℓ} {B : Type κ} (R : A → B → Type 0) (m : Result A) (n : Result B)
    → Follows R m n
    → Settles (λ _. Unit) m
    → Settles (λ _. Unit) n
Follows-Settles R (ok a) (ok b) h settled = tt
Follows-Settles R (ok a) (err e) h settled = elim h [ ]
Follows-Settles R (err e) (ok b) h settled = elim h [ ]
Follows-Settles R (err e) (err e') h settled = rw h at settled

-- `m` returns a value, or raises an exception with `E`.
abbrev pub RaisesOnly {ℓ} : {A : Type ℓ} → (Error → Type 0) → Result A → Type 0
RaisesOnly E (ok a) = Unit
RaisesOnly E (err e) = E e

pub RaisesOnly-then {ℓ κ} :
    {A : Type ℓ} {B : Type κ} (E : Error → Type 0) (m : Result A) (k : A → Result B)
    → RaisesOnly E m
    → ((a : A) → m ≡ ok a → RaisesOnly E (k a))
    → RaisesOnly E (m >>= k)
RaisesOnly-then E (ok a) k h next = next a refl
RaisesOnly-then E (err e) k h next = h
