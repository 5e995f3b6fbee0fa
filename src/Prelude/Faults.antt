-- ===== src/Prelude/Faults.antt =====
-- What a call of the C++ code comes to: a value, or the fault that stops it. The build defines
-- no NDEBUG, so a failed `assert` aborts. `out_of_bounds` marks an access that C++ leaves undefined
-- and `int_overflow` a number past INT_MAX, which it leaves undefined too;
-- `bad_alloc` is what `new` throws, `wrong_thread` the abort of `assertInLoopThread`, `fatal` an
-- `abort()`, by itself or in LOG_FATAL.
use Prim.Native.Nat.{ℕ}
use mathlib.Core.Bool.{Bool, true, false}
use mathlib.Core.Logic.{◌⊎◌, inl, inr}
use mathlib.Core.Path.{◌≡◌, refl}

pub data Fault : Type 0 where
  assertion_failed length_error out_of_bounds wrong_thread bad_alloc fatal int_overflow : Fault

pub data Outcome {ℓ} (A : Type ℓ) : Type ℓ where
  ok : A → Outcome A
  err : Fault → Outcome A

infixl 5 ◌>>=◌ ◌>>◌
abbrev pub ◌>>=◌ {ℓ κ} : {A : Type ℓ} {B : Type κ} → Outcome A → (A → Outcome B) → Outcome B
ok a >>= f = f a
err e >>= f = err e

abbrev pub ◌>>◌ {ℓ} : {B : Type ℓ} → Outcome (Unit {0}) → Outcome B → Outcome B
m >> k = m >>= λ _. k

abbrev pub guard : Bool → Fault → Outcome (Unit {0})
guard true e = ok tt
guard false e = err e

-- The macro `assert`.
abbrev pub assert : Bool → Outcome (Unit {0})
assert b = guard b assertion_failed

pub Outcome-cases {ℓ} :
    {A : Type ℓ} (o : Outcome A) → ((a : A) × (o ≡ ok a)) ⊎ ((e : Fault) × (o ≡ err e))
Outcome-cases (ok a) = inl (a, refl)
Outcome-cases (err e) = inr (e, refl)

-- What stops a buffer: an assert, or a vector that would be too long.
pub data StopsBuffer : Fault → Type 0 where
  an_assert : StopsBuffer assertion_failed
  too_long : StopsBuffer length_error

-- INT_MAX.
abbrev pub int_max : ℕ
int_max = 0x7fff_ffff
