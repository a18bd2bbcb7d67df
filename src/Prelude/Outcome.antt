-- ===== src/Prelude/Outcome.antt =====
-- `Result<T, RubyError>` of a function that can also panic (src/error.rs). The text of an error
-- is not modelled, only its kind.
use mathlib.Core.Bool.{Bool, true, false}

-- The kinds that `RubyError`'s constructors build.
pub data RubyError : Type 0 where
  internal argument index_error typeerr undefined_op zero_div range_error name : RubyError

pub data Outcome {ℓ} (A : Type ℓ) : Type ℓ where
  ok : A → Outcome A
  err : RubyError → Outcome A
  panic : Outcome A

infixl 5 ◌>>=◌ ◌>>◌
abbrev pub ◌>>=◌ {ℓ κ} : {A : Type ℓ} {B : Type κ} → Outcome A → (A → Outcome B) → Outcome B
ok a >>= f = f a
err e >>= f = err e
panic >>= f = panic

abbrev pub ◌>>◌ {ℓ} : {B : Type ℓ} → Outcome (Unit {0}) → Outcome B → Outcome B
m >> k = m >>= λ _. k

-- `ok` if the test holds, else the error.
abbrev pub guard : Bool → RubyError → Outcome (Unit {0})
guard true e = ok tt
guard false e = err e

-- `ok` if the test holds, else a panic: an index out of bounds, a failed `unwrap`.
abbrev pub check : Bool → Outcome (Unit {0})
check true = ok tt
check false = panic
