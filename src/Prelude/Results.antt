-- ===== src/Prelude/Results.antt =====
-- A computation that may raise: `Refused` of devices/base.py, or a Python exception.

use mathlib.Core.Path.{◌≡◌}
use mathlib.Core.Option.{some}
use native.Mathlib.Omega.{arith}

-- `refused` is the program's own `Refused`; the others are what `int.to_bytes`, `d[k]`, `l[i]` and a
-- strict `zip` raise.
pub data Error : Type 0 where
  refused : Error
  overflow_error key_error index_error value_error : Error

pub data Result {ℓ} (A : Type ℓ) : Type ℓ where
  ok : A → Result A
  err : Error → Result A

infixl 5 ◌>>=◌
abbrev pub ◌>>=◌ {ℓ κ} : {A : Type ℓ} {B : Type κ} → Result A → (A → Result B) → Result B
ok a >>= f = f a
err e >>= f = err e

-- A block that is wrapped as it comes was there.
pub of_some {ℓ} :
    {A : Type ℓ} (r : Result A) (a : A) → (r >>= λ b. ok (some b)) ≡ ok (some a) → r ≡ ok a
of_some (ok b) a h = ground arith
of_some (err e) a h = absurd (cc)
