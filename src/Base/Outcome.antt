-- ===== src/Base/Outcome.antt =====
-- How a Go function ends: with its result, with an error of type `E`, or by a panic.
use mathlib.Core.Option.{Option, none, some}

pub data Outcome {ℓ κ} (E : Type κ) (A : Type ℓ) : Type (ℓ ⊔ κ) where
  ok : A → Outcome E A
  err : E → Outcome E A
  panic : Outcome E A

infixl 5 ◌>>=◌
abbrev pub ◌>>=◌ {ℓ κ μ} :
    {E : Type κ} {A : Type ℓ} {B : Type μ} → Outcome E A → (A → Outcome E B) → Outcome E B
ok a >>= f = f a
err e >>= f = err e
panic >>= f = panic

-- An index out of range, or a nil pointer, panics.
abbrev pub or_panic {ℓ κ} : {E : Type κ} {A : Type ℓ} → Option A → Outcome E A
or_panic none = panic
or_panic (some a) = ok a
