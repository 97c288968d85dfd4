-- ===== src/Prelude/Results.antt =====
-- A Python call that may raise: the exceptions that the modelled code meets.
use mathlib.Core.Option.{Option, none, some}

pub data Error : Type 0 where
  value_error struct_error type_error attribute_error index_error overflow_error : Error

pub data Result {ℓ} (A : Type ℓ) : Type ℓ where
  ok : A → Result A
  err : Error → Result A

infixl 5 ◌>>=◌
abbrev pub ◌>>=◌ {ℓ κ} : {A : Type ℓ} {B : Type κ} → Result A → (A → Result B) → Result B
ok a >>= f = f a
err e >>= f = err e

-- A use of a value that may be `None`, where `None` makes the operation raise `e`.
abbrev pub need {ℓ} : {A : Type ℓ} → Error → Option A → Result A
need e none = err e
need e (some a) = ok a
