-- ===== src/Prelude/Runs.antt =====
-- A Python call that may raise, or never end.
use mathlib.Core.Option.{Option, none, some}
use mathlib.Core.List.{List, [], ◌∷◌}
use v_epc_cups.Prelude.Results.{Result, ok, err}

-- `none` is for a call that never ends.
abbrev pub Run {ℓ} : Type ℓ → Type ℓ
Run A = Option (Result A)

infixl 5 ◌>>=◌
abbrev pub ◌>>=◌ {ℓ κ} : {A : Type ℓ} {B : Type κ} → Run A → (A → Run B) → Run B
none >>= f = none
some (err e) >>= f = some (err e)
some (ok a) >>= f = f a

-- for x in xs: acc = step(acc, x)
abbrev pub fold_run {ℓ κ} : {A : Type ℓ} {B : Type κ} → (B → A → Run B) → B → List A → Run B
fold_run step acc [] = some (ok acc)
fold_run step acc (x ∷ xs) = step acc x >>= λ next. fold_run step next xs
