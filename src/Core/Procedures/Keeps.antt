-- ===== src/Core/Procedures/Keeps.antt =====
-- What a handler of the core leaves behind, whether it ends with a value, an exception, or not at all.
use v_epc_cups.Prelude.{◌≡◌, refl, none, some, []}
use v_epc_cups.Prelude.Results.{Result, ok, err}
use v_epc_cups.Core.Procedures.{After, Procedure, resume}

module _ {S A B : Type 0} (P : S → Type 0) where
  -- A property that a step leaves, and each continuation of its value keeps.
  pub resume-Keeps :
      (x : After S A) (f : A → Procedure S B)
      → P x.0
      → ((a : A) → x.2 ≡ some (ok a) → P (f a x.0).0)
      → P (resume x f).0
  resume-Keeps (s, sent, none) f h k = h
  resume-Keeps (s, sent, some (err e)) f h k = h
  resume-Keeps (s, sent, some (ok a)) f h k = k a refl

  -- The same for a computation on values.
  pub value-Keeps :
      (s : S) (r : Result A) (f : A → Procedure S B)
      → P s
      → ((a : A) → r ≡ ok a → P (f a s).0)
      → P (resume (s, [], some r) f).0
  value-Keeps s (ok a) f h k = k a refl
  value-Keeps s (err e) f h k = h
