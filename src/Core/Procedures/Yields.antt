-- ===== src/Core/Procedures/Yields.antt =====
-- The value that a handler of the core ends with, and the state it leaves then.
use v_epc_cups.Prelude.{◌≡◌, some, []}
use v_epc_cups.Prelude.Results.{Result, ok}
use v_epc_cups.Core.Procedures.{After, Procedure, resume}

abbrev pub Yields : {S A : Type 0} → After S A → S → A → Type 0
Yields x s a = (x.0 ≡ s) × (x.2 ≡ some (ok a))

module _ {S A B : Type 0} where
  pub resume-Yields :
      (x : After S A) (f : A → Procedure S B) (s : S) (a : A) (s' : S) (b : B)
      → Yields x s a
      → Yields (f a s) s' b
      → Yields (resume x f) s' b
  resume-Yields (s₀, sent, r) f s a s' b h k = rw (h.1, h.0) k

  -- The same for a computation on values.
  pub value-Yields :
      (s : S) (r : Result A) (f : A → Procedure S B) (a : A) (s' : S) (b : B)
      → r ≡ ok a
      → Yields (f a s) s' b
      → Yields (resume (s, [], some r) f) s' b
  value-Yields s r f a s' b h k = rw (h) k
