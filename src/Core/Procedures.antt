-- ===== src/Core/Procedures.antt =====
-- How a handler of the core runs: it changes the state of its function, sends datagrams, and ends with a
-- value or an exception, or not at all.
pub mod Keeps
pub mod Yields
use v_epc_cups.Prelude.{Option, none, some, List, [], ◌∷◌, ◌++◌}
use v_epc_cups.Prelude.Results.{Result, ok, err}
use v_epc_cups.Prelude.Runs.{Run}
use v_epc_cups.Core.Datagrams.{Datagram}

-- The state after a handler, what it has sent, in order, and how it ends.
abbrev pub After : Type 0 → Type 0 → Type 0
After S A = S × List Datagram × Run A

abbrev pub Procedure : Type 0 → Type 0 → Type 0
Procedure S A = S → After S A

-- The rest of a handler, after these datagrams.
abbrev pub behind : {S A : Type 0} → List Datagram → After S A → After S A
behind sent rest = (rest.0, sent ++ rest.1, rest.2)

abbrev pub resume : {S A B : Type 0} → After S A → (A → Procedure S B) → After S B
resume (s, sent, none) f = (s, sent, none)
resume (s, sent, some (err e)) f = (s, sent, some (err e))
resume (s, sent, some (ok a)) f = behind sent (f a s)

infixl 5 ◌>>=◌ ◌>>◌
abbrev pub ◌>>=◌ : {S A B : Type 0} → Procedure S A → (A → Procedure S B) → Procedure S B
◌>>=◌ m f s = resume (m s) f

abbrev pub ◌>>◌ : {S A B : Type 0} → Procedure S A → Procedure S B → Procedure S B
◌>>◌ m rest s = resume (m s) (λ _. rest)

abbrev pub give : {S A : Type 0} → A → Procedure S A
give a s = (s, [], some (ok a))

-- A computation on values, which may raise; and one that may also never end.
abbrev pub value : {S A : Type 0} → Result A → Procedure S A
value r s = (s, [], some r)

abbrev pub run : {S A : Type 0} → Run A → Procedure S A
run r s = (s, [], r)

abbrev pub read : {S A : Type 0} → (S → A) → Procedure S A
read f s = (s, [], some (ok (f s)))

abbrev pub change : {S : Type 0} → (S → S) → Procedure S (Unit {0})
change f s = (f s, [], some (ok tt))

abbrev pub send : {S : Type 0} → Datagram → Procedure S (Unit {0})
send d s = (s, d ∷ [], some (ok tt))

-- A handler that does not answer.
abbrev pub silent : {S A : Type 0} → Procedure S (Option A)
silent s = (s, [], some (ok none))
