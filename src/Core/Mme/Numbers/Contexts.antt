-- ===== src/Core/Mme/Numbers/Contexts.antt =====
-- core/mme.py: updates of the contexts, and the numbers (MME-UE-S1AP-IDs) in them.
use v_epc_cups.Prelude.{ℕ, ◌+◌, ◌≡◌, refl, Option, none, some, arith}
use v_epc_cups.Prelude.Results.{Result, ok, err}
use v_epc_cups.Prelude.Runs.{Run}
use v_epc_cups.Prelude.Classes.{nat_eq}
use v_epc_cups.Prelude.Dict.{get, put}
use v_epc_cups.Prelude.Dict.Numbered.{
  IsNumbered as HasNumbers, put-IsNumbered as put-HasNumbers, put-IsNumbered_same, later-IsNumbered,
  bound-IsFresh,
}
use v_epc_cups.Bytes.{Bytes}
use v_epc_cups.Core.Datagrams.{Datagram}
use v_epc_cups.Core.Hss.Parse.{AuthVector}
use v_epc_cups.Core.Mme.State.{Bearer, Context, Mme, Outcome, quiet, then_send}
use v_epc_cups.Core.Mme.Handlers.{after_air, after_create, new_context, context_with}

-- No number is beyond the counter, and no two contexts have the same one.
abbrev pub IsNumbered : Mme → Type 0
IsNumbered mme = HasNumbers (λ (c : Context). c.mme_id) 0 (mme.mme_ue + 1) mme.ctx

-- The state with another context under this number of the eNodeB.
abbrev pub with_context : Mme → ℕ → Context → Mme
with_context mme e new = record mme { ctx = put e new mme.ctx }

pub put-IsNumbered :
    (mme : Mme) (e : ℕ) (old new : Context)
    → IsNumbered mme
    → get e mme.ctx ≡ some old
    → new.mme_id ≡ old.mme_id
    → IsNumbered (with_context mme e new)
put-IsNumbered mme e old new h ho hn =
    put-IsNumbered_same (λ (c : Context). c.mme_id) 0 (mme.mme_ue + 1) e old new mme.ctx h ho hn

pub new_context-IsNumbered :
    (mme : Mme) (e : ℕ) (imsi apn : Bytes)
    → IsNumbered mme
    → IsNumbered (new_context mme e imsi apn).0
unfolding new_context
new_context-IsNumbered mme e imsi apn h =
    let number = λ (c : Context). c.mme_id in
    let bound = mme.mme_ue + 1 in
    put-HasNumbers number 0 (bound + 1) e (new_context mme e imsi apn).1 mme.ctx
      (later-IsNumbered number 0 bound (bound + 1) mme.ctx (omega arith) h) (omega arith)
      (omega arith) (bound-IsFresh number 0 bound mme.ctx h)

pub sent-IsNumbered :
    (d : Result Datagram) (o : Outcome) → IsNumbered o.mme → IsNumbered (then_send d o).mme
sent-IsNumbered (err e) o h = h
sent-IsNumbered (ok d) o h = h

pub after_air-IsNumbered :
    (mme : Mme) (e : ℕ) (c : Context) (r : Run (Option AuthVector))
    → IsNumbered mme
    → get e mme.ctx ≡ some c
    → IsNumbered (after_air mme e c r).mme
unfolding after_air
after_air-IsNumbered mme e c none h hc = h
after_air-IsNumbered mme e c (some (err x)) h hc = h
after_air-IsNumbered mme e c (some (ok none)) h hc = sent-IsNumbered _ (quiet mme) h
after_air-IsNumbered mme e c (some (ok (some vec))) h hc =
    sent-IsNumbered _ (quiet (with_context mme e (context_with c vec)))
      (put-IsNumbered mme e c (context_with c vec) h hc refl)

pub after_create-IsNumbered :
    (mme : Mme) (e : ℕ) (c : Context) (r : Result (Option Bearer))
    → IsNumbered mme
    → get e mme.ctx ≡ some c
    → IsNumbered (after_create mme e c r).mme
unfolding after_create
after_create-IsNumbered mme e c (err x) h hc = h
after_create-IsNumbered mme e c (ok none) h hc = sent-IsNumbered _ (quiet mme) h
after_create-IsNumbered mme e c (ok (some s)) h hc =
    let new : Context = record c { bearer = some s } in
    sent-IsNumbered _ (quiet (with_context mme e new)) (put-IsNumbered mme e c new h hc refl)
