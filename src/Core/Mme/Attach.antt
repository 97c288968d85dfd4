-- ===== src/Core/Mme/Attach.antt =====
-- An attach between core/mme.py and core/hss.py: what the MME's context holds of the UE.
use v_epc_cups.Prelude.{ℕ, ◌+◌, ◌≡◌, refl, sym, ap, ◌∙◌, Option, none, some}
use v_epc_cups.Prelude.Results.{Result, ok, err}
use v_epc_cups.Prelude.Classes.{nat_eq, bytes_eq}
use v_epc_cups.Prelude.Dict.{get, put, get-put_self}
use v_epc_cups.Bytes.{Bytes}
use v_epc_cups.Core.Datagrams.{Datagram}
use v_epc_cups.Core.Hss.{Hss, Subscriber, vector, handle}
use v_epc_cups.Core.Hss.Parse.{AuthVector}
use v_epc_cups.Core.Hss.AuthInfo.{first_vector}
use v_epc_cups.Core.Mme.State.{
  Context, Mme, Outcome, Ends, quiet, then_send, then_send-mme, then_send-Ends,
}
use v_epc_cups.Core.Mme.S6a.{air_result}
use v_epc_cups.Core.Mme.Identity.{FitsIdentity}
use v_epc_cups.Core.Mme.Authentication.{air_result-vector}
use v_epc_cups.Core.Mme.Handlers.{
  attach, new_context, air_bytes, after_air, context_with, challenge, to_address, hss_address,
}
use v_epc_cups.Core.Ue.{res}

-- The answer of a server to a request, on a network that loses nothing.
abbrev pub answered_by : Option (Hss × Result (Option Bytes)) → Option Bytes
answered_by none = none
answered_by (some (hss, err e)) = none
answered_by (some (hss, ok reply)) = reply

abbrev pub hss_answers : (Bytes → Bytes) → Hss → Bytes → Option Bytes
hss_answers sha256 hss bytes = answered_by (handle sha256 hss bytes)

abbrev stored : Mme → ℕ → Context → AuthVector → Mme
stored mme enb_id c vec = record mme { ctx = put enb_id (context_with c vec) mme.ctx }

after_air-stored :
    (mme : Mme) (enb_id : ℕ) (c : Context) (vec : AuthVector)
    → (after_air mme enb_id c (some (ok (some vec)))).mme ≡ stored mme enb_id c vec
unfolding after_air
after_air-stored mme enb_id c vec =
    let m = stored mme enb_id c vec in then_send-mme (challenge m enb_id c.mme_id vec) (quiet m)

module _ (ask_hss ask_sgw : Bytes → Option Bytes) (mme : Mme) (enb_id : ℕ) (imsi apn : Bytes) where
  abbrev fresh : Mme × Context
  fresh = new_context mme enb_id imsi apn

  attach_lem :
      (bytes : Bytes) (vec : AuthVector)
      → air_bytes fresh.0 imsi ≡ ok bytes
      → air_result (ask_hss bytes) ≡ some (ok (some vec))
      → attach ask_hss ask_sgw mme enb_id imsi apn
        ≡ then_send
            (to_address (hss_address mme) (ok bytes))
            (after_air fresh.0 enb_id fresh.1 (some (ok (some vec))))
  unfolding attach
  attach_lem bytes vec hb hv = rw (hb, hv) refl

  -- With a vector the rest of an attach ends.
  after_air-Ends :
      (d : Result Datagram) (vec : AuthVector)
      → Ends (then_send d (after_air fresh.0 enb_id fresh.1 (some (ok (some vec)))))
  unfolding after_air
  after_air-Ends d vec =
      let m = stored fresh.0 enb_id fresh.1 vec in
      then_send-Ends d _
        (then_send-Ends (challenge m enb_id fresh.1.mme_id vec) (quiet m) (ok tt, refl))

  -- What the rest of an attach with this vector leaves under the UE's number.
  after_air-context :
      (d : Result Datagram) (vec : AuthVector)
      → get enb_id (then_send d (after_air fresh.0 enb_id fresh.1 (some (ok (some vec))))).mme.ctx
        ≡ some (context_with fresh.1 vec)
  after_air-context d vec =
      let rest = after_air fresh.0 enb_id fresh.1 (some (ok (some vec))) in
      ap (λ (m : Mme). get enb_id m.ctx)
        (then_send-mme d rest ∙ after_air-stored fresh.0 enb_id fresh.1 vec)
      ∙ get-put_self enb_id (context_with fresh.1 vec) fresh.0.ctx

-- The attach of a known subscriber, with a HSS that answers, where the IMSI is a text of at most 2 ^ 8
-- bytes, the MME's address in text has as many at most, and its next request number is below 2 ^ 32:
-- the handler ends, with a context of the IMSI, the access point name and the next MME number that has
-- a RAND, and for XRES the response that a UE of this IMSI computes of it.
pub attach-context :
    (sha256 : Bytes → Bytes) (hss : Hss) (ask_sgw : Bytes → Option Bytes) (mme : Mme) (enb_id : ℕ)
    (imsi apn : Bytes) (sub : Subscriber)
    → FitsIdentity mme.ip_text (mme.ccn + 1) imsi
    → get imsi hss.subscribers ≡ some sub
    → (o : Outcome) × (c : Context) × (rand : Bytes) × (attach
          (hss_answers sha256 hss)
          ask_sgw
          mme
          enb_id
          imsi
          apn
        ≡ o)
      × Ends o
      × (get enb_id o.mme.ctx ≡ some c)
      × (c.imsi ≡ imsi)
      × (c.apn ≡ apn)
      × (c.mme_id ≡ mme.mme_ue + 1)
      × (c.rand ≡ some rand)
      × (c.xres ≡ some (res sha256 imsi rand))
unfolding new_context air_bytes
attach-context sha256 hss ask_sgw mme enb_id imsi apn sub ha hs =
    let r = air_result-vector sha256 hss mme.ip_text imsi (mme.ccn + 1) sub ha hs in
    let v = vector sha256 imsi 0 in
    let ask = hss_answers sha256 hss in
    let answered : air_result (ask r.0) ≡ some (ok (some (first_vector 1 v))) =
      ap (λ a. air_result (answered_by a)) r.3 ∙ r.4 in
    let d = to_address (hss_address mme) (ok r.0) in
    (
      _,
      context_with (fresh ask ask_sgw mme enb_id imsi apn).1 (first_vector 1 v),
      v.rand,
      attach_lem ask ask_sgw mme enb_id imsi apn r.0 (first_vector 1 v) r.2 answered,
      after_air-Ends ask ask_sgw mme enb_id imsi apn d (first_vector 1 v),
      after_air-context ask ask_sgw mme enb_id imsi apn d (first_vector 1 v),
      refl,
      refl,
      refl,
      refl,
      ap some (sym r.5),
    )
