-- ===== src/Core/Sgwc/Tunnels/Creation.antt =====
-- core/epc_sgw_c.py: a new session keeps the TEIDs for S5-U apart.
use v_epc_cups.Prelude.{ℕ, ◌+◌, Option, none, some, List, arith}
use v_epc_cups.Prelude.Results.{Result, type_error, need}
use v_epc_cups.Prelude.Classes.{bytes_eq}
use v_epc_cups.Prelude.Dict.{put}
use v_epc_cups.Prelude.Dict.Numbered.{IsNumbered, bound-IsFresh, later-IsNumbered, put-IsNumbered}
use v_epc_cups.Bytes.{Bytes}
use v_epc_cups.GtpC.{Message}
use v_epc_cups.GtpC.Values.{create_session_response}
use v_epc_cups.Sxcups.Session.{Session}
use v_epc_cups.Core.Procedures.{◌>>=◌, value, give}
use v_epc_cups.Core.Procedures.Keeps.{resume-Keeps, value-Keeps}
use v_epc_cups.Core.Cpf.Requests.{Arrival, arrive}
use v_epc_cups.Core.Epc.{imsi_in, apn_in, ebi_in, uplink_tunnel, establish}
use v_epc_cups.Core.Sgwc.State.{Sgwc, Context}
use v_epc_cups.Core.Sgwc.Messages.{Offer, Opened, s5_request, offer_in, answer_of, created_answer}
use v_epc_cups.Core.Sgwc.{
  answer, refuse, in_cpf, keep_session, set_up, open_session, answered, exchange, request_session,
  create_session,
}

abbrev pub tunnel : Context → ℕ
tunnel c = c.s5u

-- The contexts have different TEIDs for S5-U, none beyond the last that was given.
abbrev pub IsTunnelled : Sgwc → Type 0
IsTunnelled sgw = IsNumbered tunnel 0 (sgw.s5u + 1) sgw.ctx

-- The same, and no context has the last TEID yet.
abbrev IsLent : Sgwc → Type 0
IsLent sgw = IsNumbered tunnel 0 sgw.s5u sgw.ctx

lent-IsTunnelled : (sgw : Sgwc) → IsLent sgw → IsTunnelled sgw
lent-IsTunnelled sgw h = later-IsNumbered tunnel 0 sgw.s5u (sgw.s5u + 1) sgw.ctx (omega arith) h

pub answer-IsTunnelled :
    (r : Result Bytes) (sgw : Sgwc) → IsTunnelled sgw → IsTunnelled (answer r sgw).0
answer-IsTunnelled r sgw h = value-Keeps IsTunnelled sgw r (λ b. give (some b)) h (λ _ _. h)

refuse-IsTunnelled : (msg : Message) (sgw : Sgwc) → IsTunnelled sgw → IsTunnelled (refuse msg sgw).0
unfolding refuse
refuse-IsTunnelled msg sgw h =
    answer-IsTunnelled (answer_of create_session_response msg.seq 2) sgw h

module _ (ask_pgw : Bytes → Option Bytes) (before during : List Arrival) where
  keep_session-IsTunnelled :
      (msg : Message) (offer : Offer) (made : Opened) (sgw : Sgwc)
      → IsLent sgw
      → IsTunnelled (keep_session ask_pgw before during msg offer made sgw).0
  unfolding keep_session
  keep_session-IsTunnelled msg offer made sgw h =
      let c : Context = record {
        seid = made.seid;
        s1u = made.s1u;
        s5u = sgw.s5u;
        pgw_teid = offer.pgw_teid;
        pgw_ip = offer.pgw_ip;
        ue_ip = offer.ue_ip;
        ebi = made.ebi;
        ambr = offer.ambr;
        enb_dl = none;
      } in
      let kept : Sgwc = record sgw { ctx = put made.imsi c sgw.ctx } in
      let h' : IsTunnelled kept =
        put-IsNumbered tunnel 0 (sgw.s5u + 1) made.imsi c sgw.ctx (lent-IsTunnelled sgw h)
          (omega arith) (omega arith) (bound-IsFresh tunnel 0 sgw.s5u sgw.ctx h) in
      value-Keeps IsTunnelled kept (need type_error offer.ue_ip)
        (λ ue_ip. answer (created_answer sgw msg.seq made ue_ip offer.ambr)) h'
        (λ ue_ip _. answer-IsTunnelled (created_answer sgw msg.seq made ue_ip offer.ambr) kept h')

  set_up-IsTunnelled :
      (msg : Message) (imsi : Bytes) (ebi : ℕ) (offer : Offer) (found : Option Session) (sgw : Sgwc)
      → IsLent sgw
      → IsTunnelled (set_up ask_pgw before during msg imsi ebi offer found sgw).0
  unfolding set_up
  set_up-IsTunnelled msg imsi ebi offer none sgw h =
      refuse-IsTunnelled msg sgw (lent-IsTunnelled sgw h)
  set_up-IsTunnelled msg imsi ebi offer (some s) sgw h =
      let made = λ (seid : ℕ) (s1u : ℕ).
        let m : Opened = record { imsi = imsi; seid = seid; s1u = s1u; ebi = ebi } in m in
      let h' = lent-IsTunnelled sgw h in
      value-Keeps IsTunnelled sgw (need type_error s.seid)
        (λ seid. value (uplink_tunnel sgw.sgw_u_ip s) >>= λ t.
          keep_session ask_pgw before during msg offer (made seid t.0))
        h'
        (λ seid _.
          value-Keeps IsTunnelled sgw (uplink_tunnel sgw.sgw_u_ip s)
            (λ t. keep_session ask_pgw before during msg offer (made seid t.0)) h'
            (λ t _. keep_session-IsTunnelled msg offer (made seid t.0) sgw h))

  open_session-IsTunnelled :
      (msg : Message) (imsi : Bytes) (ebi : ℕ) (offer : Offer) (sgw : Sgwc)
      → IsLent sgw
      → IsTunnelled (open_session ask_pgw before during msg imsi ebi offer sgw).0
  unfolding open_session establish
  open_session-IsTunnelled msg imsi ebi offer sgw h =
      resume-Keeps IsTunnelled
        (in_cpf (λ c. establish (arrive c before) sgw.sgw_u_ip offer.ue_ip during) sgw)
        (set_up ask_pgw before during msg imsi ebi offer) (lent-IsTunnelled sgw h)
        (λ found _. set_up-IsTunnelled msg imsi ebi offer found _ h)

  answered-IsTunnelled :
      (msg : Message) (imsi : Bytes) (ebi : ℕ) (rep : Option Bytes) (sgw : Sgwc)
      → IsLent sgw
      → IsTunnelled (answered ask_pgw before during msg imsi ebi rep sgw).0
  unfolding answered
  answered-IsTunnelled msg imsi ebi none sgw h = refuse-IsTunnelled msg sgw (lent-IsTunnelled sgw h)
  answered-IsTunnelled msg imsi ebi (some rep) sgw h =
      value-Keeps IsTunnelled sgw (offer_in sgw.pgw_c_ip rep)
        (open_session ask_pgw before during msg imsi ebi) (lent-IsTunnelled sgw h)
        (λ offer _. open_session-IsTunnelled msg imsi ebi offer sgw h)

  request_session-IsTunnelled :
      (msg : Message) (ebi : ℕ) (sgw : Sgwc)
      → IsTunnelled sgw
      → IsTunnelled (request_session ask_pgw before during msg ebi sgw).0
  unfolding request_session
  request_session-IsTunnelled msg ebi sgw h =
      let lent : Sgwc = record sgw { s5u = sgw.s5u + 1 } in
      value-Keeps IsTunnelled lent (s5_request lent msg.seq (imsi_in msg) (apn_in msg) ebi)
        (exchange ask_pgw before during msg ebi) (lent-IsTunnelled lent h)
        (λ req _. answered-IsTunnelled msg (imsi_in msg) ebi (ask_pgw req) lent h)

  pub create_session-IsTunnelled :
      (msg : Message) (sgw : Sgwc)
      → IsTunnelled sgw
      → IsTunnelled (create_session ask_pgw before during msg sgw).0
  unfolding create_session
  create_session-IsTunnelled msg sgw h =
      value-Keeps IsTunnelled sgw (ebi_in msg) (request_session ask_pgw before during msg) h
        (λ ebi _. request_session-IsTunnelled msg ebi sgw h)
