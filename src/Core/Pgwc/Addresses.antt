-- ===== src/Core/Pgwc/Addresses.antt =====
-- core/epc_pgw_c.py: the addresses that the PGW-C gives to UEs.
use v_epc_cups.Prelude.{
  ℕ, ◌+◌, ◌^◌, ◌≤◌, ◌<◌, ◌≡◌, Bool-cases, inl, inr, Option, none, some, List, nat_beq, ltb, arith,
}
use v_epc_cups.Prelude.Results.{Result, ok, err, type_error, need}
use v_epc_cups.Prelude.Classes.{bytes_eq}
use v_epc_cups.Prelude.Dict.{get, put, pop}
use v_epc_cups.Prelude.Dict.Numbered.{
  IsNumbered, IsFresh, bound-IsFresh, later-IsNumbered, pop-IsNumbered, put-IsNumbered,
}
use v_epc_cups.Bytes.{Bytes, Ip}
use v_epc_cups.GtpC
use v_epc_cups.GtpC.{Message}
use v_epc_cups.GtpC.Bearer.{FTeid}
use v_epc_cups.GtpC.Values.{
  create_session_request, create_session_response, modify_bearer_request, delete_session_request,
  delete_session_response,
}
use v_epc_cups.Diameter.Codes.{cc_initial}
use v_epc_cups.Sxcups.Session.{Session}
use v_epc_cups.Core.Procedures.{◌>>=◌, value, give}
use v_epc_cups.Core.Procedures.Keeps.{resume-Keeps, value-Keeps}
use v_epc_cups.Core.Pcrf.{Qos}
use v_epc_cups.Core.Cpf.Requests.{Arrival, arrive}
use v_epc_cups.Core.Cpf.SessionChanges.{session_delete}
use v_epc_cups.Core.Epc.{imsi_in, ebi_in, f_teid_in, uplink_tunnel, establish}
use v_epc_cups.Core.Sgwc.Messages.{answer_of}
use v_epc_cups.Core.Pgwc.State.{Pgwc, Context, ue_pool_start, next_ip}
use v_epc_cups.Core.Pgwc.Request.{cc_termination, ccr_bytes}
use v_epc_cups.Core.Pgwc.Messages.{Created, created_answer, modified_answer}
use v_epc_cups.Core.Pgwc.{
  take_ue_ip, ask_policy, gx_ccr, keep_session, set_up, open_session, admit, in_cpf, create_session,
  modify_bearer, release, delete_session, dispatch, received, handle_s5c, answer,
}

abbrev address : Context → Ip
address c = c.ue_ip

-- The contexts have different addresses, all of them among those that the pool has given.
abbrev pub IsPooled : Pgwc → Type 0
IsPooled pgw = IsNumbered address ue_pool_start (ue_pool_start + pgw.ue_n) pgw.ctx

-- An address that the pool has given, and no context has.
abbrev IsReserved : Ip → Pgwc → Type 0
IsReserved ip pgw =
    (ue_pool_start ≤ ip) × (ip < ue_pool_start + pgw.ue_n) × IsFresh address ip pgw.ctx

ok_injective : (a b : Ip) → some (ok a) ≡ some (ok b) → a ≡ b
ok_injective a b h = cc

take_ue_ip-IsReserved :
    (pgw : Pgwc)
    → IsPooled pgw
    → IsPooled (take_ue_ip pgw).0
      × ((ip : Ip) → (take_ue_ip pgw).2 ≡ some (ok ip) → IsReserved ip (take_ue_ip pgw).0)
unfolding next_ip
take_ue_ip-IsReserved pgw h =
    let fresh = bound-IsFresh address ue_pool_start (ue_pool_start + pgw.ue_n) pgw.ctx h in
    let later =
      later-IsNumbered address ue_pool_start (ue_pool_start + pgw.ue_n)
        (ue_pool_start + (pgw.ue_n + 1)) pgw.ctx (omega arith) h in
    let reserved : IsReserved (ue_pool_start + pgw.ue_n) (record pgw { ue_n = pgw.ue_n + 1 }) =
      (omega arith, omega arith, fresh) in
    elim (Bool-cases (ltb (ue_pool_start + pgw.ue_n) (2 ^ 32))) [
      | inl e ↦ rw (e) (later, λ ip same. rw (← ok_injective _ _ same) reserved)
      | inr e ↦ rw (e) (h, λ ip same. cc)
    ]

answer-IsPooled : (r : Result Bytes) (pgw : Pgwc) → IsPooled pgw → IsPooled (answer r pgw).0
answer-IsPooled r pgw h = value-Keeps IsPooled pgw r (λ b. give (some b)) h (λ _ _. h)

module _ (ask_pcrf : Bytes → Option Bytes) (before during : List Arrival) where
  gx_ccr-IsPooled :
      (imsi : Bytes) (ctype : ℕ) (pgw : Pgwc)
      → IsPooled pgw
      → IsPooled (gx_ccr ask_pcrf before during imsi ctype pgw).0
  unfolding gx_ccr
  gx_ccr-IsPooled imsi ctype pgw h =
      value-Keeps IsPooled (record pgw { ccn = pgw.ccn + 1 })
        (ccr_bytes pgw.ip_text (pgw.ccn + 1) imsi ctype)
        (ask_policy ask_pcrf before during pgw.pcrf_ip) h (λ req _. h)

  keep_session-IsPooled :
      (msg : Message) (from : Ip) (t : FTeid) (qos : Qos) (made : Created) (pgw : Pgwc)
      → IsPooled pgw
      → IsReserved made.ue_ip pgw
      → IsPooled (keep_session ask_pcrf before during msg from t qos made pgw).0
  unfolding keep_session
  keep_session-IsPooled msg from t qos made pgw h r =
      let c : Context = record {
        pgw_teid = made.pgw_teid;
        sgw_teid = t.teid;
        sgw_ip = from;
        ue_ip = made.ue_ip;
        ebi = made.ebi;
        qos = qos;
        seid = made.seid;
      } in
      let pgw' : Pgwc = record pgw { ctx = put made.imsi c pgw.ctx } in
      let h' : IsPooled pgw' =
        put-IsNumbered address ue_pool_start (ue_pool_start + pgw.ue_n) made.imsi c pgw.ctx h r.0
          r.1 r.2 in
      value-Keeps IsPooled pgw' (need type_error qos.qci)
        (λ _. answer (created_answer pgw msg.seq made qos)) h'
        (λ _ _.
          value-Keeps IsPooled pgw' (created_answer pgw msg.seq made qos) (λ b. give (some b)) h'
            (λ _ _. h'))

  set_up-IsPooled :
      (msg : Message) (from : Ip) (imsi : Bytes) (ebi : ℕ) (t : FTeid) (qos : Qos) (ip : Ip)
      (found : Option Session) (pgw : Pgwc)
      → IsPooled pgw
      → IsReserved ip pgw
      → IsPooled (set_up ask_pcrf before during msg from imsi ebi t qos ip found pgw).0
  unfolding set_up
  set_up-IsPooled msg from imsi ebi t qos ip none pgw h r =
      value-Keeps IsPooled pgw (answer_of create_session_response msg.seq 2) (λ b. give (some b)) h
        (λ b _. h)
  set_up-IsPooled msg from imsi ebi t qos ip (some s) pgw h r =
      let made = λ (seid : ℕ) (tunnel : ℕ × Ip).
        let m : Created = record {
          imsi = imsi;
          pgw_teid = tunnel.0;
          seid = seid;
          ue_ip = ip;
          ebi = ebi;
        } in
        m in
      value-Keeps IsPooled pgw (need type_error s.seid)
        (λ seid. value (uplink_tunnel pgw.pgw_u_ip s) >>= λ tunnel.
          keep_session ask_pcrf before during msg from t qos (made seid tunnel))
        h
        (λ seid _.
          value-Keeps IsPooled pgw (uplink_tunnel pgw.pgw_u_ip s)
            (λ tunnel. keep_session ask_pcrf before during msg from t qos (made seid tunnel)) h
            (λ tunnel _. keep_session-IsPooled msg from t qos (made seid tunnel) pgw h r))

  open_session-IsPooled :
      (msg : Message) (from : Ip) (ebi : ℕ) (t : FTeid) (qos : Qos) (ip : Ip) (pgw : Pgwc)
      → IsPooled pgw
      → IsReserved ip pgw
      → IsPooled (open_session ask_pcrf before during msg from ebi t qos ip pgw).0
  unfolding open_session establish
  open_session-IsPooled msg from ebi t qos ip pgw h r =
      resume-Keeps IsPooled
        (in_cpf (λ c. establish (arrive c before) pgw.pgw_u_ip (some ip) during) pgw)
        (set_up ask_pcrf before during msg from (imsi_in msg) ebi t qos ip) h
        (λ found _. set_up-IsPooled msg from (imsi_in msg) ebi t qos ip found _ h r)

  admit-IsPooled :
      (msg : Message) (from : Ip) (t : FTeid) (ebi : ℕ) (pgw : Pgwc)
      → IsPooled pgw
      → IsPooled (admit ask_pcrf before during msg from t ebi pgw).0
  unfolding admit gx_ccr
  admit-IsPooled msg from t ebi pgw h =
      let priced = gx_ccr ask_pcrf before during (imsi_in msg) cc_initial pgw in
      let h₁ = gx_ccr-IsPooled (imsi_in msg) cc_initial pgw h in
      resume-Keeps IsPooled priced
        (λ qos. take_ue_ip >>= open_session ask_pcrf before during msg from ebi t qos) h₁
        (λ qos _.
          let taken = take_ue_ip-IsReserved priced.0 h₁ in
          resume-Keeps IsPooled (take_ue_ip priced.0)
            (open_session ask_pcrf before during msg from ebi t qos) taken.0
            (λ ip got. open_session-IsPooled msg from ebi t qos ip _ taken.0 (taken.1 ip got)))

  create_session-IsPooled :
      (msg : Message) (from : Ip) (pgw : Pgwc)
      → IsPooled pgw
      → IsPooled (create_session ask_pcrf before during msg from pgw).0
  unfolding create_session
  create_session-IsPooled msg from pgw h =
      value-Keeps IsPooled pgw (f_teid_in from msg)
        (λ t. value (ebi_in msg) >>= admit ask_pcrf before during msg from t) h
        (λ t _.
          value-Keeps IsPooled pgw (ebi_in msg) (admit ask_pcrf before during msg from t) h
            (λ ebi _. admit-IsPooled msg from t ebi pgw h))

  release-IsPooled :
      (imsi : Bytes) (found : Option Context) (pgw : Pgwc)
      → IsPooled pgw
      → IsPooled (release ask_pcrf before during imsi found pgw).0
  unfolding release
  release-IsPooled imsi none pgw h = h
  release-IsPooled imsi (some c) pgw h =
      resume-Keeps IsPooled (in_cpf (λ cpf. session_delete (arrive cpf before) c.seid during) pgw)
        (λ _. gx_ccr ask_pcrf before during imsi cc_termination >>= λ _. give tt) h
        (λ _ _.
          let asked : Pgwc = record pgw {
            cpf = (session_delete (arrive pgw.cpf before) c.seid during).0;
          } in
          let h' = gx_ccr-IsPooled imsi cc_termination asked h in
          resume-Keeps IsPooled (gx_ccr ask_pcrf before during imsi cc_termination asked)
            (λ _. give tt) h' (λ _ _. h'))

  delete_session-IsPooled :
      (msg : Message) (pgw : Pgwc)
      → IsPooled pgw
      → IsPooled (delete_session ask_pcrf before during msg pgw).0
  unfolding delete_session
  delete_session-IsPooled msg pgw h =
      let pgw' : Pgwc = record pgw { ctx = pop (imsi_in msg) pgw.ctx } in
      let h' : IsPooled pgw' =
        pop-IsNumbered address ue_pool_start (ue_pool_start + pgw.ue_n) (imsi_in msg) pgw.ctx h in
      let hr = release-IsPooled (imsi_in msg) (get (imsi_in msg) pgw.ctx) pgw' h' in
      resume-Keeps IsPooled
        (release ask_pcrf before during (imsi_in msg) (get (imsi_in msg) pgw.ctx) pgw')
        (λ _. answer (answer_of delete_session_response msg.seq 16)) hr
        (λ _ _.
          answer-IsPooled (answer_of delete_session_response msg.seq 16)
            (release ask_pcrf before during (imsi_in msg) (get (imsi_in msg) pgw.ctx) pgw').0 hr)

  modify_bearer-IsPooled :
      (msg : Message) (pgw : Pgwc)
      → IsPooled pgw
      → IsPooled (modify_bearer ask_pcrf before during msg pgw).0
  unfolding modify_bearer
  modify_bearer-IsPooled msg pgw h =
      answer-IsPooled (modified_answer pgw msg.seq (get (imsi_in msg) pgw.ctx)) pgw h

  dispatch-IsPooled :
      (msg : Message) (from : Ip) (pgw : Pgwc)
      → IsPooled pgw
      → IsPooled (dispatch ask_pcrf before during msg from pgw).0
  unfolding dispatch
  dispatch-IsPooled msg from pgw h =
      elim (Bool-cases (nat_beq msg.msg_type create_session_request)) [
        | inl t ↦ rw (t) (create_session-IsPooled msg from pgw h)
        | inr t₁ ↦ elim (Bool-cases (nat_beq msg.msg_type modify_bearer_request)) [
          | inl t ↦ rw (t₁, t) (modify_bearer-IsPooled msg pgw h)
          | inr t₂ ↦ elim (Bool-cases (nat_beq msg.msg_type delete_session_request)) [
            | inl t ↦ rw (t₁, t₂, t) (delete_session-IsPooled msg pgw h)
            | inr t ↦ rw (t₁, t₂, t) h
          ]
        ]
      ]

  received-IsPooled :
      (r : Result Message) (from : Ip) (pgw : Pgwc)
      → IsPooled pgw
      → IsPooled (received ask_pcrf before during r from pgw).0
  unfolding received
  received-IsPooled (err e) from pgw h = h
  received-IsPooled (ok msg) from pgw h = dispatch-IsPooled msg from pgw h

-- Whatever datagram the PGW-C receives, however the PCRF and the user plane answer, and also where the
-- handler raises or never ends: the contexts keep different UE addresses, all of them among those that the
-- pool has given so far.
pub handle_s5c-IsPooled :
    (ask_pcrf : Bytes → Option Bytes) (before during : List Arrival) (bytes : Bytes) (from : Ip)
    (pgw : Pgwc)
    → IsPooled pgw
    → IsPooled (handle_s5c ask_pcrf before during bytes from pgw).0
unfolding handle_s5c
handle_s5c-IsPooled ask_pcrf before during bytes from pgw h =
    received-IsPooled ask_pcrf before during (GtpC.from_bytes bytes) from pgw h
