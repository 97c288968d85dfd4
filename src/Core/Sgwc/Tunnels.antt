-- ===== src/Core/Sgwc/Tunnels.antt =====
-- core/epc_sgw_c.py: the TEIDs that the SGW-C gives for S5-U.
pub mod Creation
use v_epc_cups.Prelude.{
  ℕ, ◌+◌, ◌≤◌, ◌<◌, ◌≡◌, refl, Bool-cases, inl, inr, Option, none, some, List, [], ◌∷◌, nat_beq,
  arith,
}
use v_epc_cups.Prelude.Results.{Result, ok, err, type_error, need}
use v_epc_cups.Prelude.Classes.{bytes_eq}
use v_epc_cups.Prelude.Dict.{get, put, pop}
use v_epc_cups.Prelude.Dict.Numbered.{
  IsNumbered, bound-IsFresh, later-IsNumbered, pop-IsNumbered, put-IsNumbered, put-IsNumbered_same,
}
use v_epc_cups.Bytes.{Bytes}
use v_epc_cups.GtpC
use v_epc_cups.GtpC.{Message}
use v_epc_cups.GtpC.Bearer.{FTeid}
use v_epc_cups.GtpC.Values.{
  create_session_request, create_session_response, modify_bearer_request, delete_session_request,
  delete_session_response,
}
use v_epc_cups.Sxcups.Session.{Session}
use v_epc_cups.Core.Procedures.{◌>>=◌, ◌>>◌, value, give, read, send}
use v_epc_cups.Core.Procedures.Keeps.{resume-Keeps, value-Keeps}
use v_epc_cups.Core.Cpf.Requests.{Arrival, arrive}
use v_epc_cups.Core.Cpf.SessionChanges.{session_delete}
use v_epc_cups.Core.Epc.{imsi_in, apn_in, ebi_in, uplink_tunnel, establish}
use v_epc_cups.Core.Sgwc.State.{Sgwc, Context}
use v_epc_cups.Core.Sgwc.Messages.{
  Offer, Opened, s5_request, offer_in, answer_of, created_answer, enb_tunnel, modified_answer,
  s1u_tunnel, s5_delete,
}
use v_epc_cups.Core.Sgwc.{
  Handler, answer, refuse, in_cpf, keep_session, set_up, open_session, answered, exchange,
  request_session, create_session, install, modify_in, modify_bearer, delete_in, delete_session,
  dispatch, received, handle_s11, to_pgw_c,
}
use v_epc_cups.Core.Sgwc.Tunnels.Creation.{
  IsTunnelled, tunnel, answer-IsTunnelled, create_session-IsTunnelled,
}

module _ (ask_pgw : Bytes → Option Bytes) (before during : List Arrival) where
  install-IsTunnelled :
      (imsi : Bytes) (c : Context) (f : Option FTeid) (sgw : Sgwc)
      → IsTunnelled sgw
      → get imsi sgw.ctx ≡ some c
      → IsTunnelled (install ask_pgw before during imsi c f sgw).0
  unfolding install
  install-IsTunnelled imsi c none sgw h hc = h
  install-IsTunnelled imsi c (some f) sgw h hc =
      put-IsNumbered_same tunnel 0 (sgw.s5u + 1) imsi c (record c { enb_dl = some f.teid }) sgw.ctx
        h hc refl

  modify_in-IsTunnelled :
      (msg : Message) (imsi : Bytes) (found : Option Context) (sgw : Sgwc)
      → IsTunnelled sgw
      → get imsi sgw.ctx ≡ found
      → IsTunnelled (modify_in ask_pgw before during msg imsi found sgw).0
  unfolding modify_in
  modify_in-IsTunnelled msg imsi none sgw h hc =
      answer-IsTunnelled (modified_answer msg.seq []) sgw h
  modify_in-IsTunnelled msg imsi (some c) sgw h hc =
      let finish : Handler (Option Bytes) =
        λ s. answer (modified_answer msg.seq (s1u_tunnel s c ∷ [])) s in
      value-Keeps IsTunnelled sgw (enb_tunnel msg)
        (λ f. install ask_pgw before during imsi c f >> finish) h
        (λ f _.
          let h' = install-IsTunnelled imsi c f sgw h hc in
          resume-Keeps IsTunnelled (install ask_pgw before during imsi c f sgw) (λ _. finish) h'
            (λ _ _.
              answer-IsTunnelled
                (modified_answer msg.seq
                  (s1u_tunnel (install ask_pgw before during imsi c f sgw).0 c ∷ []))
                (install ask_pgw before during imsi c f sgw).0 h'))

  modify_bearer-IsTunnelled :
      (msg : Message) (sgw : Sgwc)
      → IsTunnelled sgw
      → IsTunnelled (modify_bearer ask_pgw before during msg sgw).0
  unfolding modify_bearer
  modify_bearer-IsTunnelled msg sgw h =
      modify_in-IsTunnelled msg (imsi_in msg) (get (imsi_in msg) sgw.ctx) sgw h refl

  delete_in-IsTunnelled :
      (msg : Message) (imsi : Bytes) (found : Option Context) (sgw : Sgwc)
      → IsTunnelled sgw
      → IsTunnelled (delete_in ask_pgw before during msg imsi found sgw).0
  unfolding delete_in
  delete_in-IsTunnelled msg imsi none sgw h =
      answer-IsTunnelled (answer_of delete_session_response msg.seq 16) sgw h
  delete_in-IsTunnelled msg imsi (some c) sgw h =
      let released = in_cpf (λ cpf. session_delete (arrive cpf before) c.seid during) sgw in
      let finish : Handler (Option Bytes) = answer (answer_of delete_session_response msg.seq 16) in
      let tell = λ (req : Bytes).
        read {A = Sgwc} (λ sgw. sgw) >>= λ sgw. send (to_pgw_c sgw.pgw_c_ip req) >> finish in
      resume-Keeps IsTunnelled released (λ gone. value (s5_delete msg.seq imsi) >>= tell) h
        (λ gone _.
          value-Keeps IsTunnelled released.0 (s5_delete msg.seq imsi) tell h (λ req _.
            answer-IsTunnelled (answer_of delete_session_response msg.seq 16) released.0 h))

  delete_session-IsTunnelled :
      (msg : Message) (sgw : Sgwc)
      → IsTunnelled sgw
      → IsTunnelled (delete_session ask_pgw before during msg sgw).0
  unfolding delete_session
  delete_session-IsTunnelled msg sgw h =
      delete_in-IsTunnelled msg (imsi_in msg) (get (imsi_in msg) sgw.ctx)
        (record sgw { ctx = pop (imsi_in msg) sgw.ctx })
        (pop-IsNumbered tunnel 0 (sgw.s5u + 1) (imsi_in msg) sgw.ctx h)

  dispatch-IsTunnelled :
      (msg : Message) (sgw : Sgwc)
      → IsTunnelled sgw
      → IsTunnelled (dispatch ask_pgw before during msg sgw).0
  unfolding dispatch
  dispatch-IsTunnelled msg sgw h = elim (Bool-cases (nat_beq msg.msg_type create_session_request)) [
    | inl t ↦ rw (t) (create_session-IsTunnelled ask_pgw before during msg sgw h)
    | inr t₁ ↦ elim (Bool-cases (nat_beq msg.msg_type modify_bearer_request)) [
      | inl t ↦ rw (t₁, t) (modify_bearer-IsTunnelled msg sgw h)
      | inr t₂ ↦ elim (Bool-cases (nat_beq msg.msg_type delete_session_request)) [
        | inl t ↦ rw (t₁, t₂, t) (delete_session-IsTunnelled msg sgw h)
        | inr t ↦ rw (t₁, t₂, t) h
      ]
    ]
  ]

  received-IsTunnelled :
      (r : Result Message) (sgw : Sgwc)
      → IsTunnelled sgw
      → IsTunnelled (received ask_pgw before during r sgw).0
  unfolding received
  received-IsTunnelled (err e) sgw h = h
  received-IsTunnelled (ok msg) sgw h = dispatch-IsTunnelled msg sgw h

-- Whatever datagram the SGW-C receives, however the PGW-C and the user plane answer, and also where the
-- handler raises: the contexts keep different TEIDs for S5-U, none beyond the last that was given.
pub handle_s11-IsTunnelled :
    (ask_pgw : Bytes → Option Bytes) (before during : List Arrival) (bytes : Bytes) (sgw : Sgwc)
    → IsTunnelled sgw
    → IsTunnelled (handle_s11 ask_pgw before during bytes sgw).0
unfolding handle_s11
handle_s11-IsTunnelled ask_pgw before during bytes sgw h =
    received-IsTunnelled ask_pgw before during (GtpC.from_bytes bytes) sgw h
