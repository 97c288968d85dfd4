-- ===== src/Core/Sgwc/Creation.antt =====
-- core/epc_sgw_c.py: the session that a Create Session Request sets up.
use v_epc_cups.Prelude.{ℕ, ◌+◌, ◌≡◌, refl, ap, Option, none, some, List}
use v_epc_cups.Prelude.Results.{Result, ok, type_error, need}
use v_epc_cups.Prelude.Classes.{bytes_eq}
use v_epc_cups.Prelude.Dict.{put}
use v_epc_cups.Bytes.{Bytes, Ip}
use v_epc_cups.GtpC.{Message}
use v_epc_cups.Sxcups.Session.{Session}
use v_epc_cups.Core.Procedures.{◌>>=◌, value}
use v_epc_cups.Core.Procedures.Yields.{Yields, resume-Yields, value-Yields}
use v_epc_cups.Core.Cpf.State.{Cpf}
use v_epc_cups.Core.Cpf.Requests.{Arrival, arrive}
use v_epc_cups.Core.Epc.{imsi_in, apn_in, ebi_in, uplink_tunnel, establish}
use v_epc_cups.Core.Sgwc.State.{Sgwc, Context}
use v_epc_cups.Core.Sgwc.Messages.{Offer, Opened, s5_request, offer_in, created_answer}
use v_epc_cups.Core.Sgwc.Replies.{FitsAnswer, created_answer-bearer}
use v_epc_cups.Core.Sgwc.{
  keep_session, set_up, open_session, answered, exchange, request_session, in_cpf, create_session,
}

-- What the SGW-C takes from the request, the PGW-C's answer and the user plane.
pub record Service : Type 0 where
  pub ebi : ℕ
  pub pgw_teid : ℕ
  pub pgw_ip : Option Ip
  pub ue_ip : Ip
  pub ambr : ℕ × ℕ
  pub cpf : Cpf
  pub session : Session
  pub seid : ℕ
  pub s1u : ℕ
  pub s1u_ip : Ip

abbrev pub offer_of : Service → Offer
offer_of g = record {
  pgw_teid = g.pgw_teid;
  pgw_ip = g.pgw_ip;
  ue_ip = some g.ue_ip;
  ambr = g.ambr;
}

-- With the next TEID for S5-U.
abbrev pub numbered : Sgwc → Sgwc
numbered sgw = record sgw { s5u = sgw.s5u + 1 }

abbrev pub made : Message → Service → Opened
made msg g = record { imsi = imsi_in msg; seid = g.seid; s1u = g.s1u; ebi = g.ebi }

-- The context of the new session.
abbrev pub served : Sgwc → Service → Context
served sgw g = record {
  seid = g.seid;
  s1u = g.s1u;
  s5u = sgw.s5u + 1;
  pgw_teid = g.pgw_teid;
  pgw_ip = g.pgw_ip;
  ue_ip = some g.ue_ip;
  ebi = g.ebi;
  ambr = g.ambr;
  enb_dl = none;
}

abbrev pub opened : Sgwc → Service → Sgwc
opened sgw g = record sgw { s5u = sgw.s5u + 1; cpf = g.cpf }

-- The state with the new session.
abbrev pub after_service : Sgwc → Message → Service → Sgwc
after_service sgw msg g = record sgw {
  s5u = sgw.s5u + 1;
  cpf = g.cpf;
  ctx = put (imsi_in msg) (served sgw g) sgw.ctx;
}

-- The user plane accepts the session, and the numbers of the answer fit their fields.
pub record IsOpened (before during : List Arrival) (sgw : Sgwc) (msg : Message) (g : Service)
    : Type 0 where
  pub session_made :
      establish (arrive sgw.cpf before) sgw.sgw_u_ip (some g.ue_ip) during
      ≡ (g.cpf, ok (some g.session))
  pub seid_known : g.session.seid ≡ some g.seid
  pub tunnel_known : uplink_tunnel sgw.sgw_u_ip g.session ≡ ok (g.s1u, g.s1u_ip)
  pub fits : FitsAnswer (opened sgw g) msg.seq (made msg g) g.ue_ip g.ambr

module _ (ask_pgw : Bytes → Option Bytes) (before during : List Arrival) (sgw : Sgwc)
    (msg : Message) (g : Service) (h : IsOpened before during sgw msg g) where
  -- The answer to the MME.
  abbrev pub answer_bytes : Bytes
  answer_bytes = (created_answer-bearer (opened sgw g) msg.seq (made msg g) g.ue_ip g.ambr h.fits).0

  answer_built : created_answer (opened sgw g) msg.seq (made msg g) g.ue_ip g.ambr ≡ ok answer_bytes
  answer_built = (created_answer-bearer (opened sgw g) msg.seq (made msg g) g.ue_ip g.ambr h.fits).1

  keep_session-Yields :
      Yields
        (keep_session ask_pgw before during msg (offer_of g) (made msg g) (opened sgw g))
        (after_service sgw msg g)
        (some answer_bytes)
  unfolding keep_session
  keep_session-Yields = rw (answer_built) (refl, refl)

  set_up-Yields :
      Yields
        (set_up ask_pgw before during msg
          (imsi_in msg)
          g.ebi
          (offer_of g)
          (some g.session)
          (opened sgw g))
        (after_service sgw msg g)
        (some answer_bytes)
  unfolding set_up
  set_up-Yields =
      let keep = λ (seid : ℕ) (tunnel : ℕ × Ip).
        keep_session ask_pgw before during msg (offer_of g)
          (record { imsi = imsi_in msg; seid = seid; s1u = tunnel.0; ebi = g.ebi }) in
      value-Yields (opened sgw g) (need type_error g.session.seid)
        (λ seid. value (uplink_tunnel sgw.sgw_u_ip g.session) >>= keep seid) g.seid
        (after_service sgw msg g) (some answer_bytes) (ap (need type_error) h.seid_known)
        (value-Yields (opened sgw g) (uplink_tunnel sgw.sgw_u_ip g.session) (keep g.seid)
          (g.s1u, g.s1u_ip) (after_service sgw msg g) (some answer_bytes) h.tunnel_known
          keep_session-Yields)

  open_session-Yields :
      Yields
        (open_session ask_pgw before during msg (imsi_in msg) g.ebi (offer_of g) (numbered sgw))
        (after_service sgw msg g)
        (some answer_bytes)
  unfolding open_session establish
  open_session-Yields =
      resume-Yields
        (in_cpf (λ c. establish (arrive c before) sgw.sgw_u_ip (some g.ue_ip) during)
          (numbered sgw))
        (set_up ask_pgw before during msg (imsi_in msg) g.ebi (offer_of g)) (opened sgw g)
        (some g.session) (after_service sgw msg g) (some answer_bytes)
        (
          ap (λ (r : Cpf × Result (Option Session)). record (numbered sgw) { cpf = r.0 })
              h.session_made,
          ap (λ (r : Cpf × Result (Option Session)). some r.1) h.session_made,
        )
        set_up-Yields

  module _ (req rep : Bytes) (read : ebi_in msg ≡ ok g.ebi)
      (asked : s5_request (numbered sgw) msg.seq (imsi_in msg) (apn_in msg) g.ebi ≡ ok req)
      (came : ask_pgw req ≡ some rep) (offered : offer_in sgw.pgw_c_ip rep ≡ ok (offer_of g)) where
    answered-Yields :
        Yields
          (answered ask_pgw before during msg (imsi_in msg) g.ebi (ask_pgw req) (numbered sgw))
          (after_service sgw msg g)
          (some answer_bytes)
    unfolding answered
    answered-Yields = rw (came) (
        value-Yields (numbered sgw) (offer_in sgw.pgw_c_ip rep)
          (open_session ask_pgw before during msg (imsi_in msg) g.ebi) (offer_of g)
          (after_service sgw msg g) (some answer_bytes) offered open_session-Yields)

    exchange-Yields :
        Yields
          (exchange ask_pgw before during msg g.ebi req (numbered sgw))
          (after_service sgw msg g)
          (some answer_bytes)
    unfolding exchange
    exchange-Yields = answered-Yields

    pub create_session-Yields :
        Yields
          (create_session ask_pgw before during msg sgw)
          (after_service sgw msg g)
          (some answer_bytes)
    unfolding create_session request_session
    create_session-Yields =
        value-Yields sgw (ebi_in msg) (request_session ask_pgw before during msg) g.ebi
          (after_service sgw msg g) (some answer_bytes) read
          (value-Yields (numbered sgw)
            (s5_request (numbered sgw) msg.seq (imsi_in msg) (apn_in msg) g.ebi)
            (exchange ask_pgw before during msg g.ebi) req (after_service sgw msg g)
            (some answer_bytes) asked exchange-Yields)
