-- ===== src/Core/Pgwc/Creation.antt =====
-- core/epc_pgw_c.py: the session that a Create Session Request sets up.
use v_epc_cups.Prelude.{ℕ, ◌+◌, ◌^◌, ◌<◌, ◌≡◌, refl, ap, ◌∙◌, Option, some, List, lt→ltb}
use v_epc_cups.Prelude.Results.{Result, ok, type_error, need}
use v_epc_cups.Prelude.Classes.{bytes_eq}
use v_epc_cups.Prelude.Dict.{get, put, get-put_self}
use v_epc_cups.Bytes.{Bytes, Ip}
use v_epc_cups.GtpC.{Message}
use v_epc_cups.GtpC.Bearer.{FTeid}
use v_epc_cups.Diameter.Codes.{cc_initial}
use v_epc_cups.Sxcups.Session.{Session}
use v_epc_cups.Core.Procedures.{◌>>=◌, value}
use v_epc_cups.Core.Procedures.Keeps.{value-Keeps}
use v_epc_cups.Core.Procedures.Yields.{Yields, resume-Yields, value-Yields}
use v_epc_cups.Core.Pcrf.{Qos}
use v_epc_cups.Core.Cpf.State.{Cpf}
use v_epc_cups.Core.Cpf.Requests.{Arrival, arrive}
use v_epc_cups.Core.Epc.{imsi_in, ebi_in, f_teid_in, uplink_tunnel, establish}
use v_epc_cups.Core.Sgwc.Messages.{offer_in}
use v_epc_cups.Core.Pgwc.State.{Pgwc, Context, ue_pool_start, next_ip}
use v_epc_cups.Core.Pgwc.Request.{ccr_bytes}
use v_epc_cups.Core.Pgwc.Messages.{Created, created_answer}
use v_epc_cups.Core.Pgwc.Replies.{Fits, created_answer-offer}
use v_epc_cups.Core.Pgwc.{
  take_ue_ip, ask_policy, gx_ccr, keep_session, set_up, open_session, admit, in_cpf, create_session,
}

-- What the PGW-C takes from the request, the PCRF and the user plane.
pub record Grant : Type 0 where
  pub tunnel : FTeid
  pub ebi : ℕ
  pub qci : ℕ
  pub ul : ℕ
  pub dl : ℕ
  pub cpf : Cpf
  pub session : Session
  pub seid : ℕ
  pub pgw_teid : ℕ
  pub pgw_ip : Ip

abbrev pub policy : Grant → Qos
policy g = record { qci = some g.qci; mbr_ul = some g.ul; mbr_dl = some g.dl }

abbrev pub next_address : Pgwc → Ip
next_address pgw = ue_pool_start + pgw.ue_n

abbrev pub made : Pgwc → Message → Grant → Created
made pgw msg g = record {
  imsi = imsi_in msg;
  pgw_teid = g.pgw_teid;
  seid = g.seid;
  ue_ip = next_address pgw;
  ebi = g.ebi;
}

-- The context of the new session.
abbrev pub granted : Pgwc → Ip → Grant → Context
granted pgw from g = record {
  pgw_teid = g.pgw_teid;
  sgw_teid = g.tunnel.teid;
  sgw_ip = from;
  ue_ip = next_address pgw;
  ebi = g.ebi;
  qos = policy g;
  seid = g.seid;
}

-- The state with the new session.
abbrev pub after_grant : Pgwc → Message → Ip → Grant → Pgwc
after_grant pgw msg from g = record pgw {
  ccn = pgw.ccn + 1;
  ue_n = pgw.ue_n + 1;
  cpf = g.cpf;
  ctx = put (imsi_in msg) (granted pgw from g) pgw.ctx;
}

-- The request can be read, the PCRF gives a whole policy, the pool has an address, and the user plane
-- accepts the session.
pub record IsGranted (ask_pcrf : Bytes → Option Bytes) (before during : List Arrival) (pgw : Pgwc)
    (msg : Message) (from : Ip) (g : Grant) : Type 0 where
  pub tunnel_read : f_teid_in from msg ≡ ok g.tunnel
  pub ebi_read : ebi_in msg ≡ ok g.ebi
  pub policy_given :
      (gx_ccr ask_pcrf before during (imsi_in msg) cc_initial pgw).2 ≡ some (ok (policy g))
  pub address_left : next_address pgw < 2 ^ 32
  pub session_made :
      establish (arrive pgw.cpf before) pgw.pgw_u_ip (some (next_address pgw)) during
      ≡ (g.cpf, ok (some g.session))
  pub seid_known : g.session.seid ≡ some g.seid
  pub tunnel_known : uplink_tunnel pgw.pgw_u_ip g.session ≡ ok (g.pgw_teid, g.pgw_ip)
  pub fits : Fits (after_grant pgw msg from g) msg.seq (made pgw msg g) g.ul g.dl

module _ (ask_pcrf : Bytes → Option Bytes) (before during : List Arrival) (pgw : Pgwc)
    (msg : Message) (from : Ip) (g : Grant)
    (h : IsGranted ask_pcrf before during pgw msg from g) where
  abbrev priced : Pgwc
  priced = record pgw { ccn = pgw.ccn + 1 }

  abbrev addressed : Pgwc
  addressed = record pgw { ccn = pgw.ccn + 1; ue_n = pgw.ue_n + 1 }

  abbrev opened : Pgwc
  opened = record pgw { ccn = pgw.ccn + 1; ue_n = pgw.ue_n + 1; cpf = g.cpf }

  gx_ccr-priced :
      Yields (gx_ccr ask_pcrf before during (imsi_in msg) cc_initial pgw) priced (policy g)
  unfolding gx_ccr
  gx_ccr-priced = (
    value-Keeps (λ s. s ≡ priced) priced
        (ccr_bytes pgw.ip_text (pgw.ccn + 1) (imsi_in msg) cc_initial)
        (ask_policy ask_pcrf before during pgw.pcrf_ip) refl (λ _ _. refl),
    h.policy_given,
  )

  take_ue_ip-addressed : Yields (take_ue_ip priced) addressed (next_address pgw)
  unfolding next_ip
  take_ue_ip-addressed = rw (lt→ltb (next_address pgw) (2 ^ 32) h.address_left) (refl, refl)

  abbrev pub reply :
      (bytes : Bytes) × (created_answer
          (after_grant pgw msg from g)
          msg.seq
          (made pgw msg g)
          (policy g)
        ≡ ok bytes)
      × ((pgw_c_ip : Ip)
          → offer_in pgw_c_ip bytes
            ≡ ok (record {
              pgw_teid = g.pgw_teid;
              pgw_ip = some pgw.pgw_u_ip;
              ue_ip = some (next_address pgw);
              ambr = (g.ul, g.dl);
            }))
  reply =
      created_answer-offer (after_grant pgw msg from g) msg.seq (made pgw msg g) g.ul g.dl h.fits
        (policy g) refl refl

  keep_session-Yields :
      Yields
        (keep_session ask_pcrf before during msg from g.tunnel (policy g) (made pgw msg g) opened)
        (after_grant pgw msg from g)
        (some reply.0)
  unfolding keep_session
  keep_session-Yields = rw (reply.1) (refl, refl)

  set_up-Yields :
      Yields
        (set_up ask_pcrf before during msg from
          (imsi_in msg)
          g.ebi
          g.tunnel
          (policy g)
          (next_address pgw)
          (some g.session)
          opened)
        (after_grant pgw msg from g)
        (some reply.0)
  unfolding set_up
  set_up-Yields =
      value-Yields opened (need type_error g.session.seid)
        (λ seid. value (uplink_tunnel opened.pgw_u_ip g.session) >>= λ tunnel.
          keep_session ask_pcrf before during msg from g.tunnel (policy g) (record {
            imsi = imsi_in msg;
            pgw_teid = tunnel.0;
            seid = seid;
            ue_ip = next_address pgw;
            ebi = g.ebi;
          }))
        g.seid (after_grant pgw msg from g) (some reply.0) (ap (need type_error) h.seid_known)
        (value-Yields opened (uplink_tunnel opened.pgw_u_ip g.session)
          (λ tunnel. keep_session ask_pcrf before during msg from g.tunnel (policy g) (record {
            imsi = imsi_in msg;
            pgw_teid = tunnel.0;
            seid = g.seid;
            ue_ip = next_address pgw;
            ebi = g.ebi;
          }))
          (g.pgw_teid, g.pgw_ip) (after_grant pgw msg from g) (some reply.0) h.tunnel_known
          keep_session-Yields)

  open_session-Yields :
      Yields
        (open_session ask_pcrf before during msg from g.ebi g.tunnel
          (policy g)
          (next_address pgw)
          addressed)
        (after_grant pgw msg from g)
        (some reply.0)
  unfolding open_session establish
  open_session-Yields =
      resume-Yields
        (in_cpf (λ c. establish (arrive c before) pgw.pgw_u_ip (some (next_address pgw)) during)
          addressed)
        (set_up ask_pcrf before during msg from (imsi_in msg) g.ebi g.tunnel (policy g)
          (next_address pgw))
        opened (some g.session) (after_grant pgw msg from g) (some reply.0)
        (
          ap (λ (r : Cpf × Result (Option Session)). record addressed { cpf = r.0 }) h.session_made,
          ap (λ (r : Cpf × Result (Option Session)). some r.1) h.session_made,
        )
        set_up-Yields

  pub create_session-Yields :
      Yields
        (create_session ask_pcrf before during msg from pgw)
        (after_grant pgw msg from g)
        (some reply.0)
  unfolding create_session admit
  create_session-Yields =
      value-Yields pgw (f_teid_in from msg)
        (λ t. value (ebi_in msg) >>= admit ask_pcrf before during msg from t) g.tunnel
        (after_grant pgw msg from g) (some reply.0) h.tunnel_read
        (value-Yields pgw (ebi_in msg) (admit ask_pcrf before during msg from g.tunnel) g.ebi
          (after_grant pgw msg from g) (some reply.0) h.ebi_read
          (resume-Yields (gx_ccr ask_pcrf before during (imsi_in msg) cc_initial pgw)
            (λ qos. take_ue_ip >>= open_session ask_pcrf before during msg from g.ebi g.tunnel qos)
            priced (policy g) (after_grant pgw msg from g) (some reply.0) gx_ccr-priced
            (resume-Yields (take_ue_ip priced)
              (open_session ask_pcrf before during msg from g.ebi g.tunnel (policy g)) addressed
              (next_address pgw) (after_grant pgw msg from g) (some reply.0) take_ue_ip-addressed
              open_session-Yields)))

-- A Create Session Request that can be read, where the PCRF gives a whole policy, the pool has an
-- address, the user plane accepts, and the numbers fit their fields: the context of the IMSI has the
-- tunnels of both sides, the next address and the policy, and from the answer a SGW-C reads the tunnel
-- of the PGW-U, that address and the policy's rates.
pub create_session-granted :
    (ask_pcrf : Bytes → Option Bytes) (before during : List Arrival) (pgw : Pgwc) (msg : Message)
    (from : Ip) (g : Grant)
    → IsGranted ask_pcrf before during pgw msg from g
    → (bytes : Bytes) × ((create_session ask_pcrf before during msg from pgw).2
        ≡ some (ok (some bytes)))
      × (get (imsi_in msg) (create_session ask_pcrf before during msg from pgw).0.ctx
          ≡ some (granted pgw from g))
      × ((pgw_c_ip : Ip)
          → offer_in pgw_c_ip bytes
            ≡ ok (record {
              pgw_teid = g.pgw_teid;
              pgw_ip = some pgw.pgw_u_ip;
              ue_ip = some (next_address pgw);
              ambr = (g.ul, g.dl);
            }))
create_session-granted ask_pcrf before during pgw msg from g h =
    let y = create_session-Yields ask_pcrf before during pgw msg from g h in
    let r = reply ask_pcrf before during pgw msg from g h in
    (
      r.0,
      y.1,
      ap (λ (p : Pgwc). get (imsi_in msg) p.ctx) y.0
          ∙ get-put_self (imsi_in msg) (granted pgw from g) pgw.ctx,
      r.2,
    )
