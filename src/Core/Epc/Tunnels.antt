-- ===== src/Core/Epc/Tunnels.antt =====
-- core/epc_sgw_c.py and core/epc_pgw_c.py: the session that they set up together, for the MME.
use v_epc_cups.Prelude.{ℕ, ◌+◌, ◌≡◌, refl, ap, sym, ◌∙◌, Option, none, some, List}
use v_epc_cups.Prelude.Results.{ok}
use v_epc_cups.Prelude.Runs.{Run}
use v_epc_cups.Prelude.Classes.{bytes_eq}
use v_epc_cups.Prelude.Dict.{get, get-put_self}
use v_epc_cups.Bytes.{Bytes, Ip}
use v_epc_cups.GtpC
use v_epc_cups.GtpC.{Message}
use v_epc_cups.GtpC.Bearer.{FTeid}
use v_epc_cups.GtpC.Values.{create_session_request, iface_s5_s8_sgw}
use v_epc_cups.Core.Procedures.Yields.{Yields}
use v_epc_cups.Sxcups.Session.{Session}
use v_epc_cups.Core.Cpf.State.{Cpf}
use v_epc_cups.Core.Cpf.Requests.{Arrival}
use v_epc_cups.Core.Mme.S11.{create_result}
use v_epc_cups.Core.Epc.{imsi_in, apn_in, ebi_in, f_teid_in}
use v_epc_cups.Core.Sgwc.State.{Sgwc, Context as SgwContext}
use v_epc_cups.Core.Sgwc.Messages.{s5_request}
use v_epc_cups.Core.Sgwc.Replies.{FitsRequest, s5_request-read, created_answer-bearer}
use v_epc_cups.Core.Sgwc.Creation.{
  Service, IsOpened, numbered, opened, made, served, answer_bytes,
  create_session-Yields as sgw_creates,
}
use v_epc_cups.Core.Sgwc.{create_session}
use v_epc_cups.Core.Pgwc.State.{Pgwc, Context as PgwContext}
use v_epc_cups.Core.Pgwc.Creation.{
  Grant, IsGranted, granted, next_address, after_grant, reply, create_session-Yields as pgw_creates,
}
use v_epc_cups.Core.Pgwc.{handle_s5c, dispatch}

-- The datagram that goes back after a handler, where there is one.
abbrev pub sent_back : Run (Option Bytes) → Option Bytes
sent_back (some (ok (some bytes))) = some bytes
sent_back _ = none

-- The PGW-C's part: what its handler does with a request of the SGW-C that is read as `m`.
handle_s5c-Yields :
    (ask_pcrf : Bytes → Option Bytes) (before during : List Arrival) (pgw : Pgwc) (req : Bytes)
    (m : Message) (from : Ip) (g : Grant) (h : IsGranted ask_pcrf before during pgw m from g)
    → GtpC.from_bytes req ≡ ok m
    → m.msg_type ≡ create_session_request
    → Yields
        (handle_s5c ask_pcrf before during req from pgw)
        (after_grant pgw m from g)
        (some (reply ask_pcrf before during pgw m from g h).0)
unfolding handle_s5c dispatch
handle_s5c-Yields ask_pcrf before during pgw req m from g h hr ht =
    rw (hr, ht) (pgw_creates ask_pcrf before during pgw m from g h)

ok_injective : {A : Type 0} (a b : A) → ok a ≡ ok b → a ≡ b
ok_injective a b h = cc

-- What the SGW-C takes from its user plane.
pub record Opening : Type 0 where
  pub cpf : Cpf
  pub session : Session
  pub seid : ℕ
  pub s1u : ℕ
  pub s1u_ip : Ip

-- The session of the SGW-C, from what the PGW-C offers.
abbrev pub service : Pgwc → Grant → Opening → Service
service pgw g o = record {
  ebi = g.ebi;
  pgw_teid = g.pgw_teid;
  pgw_ip = some pgw.pgw_u_ip;
  ue_ip = next_address pgw;
  ambr = (g.ul, g.dl);
  cpf = o.cpf;
  session = o.session;
  seid = o.seid;
  s1u = o.s1u;
  s1u_ip = o.s1u_ip;
}

-- The PGW-C as the other end of S5-C.
abbrev pub ask :
    (Bytes → Option Bytes) → List Arrival → List Arrival → Pgwc → Ip → Bytes → Option Bytes
unfolding handle_s5c
ask ask_pcrf before during pgw from req =
    sent_back (handle_s5c ask_pcrf before during req from pgw).2

request_tunnel :
    (sgw : Sgwc) (msg m : Message) (req : Bytes) (ebi : ℕ) (from : Ip)
    → FitsRequest (numbered sgw) msg.seq (imsi_in msg) (apn_in msg) ebi
    → s5_request (numbered sgw) msg.seq (imsi_in msg) (apn_in msg) ebi ≡ ok req
    → GtpC.from_bytes req ≡ ok m
    → (m.msg_type ≡ create_session_request)
      × (imsi_in m ≡ imsi_in msg)
      × (f_teid_in from m
          ≡ ok (record { teid = sgw.s5u + 1; ip = some sgw.sgw_u_ip; iface = iface_s5_s8_sgw }))
request_tunnel sgw msg m req ebi from fits asked read =
    let r = s5_request-read (numbered sgw) msg.seq (imsi_in msg) (apn_in msg) ebi fits in
    let same : r.0 ≡ req = ok_injective r.0 req (sym r.2 ∙ asked) in
    let same_message : r.1 ≡ m = ok_injective r.1 m (sym r.3 ∙ (ap GtpC.from_bytes same ∙ read)) in
    (
      ap (λ (x : Message). x.msg_type) (sym same_message) ∙ r.4,
      ap imsi_in (sym same_message) ∙ r.6,
      ap (f_teid_in from) (sym same_message) ∙ r.8 from,
    )

-- A Create Session Request of the MME that a SGW-C reads and passes on to a PGW-C, where the numbers fit
-- their fields and the PCRF and both user planes accept: both functions keep a context of the IMSI. The
-- tunnels of S5 are the same at both ends, and so is the UE's address. The MME reads from the answer of the
-- SGW-C its tunnel for S1-U, that address and the policy's rates.
pub create_session-agree :
    (ask_pcrf : Bytes → Option Bytes) (before during before' during' : List Arrival) (sgw : Sgwc)
    (pgw : Pgwc) (msg m : Message) (req : Bytes) (g : Grant) (o : Opening)
    → ebi_in msg ≡ ok g.ebi
    → FitsRequest (numbered sgw) msg.seq (imsi_in msg) (apn_in msg) g.ebi
    → s5_request (numbered sgw) msg.seq (imsi_in msg) (apn_in msg) g.ebi ≡ ok req
    → GtpC.from_bytes req ≡ ok m
    → IsGranted ask_pcrf before during pgw m sgw.ip g
    → IsOpened before' during' sgw msg (service pgw g o)
    → (s : SgwContext) × (p : PgwContext) × (bytes : Bytes) × (get
          (imsi_in msg)
          (create_session (ask ask_pcrf before during pgw sgw.ip) before' during' msg sgw).0.ctx
        ≡ some s)
      × (get (imsi_in msg) (handle_s5c ask_pcrf before during req sgw.ip pgw).0.ctx ≡ some p)
      × (s.pgw_teid ≡ p.pgw_teid)
      × (p.sgw_teid ≡ s.s5u)
      × (s.ue_ip ≡ some p.ue_ip)
      × ((create_session (ask ask_pcrf before during pgw sgw.ip) before' during' msg sgw).2
          ≡ some (ok (some bytes)))
      × ((ebi : ℕ)
          → create_result ebi (some bytes)
            ≡ ok (
                some (record {
                  sgw_s1u_teid = some s.s1u;
                  sgw_s1u_ip = sgw.sgw_u_ip;
                  ue_ip = some p.ue_ip;
                  ambr = (g.ul, g.dl);
                  ebi = ebi;
                })))
unfolding ask handle_s5c
create_session-agree ask_pcrf before during before' during' sgw pgw msg m req g o read fits asked
      back hp hs =
    let t = request_tunnel sgw msg m req g.ebi sgw.ip fits asked back in
    let y = handle_s5c-Yields ask_pcrf before during pgw req m sgw.ip g hp back t.0 in
    let r = reply ask_pcrf before during pgw m sgw.ip g hp in
    let z =
      sgw_creates (ask ask_pcrf before during pgw sgw.ip) before' during' sgw msg (service pgw g o)
        hs req r.0 read asked (ap sent_back y.1) (r.2 sgw.pgw_c_ip) in
    let tunnel = ok_injective g.tunnel _ (sym hp.tunnel_read ∙ t.2) in
    (
      served sgw (service pgw g o),
      granted pgw sgw.ip g,
      answer_bytes (ask ask_pcrf before during pgw sgw.ip) before' during' sgw msg (service pgw g o)
          hs,
      ap (λ (x : Sgwc). get (imsi_in msg) x.ctx) z.0
          ∙ get-put_self (imsi_in msg) (served sgw (service pgw g o)) sgw.ctx,
      ap (λ (x : Pgwc). get (imsi_in msg) x.ctx) y.0
          ∙ (ap (λ (i : Bytes). get i (after_grant pgw m sgw.ip g).ctx) (sym t.1)
              ∙ get-put_self (imsi_in m) (granted pgw sgw.ip g) pgw.ctx),
      refl,
      ap (λ (f : FTeid). f.teid) tunnel,
      refl,
      z.1,
      (created_answer-bearer (opened sgw (service pgw g o)) msg.seq (made msg (service pgw g o))
          (next_address pgw) (g.ul, g.dl) hs.fits).2,
    )
