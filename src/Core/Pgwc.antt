-- ===== src/Core/Pgwc.antt =====
-- core/epc_pgw_c.py: the PGW-C of the EPC, between the SGW-C (S5-C), the PCRF (Gx) and its user plane.
pub mod State
pub mod Addresses
pub mod Replies
pub mod Creation
pub mod Request
pub mod Gx
pub mod Messages
use v_epc_cups.Prelude.{
  ℕ, ◌+◌, true, false, Option, none, some, List, [], ◌∷◌, nat_beq, if◌then◌else◌,
}
use v_epc_cups.Prelude.Results
use v_epc_cups.Prelude.Results.{Result, ok, err, type_error, need}
use v_epc_cups.Prelude.Classes.{bytes_eq}
use v_epc_cups.Prelude.Dict.{get, put, pop}
use v_epc_cups.Bytes.{Bytes, Ip}
use v_epc_cups.GtpC
use v_epc_cups.GtpC.{Message}
use v_epc_cups.GtpC.Bearer.{FTeid}
use v_epc_cups.GtpC.Values.{
  create_session_request, create_session_response, modify_bearer_request, delete_session_request,
  delete_session_response,
}
use v_epc_cups.Diameter
use v_epc_cups.Diameter.Codes.{cc_initial}
use v_epc_cups.Sxcups.Session.{Session}
use v_epc_cups.Core.Datagrams.{Datagram}
use v_epc_cups.Core.Procedures.{
  Procedure, ◌>>=◌, ◌>>◌, resume, behind, give, value, run, read, change, send, silent,
}
use v_epc_cups.Core.Pcrf.{Qos}
use v_epc_cups.Core.Cpf.State.{Cpf}
use v_epc_cups.Core.Cpf.Requests.{Arrival, arrive}
use v_epc_cups.Core.Cpf.SessionChanges.{session_delete}
use v_epc_cups.Core.Epc.{
  route_command, sgi_command, imsi_in, ebi_in, f_teid_in, uplink_tunnel, establish,
}
use v_epc_cups.Core.Sgwc.Messages.{answer_of}
use v_epc_cups.Core.Pgwc.State.{Pgwc, Context, ue_pool_start, next_ip}
use v_epc_cups.Core.Pgwc.Request.{cc_termination, ccr_bytes}
use v_epc_cups.Core.Pgwc.Gx.{qos_in}
use v_epc_cups.Core.Pgwc.Messages.{Created, created_answer, modified_answer}

abbrev pdn_ip : Ip
pdn_ip = 2130706447

-- `_ctl`: a command to this user plane. Its answer and its failure are ignored.
abbrev pub ctl : Ip → Bytes → Datagram
ctl upf_ip command = record { payload = command; to = record { ip = upf_ip; port = 8908 } }

abbrev pub to_pcrf : Ip → Bytes → Datagram
to_pcrf ip bytes = record { payload = bytes; to = record { ip = ip; port = 3868 } }

abbrev pub Handler : Type 0 → Type 0
Handler A = Procedure Pgwc A

-- The handler's answer, once its bytes are built.
abbrev pub answer : Result Bytes → Handler (Option Bytes)
answer bytes = do b ← value bytes; give (some b)

abbrev pub or_else : Ip → Option Ip → Ip
or_else default none = default
or_else default (some ip) = ip

-- A procedure of the CPF.
abbrev pub in_cpf : {A : Type 0} → (Cpf → Cpf × Result A) → Handler A
in_cpf f pgw = let r = f pgw.cpf in (record pgw { cpf = r.0 }, [], some r.1)

-- The next address of the pool; the counter stays where there is none.
abbrev pub take_ue_ip : Handler Ip
unfolding next_ip
take_ue_ip = do
  n ← read (λ pgw. pgw.ue_n)
  ue_ip ← value (next_ip ue_pool_start n)
  change (λ pgw. record pgw { ue_n = pgw.ue_n + 1 })
  give ue_ip

-- `ask_pcrf` is what comes back of a request to the PCRF in time. The receiving thread of the CPF handles
-- `before` by the time that the session procedure starts, and `during` while it waits.
module _ (ask_pcrf : Bytes → Option Bytes) (before during : List Arrival) where
  abbrev pub ask_policy : Ip → Bytes → Handler Qos
  unfolding qos_in
  ask_policy ip req = do send (to_pcrf ip req); run (qos_in (ask_pcrf req))

  unfoldable pub gx_ccr : Bytes → ℕ → Handler Qos
  unfolding ccr_bytes qos_in
  gx_ccr imsi ctype = do
    change (λ pgw. record pgw { ccn = pgw.ccn + 1 })
    pgw ← read (λ pgw. pgw)
    req ← value (ccr_bytes pgw.ip_text pgw.ccn imsi ctype)
    ask_policy pgw.pcrf_ip req

  -- The relay is told of both directions, and the context is kept. The log line raises where the QCI is
  -- None, once the context stands.
  abbrev pub keep_session : Message → Ip → FTeid → Qos → Created → Handler (Option Bytes)
  unfolding route_command sgi_command put created_answer
  keep_session msg from sgw_tunnel qos made = do
    pgw ← read (λ pgw. pgw)
    send (ctl pgw.pgw_u_ip (route_command made.pgw_teid pdn_ip 9999 none))
    send (ctl pgw.pgw_u_ip (sgi_command (or_else from sgw_tunnel.ip) 2152 sgw_tunnel.teid))
    change (λ now. record now {
      ctx =
          put made.imsi
            (record {
              pgw_teid = made.pgw_teid;
              sgw_teid = sgw_tunnel.teid;
              sgw_ip = from;
              ue_ip = made.ue_ip;
              ebi = made.ebi;
              qos = qos;
              seid = made.seid;
            })
            now.ctx;
    })
    qci ← value (need type_error qos.qci)
    answer (created_answer pgw msg.seq made qos)

  -- After the session of the user plane.
  abbrev pub set_up :
      Message → Ip → Bytes → ℕ → FTeid → Qos → Ip → Option Session → Handler (Option Bytes)
  unfolding answer_of uplink_tunnel route_command sgi_command put created_answer
  set_up msg from imsi ebi sgw_tunnel qos ue_ip none =
      answer (answer_of create_session_response msg.seq 2)
  set_up msg from imsi ebi sgw_tunnel qos ue_ip (some s) = do
    pgw ← read (λ pgw. pgw)
    seid ← value (need type_error s.seid)
    tunnel ← value (uplink_tunnel pgw.pgw_u_ip s)
    keep_session msg from sgw_tunnel qos
        (record { imsi = imsi; pgw_teid = tunnel.0; seid = seid; ue_ip = ue_ip; ebi = ebi })

  -- With the address of the UE: the session of the user plane.
  abbrev pub open_session : Message → Ip → ℕ → FTeid → Qos → Ip → Handler (Option Bytes)
  unfolding imsi_in arrive establish answer_of uplink_tunnel route_command sgi_command put
      created_answer
  open_session msg from ebi sgw_tunnel qos ue_ip = do
    pgw ← read (λ pgw. pgw)
    s ← in_cpf (λ c. establish (arrive c before) pgw.pgw_u_ip (some ue_ip) during)
    set_up msg from (imsi_in msg) ebi sgw_tunnel qos ue_ip s

  -- With what the request says: the policy and the address of the UE.
  abbrev pub admit : Message → Ip → FTeid → ℕ → Handler (Option Bytes)
  unfolding imsi_in next_ip gx_ccr arrive establish answer_of uplink_tunnel route_command
      sgi_command put created_answer
  admit msg from sgw_tunnel ebi = do
    qos ← gx_ccr (imsi_in msg) cc_initial
    ue_ip ← take_ue_ip
    open_session msg from ebi sgw_tunnel qos ue_ip

  unfoldable pub create_session : Message → Ip → Handler (Option Bytes)
  unfolding imsi_in ebi_in f_teid_in next_ip gx_ccr arrive establish answer_of uplink_tunnel
      route_command sgi_command put created_answer
  create_session msg from = do
    sgw_tunnel ← value (f_teid_in from msg)
    ebi ← value (ebi_in msg)
    admit msg from sgw_tunnel ebi

  unfoldable pub modify_bearer : Message → Handler (Option Bytes)
  unfolding imsi_in get modified_answer
  modify_bearer msg = do
    pgw ← read (λ pgw. pgw)
    answer (modified_answer pgw msg.seq (get (imsi_in msg) pgw.ctx))

  abbrev pub release : Bytes → Option Context → Handler (Unit {0})
  unfolding arrive session_delete gx_ccr
  release imsi none = give tt
  release imsi (some c) = do
    gone ← in_cpf (λ cpf. session_delete (arrive cpf before) c.seid during)
    qos ← gx_ccr imsi cc_termination
    give tt

  unfoldable pub delete_session : Message → Handler (Option Bytes)
  unfolding imsi_in get pop answer_of arrive session_delete gx_ccr
  delete_session msg = do
    found ← read (λ pgw. get (imsi_in msg) pgw.ctx)
    change (λ pgw. record pgw { ctx = pop (imsi_in msg) pgw.ctx })
    release (imsi_in msg) found
    answer (answer_of delete_session_response msg.seq 16)

  unfoldable pub dispatch : Message → Ip → Handler (Option Bytes)
  unfolding create_session modify_bearer delete_session
  dispatch msg from =
      if nat_beq msg.msg_type create_session_request
      then create_session msg from
      else if nat_beq msg.msg_type modify_bearer_request
      then modify_bearer msg
      else if nat_beq msg.msg_type delete_session_request
      then delete_session msg
      else silent

  abbrev pub received : Result Message → Ip → Handler (Option Bytes)
  unfolding dispatch
  received (err e) from = silent
  received (ok msg) from = dispatch msg from

  -- The answer to a datagram from this address. An error of the reader is caught.
  unfoldable pub handle_s5c : Bytes → Ip → Handler (Option Bytes)
  unfolding GtpC.from_bytes dispatch
  handle_s5c bytes from = received (GtpC.from_bytes bytes) from
