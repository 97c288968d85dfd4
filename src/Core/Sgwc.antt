-- ===== src/Core/Sgwc.antt =====
-- core/epc_sgw_c.py: the SGW-C of the EPC, between the MME (S11), the PGW-C (S5-C) and its user plane.
pub mod State
pub mod Messages
pub mod Replies
pub mod Creation
pub mod Tunnels
use v_epc_cups.Prelude.{
  ℕ, ◌+◌, true, false, Option, none, some, List, [], ◌∷◌, nat_beq, if◌then◌else◌,
}
use v_epc_cups.Prelude.Results.{Result, ok, err, type_error, need}
use v_epc_cups.Prelude.Runs.{Run}
use v_epc_cups.Prelude.Classes.{nat_eq, bytes_eq, option_eq}
use v_epc_cups.Prelude.Dict.{get, put, pop}
use v_epc_cups.Bytes.{Bytes, Ip}
use v_epc_cups.GtpC
use v_epc_cups.GtpC.{Message}
use v_epc_cups.GtpC.Bearer.{FTeid}
use v_epc_cups.GtpC.Values.{
  create_session_request, create_session_response, modify_bearer_request, delete_session_request,
  delete_session_response,
}
use v_epc_cups.Sxcups.Session.{Session}
use v_epc_cups.Core.Datagrams.{Datagram}
use v_epc_cups.Core.Procedures.{
  Procedure, After, ◌>>=◌, ◌>>◌, resume, behind, give, value, read, change, send, silent,
}
use v_epc_cups.Core.Cpf.State.{Cpf}
use v_epc_cups.Core.Cpf.Requests.{Arrival, arrive}
use v_epc_cups.Core.Cpf.SessionChanges.{session_delete}
use v_epc_cups.Core.Epc.{route_command, imsi_in, apn_in, ebi_in, uplink_tunnel, establish}
use v_epc_cups.Core.Sgwc.State.{Sgwc, Context}
use v_epc_cups.Core.Sgwc.Messages.{
  Offer, Opened, s5_request, offer_in, answer_of, created_answer, enb_tunnel, modified_answer,
  s1u_tunnel, s5_delete,
}

abbrev default_sgwu_ip : Ip
default_sgwu_ip = 2130706434

-- `_ctl`: a command to the user plane at its default address. Its answer and its failure are ignored.
abbrev pub ctl : Bytes → Datagram
ctl command = record { payload = command; to = record { ip = default_sgwu_ip; port = 8907 } }

abbrev pub to_pgw_c : Ip → Bytes → Datagram
to_pgw_c ip bytes = record { payload = bytes; to = record { ip = ip; port = 2123 } }

abbrev pub Handler : Type 0 → Type 0
Handler A = Procedure Sgwc A

abbrev pub next_s5u_teid : Handler ℕ
next_s5u_teid = do change (λ sgw. record sgw { s5u = sgw.s5u + 1 }); read (λ sgw. sgw.s5u)

-- The handler's answer, once its bytes are built.
abbrev pub answer : Result Bytes → Handler (Option Bytes)
answer bytes = do b ← value bytes; give (some b)

abbrev pub refuse : Message → Handler (Option Bytes)
unfolding answer_of
refuse msg = answer (answer_of create_session_response msg.seq 2)

-- pgw_ip or self.pgw_c[0]
abbrev pub or_else : Ip → Option Ip → Ip
or_else default none = default
or_else default (some ip) = ip

-- A procedure of the CPF.
abbrev pub in_cpf : {A : Type 0} → (Cpf → Cpf × Result A) → Handler A
in_cpf f sgw = let r = f sgw.cpf in (record sgw { cpf = r.0 }, [], some r.1)

-- `ask_pgw` is what comes back of a request to the PGW-C in time. The receiving thread of the CPF handles
-- `before` by the time that the session procedure starts, and `during` while it waits.
module _ (ask_pgw : Bytes → Option Bytes) (before during : List Arrival) where
  -- The relay is told of the uplink, and the context is kept.
  abbrev pub keep_session : Message → Offer → Opened → Handler (Option Bytes)
  unfolding route_command put created_answer
  keep_session msg offer made = do
    sgw ← read (λ sgw. sgw)
    send (
        ctl (route_command made.s1u (or_else sgw.pgw_c_ip offer.pgw_ip) 2152 (some offer.pgw_teid)))
    change (λ now. record now {
      ctx =
          put made.imsi
            (record {
              seid = made.seid;
              s1u = made.s1u;
              s5u = sgw.s5u;
              pgw_teid = offer.pgw_teid;
              pgw_ip = offer.pgw_ip;
              ue_ip = offer.ue_ip;
              ebi = made.ebi;
              ambr = offer.ambr;
              enb_dl = none;
            })
            now.ctx;
    })
    ue_ip ← value (need type_error offer.ue_ip)
    answer (created_answer sgw msg.seq made ue_ip offer.ambr)

  -- After the session of the user plane.
  abbrev pub set_up : Message → Bytes → ℕ → Offer → Option Session → Handler (Option Bytes)
  unfolding answer_of uplink_tunnel route_command put created_answer
  set_up msg imsi ebi offer none = refuse msg
  set_up msg imsi ebi offer (some s) = do
    sgw ← read (λ sgw. sgw)
    seid ← value (need type_error s.seid)
    tunnel ← value (uplink_tunnel sgw.sgw_u_ip s)
    keep_session msg offer (record { imsi = imsi; seid = seid; s1u = tunnel.0; ebi = ebi })

  -- With what the PGW-C answers: the session of the user plane.
  abbrev pub open_session : Message → Bytes → ℕ → Offer → Handler (Option Bytes)
  unfolding answer_of arrive establish uplink_tunnel route_command put created_answer
  open_session msg imsi ebi offer = do
    sgw ← read (λ sgw. sgw)
    s ← in_cpf (λ c. establish (arrive c before) sgw.sgw_u_ip offer.ue_ip during)
    set_up msg imsi ebi offer s

  -- After the exchange with the PGW-C.
  abbrev pub answered : Message → Bytes → ℕ → Option Bytes → Handler (Option Bytes)
  unfolding answer_of offer_in arrive establish uplink_tunnel route_command put created_answer
  answered msg imsi ebi none = refuse msg
  answered msg imsi ebi (some rep) = do
    sgw ← read (λ sgw. sgw)
    offer ← value (offer_in sgw.pgw_c_ip rep)
    open_session msg imsi ebi offer

  abbrev pub exchange : Message → ℕ → Bytes → Handler (Option Bytes)
  unfolding imsi_in answer_of offer_in arrive establish uplink_tunnel route_command put
      created_answer
  exchange msg ebi req = do
    sgw ← read (λ sgw. sgw)
    send (to_pgw_c sgw.pgw_c_ip req)
    answered msg (imsi_in msg) ebi (ask_pgw req)

  abbrev pub request_session : Message → ℕ → Handler (Option Bytes)
  unfolding imsi_in apn_in s5_request answer_of offer_in arrive establish uplink_tunnel
      route_command put created_answer
  request_session msg ebi = do
    s5u ← next_s5u_teid
    sgw ← read (λ sgw. sgw)
    req ← value (s5_request sgw msg.seq (imsi_in msg) (apn_in msg) ebi)
    exchange msg ebi req

  unfoldable pub create_session : Message → Handler (Option Bytes)
  unfolding imsi_in apn_in ebi_in s5_request answer_of offer_in arrive establish uplink_tunnel
      route_command put created_answer
  create_session msg = do ebi ← value (ebi_in msg); request_session msg ebi

  -- The downlink route to the eNodeB, for a tunnel that was found.
  abbrev pub install : Bytes → Context → Option FTeid → Handler (Unit {0})
  unfolding put route_command
  install imsi c none = give tt
  install imsi c (some f) = do
    change (λ sgw. record sgw { ctx = put imsi (record c { enb_dl = some f.teid }) sgw.ctx })
    sgw ← read (λ sgw. sgw)
    send (ctl (route_command c.s5u sgw.enb_ip 2152 (some f.teid)))

  abbrev pub modify_in : Message → Bytes → Option Context → Handler (Option Bytes)
  unfolding put route_command enb_tunnel modified_answer s1u_tunnel
  modify_in msg imsi none = answer (modified_answer msg.seq [])
  modify_in msg imsi (some c) = do
    f ← value (enb_tunnel msg)
    install imsi c f
    sgw ← read (λ sgw. sgw)
    answer (modified_answer msg.seq (s1u_tunnel sgw c ∷ []))

  unfoldable pub modify_bearer : Message → Handler (Option Bytes)
  unfolding imsi_in get put route_command enb_tunnel modified_answer s1u_tunnel
  modify_bearer msg = do
    found ← read (λ sgw. get (imsi_in msg) sgw.ctx)
    modify_in msg (imsi_in msg) found

  abbrev pub delete_in : Message → Bytes → Option Context → Handler (Option Bytes)
  unfolding answer_of arrive session_delete s5_delete
  delete_in msg imsi none = answer (answer_of delete_session_response msg.seq 16)
  delete_in msg imsi (some c) = do
    gone ← in_cpf (λ cpf. session_delete (arrive cpf before) c.seid during)
    req ← value (s5_delete msg.seq imsi)
    sgw ← read (λ sgw. sgw)
    send (to_pgw_c sgw.pgw_c_ip req)
    answer (answer_of delete_session_response msg.seq 16)

  unfoldable pub delete_session : Message → Handler (Option Bytes)
  unfolding imsi_in get pop answer_of arrive session_delete s5_delete
  delete_session msg = do
    found ← read (λ sgw. get (imsi_in msg) sgw.ctx)
    change (λ sgw. record sgw { ctx = pop (imsi_in msg) sgw.ctx })
    delete_in msg (imsi_in msg) found

  unfoldable pub dispatch : Message → Handler (Option Bytes)
  unfolding create_session modify_bearer delete_session
  dispatch msg =
      if nat_beq msg.msg_type create_session_request
      then create_session msg
      else if nat_beq msg.msg_type modify_bearer_request
      then modify_bearer msg
      else if nat_beq msg.msg_type delete_session_request
      then delete_session msg
      else silent

  abbrev pub received : Result Message → Handler (Option Bytes)
  unfolding dispatch
  received (err e) = silent
  received (ok msg) = dispatch msg

  -- The answer to a datagram. An error of the reader is caught.
  unfoldable pub handle_s11 : Bytes → Handler (Option Bytes)
  unfolding GtpC.from_bytes dispatch
  handle_s11 bytes = received (GtpC.from_bytes bytes)
