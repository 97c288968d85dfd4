-- ===== src/Tests/Gateway.antt =====
-- The theorems on the sessions and the addresses of the PGW-C at concrete inputs.
use v_epc_cups.Prelude.{ℕ, ◌≡◌, refl, ap, true, Option, none, some, List, [], ◌∷◌, drop, arith}
use v_epc_cups.Prelude.Results.{Result, ok, err}
use v_epc_cups.Prelude.Classes.{bytes_eq}
use v_epc_cups.Prelude.Dict.{get}
use v_epc_cups.Bytes.{Bytes, Ip}
use v_epc_cups.Pfcp.Types
use v_epc_cups.Pfcp.Types.Ie
use v_epc_cups.Pfcp.Values
use v_epc_cups.Pfcp.Values.{fseid_value}
use v_epc_cups.Sxcups.Rules.Pdr
use v_epc_cups.Sxcups.Rules.Far
use v_epc_cups.Sxcups.Rules.Qer
use v_epc_cups.Sxcups.Rules.Urr
use v_epc_cups.Diameter.Codes.{cc_initial}
use v_epc_cups.GtpC.Bearer.{ie_f_teid, f_teid_value}
use v_epc_cups.Core.Sgwc.Messages.{offer_in}
use v_epc_cups.Pfcp.Message
use v_epc_cups.GtpC
use v_epc_cups.GtpC.Values.{
  create_session_request, ie_imsi, ie_apn, ie_pdn_type, ie_rat_type, ie_serving_network,
  ie_bearer_context,
}
use v_epc_cups.Diameter.Text.{literal}
use v_epc_cups.Sxcups.Session.{Session, new_session}
use v_epc_cups.Core.Upf.Rules.{created_pdr}
use v_epc_cups.Core.Cpf.State.{Cpf, new_cpf, add_peer}
use v_epc_cups.Core.Cpf.Requests.{Arrival, arrive}
use v_epc_cups.Core.Epc.{ebi_in, imsi_in, f_teid_in, establish, uplink_tunnel}
use v_epc_cups.Core.Pgwc.State.{Pgwc, new_pgwc}
use v_epc_cups.Core.Pgwc.Addresses.{IsPooled, handle_s5c-IsPooled}
use v_epc_cups.Core.Pgwc.Creation.{
  Grant, policy, IsGranted, granted, next_address, create_session-granted,
}
use v_epc_cups.Core.Pgwc.{create_session, gx_ccr, handle_s5c}

abbrev pub pgwu_ip : Ip
pgwu_ip = 0x7F000003

abbrev pub sgwc_ip : Ip
sgwc_ip = 0x7F000004

-- A user plane that accepts the first session, with this SEID and TEID.
abbrev pub accepted : Ip → ℕ → ℕ → List Arrival
accepted upf_ip seid teid =
    record {
      now = 5;
      from = upf_ip;
      bytes = Message.to_bytes (record {
        msg_type = Types.session_establishment_response;
        seid = 0;
        seq = 1;
        ies =
            (Ie.cause, 1 ∷ [])
            ∷ (Ie.f_seid, fseid_value seid upf_ip)
            ∷ (Ie.created_pdr, drop 4 (created_pdr 1 teid upf_ip))
            ∷ [];
        has_seid = true;
      });
    }
    ∷ []

abbrev pub pgw : Pgwc
pgw = new_pgwc 0x7F000005 (literal "127.0.0.5") pgwu_ip 0x7F00000E 0x2000 1 1

abbrev pub silence : Bytes → Option Bytes
silence bytes = none

abbrev pub session_request : GtpC.Message
session_request = record {
  msg_type = create_session_request;
  teid = 0;
  seq = 1;
  has_teid = true;
  ies = (ie_imsi, literal "001010000000001") ∷ (ie_apn, literal "internet") ∷ [];
}

abbrev pub session_or : Session → Result (Option Session) → Session
session_or default (ok (some s)) = s
session_or default _ = default

abbrev pgw_opens : Cpf × Result (Option Session)
pgw_opens = establish pgw.cpf pgwu_ip (some 0x0A0A0002) (accepted pgwu_ip 0x200001 0x10000)

abbrev pgw_session : Session
pgw_session = session_or (new_session none 0 0 "PDN") pgw_opens.1

pgw_accepts :
    (pgw_opens.1 ≡ ok (some pgw_session))
    × (pgw_session.seid ≡ some 0x200000001)
    × (uplink_tunnel pgwu_ip pgw_session ≡ ok (0x10000, pgwu_ip))
unfolding new_pgwc Message.to_bytes Message.from_bytes Message.get fseid_value created_pdr
    uplink_tunnel establish Pdr.to_pfcp Far.to_pfcp Qer.to_pfcp Urr.to_pfcp Values.ie_pdr_id
    Values.ie_ft_eid Values.decode_fseid Values.pdr_id_of Values.decode_ft_eid
    v_epc_cups.Core.Cpf.Dispatch.dispatch v_epc_cups.Core.Cpf.State.change_peer
pgw_accepts = (refl, refl, refl)

abbrev pub grant : Grant
grant = record {
  tunnel = record { teid = 0x300001; ip = some 0x7F000002; iface = 4 };
  ebi = 5;
  qci = 9;
  ul = 100000;
  dl = 200000;
  cpf = pgw_opens.0;
  session = pgw_session;
  seid = 0x200000001;
  pgw_teid = 0x10000;
  pgw_ip = pgwu_ip;
}

-- The request that the SGW-C makes of `session_request`.
abbrev pub passed_on : GtpC.Message
passed_on = record {
  msg_type = create_session_request;
  teid = 0;
  seq = 1;
  has_teid = true;
  ies =
      (ie_imsi, literal "001010000000001")
      ∷ (ie_apn, literal "internet")
      ∷ (ie_pdn_type, 1 ∷ [])
      ∷ (ie_f_teid, f_teid_value 0x300001 0x7F000002 4)
      ∷ (ie_f_teid, f_teid_value 0x1000 sgwc_ip 4)
      ∷ (ie_rat_type, 6 ∷ [])
      ∷ (ie_serving_network, literal "00101")
      ∷ (ie_bearer_context, 73 ∷ 0 ∷ 1 ∷ 5 ∷ [])
      ∷ [];
}

abbrev pub bytes_or_none : Result Bytes → Bytes
bytes_or_none (ok bytes) = bytes
bytes_or_none (err e) = []

abbrev pub request_bytes : Bytes
unfolding GtpC.to_bytes
request_bytes = bytes_or_none (GtpC.to_bytes passed_on)

policy_given :
    (gx_ccr silence [] (accepted pgwu_ip 0x200001 0x10000) (imsi_in passed_on) cc_initial pgw).2
    ≡ some (ok (policy grant))
unfolding new_pgwc gx_ccr imsi_in v_epc_cups.Bytes.u32 v_epc_cups.Core.Hss.decimal
policy_given = refl

pub passed_on-IsGranted :
    IsGranted silence [] (accepted pgwu_ip 0x200001 0x10000) pgw passed_on sgwc_ip grant
unfolding f_teid_in ebi_in f_teid_value new_pgwc arrive imsi_in
passed_on-IsGranted = record {
  tunnel_read = refl;
  ebi_read = refl;
  policy_given = policy_given;
  address_left = omega arith;
  session_made = ap (λ (r : Result (Option Session)). (pgw_opens.0, r)) pgw_accepts.0;
  seid_known = pgw_accepts.1;
  tunnel_known = pgw_accepts.2;
  fits = omega arith;
}

create_session-granted_example :
    (bytes : Bytes) × ((create_session silence []
        (accepted pgwu_ip 0x200001 0x10000)
        passed_on
        sgwc_ip
        pgw).2
      ≡ some (ok (some bytes)))
    × (get
          (imsi_in passed_on)
          (create_session silence []
            (accepted pgwu_ip 0x200001 0x10000)
            passed_on
            sgwc_ip
            pgw).0.ctx
        ≡ some (granted pgw sgwc_ip grant))
    × ((pgw_c_ip : Ip)
        → offer_in pgw_c_ip bytes
          ≡ ok (record {
            pgw_teid = 0x10000;
            pgw_ip = some pgw.pgw_u_ip;
            ue_ip = some (next_address pgw);
            ambr = (100000, 200000);
          }))
create_session-granted_example =
    create_session-granted silence [] (accepted pgwu_ip 0x200001 0x10000) pgw passed_on sgwc_ip
      grant passed_on-IsGranted

pgw-IsPooled : IsPooled pgw
unfolding new_pgwc get
pgw-IsPooled = record { within = λ k v h. cc; distinct = λ j k v w hv hw e. cc }

handle_s5c-IsPooled_example :
    IsPooled (handle_s5c silence [] (accepted pgwu_ip 0x200001 0x10000) request_bytes sgwc_ip pgw).0
handle_s5c-IsPooled_example =
    handle_s5c-IsPooled silence [] (accepted pgwu_ip 0x200001 0x10000) request_bytes sgwc_ip pgw
      pgw-IsPooled
