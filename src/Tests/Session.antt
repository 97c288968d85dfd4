-- ===== src/Tests/Session.antt =====
-- The theorems on the sessions of the SGW-C at concrete inputs.
use v_epc_cups.Prelude.{ℕ, ◌≡◌, refl, ap, Option, none, some, [], arith}
use v_epc_cups.Prelude.Results.{Result, ok}
use v_epc_cups.Prelude.Classes.{bytes_eq}
use v_epc_cups.Prelude.Dict.{get}
use v_epc_cups.Bytes.{Bytes, Ip}
use v_epc_cups.Pfcp.Values
use v_epc_cups.Pfcp.Values.{fseid_value}
use v_epc_cups.Sxcups.Rules.Pdr
use v_epc_cups.Sxcups.Rules.Far
use v_epc_cups.Sxcups.Rules.Qer
use v_epc_cups.Sxcups.Rules.Urr
use v_epc_cups.GtpC.Bearer.{f_teid_value}
use v_epc_cups.Core.Sgwc.Messages.{s5_request}
use v_epc_cups.Core.Sgwc
use v_epc_cups.Core.Sgwc.State.{Sgwc, new_sgwc, Context as SgwContext}
use v_epc_cups.Core.Sgwc.Replies.{FitsRequest}
use v_epc_cups.Core.Sgwc.Creation.{IsOpened, numbered}
use v_epc_cups.Core.Sgwc.Tunnels.{handle_s11-IsTunnelled}
use v_epc_cups.Core.Sgwc.Tunnels.Creation.{IsTunnelled}
use v_epc_cups.Core.Epc.Tunnels.{Opening, service, ask, create_session-agree}
use v_epc_cups.Core.Mme.S11.{create_result}
use v_epc_cups.Pfcp.Message
use v_epc_cups.GtpC
use v_epc_cups.Sxcups.Session.{Session, new_session}
use v_epc_cups.Core.Upf.Rules.{created_pdr}
use v_epc_cups.Core.Cpf.State.{Cpf, new_cpf, add_peer}
use v_epc_cups.Core.Cpf.Requests.{arrive}
use v_epc_cups.Core.Epc.{ebi_in, imsi_in, apn_in, establish, uplink_tunnel}
use v_epc_cups.Core.Pgwc.State.{new_pgwc, Context as PgwContext}
use v_epc_cups.Core.Pgwc.Creation.{IsGranted}
use v_epc_cups.Core.Pgwc.{handle_s5c}
use v_epc_cups.Tests.Gateway.{
  pgwu_ip, sgwc_ip, accepted, pgw, silence, session_request, session_or, grant, passed_on,
  bytes_or_none, request_bytes, passed_on-IsGranted,
}

abbrev sgwu_ip : Ip
sgwu_ip = 0x7F000002

abbrev sgw : Sgwc
sgw = new_sgwc sgwc_ip sgwu_ip 0x7F000005 0x7F00000B 0x1000 1 1

abbrev sgw_opens : Cpf × Result (Option Session)
sgw_opens = establish sgw.cpf sgwu_ip (some 0x0A0A0002) (accepted sgwu_ip 0x100001 0x20000)

abbrev sgw_session : Session
sgw_session = session_or (new_session none 0 0 "PDN") sgw_opens.1

sgw_accepts :
    (sgw_opens.1 ≡ ok (some sgw_session))
    × (sgw_session.seid ≡ some 0x100000001)
    × (uplink_tunnel sgwu_ip sgw_session ≡ ok (0x20000, sgwu_ip))
unfolding new_sgwc Message.to_bytes Message.from_bytes Message.get fseid_value created_pdr
    uplink_tunnel establish Pdr.to_pfcp Far.to_pfcp Qer.to_pfcp Urr.to_pfcp Values.ie_pdr_id
    Values.ie_ft_eid Values.decode_fseid Values.pdr_id_of Values.decode_ft_eid
    v_epc_cups.Core.Cpf.Dispatch.dispatch v_epc_cups.Core.Cpf.State.change_peer
sgw_accepts = (refl, refl, refl)

ebi_read : ebi_in session_request ≡ ok 5
unfolding ebi_in
ebi_read = refl

passed_on-IsGranted_sgw :
    IsGranted silence [] (accepted pgwu_ip 0x200001 0x10000) pgw passed_on sgw.ip grant
unfolding new_sgwc
passed_on-IsGranted_sgw = passed_on-IsGranted

abbrev opening : Opening
opening = record {
  cpf = sgw_opens.0;
  session = sgw_session;
  seid = 0x100000001;
  s1u = 0x20000;
  s1u_ip = sgwu_ip;
}

opening-IsOpened :
    IsOpened [] (accepted sgwu_ip 0x100001 0x20000) sgw session_request (service pgw grant opening)
unfolding new_sgwc new_pgwc arrive imsi_in
opening-IsOpened = record {
  session_made = ap (λ (r : Result (Option Session)). (sgw_opens.0, r)) sgw_accepts.0;
  seid_known = sgw_accepts.1;
  tunnel_known = sgw_accepts.2;
  fits = omega arith;
}

fits_request : FitsRequest (numbered sgw) 1 (imsi_in session_request) (apn_in session_request) 5
unfolding new_sgwc imsi_in apn_in
fits_request = record {
  seq_fits = omega arith;
  imsi_name = refl;
  names_short = omega arith;
  teid_fits = omega arith;
  address_fits = omega arith;
  ebi_fits = omega arith;
}

request_asked :
    s5_request (numbered sgw) 1 (imsi_in session_request) (apn_in session_request) 5
    ≡ ok request_bytes
unfolding new_sgwc imsi_in apn_in s5_request GtpC.to_bytes
request_asked = refl

request_read : GtpC.from_bytes request_bytes ≡ ok passed_on
unfolding GtpC.to_bytes GtpC.from_bytes f_teid_value
request_read = refl

sgw-IsTunnelled : IsTunnelled sgw
unfolding new_sgwc get
sgw-IsTunnelled = record { within = λ k v h. cc; distinct = λ j k v w hv hw e. cc }

abbrev session_bytes : Bytes
unfolding GtpC.to_bytes
session_bytes = bytes_or_none (GtpC.to_bytes session_request)

handle_s11-IsTunnelled_example :
    IsTunnelled
      (Sgwc.handle_s11
        (ask silence [] (accepted pgwu_ip 0x200001 0x10000) pgw sgw.ip)
        []
        (accepted sgwu_ip 0x100001 0x20000)
        session_bytes
        sgw).0
handle_s11-IsTunnelled_example =
    handle_s11-IsTunnelled (ask silence [] (accepted pgwu_ip 0x200001 0x10000) pgw sgw.ip) []
      (accepted sgwu_ip 0x100001 0x20000) session_bytes sgw sgw-IsTunnelled

create_session-agree_example :
    (s : SgwContext) × (p : PgwContext) × (bytes : Bytes) × (get
        (imsi_in session_request)
        (Sgwc.create_session
          (ask silence [] (accepted pgwu_ip 0x200001 0x10000) pgw sgw.ip)
          []
          (accepted sgwu_ip 0x100001 0x20000)
          session_request
          sgw).0.ctx
      ≡ some s)
    × (get
          (imsi_in session_request)
          (handle_s5c silence [] (accepted pgwu_ip 0x200001 0x10000) request_bytes sgw.ip pgw).0.ctx
        ≡ some p)
    × (s.pgw_teid ≡ p.pgw_teid)
    × (p.sgw_teid ≡ s.s5u)
    × (s.ue_ip ≡ some p.ue_ip)
    × ((Sgwc.create_session
          (ask silence [] (accepted pgwu_ip 0x200001 0x10000) pgw sgw.ip)
          []
          (accepted sgwu_ip 0x100001 0x20000)
          session_request
          sgw).2
        ≡ some (ok (some bytes)))
    × ((ebi : ℕ)
        → create_result ebi (some bytes)
          ≡ ok (
              some (record {
                sgw_s1u_teid = some s.s1u;
                sgw_s1u_ip = sgw.sgw_u_ip;
                ue_ip = some p.ue_ip;
                ambr = (100000, 200000);
                ebi = ebi;
              })))
create_session-agree_example =
    create_session-agree silence [] (accepted pgwu_ip 0x200001 0x10000) []
      (accepted sgwu_ip 0x100001 0x20000) sgw pgw session_request passed_on request_bytes grant
      opening ebi_read fits_request request_asked request_read passed_on-IsGranted_sgw
      opening-IsOpened
