-- ===== src/Tests/Path.antt =====
-- The theorem on the downlink path at a concrete input.
use v_epc_cups.Prelude.{◌≡◌, refl, true, none, some, [], ◌∷◌, arith}
use v_epc_cups.Prelude.Results.{ok}
use v_epc_cups.Prelude.Classes.{nat_eq, bytes_eq}
use v_epc_cups.Prelude.Dict.{get}
use v_epc_cups.Bytes.{Bytes}
use v_epc_cups.Diameter.Text.{literal}
use v_epc_cups.Core.Datagrams.{Datagram}
use v_epc_cups.Core.Epc.{route_command}
use v_epc_cups.Core.Epc.Downlink.{routed, handle_s11-routed}
use v_epc_cups.GtpC
use v_epc_cups.GtpC.{Message}
use v_epc_cups.GtpC.Bearer.{ie_cause, ie_f_teid, f_teid_value}
use v_epc_cups.GtpC.Values.{modify_bearer_response, iface_s1u_sgw}
use v_epc_cups.Core.Mme.S11.{modify_request}
use v_epc_cups.Core.Sgwc.Replies.{IsName}
use v_epc_cups.Core.Epc.Path.{modified, on_setup-routed}
use v_epc_cups.Core.Enb.{on_setup, or_else}
use v_epc_cups.Core.Enb.Setup.{served, to_the_ue}
use v_epc_cups.Core.Mme.State.{Mme, Context as MmeContext}
use v_epc_cups.Core.Mme.Handlers.{on_s1ap}
use v_epc_cups.Core.Sgwc.State.{Sgwc, new_sgwc, Context as SgwContext}
use v_epc_cups.Core.Sgwc.{ctl, handle_s11}
use v_epc_cups.Tests.Radio.{
  station, setup, bearer, setup-bearer, setup-accept, station-IsReady, new_one, nobody, from_there,
}

abbrev subscriber : Bytes
subscriber = literal "001010000000001"

abbrev known : MmeContext
known = record {
  imsi = subscriber;
  apn = literal "internet";
  mme_id = 0x1001;
  rand = none;
  xres = none;
  bearer = none;
}

abbrev mme : Mme
mme = record new_one { ctx = (7, known) ∷ [] }

abbrev session : SgwContext
session = record {
  seid = 0x100000001;
  s1u = 9;
  s5u = 0x300001;
  pgw_teid = 0x10000;
  pgw_ip = some 0x7F000003;
  ue_ip = some 0x0A2D0001;
  ebi = 5;
  ambr = (100000, 200000);
  enb_dl = none;
}

abbrev sgw : Sgwc
sgw = record (new_sgwc 0x7F000004 0x7F000002 0x7F000005 0x7F00000B 0x1000 1 1) {
  ctx = (subscriber, session) ∷ [];
}

mme-known : get (or_else 7 station.enb_ue_id) mme.ctx ≡ some known
unfolding get
mme-known = refl

sgw-session : get subscriber sgw.ctx ≡ some session
unfolding get
sgw-session = refl

subscriber-IsName : IsName subscriber
unfolding v_epc_cups.Diameter.Text.decode_ignore
subscriber-IsName = refl

handle_s11-routed_example :
    (req : Bytes) × (reply : Bytes) × (m : Message) × (modify_request subscriber 0xE0000001
      ≡ ok req)
    × (handle_s11 nobody [] [] req sgw ≡ (
      routed sgw subscriber session 0xE0000001,
      ctl (route_command 0x300001 sgw.enb_ip 2152 (some 0xE0000001)) ∷ [],
      some (ok (some reply)),
    ))
    × (GtpC.from_bytes reply ≡ ok m)
    × (m.msg_type ≡ modify_bearer_response)
    × (GtpC.get m ie_cause ≡ some (16 ∷ []))
    × (GtpC.get m ie_f_teid ≡ some (f_teid_value 9 sgw.sgw_u_ip iface_s1u_sgw))
handle_s11-routed_example =
    handle_s11-routed nobody [] [] sgw subscriber 0xE0000001 session subscriber-IsName (omega arith)
      (omega arith) sgw-session

on_setup-routed_example :
    (d : Datagram) × (req : Bytes) × (reply : Bytes) × (on_setup station setup
      ≡ (served station bearer, to_the_ue station (0x42 ∷ []) ∷ d ∷ [], ok tt))
    × (on_s1ap nobody nobody mme d.payload from_there ≡ modified mme from_there req)
    × (handle_s11 nobody [] [] req sgw ≡ (
      routed sgw subscriber session 0xE0000001,
      ctl (route_command 0x300001 sgw.enb_ip 2152 (some 0xE0000001)) ∷ [],
      some (ok (some reply)),
    ))
    × (get 0xE0000001 (served station bearer).node.routes
        ≡ some (record { egress = true; ip = 0x7F00000A; port = 36423; teid = none }))
    × (d.to ≡ record { ip = 0x7F00000C; port = 36412 })
on_setup-routed_example =
    on_setup-routed nobody nobody nobody [] [] station setup bearer [] 0x42 [] mme from_there known
      sgw session setup-bearer setup-accept station-IsReady mme-known subscriber-IsName
      (omega arith) sgw-session
