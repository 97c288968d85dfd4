-- ===== src/Tests/Radio.antt =====
-- The theorems on the eNodeB and on the MME's numbers at concrete inputs.
use v_epc_cups.Prelude.{◌≡◌, refl, true, false, Option, none, some, [], ◌∷◌, length, arith}
use v_epc_cups.Prelude.Results.{ok}
use v_epc_cups.Prelude.Classes.{nat_eq}
use v_epc_cups.Prelude.Dict.{get}
use v_epc_cups.Bytes.{Bytes, u32}
use v_epc_cups.S1ap
use v_epc_cups.S1ap.{Erab}
use v_epc_cups.S1ap.Values.{
  initial_context_setup_response, ie_enb_ue_s1ap_id, ie_e_rab_setup_list, ie_nas_pdu,
}
use v_epc_cups.Diameter.Text.{literal}
use v_epc_cups.Core.Datagrams.{Address, Datagram}
use v_epc_cups.Core.Enb.{Enb, or_else, or_empty, on_setup}
use v_epc_cups.Core.Enb.Setup.{IsReady, own_erab, served, to_the_ue, on_setup-served}
use v_epc_cups.Core.Mme.State.{Mme, Outcome}
use v_epc_cups.Core.Mme.Handlers.{on_s1ap}
use v_epc_cups.Core.Mme.Numbers.{on_s1ap-IsNumbered}
use v_epc_cups.Core.Mme.Numbers.Contexts.{IsNumbered}

abbrev pub station : Enb
station = record {
  ip = 0x7F00000B;
  mme_ip = 0x7F00000C;
  sgwu_ip = 0x7F000002;
  ue_ip = 0x7F00000A;
  plmn = literal "00101";
  node = record { routes = []; stats = []; sgi_uplink = none; has_sgi = false };
  ue_addr = none;
  enb_ue_id = some 7;
  mme_ue_id = some 0x1001;
  sgw_s1u_teid = none;
  dl_teid = 0xE0000001;
  ebi = 5;
  attached = false;
}

-- A setup with the bearer 6 in the tunnel 9, and an Attach Accept.
abbrev pub setup : S1ap.Message
setup = record {
  msg_id = 9;
  ies = (8, 6 ∷ 0 ∷ 0 ∷ 0 ∷ 9 ∷ 127 ∷ 0 ∷ 0 ∷ 2 ∷ []) ∷ (3, 0x42 ∷ []) ∷ [];
}

abbrev pub bearer : Erab
bearer = record { ebi = 6; teid = 9; ip = 0x7F000002 }

pub setup-bearer :
    S1ap.decode_erab_list (or_empty (S1ap.get setup ie_e_rab_setup_list)) ≡ bearer ∷ []
unfolding S1ap.decode_erab_list S1ap.get v_epc_cups.Tlv.first_value v_epc_cups.Bytes.be_value
setup-bearer = refl

pub setup-accept : S1ap.get setup ie_nas_pdu ≡ some (0x42 ∷ [])
unfolding S1ap.get v_epc_cups.Tlv.first_value
setup-accept = refl

pub station-IsReady : IsReady (served station bearer)
station-IsReady = ((omega arith, omega arith, omega arith), omega arith, omega arith)

on_setup-served_example :
    (d : Datagram) × (m : S1ap.Message) × (v : Bytes) × (on_setup station setup
      ≡ (served station bearer, to_the_ue station (0x42 ∷ []) ∷ d ∷ [], ok tt))
    × (get 0xE0000001 (served station bearer).node.routes
        ≡ some (record { egress = true; ip = 0x7F00000A; port = 36423; teid = none }))
    × (S1ap.from_bytes d.payload ≡ ok m)
    × (S1ap.get m ie_e_rab_setup_list ≡ some v)
    × (S1ap.decode_erab_list v ≡ own_erab (served station bearer) ∷ [])
    × (m.msg_id ≡ initial_context_setup_response)
    × (S1ap.get m ie_enb_ue_s1ap_id ≡ some (u32 (or_else 7 station.enb_ue_id)))
    × (d.to ≡ record { ip = 0x7F00000C; port = 36412 })
on_setup-served_example =
    on_setup-served station setup bearer [] 0x42 [] setup-bearer setup-accept station-IsReady

abbrev pub new_one : Mme
new_one = record {
  ip = 0x7F00000C;
  ip_text = literal "127.0.0.12";
  sgwc_ip = 0x7F000004;
  hss_ip = 0x7F00000D;
  plmn = literal "00101";
  ctx = [];
  enb_addr = none;
  mme_ue = 0x1000;
  ccn = 0;
}

new_one-IsNumbered : IsNumbered new_one
unfolding get
new_one-IsNumbered = record {
  within = λ k c h. absurd (ground arith);
  distinct = λ j k c d h. absurd (ground arith);
}

-- An Initial UE Message with the Attach Request of the IMSI 012.
abbrev attach_bytes : Bytes
attach_bytes = 12 ∷ 0 ∷ 15 ∷ 1 ∷ 0 ∷ 4 ∷ 0 ∷ 0 ∷ 0 ∷ 7 ∷ 3 ∷ 0 ∷ 5 ∷ 0x41 ∷ 1 ∷ 2 ∷ 0x10 ∷ 0xF2 ∷ []

abbrev pub nobody : Bytes → Option Bytes
nobody bytes = none

abbrev pub from_there : Address
from_there = record { ip = 0x7F00000B; port = 36412 }

abbrev outcome : Outcome
outcome = on_s1ap nobody nobody new_one attach_bytes from_there

-- Without an answer of the HSS the request is sent, and then a reject.
outcome_lem : (outcome.ended ≡ some (ok tt)) × (length outcome.sent ≡ 2)
unfolding on_s1ap v_epc_cups.S1ap.from_bytes v_epc_cups.Core.Mme.Handlers.dispatch S1ap.get
    v_epc_cups.Nas.from_bytes v_epc_cups.Nas.get v_epc_cups.Nas.Values.decode_imsi
    v_epc_cups.Core.Hss.decimal
outcome_lem = (refl, refl)

on_s1ap-IsNumbered_example : IsNumbered outcome.mme
on_s1ap-IsNumbered_example =
    on_s1ap-IsNumbered nobody nobody new_one attach_bytes from_there new_one-IsNumbered
