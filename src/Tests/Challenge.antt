-- ===== src/Tests/Challenge.antt =====
-- The verdict of the MME on a UE's response at a concrete input.
use v_epc_cups.Prelude.{◌≡◌, ◌≢◌, ◌↔◌, refl, false, none, some, [], ◌∷◌, arith}
use v_epc_cups.Prelude.Results.{ok}
use v_epc_cups.Prelude.Classes.{nat_eq}
use v_epc_cups.Prelude.Dict.{get}
use v_epc_cups.Bytes.{Bytes}
use v_epc_cups.Diameter.Text.{literal}
use v_epc_cups.Nas
use v_epc_cups.Nas.Values.{auth_request, security_mode_command, attach_reject, ie_rand}
use v_epc_cups.S1ap
use v_epc_cups.S1ap.Values.{downlink_nas_transport, ie_nas_pdu}
use v_epc_cups.Core.Datagrams.{Address}
use v_epc_cups.Core.Enb.{on_uu_nas}
use v_epc_cups.Core.Epc.Challenge.{judged, on_nas-judged}
use v_epc_cups.Core.Mme.State.{Mme, Context}
use v_epc_cups.Core.Mme.Handlers.{nas_of, on_s1ap}
use v_epc_cups.Core.Ue.{Ue, State, res, on_nas}
use v_epc_cups.Tests.Epc.{imsi, hash}
use v_epc_cups.Tests.Radio.{station, new_one, nobody, from_there}

abbrev phone : Ue
phone = record {
  imsi = imsi;
  apn = literal "internet";
  enb_ip = 0x7F00000B;
  state = State.attach_sent;
  assigned_ip = none;
  ebi = none;
  enb_addr = none;
  rx_data = [];
  done = false;
}

-- The RAND 12, and what the equipment computes of it.
abbrev challenge : Bytes
challenge = auth_request ∷ ie_rand ∷ 2 ∷ 1 ∷ 2 ∷ []

abbrev question : Nas.Message
question = record { msg_type = auth_request; ies = (ie_rand, 1 ∷ 2 ∷ []) ∷ [] }

challenge-question : Nas.from_bytes challenge ≡ ok question
unfolding Nas.from_bytes
challenge-question = refl

question-rand : Nas.get question ie_rand ≡ some (1 ∷ 2 ∷ [])
unfolding Nas.get v_epc_cups.Tlv.first_value
question-rand = refl

-- With this function in the place of SHA-256.
res-value : res hash imsi (1 ∷ 2 ∷ []) ≡ literal "K|001010"
unfolding res
res-value = refl

abbrev waiting : Context
waiting = record {
  imsi = imsi;
  apn = literal "internet";
  mme_id = 0x1001;
  rand = some (1 ∷ 2 ∷ []);
  xres = some (literal "K|001010");
  bearer = none;
}

abbrev mme : Mme
mme = record new_one { ctx = (7, waiting) ∷ [] }

mme-waiting : get 7 mme.ctx ≡ some waiting
unfolding get
mme-waiting = refl

abbrev cell : Address
cell = record { ip = 0x7F00000B; port = 36422 }

abbrev there : Address
there = record { ip = 0x7F00000A; port = 36422 }

on_nas-judged_example :
    (pdu : Bytes) × (up : Bytes) × (down : Bytes) × (s : S1ap.Message) × (v : Nas.Message) × (on_nas
        hash phone challenge cell
      ≡ (record phone { enb_addr = some cell }, ok (record { payload = pdu; to = cell } ∷ [])))
    × (on_uu_nas station pdu there ≡ (
      record station { ue_addr = some there },
      ok (record { payload = up; to = record { ip = 0x7F00000C; port = 36412 } } ∷ []),
    ))
    × (on_s1ap nobody nobody mme up from_there ≡ judged mme from_there down)
    × (S1ap.from_bytes down ≡ ok s)
    × (s.msg_id ≡ downlink_nas_transport)
    × (nas_of (S1ap.get s ie_nas_pdu) ≡ ok v)
    × ((v.msg_type ≡ security_mode_command) ↔ (res hash imsi (1 ∷ 2 ∷ []) ≡ literal "K|001010"))
    × ((v.msg_type ≡ attach_reject) ↔ (res hash imsi (1 ∷ 2 ∷ []) ≢ literal "K|001010"))
on_nas-judged_example =
    on_nas-judged hash nobody nobody phone challenge (1 ∷ 2 ∷ []) question cell there from_there
      station mme waiting (literal "K|001010") challenge-question refl question-rand (omega arith)
      (omega arith) mme-waiting (omega arith) refl
