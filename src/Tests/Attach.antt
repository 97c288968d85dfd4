-- ===== src/Tests/Attach.antt =====
-- The theorems on the attach of a UE at concrete inputs.
use v_epc_cups.Prelude.{◌+◌, ◌≡◌, ◌⊎◌, refl, false, Option, none, some, List, [], ◌∷◌, arith}
use v_epc_cups.Prelude.Results.{ok, ◌>>=◌}
use v_epc_cups.Prelude.Classes.{nat_eq, bytes_eq}
use v_epc_cups.Prelude.Dict.{get}
use v_epc_cups.Bytes.{Bytes}
use v_epc_cups.Diameter
use v_epc_cups.Diameter.{Avp, Message, avp, to_bytes, from_bytes, decode_avps}
use v_epc_cups.Diameter.Text.{literal, ascii-IsText}
use v_epc_cups.Core.Hss.AuthInfo.{first_vector}
use v_epc_cups.Core.Hss.Answers.{with_count}
use v_epc_cups.Core.Mme.Request.{air_message}
use v_epc_cups.Core.Mme.S6a.{air_result}
use v_epc_cups.Core.Mme.Identity.{FitsIdentity}
use v_epc_cups.Core.Mme.Authentication.{air, air_result-vector}
use v_epc_cups.Core.Mme.State.{Context, Mme, Outcome, Ends}
use v_epc_cups.Core.Mme.Handlers.{attach}
use v_epc_cups.Core.Mme.Attach.{hss_answers, attach-context}
use v_epc_cups.Core.Datagrams.{Address}
use v_epc_cups.Core.Ue.{Ue, State, res}
use v_epc_cups.Core.Ue.Attach.{
  Event, starts_attach, gets_nas, run, Any, Accepts, IsServed, run-attached,
}
use v_epc_cups.Core.Hss.{new_hss, default_subscriber, vector, handle}
use v_epc_cups.Tests.Epc.{imsi, hash, known}

abbrev mme_text : Bytes
mme_text = literal "127.0.0.12"

attach_fits : FitsIdentity mme_text 4097 imsi
unfolding v_epc_cups.Diameter.Text.decode_ignore
attach_fits = (omega arith, omega arith, refl, omega arith)

air_result-vector_example :
    (bytes : Bytes) × (reply : Bytes) × ((air_message mme_text 4097 imsi >>= to_bytes) ≡ ok bytes)
    × (handle hash new_hss bytes
        ≡ some (with_count hash new_hss (air mme_text 4097 imsi) imsi, ok (some reply)))
    × (air_result (some reply) ≡ some (ok (some (first_vector 1 (vector hash imsi 0)))))
    × (res hash imsi (vector hash imsi 0).rand ≡ (vector hash imsi 0).xres)
air_result-vector_example =
    air_result-vector hash new_hss mme_text imsi 4097 default_subscriber attach_fits known

abbrev small_mme : Mme
small_mme = record {
  ip = 0x7F00000C;
  ip_text = mme_text;
  sgwc_ip = 0x7F000004;
  hss_ip = 0x7F00000D;
  plmn = literal "00101";
  ctx = [];
  enb_addr = none;
  mme_ue = 0x1000;
  ccn = 0;
}

first_fits : FitsIdentity mme_text (0 + 1) imsi
unfolding v_epc_cups.Diameter.Text.decode_ignore
first_fits = (omega arith, omega arith, refl, omega arith)

abbrev silence : Bytes → Option Bytes
silence bytes = none

attach-context_example :
    (o : Outcome) × (c : Context) × (rand : Bytes) × (attach
        (hss_answers hash new_hss)
        silence
        small_mme
        7
        imsi
        (literal "internet")
      ≡ o)
    × Ends o
    × (get 7 o.mme.ctx ≡ some c)
    × (c.imsi ≡ imsi)
    × (c.apn ≡ literal "internet")
    × (c.mme_id ≡ 0x1000 + 1)
    × (c.rand ≡ some rand)
    × (c.xres ≡ some (res hash imsi rand))
attach-context_example =
    attach-context hash new_hss silence small_mme 7 imsi (literal "internet") default_subscriber
      first_fits known

abbrev enb : Address
enb = record { ip = 0x7F00000B; port = 36422 }

-- A new UE, its attach, and an Attach Accept.
abbrev phone : Ue
phone = record {
  imsi = imsi;
  apn = literal "internet";
  enb_ip = 0x7F00000B;
  state = State.idle;
  assigned_ip = none;
  ebi = none;
  enb_addr = none;
  rx_data = [];
  done = false;
}

abbrev short_story : List Event
short_story = starts_attach ∷ gets_nas (0x42 ∷ []) enb ∷ []

phone-attached : (run hash phone short_story).state ≡ State.attached
unfolding run v_epc_cups.Nas.from_bytes v_epc_cups.Nas.to_bytes
phone-attached = refl

run-attached_example :
    ((phone.state ≡ State.attached) ⊎ Any Accepts short_story)
    × IsServed (run hash phone short_story)
run-attached_example =
    run-attached hash phone short_story (λ h. absurd (ground arith)) phone-attached
