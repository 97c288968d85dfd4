-- ===== src/Tests/Signalling.antt =====
-- The theorems on GTPv2-C and S1AP at concrete inputs.
use v_epc_cups.Prelude.{◌≡◌, ◌≤◌, true, none, some, List, [], ◌∷◌, ◌++◌, length, arith}
use v_epc_cups.Prelude.Results.{ok}
use v_epc_cups.Bytes.{Bytes}
use v_epc_cups.Nas
use v_epc_cups.Nas.{bcd_encode, bcd_decode}
use v_epc_cups.Nas.RoundTrip.{nas_round_trip, bcd_round_trip}
use v_epc_cups.S1ap
use v_epc_cups.S1ap.{Erab, erab_list, decode_erab_list}
use v_epc_cups.S1ap.RoundTrip.{s1ap_round_trip, erab_list_round_trip}
use v_epc_cups.GtpC.Bearer.{bearer_context, decode_bearer_context}
use v_epc_cups.GtpC.BearerRoundTrip.{Arguments, read_tunnel, bearer_round_trip}
use v_epc_cups.GtpC
use v_epc_cups.GtpC.RoundTrip.{gtp_c_round_trip}

-- A Modify Bearer Request with an EBI.
abbrev modification : GtpC.Message
modification = record {
  msg_type = 34;
  teid = 0x10000;
  seq = 3;
  has_teid = true;
  ies = (73, 5 ∷ []) ∷ [];
}

modification-IsWire : v_epc_cups.GtpC.RoundTrip.IsWire modification
unfolding v_epc_cups.Bytes.u16
modification-IsWire = record {
  type_fits = omega arith;
  teid_fits = omega arith;
  teid_sent = λ h. cc;
  seq_fits = omega arith;
  ies_fit = omega arith;
  body_fits = omega arith;
}

gtp_c_round_trip_example :
    (bytes : Bytes) × (GtpC.to_bytes modification ≡ ok bytes)
    × (GtpC.from_bytes (bytes ++ 7 ∷ []) ≡ ok modification)
gtp_c_round_trip_example = gtp_c_round_trip modification (7 ∷ []) modification-IsWire

-- An Initial UE Message with an eNB id and a cause.
abbrev initial : S1ap.Message
initial = record { msg_id = 12; ies = (1, 0 ∷ 0 ∷ 0 ∷ 7 ∷ []) ∷ (10, 1 ∷ []) ∷ [] }

initial-IsWire : v_epc_cups.S1ap.RoundTrip.IsWire initial
unfolding v_epc_cups.Bytes.u16
initial-IsWire = record {
  msg_id_fits = omega arith;
  ies_fit = omega arith;
  body_fits = omega arith;
}

s1ap_round_trip_example :
    (bytes : Bytes) × (S1ap.to_bytes initial ≡ ok bytes) × (S1ap.from_bytes bytes ≡ ok initial)
s1ap_round_trip_example = s1ap_round_trip initial initial-IsWire

abbrev erabs : List Erab
erabs =
    record { ebi = 5; teid = 0x10000; ip = 0x7F000002 }
    ∷ record { ebi = 6; teid = 0x10001; ip = 0x7F000002 }
    ∷ []

erab_list_round_trip_example :
    (bytes : Bytes) × (erab_list erabs ≡ ok bytes) × (decode_erab_list bytes ≡ erabs)
erab_list_round_trip_example = erab_list_round_trip erabs (omega arith)

-- An Attach Request with a PDN type.
abbrev attach : Nas.Message
attach = record { msg_type = 0x41; ies = (4, 1 ∷ []) ∷ [] }

nas_round_trip_example :
    (bytes : Bytes) × (Nas.to_bytes attach ≡ ok bytes) × (Nas.from_bytes bytes ≡ ok attach)
nas_round_trip_example = nas_round_trip attach (omega arith) (omega arith)

bcd_round_trip_example : bcd_decode (bcd_encode (0 ∷ 0 ∷ 1 ∷ 0 ∷ 7 ∷ [])) ≡ 0 ∷ 0 ∷ 1 ∷ 0 ∷ 7 ∷ []
bcd_round_trip_example = bcd_round_trip (0 ∷ 0 ∷ 1 ∷ 0 ∷ 7 ∷ []) (omega arith)

-- The Bearer Context of an answer, without a charging id.
abbrev bearer : Arguments
bearer = record {
  ebi = 5;
  f_teid = some (0x10000, 0x7F000002, 1);
  cause = some 16;
  charging_id = none;
}

bearer_round_trip_example :
    (bytes : Bytes) × (bearer_context 5 (some (0x10000, 0x7F000002, 1)) (some 16) none ≡ ok bytes)
    × (length bytes ≤ 27)
    × (decode_bearer_context bytes
        ≡ ok (record {
          ebi = some 5;
          f_teid = some (read_tunnel (0x10000, 0x7F000002, 1));
          cause = some 16;
          charging_id = none;
        }))
bearer_round_trip_example = bearer_round_trip bearer (omega arith)
