-- ===== src/Tests/Sxcups.antt =====
-- The theorems on rules, sessions and reports at concrete inputs.
use v_epc_cups.Prelude.{
  ℕ, ◌+◌, ◌≡◌, ◌↔◌, ◌%◌, ◌^◌, refl, String, Option, none, some, List, [], ◌∷◌, arith,
}
use v_epc_cups.Prelude.Results.{ok}
use v_epc_cups.Prelude.Classes.{option_eq}
use v_epc_cups.Prelude.Dict.{values}
use v_epc_cups.Bytes.{Bytes}
use v_epc_cups.Pfcp.Types.Ie
use v_epc_cups.Pfcp.Ies.{encode_ie}
use v_epc_cups.Sxcups.Rules.Interfaces.{access}
use v_epc_cups.Sxcups.Rules.Pdr
use v_epc_cups.Sxcups.Rules.Pdr.{Pdr}
use v_epc_cups.Sxcups.Rules.Pdr.RoundTrip.{Detection, IsSent, pdr_of, pdr_round_trip}
use v_epc_cups.Sxcups.Rules.Far
use v_epc_cups.Sxcups.Rules.Far.{Far, new_far}
use v_epc_cups.Sxcups.Rules.Far.RoundTrip.{known_actions, far_round_trip}
use v_epc_cups.Sxcups.Session.{Session, apply, classify}
use v_epc_cups.Sxcups.Session.Classify.{IsChoice, classify-IsChoice}
use v_epc_cups.Sxcups.Session.Pipeline.{IsTreated, apply-IsTreated}
use v_epc_cups.Sxcups.Store.{new_seid}
use v_epc_cups.Sxcups.Store.Laws.{new_seid-eq}

abbrev uplink : Detection
uplink = record {
  pdr_id = 1;
  precedence = 100;
  interface = access;
  fteid = some (0x10000, 0x7F000002);
  network_instance = [];
  urr_ids = 1 ∷ [];
  qer_ids = 1 ∷ [];
  far_id = some 1;
}

uplink-IsSent : IsSent uplink
uplink-IsSent = record {
  pdr_id = omega arith;
  precedence = omega arith;
  fteid = omega arith;
  network_instance = omega arith;
  urr_ids = omega arith;
  qer_ids = omega arith;
  far_id = omega arith;
}

pdr_round_trip_example :
    (v : Bytes) × (Pdr.to_pfcp (pdr_of uplink) ≡ ok (encode_ie Ie.create_pdr v))
    × (Pdr.from_pfcp v ≡ record (pdr_of uplink) { network_instance = [] })
pdr_round_trip_example = pdr_round_trip uplink uplink-IsSent

far_round_trip_example :
    (v : Bytes) × (Far.to_pfcp (new_far 2 ("FORWARD" ∷ []) "Access")
      ≡ ok (encode_ie Ie.create_far v))
    × (Far.from_pfcp v ≡ new_far 2 (known_actions ("FORWARD" ∷ [])) "Core")
unfolding new_far
far_round_trip_example = far_round_trip (new_far 2 ("FORWARD" ∷ []) "Access") 2 refl (omega arith)

-- Two uplink rules, the second with the smaller precedence value.
abbrev two_rules : Session
two_rules = record {
  seid = some 5;
  cp_fseid = (some 5, 0x7F000004);
  up_fseid = (some 5, 0x7F000002);
  kind = "PDN";
  pdrs =
      (some 1, pdr_of uplink)
      ∷ (some 9, record (pdr_of uplink) { pdr_id = some 9; precedence = some 50 })
      ∷ [];
  fars =
      (
        some 1,
        record {
          far_id = some 1;
          apply_action = "FORWARD" ∷ [];
          destination_interface = "Core";
          outer_header = none;
        },
      )
      ∷ [];
  qers = [];
  urrs = [];
  buffered = [];
  usage = record { uplink = 3; downlink = 4 };
  state = "ESTABLISHED";
}

classify-IsChoice_example :
    (r : Option Pdr) × (classify two_rules "Access" ≡ ok r)
    × IsChoice "Access" (values two_rules.pdrs) r
classify-IsChoice_example = classify-IsChoice two_rules "Access" ((100, refl), ((50, refl), tt))

apply-IsTreated_example :
    (r : Option Pdr) × (out : Session × (List String × ℕ)) × IsChoice "Access"
      (values two_rules.pdrs)
      r
    × (apply two_rules (1 ∷ 2 ∷ []) "Access" ≡ ok out)
    × IsTreated two_rules (1 ∷ 2 ∷ []) "Access" r out
apply-IsTreated_example =
    apply-IsTreated two_rules (1 ∷ 2 ∷ []) "Access" ((100, refl), ((50, refl), tt))

new_seid-eq_example :
    (((new_seid 0x1000 1).0 ≡ (new_seid 0x1000 1048577).0)
      ↔ (◌≡◌ {A = ℕ} 0x1000 0x1000) × (1 % 2 ^ 20 ≡ 1048577 % 2 ^ 20))
    × ((new_seid 0x1000 (1 + 2 ^ 20)).0 ≡ (new_seid 0x1000 1).0)
new_seid-eq_example = new_seid-eq 0x1000 0x1000 1 1048577
