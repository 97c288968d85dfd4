-- ===== src/Tests/Pfcp.antt =====
-- The theorems on PFCP at concrete inputs.
use v_epc_cups.Prelude.{◌≡◌, true, [], ◌∷◌, ◌++◌, arith}
use v_epc_cups.Prelude.Results.{ok}
use v_epc_cups.Bytes.{u16}
use v_epc_cups.Pfcp.Types
use v_epc_cups.Pfcp.Types.Ie
use v_epc_cups.Pfcp.Ies.{encode_ie, encode_ies, decode_ies}
use v_epc_cups.Pfcp.Ies.Framing.{decode_ies-encode_ies}
use v_epc_cups.Pfcp.Message.{Message, to_bytes, from_bytes}
use v_epc_cups.Pfcp.Message.RoundTrip.{IsWire, message_round_trip}

abbrev deletion : Message
deletion = record {
  msg_type = Types.session_deletion_request;
  seid = 0x100000001;
  seq = 0x00ABCD;
  ies = (Ie.cause, 1 ∷ []) ∷ (Ie.node_id, 0 ∷ 127 ∷ 0 ∷ 0 ∷ 4 ∷ []) ∷ [];
  has_seid = true;
}

deletion-IsWire : IsWire deletion
unfolding encode_ie u16
deletion-IsWire = record {
  type_fits = omega arith;
  seid_fits = omega arith;
  seid_sent = λ h. cc;
  seq_fits = omega arith;
  ies_fit = omega arith;
  body_fits = omega arith;
}

message_round_trip_example : from_bytes (to_bytes deletion ++ 9 ∷ []) ≡ ok deletion
message_round_trip_example = message_round_trip deletion (9 ∷ []) deletion-IsWire

decode_ies-encode_ies_example : decode_ies (encode_ies deletion.ies) ≡ deletion.ies
decode_ies-encode_ies_example = decode_ies-encode_ies deletion.ies (omega arith)
