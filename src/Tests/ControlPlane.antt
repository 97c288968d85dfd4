-- ===== src/Tests/ControlPlane.antt =====
-- The theorems on the control plane at concrete inputs.
use v_epc_cups.Prelude.{◌≡◌, refl, true, none, some, List, [], ◌∷◌}
use v_epc_cups.Prelude.Results.{ok}
use v_epc_cups.Prelude.Classes.{nat_eq, option_eq}
use v_epc_cups.Prelude.Dict.{get}
use v_epc_cups.Bytes.{Ip}
use v_epc_cups.Pfcp.Types
use v_epc_cups.Pfcp.Types.Ie
use v_epc_cups.Pfcp.Message.{Message, to_bytes}
use v_epc_cups.Sxcups.Store.{find, new_seid}
use v_epc_cups.Sxcups.Store.Kept.{empty-Kept}
use v_epc_cups.Core.Cpf.State.{Cpf, new_cpf, add_peer, next_seq}
use v_epc_cups.Core.Cpf.Requests.{Request, Arrival, request}
use v_epc_cups.Core.Cpf.SessionProcedures.{session_establish}
use v_epc_cups.Core.Cpf.SessionChanges.{session_delete}
use v_epc_cups.Core.Cpf.Steps.{configured, established, deleted, here, later}
use v_epc_cups.Core.Cpf.Keeps.{IsValid}
use v_epc_cups.Core.Cpf.Invariant.{Reaches-IsValid}
use v_epc_cups.Core.Cpf.Correlation.{
  last_response, request-last_response, session_establish-refused,
}

abbrev upf_ip : Ip
upf_ip = 0x7F000002

abbrev sgw_c : Cpf
sgw_c = new_cpf 0x7F000004 8805 1 0x1000 1

-- An answer to the first request: the user plane does not know the session.
abbrev refusal : Message
refusal = record {
  msg_type = Types.session_establishment_response;
  seid = 0;
  seq = 1;
  ies = (Ie.cause, 2 ∷ []) ∷ [];
  has_seid = true;
}

-- It follows an answer to another request.
abbrev arrivals : List Arrival
arrivals =
    record { now = 5; from = upf_ip; bytes = to_bytes (record refusal { seq = 7 }) }
    ∷ record { now = 6; from = upf_ip; bytes = to_bytes refusal }
    ∷ []

abbrev peered : Cpf
peered = add_peer sgw_c upf_ip

abbrev after_refusal : Cpf
after_refusal = (session_establish peered upf_ip "PDN" 0x0A0A0002 arrivals).0

Reaches-IsValid_example :
    ((session_delete after_refusal 0x100001 []).0.ip ≡ sgw_c.ip)
    × IsValid (session_delete after_refusal 0x100001 []).0
unfolding new_cpf
Reaches-IsValid_example =
    Reaches-IsValid
      (later (configured upf_ip)
        (later (established upf_ip "PDN" 0x0A0A0002 arrivals) (later (deleted 0x100001 []) here)))
      empty-Kept

abbrev deletion : Request
deletion = record {
  msg_type = Types.session_deletion_request;
  seid = some 9;
  ies = [];
  has_seid = true;
  peer = some upf_ip;
}

request-last_response_example :
    ((request sgw_c deletion arrivals).1 ≡ ok (last_response (next_seq sgw_c).seq none arrivals))
    × (get (next_seq sgw_c).seq (request sgw_c deletion arrivals).0.pending ≡ none)
request-last_response_example = request-last_response sgw_c deletion arrivals 9 upf_ip refl refl

session_establish-refused_example :
    ((session_establish sgw_c upf_ip "PDN" 0x0A0A0002 arrivals).1 ≡ ok none)
    × (find
          (session_establish sgw_c upf_ip "PDN" 0x0A0A0002 arrivals).0.store
          (some (new_seid sgw_c.base_seid sgw_c.session_seq).0)
        ≡ none)
unfolding last_response v_epc_cups.Pfcp.Message.from_bytes to_bytes v_epc_cups.Pfcp.Ies.encode_ie
    v_epc_cups.Core.Cpf.Dispatch.is_response next_seq new_cpf v_epc_cups.Pfcp.Message.get
session_establish-refused_example =
    session_establish-refused sgw_c upf_ip "PDN" 0x0A0A0002 arrivals refl
