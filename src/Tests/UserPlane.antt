-- ===== src/Tests/UserPlane.antt =====
-- The theorems on the user plane at concrete inputs.
use v_epc_cups.Prelude.{◌≡◌, refl, true, false, none, some, [], ◌∷◌, ◌++◌, arith, inr}
use v_epc_cups.Prelude.Results.{ok}
use v_epc_cups.Prelude.Classes.{nat_eq}
use v_epc_cups.Prelude.Dict.{get}
use v_epc_cups.Bytes.{Bytes}
use v_epc_cups.Gtp.{encode_gpdu, decode}
use v_epc_cups.Gtp.RoundTrip.{packet, gpdu, gpdu_round_trip}
use v_epc_cups.Core.GtpuNode.{GtpuNode, Route, Send, handle}
use v_epc_cups.Core.GtpuNode.Relay.{counters, routed, handle-routed}
use v_epc_cups.Core.GtpuNode.Path.{Chain, exit, hop, deliver, deliver-payload}
use v_epc_cups.Pfcp.Message.{Message}
use v_epc_cups.Pfcp.Values.{ie_cause, ie_node_id, ie_fseid}
use v_epc_cups.Sxcups.Rules.Pdr.{Pdr}
use v_epc_cups.Sxcups.Session.{Session, put_all}
use v_epc_cups.Sxcups.Store.{find}
use v_epc_cups.Core.Upf.SessionProcedures.{on_session_establish}
use v_epc_cups.Core.Upf.TeidAllocation.{
  announced, with_teids, requested, on_session_establish-accepts,
}
use v_epc_cups.Core.Upf.State.{Upf, new_upf, reply}
use v_epc_cups.Core.Upf.Invariant.{IsValid, empty-IsValid, handle-IsValid}
use v_epc_cups.Core.Upf.Dispatch

gpdu_round_trip_example :
    (bytes : Bytes) × (encode_gpdu (some 7) (1 ∷ 2 ∷ []) ≡ ok bytes)
    × (decode (bytes ++ 9 ∷ []) ≡ ok (record (packet 7 (1 ∷ 2 ∷ [])) { payload = 1 ∷ 2 ∷ 9 ∷ [] }))
gpdu_round_trip_example = gpdu_round_trip 7 (1 ∷ 2 ∷ []) (9 ∷ []) (omega arith) (omega arith)

-- The S1-U TEID of the SGW-U leads to the S5-U TEID of the PGW-U, and that to the PDN.
abbrev to_pgw : Route
to_pgw = record { egress = false; ip = 0x7F000003; port = 2152; teid = some 0x20000 }

abbrev to_pdn : Route
to_pdn = record { egress = true; ip = 0x7F00000F; port = 9999; teid = none }

abbrev sgw_u : GtpuNode
sgw_u = record { routes = (0x10000, to_pgw) ∷ []; stats = []; sgi_uplink = none; has_sgi = false }

abbrev pgw_u : GtpuNode
pgw_u = record { routes = (0x20000, to_pdn) ∷ []; stats = []; sgi_uplink = none; has_sgi = true }

handle-routed_example :
    ((handle sgw_u (gpdu 0x10000 (5 ∷ 6 ∷ []))).1
      ≡ ok (some (routed sgw_u to_pgw 0x20000 (5 ∷ 6 ∷ []))))
    × (counters (handle sgw_u (gpdu 0x10000 (5 ∷ 6 ∷ []))).0 0x10000
        ≡ record { packets = 1; bytes = 2 })
    × ((handle sgw_u (gpdu 0x10000 (5 ∷ 6 ∷ []))).0.routes ≡ sgw_u.routes)
unfolding get
handle-routed_example =
    handle-routed sgw_u 0x10000 0x20000 (5 ∷ 6 ∷ []) (omega arith) (omega arith) to_pgw 0x10000 refl
      (inr refl)

through : Chain (sgw_u ∷ pgw_u ∷ []) 0x10000 to_pdn
unfolding get
through = hop (omega arith) refl refl refl (exit (omega arith) refl refl)

deliver-payload_example :
    (s : Send) × (deliver (sgw_u ∷ pgw_u ∷ []) (gpdu 0x10000 (5 ∷ 6 ∷ [])) ≡ some s)
    × (s.payload ≡ 5 ∷ 6 ∷ [])
    × (s.ip ≡ to_pdn.ip)
    × (s.port ≡ to_pdn.port)
deliver-payload_example = deliver-payload (5 ∷ 6 ∷ []) through (omega arith)

abbrev sgw_upf : Upf
sgw_upf = new_upf 0x7F000002 8805 1 ("TRST" ∷ [])

-- A heartbeat request.
abbrev heartbeat : Bytes
heartbeat = 0x20 ∷ 1 ∷ 0 ∷ 4 ∷ 0 ∷ 0 ∷ 1 ∷ 0 ∷ []

handle-IsValid_example :
    ((Dispatch.handle sgw_upf 10 0x7F000004 heartbeat).0.ip ≡ sgw_upf.ip)
    × IsValid sgw_upf.ip (Dispatch.handle sgw_upf 10 0x7F000004 heartbeat).0.store
unfolding new_upf
handle-IsValid_example = handle-IsValid sgw_upf 10 0x7F000004 heartbeat (empty-IsValid sgw_upf.ip)

-- An F-SEID, and a Create PDR with the id 1.
abbrev fseid : Bytes
fseid = 2 ∷ 0 ∷ 0 ∷ 0 ∷ 0 ∷ 0 ∷ 0 ∷ 0 ∷ 9 ∷ 127 ∷ 0 ∷ 0 ∷ 4 ∷ []

abbrev establishment : Message
establishment = record {
  msg_type = 50;
  seid = 0;
  seq = 1;
  ies = (57, fseid) ∷ (1, 0 ∷ 56 ∷ 0 ∷ 2 ∷ 0 ∷ 1 ∷ []) ∷ [];
  has_seid = true;
}

on_session_establish-accepts_example :
    ((on_session_establish sgw_upf establishment 0x7F000004).1
      ≡ ok (
          some (
            reply 51 establishment (
              ie_node_id sgw_upf.ip
              ∷ ie_cause 1
              ∷ ie_fseid 9 sgw_upf.ip
              ∷ announced sgw_upf.ip sgw_upf.next_teid (requested establishment)))))
    × (s : Session) × (find (on_session_establish sgw_upf establishment 0x7F000004).0.store (some 9)
        ≡ some s)
    × (s.cp_fseid ≡ (some 9, 0x7F000004))
    × (s.pdrs
        ≡ put_all
            (λ (p : Pdr). p.pdr_id)
            (with_teids sgw_upf.ip sgw_upf.next_teid (requested establishment))
            [])
unfolding v_epc_cups.Pfcp.Message.get v_epc_cups.Pfcp.Values.decode_fseid
    v_epc_cups.Core.Upf.Rules.rules_named v_epc_cups.Sxcups.Rules.Pdr.from_pfcp
    v_epc_cups.Pfcp.Values.pdr_id_of
on_session_establish-accepts_example =
    on_session_establish-accepts sgw_upf establishment 0x7F000004 fseid 9 0x7F000004 refl refl
      ((1, refl), tt)
