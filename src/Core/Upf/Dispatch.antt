-- ===== src/Core/Upf/Dispatch.antt =====
-- `handle` of core/upf.py: one PFCP datagram.
use v_epc_cups.Prelude.{ℕ, none, some, nat_beq, if◌then◌else◌}
use v_epc_cups.Prelude.Results.{Result, ok, err}
use v_epc_cups.Bytes.{Bytes, Ip}
use v_epc_cups.Pfcp.Types
use v_epc_cups.Pfcp.Message.{Message, from_bytes}
use v_epc_cups.Core.Upf.State.{Peer, Upf, Outcome, seen_peer, set_peer, reply, hb_ies}
use v_epc_cups.Core.Upf.NodeProcedures.{
  on_association_setup, on_association_release, on_pfd_management,
}
use v_epc_cups.Core.Upf.SessionProcedures.{
  on_session_establish, on_session_modify, on_session_delete,
}

-- Responses, and messages of other types, are not answered.
unfoldable pub dispatch : Upf → Message → Ip → Peer → Outcome
dispatch u msg from peer =
    let t = msg.msg_type in
    if nat_beq t Types.heartbeat_request
    then (u, ok (some (reply Types.heartbeat_response msg (hb_ies u))))
    else if nat_beq t Types.association_setup_request
    then on_association_setup u msg from peer
    else if nat_beq t Types.association_update_request
    then (u, ok (some (reply Types.association_update_response msg (hb_ies u))))
    else if nat_beq t Types.association_release_request
    then on_association_release u msg from peer
    else if nat_beq t Types.session_establishment_request
    then on_session_establish u msg from
    else if nat_beq t Types.session_modification_request
    then on_session_modify u msg
    else if nat_beq t Types.session_deletion_request
    then on_session_delete u msg
    else if nat_beq t Types.pfd_management_request
    then on_pfd_management u msg
    else (u, ok none)

-- `now` is time.time(), and `from` is the address that the datagram came from.
abbrev pub receive : Upf → ℕ → Ip → Result Message → Outcome
receive u now from (err e) = (u, ok none)
receive u now from (ok msg) =
    let peer = seen_peer u now from in dispatch (set_peer u from peer) msg from peer

unfoldable pub handle : Upf → ℕ → Ip → Bytes → Outcome
handle u now from bytes = receive u now from (from_bytes bytes)
