-- ===== src/Core/Upf/NodeProcedures.antt =====
-- The Sx node procedures of core/upf.py.
use text.Mathlib.Text.{◌==◌ as str_eq}
use v_epc_cups.Prelude.{
  ℕ, true, false, String, Option, none, some, List, [], ◌∷◌, ◌++◌, map, if◌then◌else◌,
}
use v_epc_cups.Prelude.Results.{ok}
use v_epc_cups.Prelude.Dict.{values, keys}
use v_epc_cups.Sxcups.Store.{delete_each}
use v_epc_cups.Bytes.{Bytes, Ip, u8, u32}
use v_epc_cups.Pfcp.Types.{
  cause_request_accepted, association_setup_response, association_release_response,
  association_update_request, pfd_management_response,
}
use v_epc_cups.Pfcp.Types.Ie
use v_epc_cups.Pfcp.Ies.{encode_ie}
use v_epc_cups.Pfcp.Values.{ie_cause, ie_node_id, ie_recovery_ts, decode_node_id}
use v_epc_cups.Pfcp.Message
use v_epc_cups.Pfcp.Message.{Message, Item, encoded, new_message, to_bytes}
use v_epc_cups.Core.Upf.State.{Peer, Upf, Outcome, next_seq, set_peer, reply}

abbrev pub or_decoded : Option Ip → Option Bytes → Option Ip
or_decoded none v = decode_node_id v
or_decoded (some ip) v = some ip

unfoldable pub setup_ies : Upf → List Bytes
setup_ies u =
    ie_node_id u.ip
    ∷ ie_cause cause_request_accepted
    ∷ ie_recovery_ts u.recovery_ts
    ∷ encode_ie Ie.load_control_information (u8 20)
    ∷ encode_ie Ie.recovery_time_stamp (u32 u.recovery_ts)
    ∷ []

unfoldable pub on_association_setup : Upf → Message → Ip → Peer → Outcome
on_association_setup u msg from peer = (
  set_peer u from (record peer {
    associated = true;
    node_id = or_decoded peer.node_id (Message.get msg Ie.node_id);
  }),
  ok (some (reply association_setup_response msg (setup_ies u))),
)

-- Every session goes, whoever controls it.
unfoldable pub on_association_release : Upf → Message → Ip → Peer → Outcome
unfolding delete_each
on_association_release u msg from peer = (
  record (set_peer u from (record peer { associated = false })) {
    store = delete_each (keys u.store) u.store;
  },
  ok (
      some (
        reply association_release_response msg
          (ie_cause cause_request_accepted ∷ ie_node_id u.ip ∷ []))),
)

-- The PFDs are only logged.
unfoldable pub on_pfd_management : Upf → Message → Outcome
on_pfd_management u msg =
    (u, ok (some (reply pfd_management_response msg (ie_cause cause_request_accepted ∷ []))))

-- A datagram that the PFCP socket sends by itself.
pub record Send : Type 0 where
  pub payload : Bytes
  pub ip : Ip
  pub port : ℕ

abbrev update_ies : Upf → String → List Bytes
update_ies u state =
    ie_node_id u.ip ∷ (if str_eq state "DOWN" then ie_recovery_ts u.recovery_ts ∷ [] else [])

unfoldable pub notify_peer : Upf → String → Peer → Send
notify_peer u state peer = record {
  payload =
      to_bytes
        (new_message association_update_request 0 u.seq (map encoded (update_ies u state)) false);
  ip = peer.ip;
  port = peer.port;
}

-- for peer in self.peers.values(): the associated ones are told, each with a sequence number of
-- its own.
unfoldable pub notify_peers : Upf → String → List Peer → Upf × List Send
unfolding next_seq notify_peer
notify_peers u state [] = (u, [])
notify_peers u state (peer ∷ peers) =
    let (u', sends) = notify_peers (if peer.associated then next_seq u else u) state peers in
    (u', (if peer.associated then notify_peer (next_seq u) state peer ∷ [] else []) ++ sends)

unfoldable pub set_admin_state : Upf → String → Upf × List Send
unfolding notify_peers
set_admin_state u state =
    notify_peers (record u { user_plane_service = state }) state (values u.peers)
