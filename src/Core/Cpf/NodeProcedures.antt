-- ===== src/Core/Cpf/NodeProcedures.antt =====
-- The Sx node procedures of core/cpf.py.
use v_epc_cups.Prelude.{
  ℕ, Bool, true, false, Option, none, some, List, [], ◌∷◌, ◌++◌, map, nat_beq, if◌then◌else◌,
}
use v_epc_cups.Prelude.Results.{Result, ok, err}
use v_epc_cups.Prelude.Dict.{values}
use v_epc_cups.Bytes.{Bytes, Ip}
use v_epc_cups.Pfcp.Types
use v_epc_cups.Pfcp.Types.Ie
use v_epc_cups.Pfcp.Ies.{encode_ie, encode_grouped}
use v_epc_cups.Pfcp.Values.{ie_node_id, ie_recovery_ts, decode_node_id}
use v_epc_cups.Pfcp.Message
use v_epc_cups.Pfcp.Message.{Message, Item, encoded, normalise, new_message, to_bytes}
use v_epc_cups.Core.Cpf.State.{Peer, Cpf, next_seq, change_peer, without_peer}
use v_epc_cups.Core.Cpf.Requests.{Request, Arrival, Send, request}

-- resp.get(IE["Cause"]) and resp.get(IE["Cause"])[0] == 1
abbrev pub is_accepted : Option Bytes → Bool
is_accepted (some (cause ∷ rest)) = nat_beq cause 1
is_accepted _ = false

-- Message(mtype, has_seid=False, ies=ies), for this peer.
unfoldable pub node_request : ℕ → List Bytes → Ip → Request
unfolding normalise
node_request mtype ies peer = record {
  msg_type = mtype;
  seid = some 0;
  ies = normalise (map encoded ies);
  has_seid = false;
  peer = some peer;
}

abbrev pub associate : ℕ → Message → Peer → Peer
associate now resp peer = record peer {
  associated = true;
  node_id = decode_node_id (Message.get resp Ie.node_id);
  last_seen = now;
}

abbrev pub after_setup : Ip → ℕ → Cpf × Result (Option Message) → Cpf × Result Bool
after_setup peer now (c, err e) = (c, err e)
after_setup peer now (c, ok none) = (c, ok false)
after_setup peer now (c, ok (some resp)) =
    if is_accepted (Message.get resp Ie.cause)
    then (change_peer (associate now resp) peer c, ok true)
    else (c, ok false)

unfoldable pub association_setup : Cpf → Ip → List Arrival → ℕ → Cpf × Result Bool
unfolding node_request request
association_setup c peer arrivals now = after_setup peer now (
    request c
      (node_request Types.association_setup_request
        (ie_node_id c.ip ∷ ie_recovery_ts c.recovery_ts ∷ []) peer)
      arrivals)

-- resp is not None
abbrev pub is_answered : Option Message → Bool
is_answered none = false
is_answered (some resp) = true

-- Answered or not, the peer and its sessions are let go.
abbrev pub after_release : Ip → Cpf × Result (Option Message) → Cpf × Result Bool
after_release peer (c, err e) = (c, err e)
after_release peer (c, ok resp) = (
  change_peer (λ (p : Peer). record p { associated = false }) peer
      (record c { store = without_peer peer c.store c.store }),
  ok (is_answered resp),
)

unfoldable pub association_release : Cpf → Ip → List Arrival → Cpf × Result Bool
unfolding node_request request
association_release c peer arrivals = after_release peer (
    request c (node_request Types.association_release_request (ie_node_id c.ip ∷ []) peer) arrivals)

abbrev pub after_pfd : Cpf × Result (Option Message) → Cpf × Result Bool
after_pfd (c, err e) = (c, err e)
after_pfd (c, ok resp) = (c, ok (is_answered resp))

-- `app_id` is the name's encoding.
unfoldable pub pfd_management : Cpf → Ip → Bytes → List Arrival → Cpf × Result Bool
unfolding node_request request
pfd_management c peer app_id arrivals = after_pfd (
    request c
      (node_request Types.pfd_management_request
        (encode_grouped Ie.pfd_context (encode_ie Ie.application_id app_id ∷ []) ∷ []) peer)
      arrivals)

unfoldable pub heartbeat : Cpf → Peer → Send
heartbeat c peer = record {
  payload = to_bytes (
      new_message Types.heartbeat_request 0 c.seq (map encoded (ie_recovery_ts c.recovery_ts ∷ []))
        false);
  ip = peer.ip;
  port = peer.port;
}

-- for peer in self.peers.values(): each associated one gets a heartbeat, under a number of its own.
unfoldable pub heartbeats : Cpf → List Peer → Cpf × List Send
unfolding next_seq heartbeat
heartbeats c [] = (c, [])
heartbeats c (peer ∷ peers) =
    let (c', sends) = heartbeats (if peer.associated then next_seq c else c) peers in
    (c', (if peer.associated then heartbeat (next_seq c) peer ∷ [] else []) ++ sends)

unfoldable pub heartbeat_loop : Cpf → Cpf × List Send
unfolding heartbeats
heartbeat_loop c = heartbeats c (values c.peers)
