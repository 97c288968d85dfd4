-- ===== src/Core/Cpf/Dispatch.antt =====
-- `handle` of core/cpf.py: one PFCP datagram.
use v_epc_cups.Prelude.{ℕ, Bool, Option, none, some, [], ◌∷◌, ◌++◌, ◌||◌, nat_beq, if◌then◌else◌}
use v_epc_cups.Prelude.Results.{Result, ok, err}
use v_epc_cups.Prelude.Classes.{nat_eq}
use v_epc_cups.Prelude.Dict.{Dict, get, put}
use v_epc_cups.Bytes.{Bytes, Ip}
use v_epc_cups.Pfcp.Types
use v_epc_cups.Pfcp.Values.{ie_cause, ie_recovery_ts}
use v_epc_cups.Pfcp.Message.{Message, from_bytes}
use v_epc_cups.Core.Cpf.State.{Peer, Cpf, change_peer, without_peer, answer}

-- msg.msg_type in (pfcp.HEARTBEAT_RESPONSE, ...)
unfoldable pub is_response : ℕ → Bool
is_response t =
    nat_beq t Types.heartbeat_response
    || nat_beq t Types.association_setup_response
    || nat_beq t Types.association_update_response
    || nat_beq t Types.association_release_response
    || nat_beq t Types.session_establishment_response
    || nat_beq t Types.session_modification_response
    || nat_beq t Types.session_deletion_response
    || nat_beq t Types.pfd_management_response
    || nat_beq t Types.session_report_response

-- slot[1] = msg, for a slot that is there
abbrev pub filled :
    Message → Option (Option Message) → Dict ℕ (Option Message) → Dict ℕ (Option Message)
filled msg none pending = pending
filled msg (some slot) pending = put msg.seq (some msg) pending

unfoldable pub on_response : Cpf → Message → Cpf
unfolding get put
on_response c msg = record c { pending = filled msg (get msg.seq c.pending) c.pending }

-- The sessions of the peer go, and the timer for its release is set if it is associated.
unfoldable pub on_association_update : Cpf → Option Peer → Cpf
unfolding without_peer
on_association_update c none = c
on_association_update c (some peer) = record c {
  store = without_peer peer.ip c.store c.store;
  releases = c.releases ++ (if peer.associated then peer.ip ∷ [] else []);
}

unfoldable pub dispatch : Cpf → Message → Ip → Cpf × Option Bytes
unfolding is_response on_response on_association_update get
dispatch c msg from =
    let t = msg.msg_type in
    if is_response t
    then (on_response c msg, none)
    else if nat_beq t Types.heartbeat_request
    then (c, some (answer Types.heartbeat_response 0 msg.seq (ie_recovery_ts c.recovery_ts ∷ [])))
    else if nat_beq t Types.session_report_request
    then (
      c,
      some (
          answer Types.session_report_response msg.seid msg.seq
            (ie_cause Types.cause_request_accepted ∷ [])),
    )
    else if nat_beq t Types.association_update_request
    then (
      on_association_update c (get from c.peers),
      some (
          answer Types.association_update_response 0 msg.seq
            (ie_cause Types.cause_request_accepted ∷ ie_recovery_ts c.recovery_ts ∷ [])),
    )
    else (c, none)

-- `now` is time.time(), and `from` is the address that the datagram came from.
abbrev pub receive : Cpf → ℕ → Ip → Result Message → Cpf × Option Bytes
receive c now from (err e) = (c, none)
receive c now from (ok msg) =
    dispatch (change_peer (λ (p : Peer). record p { last_seen = now }) from c) msg from

unfoldable pub handle : Cpf → ℕ → Ip → Bytes → Cpf × Option Bytes
handle c now from bytes = receive c now from (from_bytes bytes)
