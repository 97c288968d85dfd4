-- ===== src/Core/Upf/SessionProcedures.antt =====
-- The Sx session procedures of core/upf.py.
use v_epc_cups.Prelude.{ℕ, Option, none, some, List, [], ◌∷◌, if◌then◌else◌}
use v_epc_cups.Prelude.Results.{Result, ok, err, type_error}
use v_epc_cups.Prelude.Classes.{option_eq}
use v_epc_cups.Prelude.Dict.{put}
use v_epc_cups.Bytes.{Bytes, Ip}
use v_epc_cups.Pfcp.Types.{
  named, cause_request_accepted, cause_session_context_nf, session_establishment_response,
  session_modification_response, session_deletion_response,
}
use v_epc_cups.Pfcp.Types.Ie
use v_epc_cups.Pfcp.Values.{ie_cause, ie_node_id, ie_fseid, decode_fseid, pdr_id_of, u32_of}
use v_epc_cups.Pfcp.Message
use v_epc_cups.Pfcp.Message.{Message}
use v_epc_cups.Sxcups.Rules.Pdr
use v_epc_cups.Sxcups.Rules.Far
use v_epc_cups.Sxcups.Rules.Qer
use v_epc_cups.Sxcups.Rules.Urr
use v_epc_cups.Sxcups.Session.{Session, new_session, add_rules, remove}
use v_epc_cups.Sxcups.Store.{find, delete}
use v_epc_cups.Core.Upf.State.{Upf, Outcome, reply}
use v_epc_cups.Core.Upf.Rules.{rules_named, Allocation, allocate}

-- The SEID and the address of `decode_fseid`, each `None` on a short value.
abbrev pub seid_part : Option (ℕ × Ip) → Option ℕ
seid_part none = none
seid_part (some (seid, ip)) = some seid

-- `cp_ip or peer.ip`
abbrev pub ip_part : Ip → Option (ℕ × Ip) → Ip
ip_part other none = other
ip_part other (some (seid, ip)) = ip

-- The allocation for the PDRs of the request.
unfoldable pub establish_allocation : Upf → Message → Allocation
unfolding rules_named allocate
establish_allocation u msg =
    allocate u.ip u.next_teid (rules_named "Create PDR" Pdr.from_pfcp msg.ies)

-- The session with the rules of the request, their TEIDs given.
unfoldable pub established : Upf → Message → Ip → Option (ℕ × Ip) → Session
unfolding rules_named add_rules new_session establish_allocation
established u msg from fseid =
    let s = new_session (seid_part fseid) (ip_part from fseid) u.ip "PDN" in
    add_rules (record s { up_fseid = (seid_part fseid, u.ip) }) (establish_allocation u msg).pdrs
      (rules_named "Create FAR" Far.from_pfcp msg.ies)
      (rules_named "Create QER" Qer.from_pfcp msg.ies)
      (rules_named "Create URR" Urr.from_pfcp msg.ies)

-- The IEs of the answer: `ie_fseid` raises on a SEID that is `None`.
abbrev pub establish_ies : Upf → Option (ℕ × Ip) → Result (List Bytes) → Result (List Bytes)
establish_ies u fseid (err e) = err e
establish_ies u none (ok created) = err type_error
establish_ies u (some (seid, ip)) (ok created) =
    ok (ie_node_id u.ip ∷ ie_cause cause_request_accepted ∷ ie_fseid seid u.ip ∷ created)

abbrev pub answer : ℕ → Message → Result (List Bytes) → Result (Option Bytes)
answer mtype msg (err e) = err e
answer mtype msg (ok ies) = ok (some (reply mtype msg ies))

abbrev pub establish : Upf → Message → Ip → Option (ℕ × Ip) → Outcome
establish u msg from fseid = (
  record u {
    store = put (seid_part fseid) (established u msg from fseid) u.store;
    next_teid = (establish_allocation u msg).next_teid;
  },
  answer session_establishment_response msg
      (establish_ies u fseid (establish_allocation u msg).created),
)

-- A request without an F-SEID raises before anything changes.
abbrev pub establish_from : Upf → Message → Ip → Option Bytes → Outcome
establish_from u msg from none = (u, err type_error)
establish_from u msg from (some v) = establish u msg from (decode_fseid v)

unfoldable pub on_session_establish : Upf → Message → Ip → Outcome
unfolding established
on_session_establish u msg from = establish_from u msg from (Message.get msg Ie.f_seid)

-- One IE of a modification, applied to the session in place.
unfoldable pub modify_step : Session → ℕ → Bytes → Session
unfolding named add_rules remove
modify_step s t v =
    if named t "Create PDR"
    then add_rules s (Pdr.from_pfcp v ∷ []) [] [] []
    else if named t "Create FAR"
    then add_rules s [] (Far.from_pfcp v ∷ []) [] []
    else if named t "Remove PDR"
    then remove s (pdr_id_of v ∷ []) [] [] []
    else if named t "Remove FAR"
    then remove s [] (u32_of v ∷ []) [] []
    else s

unfoldable pub modify_all : Session → List (ℕ × Bytes) → Session
unfolding modify_step
modify_all s [] = s
modify_all s ((t, v) ∷ ies) = modify_all (modify_step s t v) ies

abbrev pub found_under : Option ℕ → Option Session → Option (Option ℕ × Session)
found_under key none = none
found_under key (some s) = some (key, s)

-- The key and the session that a modification is for: that of the header's SEID, else that of the
-- F-SEID. A missing F-SEID raises.
abbrev pub by_fseid : Upf → Option Bytes → Result (Option (Option ℕ × Session))
by_fseid u none = err type_error
by_fseid u (some v) =
    let key = seid_part (decode_fseid v) in ok (found_under key (find u.store key))

abbrev pub target_or : Upf → Message → Option Session → Result (Option (Option ℕ × Session))
target_or u msg none = by_fseid u (Message.get msg Ie.f_seid)
target_or u msg (some s) = ok (some (some msg.seid, s))

unfoldable pub modify_target : Upf → Message → Result (Option (Option ℕ × Session))
unfolding find
modify_target u msg = target_or u msg (find u.store (some msg.seid))

-- The log line formats `s.seid` as a number, and raises where it is `None`.
abbrev pub modified_reply : Upf → Message → Option ℕ → Result (Option Bytes)
modified_reply u msg none = err type_error
modified_reply u msg (some seid) = ok (
    some (
      reply session_modification_response msg
        (ie_cause cause_request_accepted ∷ ie_node_id u.ip ∷ [])))

abbrev pub modify : Upf → Message → Result (Option (Option ℕ × Session)) → Outcome
modify u msg (err e) = (u, err e)
modify u msg (ok none) = (
  u,
  ok (some (reply session_modification_response msg (ie_cause cause_session_context_nf ∷ []))),
)
modify u msg (ok (some (key, s))) =
    (record u { store = put key (modify_all s msg.ies) u.store }, modified_reply u msg s.seid)

unfoldable pub on_session_modify : Upf → Message → Outcome
unfolding modify_target modify_all
on_session_modify u msg = modify u msg (modify_target u msg)

-- The answer accepts the request, also where there is no such session.
unfoldable pub on_session_delete : Upf → Message → Outcome
unfolding delete
on_session_delete u msg = (
  record u { store = (delete u.store (some msg.seid)).1 },
  ok (
      some (
        reply session_deletion_response msg
          (ie_cause cause_request_accepted ∷ ie_node_id u.ip ∷ []))),
)
