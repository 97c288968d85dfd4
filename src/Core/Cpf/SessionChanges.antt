-- ===== src/Core/Cpf/SessionChanges.antt =====
-- `session_modify` and `session_delete` of core/cpf.py.
use v_epc_cups.Prelude.{
  ℕ, Bool, true, false, Option, none, some, List, [], ◌∷◌, ◌++◌, map, if◌then◌else◌,
}
use v_epc_cups.Prelude.Results.{Result, ok, err}
use v_epc_cups.Prelude.Classes.{nat_eq, option_eq}
use v_epc_cups.Prelude.Dict.{get, put, pop}
use v_epc_cups.Bytes.{Bytes, Ip, u16}
use v_epc_cups.Pfcp.Types
use v_epc_cups.Pfcp.Types.Ie
use v_epc_cups.Pfcp.Ies.{encode_ie}
use v_epc_cups.Pfcp.Values.{ie_fseid}
use v_epc_cups.Pfcp.Message
use v_epc_cups.Pfcp.Message.{Message, encoded, normalise}
use v_epc_cups.Sxcups.Rules.Pdr
use v_epc_cups.Sxcups.Rules.Pdr.{Pdr}
use v_epc_cups.Sxcups.Session.{Session}
use v_epc_cups.Sxcups.Store.{find, delete}
use v_epc_cups.Core.Cpf.State.{Peer, Cpf}
use v_epc_cups.Core.Cpf.Requests.{Request, Arrival, request}
use v_epc_cups.Core.Cpf.NodeProcedures.{is_accepted, is_answered}

-- The cause of an answer that may be missing.
abbrev pub cause_of : Option Message → Option Bytes
cause_of none = none
cause_of (some resp) = Message.get resp Ie.cause

-- One rule of the loop: it is in the session before it is encoded.
abbrev pub then_add :
    Session → Result Bytes → Session × Result (List Bytes) → Session × Result (List Bytes)
then_add s (err e) rest = (s, err e)
then_add s (ok ie) (s', err e) = (s', err e)
then_add s (ok ie) (s', ok ies) = (s', ok (ie ∷ ies))

unfoldable pub add_pdrs : Session → List Pdr → Session × Result (List Bytes)
unfolding put
add_pdrs s [] = (s, ok [])
add_pdrs s (p ∷ pdrs) =
    let s' = record s { pdrs = put p.pdr_id p s.pdrs } in
    then_add s' (Pdr.to_pfcp p) (add_pdrs s' pdrs)

unfoldable pub remove_pdrs : Session → List ℕ → Session
unfolding pop
remove_pdrs s [] = s
remove_pdrs s (pid ∷ pids) = remove_pdrs (record s { pdrs = pop (some pid) s.pdrs }) pids

unfoldable pub removal_ies : List ℕ → List Bytes
removal_ies [] = []
removal_ies (pid ∷ pids) = encode_ie Ie.remove_pdr (u16 pid) ∷ removal_ies pids

-- self.peers.get(s.up_fseid[1]), of which the address is used.
abbrev pub peer_ip : Option Peer → Option Ip
peer_ip none = none
peer_ip (some peer) = some peer.ip

unfoldable pub change_request : Cpf → ℕ → Session → List Bytes → Request
unfolding get normalise
change_request c mtype s ies = record {
  msg_type = mtype;
  seid = s.up_fseid.0;
  ies = normalise (map encoded ies);
  has_seid = true;
  peer = peer_ip (get s.up_fseid.1 c.peers);
}

abbrev pub after_modify : Session → Cpf × Result (Option Message) → Cpf × Result (Option Session)
after_modify s (c, err e) = (c, err e)
after_modify s (c, ok resp) = if is_accepted (cause_of resp) then (c, ok (some s)) else (c, ok none)

abbrev pub modify_with :
    Cpf → ℕ → List ℕ → List Arrival → Session × Result (List Bytes) → Cpf × Result (Option Session)
modify_with c seid pids arrivals (s, err e) =
    (record c { store = put (some seid) s c.store }, err e)
modify_with c seid pids arrivals (s, ok added) =
    let s' = remove_pdrs s pids in
    after_modify s' (
      request (record c { store = put (some seid) s' c.store })
        (change_request c Types.session_modification_request s'
          (ie_fseid seid c.ip ∷ (added ++ removal_ies pids)))
        arrivals)

abbrev pub modify_found :
    Cpf → ℕ → List Pdr → List ℕ → List Arrival → Option Session → Cpf × Result (Option Session)
modify_found c seid pdrs pids arrivals none = (c, ok none)
modify_found c seid pdrs pids arrivals (some s) = modify_with c seid pids arrivals (add_pdrs s pdrs)

-- The rules change here before the user plane is asked, and stay changed where it refuses.
unfoldable pub session_modify :
    Cpf → ℕ → List Pdr → List ℕ → List Arrival → Cpf × Result (Option Session)
unfolding find add_pdrs remove_pdrs removal_ies change_request request
session_modify c seid pdrs pids arrivals =
    modify_found c seid pdrs pids arrivals (find c.store (some seid))

abbrev pub after_delete : ℕ → Cpf × Result (Option Message) → Cpf × Result Bool
after_delete seid (c, err e) = (c, err e)
after_delete seid (c, ok resp) =
    (record c { store = (delete c.store (some seid)).1 }, ok (is_answered resp))

abbrev pub delete_found : Cpf → ℕ → List Arrival → Option Session → Cpf × Result Bool
delete_found c seid arrivals none = (c, ok false)
delete_found c seid arrivals (some s) = after_delete seid (
    request c (change_request c Types.session_deletion_request s (ie_fseid seid c.ip ∷ []))
      arrivals)

-- The session goes whatever the answer is, and where none comes.
unfoldable pub session_delete : Cpf → ℕ → List Arrival → Cpf × Result Bool
unfolding find delete change_request request
session_delete c seid arrivals = delete_found c seid arrivals (find c.store (some seid))
