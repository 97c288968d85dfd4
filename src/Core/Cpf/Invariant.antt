-- ===== src/Core/Cpf/Invariant.antt =====
-- The sessions of a CPF keep their keys, through every procedure and every datagram.
use v_epc_cups.Prelude.{
  ℕ, ◌≡◌, refl, Bool, true, false, Option, none, some, List, [], ◌∷◌, String, if◌then◌else◌,
}
use v_epc_cups.Prelude.Results.{Result, ok, err}
use v_epc_cups.Bytes.{Bytes, Ip}
use v_epc_cups.Pfcp.Types
use v_epc_cups.Pfcp.Types.Ie
use v_epc_cups.Pfcp.Message
use v_epc_cups.Pfcp.Message.{Message, from_bytes}
use v_epc_cups.Pfcp.Ies.{encode_ie, encode_grouped}
use v_epc_cups.Pfcp.Values.{decode_fseid, ie_node_id, ie_recovery_ts}
use v_epc_cups.Prelude.Classes.{option_eq}
use v_epc_cups.Prelude.Dict.{put, pop, values}
use v_epc_cups.Sxcups.Rules.Pdr.{Pdr}
use v_epc_cups.Sxcups.Rules.Pdr
use v_epc_cups.Sxcups.Session.{Session}
use v_epc_cups.Sxcups.Store.{Store, find, delete, new_seid}
use v_epc_cups.Sxcups.Store.Kept.{Kept, put-Kept, pop-Kept}
use v_epc_cups.Core.Cpf.State.{Peer, Cpf, add_peer, change_peer, next_seq}
use v_epc_cups.Core.Cpf.Dispatch.{handle}
use v_epc_cups.Core.Cpf.Requests.{Arrival, request}
use v_epc_cups.Core.Cpf.NodeProcedures.{
  is_accepted, node_request, after_setup, association_setup, after_release, association_release,
  after_pfd, pfd_management, heartbeats, heartbeat_loop,
}
use v_epc_cups.Core.Cpf.SessionProcedures.{
  offered, offering, accept, finish, after_establish, establish_with, establishment_ies,
  write_session, session_establish, rewritten,
}
use v_epc_cups.Core.Cpf.SessionChanges.{
  add_pdrs, then_add, remove_pdrs, after_modify, modify_with, modify_found, session_modify,
  after_delete, delete_found, session_delete, cause_of,
}
use v_epc_cups.Core.Cpf.Steps.{
  Step, configured, received, beat, set_up, released, provisioned, established, modified, deleted,
  Reaches, here, later,
}
use v_epc_cups.Core.Cpf.Keeps.{
  Owned, IsValid, Keeps, keeps, IsValid-Keeps, Keeps-trans, if_Keeps, without_peer-Kept,
  receive-Keeps, request-Keeps,
}

-- What follows a request keeps the sessions if the request did.
after_setup-Keeps :
    (c : Cpf) (peer : Ip) (now : ℕ) (out : Cpf × Result (Option Message))
    → Keeps c out.0
    → Keeps c (after_setup peer now out).0
unfolding change_peer
after_setup-Keeps c peer now (d, err e) k = k
after_setup-Keeps c peer now (d, ok none) k = k
after_setup-Keeps c peer now (d, ok (some resp)) k =
    if_Keeps (is_accepted (Message.get resp Ie.cause)) _ _ (keeps c _ k.ip k.sessions) k

after_release-Keeps :
    (c : Cpf) (peer : Ip) (out : Cpf × Result (Option Message))
    → Keeps c out.0
    → Keeps c (after_release peer out).0
unfolding change_peer
after_release-Keeps c peer (d, err e) k = k
after_release-Keeps c peer (d, ok resp) k =
    keeps c _ k.ip (without_peer-Kept peer d.store d.store k.sessions)

after_pfd-Keeps :
    (c : Cpf) (out : Cpf × Result (Option Message)) → Keeps c out.0 → Keeps c (after_pfd out).0
after_pfd-Keeps c (d, err e) k = k
after_pfd-Keeps c (d, ok resp) k = k

numbered-Keeps : (b : Bool) (c : Cpf) → IsValid c → Keeps c (if b then next_seq c else c)
unfolding next_seq
numbered-Keeps true c v = keeps c _ refl v
numbered-Keeps false c v = keeps c c refl v

heartbeats-Keeps : (peers : List Peer) (c : Cpf) → IsValid c → Keeps c (heartbeats c peers).0
unfolding heartbeats
heartbeats-Keeps [] c v = keeps c _ refl v
heartbeats-Keeps (peer ∷ peers) c v =
    Keeps-trans (numbered-Keeps peer.associated c v) (heartbeats-Keeps peers _)

offered-Owned :
    (c : Cpf) (seid : ℕ) (peer : Ip) (kind : String)
    → Owned c.ip (some seid) (offered c seid peer kind)
unfolding offered
offered-Owned c seid peer kind = (refl, refl)

rewritten-Kept :
    {P : Option ℕ → Session → Type 0} (key : Option ℕ) (s : Session) (old : Option Session)
    (store : Store)
    → P key s
    → Kept P store
    → Kept P (rewritten key s old store)
rewritten-Kept key s none store p k = k
rewritten-Kept key s (some old) store p k = put-Kept store key s k p

finish-Keeps :
    (c d : Cpf) (seid : ℕ) (s : Session) (peer : Ip) (resp : Message) (v : Option Bytes)
    → Owned c.ip (some seid) s
    → Keeps c d
    → Keeps c (finish d seid s peer resp v).0
unfolding accept write_session
finish-Keeps c d seid s peer resp none own k = k
finish-Keeps c d seid s peer resp (some v) own k =
    keeps c _ k.ip
      (rewritten-Kept (some seid) (accept s peer (decode_fseid v) resp) _ d.store own k.sessions)

after_establish-Keeps :
    (c : Cpf) (seid : ℕ) (s : Session) (peer : Ip) (out : Cpf × Result (Option Message))
    → Owned c.ip (some seid) s
    → Keeps c out.0
    → Keeps c (after_establish seid s peer out).0
unfolding delete
after_establish-Keeps c seid s peer (d, err e) own k = k
after_establish-Keeps c seid s peer (d, ok none) own k =
    keeps c _ k.ip (pop-Kept d.store (some seid) k.sessions)
after_establish-Keeps c seid s peer (d, ok (some resp)) own k =
    if_Keeps (is_accepted (Message.get resp Ie.cause)) _ _
      (finish-Keeps c d seid s peer resp (Message.get resp Ie.f_seid) own k)
      (keeps c _ k.ip (pop-Kept d.store (some seid) k.sessions))

establish_with-Keeps :
    (c : Cpf) (seid : ℕ) (peer : Ip) (kind : String) (arrivals : List Arrival)
    (ies : Result (List Bytes))
    → IsValid c
    → Keeps c (establish_with c seid peer kind arrivals ies).0
unfolding offering
establish_with-Keeps c seid peer kind arrivals (err e) v =
    keeps c _ refl (put-Kept c.store (some seid) _ v (offered-Owned c seid peer kind))
establish_with-Keeps c seid peer kind arrivals (ok ies) v =
    let k = put-Kept c.store (some seid) _ v (offered-Owned c seid peer kind) in
    let r = request-Keeps (offering c peer kind seid) _ arrivals k in
    after_establish-Keeps c seid (offered c seid peer kind) peer _ (offered-Owned c seid peer kind)
      (keeps c _ r.ip r.sessions)

then_add-Owned :
    (ip : Ip) (key : Option ℕ) (s : Session) (ie : Result Bytes)
    (rest : Session × Result (List Bytes))
    → Owned ip key s
    → Owned ip key rest.0
    → Owned ip key (then_add s ie rest).0
then_add-Owned ip key s (err e) rest own own' = own
then_add-Owned ip key s (ok ie) (r, err e) own own' = own'
then_add-Owned ip key s (ok ie) (r, ok ies) own own' = own'

add_pdrs-Owned :
    (ip : Ip) (key : Option ℕ) (pdrs : List Pdr) (s : Session)
    → Owned ip key s
    → Owned ip key (add_pdrs s pdrs).0
unfolding add_pdrs
add_pdrs-Owned ip key [] s own = own
add_pdrs-Owned ip key (p ∷ pdrs) s own =
    let s' = record s { pdrs = put p.pdr_id p s.pdrs } in
    then_add-Owned ip key s' (Pdr.to_pfcp p) (add_pdrs s' pdrs) own
      (add_pdrs-Owned ip key pdrs s' own)

remove_pdrs-Owned :
    (ip : Ip) (key : Option ℕ) (pids : List ℕ) (s : Session)
    → Owned ip key s
    → Owned ip key (remove_pdrs s pids)
unfolding remove_pdrs
remove_pdrs-Owned ip key [] s own = own
remove_pdrs-Owned ip key (pid ∷ pids) s own =
    remove_pdrs-Owned ip key pids (record s { pdrs = pop (some pid) s.pdrs }) own

after_modify-Keeps :
    (c : Cpf) (s : Session) (out : Cpf × Result (Option Message))
    → Keeps c out.0
    → Keeps c (after_modify s out).0
after_modify-Keeps c s (d, err e) k = k
after_modify-Keeps c s (d, ok resp) k = if_Keeps (is_accepted (cause_of resp)) _ _ k k

modify_with-Keeps :
    (c : Cpf) (seid : ℕ) (pids : List ℕ) (arrivals : List Arrival)
    (out : Session × Result (List Bytes))
    → IsValid c
    → Owned c.ip (some seid) out.0
    → Keeps c (modify_with c seid pids arrivals out).0
modify_with-Keeps c seid pids arrivals (s, err e) v own =
    keeps c _ refl (put-Kept c.store (some seid) s v own)
modify_with-Keeps c seid pids arrivals (s, ok added) v own =
    let s' = remove_pdrs s pids in
    let k = put-Kept c.store (some seid) s' v (remove_pdrs-Owned c.ip (some seid) pids s own) in
    let r = request-Keeps (record c { store = put (some seid) s' c.store }) _ arrivals k in
    after_modify-Keeps c s' _ (keeps c _ r.ip r.sessions)

modify_found-Keeps :
    (c : Cpf) (seid : ℕ) (pdrs : List Pdr) (pids : List ℕ) (arrivals : List Arrival)
    (found : Option Session)
    → find c.store (some seid) ≡ found
    → IsValid c
    → Keeps c (modify_found c seid pdrs pids arrivals found).0
modify_found-Keeps c seid pdrs pids arrivals none e v = keeps c _ refl v
modify_found-Keeps c seid pdrs pids arrivals (some s) e v =
    modify_with-Keeps c seid pids arrivals (add_pdrs s pdrs) v
      (add_pdrs-Owned c.ip (some seid) pdrs s (v.at_key (some seid) s e))

after_delete-Keeps :
    (c : Cpf) (seid : ℕ) (out : Cpf × Result (Option Message))
    → Keeps c out.0
    → Keeps c (after_delete seid out).0
unfolding delete
after_delete-Keeps c seid (d, err e) k = k
after_delete-Keeps c seid (d, ok resp) k = keeps c _ k.ip (pop-Kept d.store (some seid) k.sessions)

delete_found-Keeps :
    (c : Cpf) (seid : ℕ) (arrivals : List Arrival) (found : Option Session)
    → IsValid c
    → Keeps c (delete_found c seid arrivals found).0
delete_found-Keeps c seid arrivals none v = keeps c _ refl v
delete_found-Keeps c seid arrivals (some s) v =
    after_delete-Keeps c seid _ (request-Keeps c _ arrivals v)

Step-Keeps : {c d : Cpf} → Step c d → IsValid c → Keeps c d
unfolding add_peer handle heartbeat_loop association_setup association_release pfd_management
    session_establish session_modify session_delete
Step-Keeps {c = c} (configured ip) v = keeps c _ refl v
Step-Keeps {c = c} (received now from bytes) v = receive-Keeps c now from (from_bytes bytes) v
Step-Keeps {c = c} beat v = heartbeats-Keeps (values c.peers) c v
Step-Keeps {c = c} (set_up peer arrivals now) v =
    let ies = ie_node_id c.ip ∷ ie_recovery_ts c.recovery_ts ∷ [] in
    let r = node_request Types.association_setup_request ies peer in
    after_setup-Keeps c peer now (request c r arrivals) (request-Keeps c r arrivals v)
Step-Keeps {c = c} (released peer arrivals) v =
    let r = node_request Types.association_release_request (ie_node_id c.ip ∷ []) peer in
    after_release-Keeps c peer (request c r arrivals) (request-Keeps c r arrivals v)
Step-Keeps {c = c} (provisioned peer app_id arrivals) v =
    let context = encode_grouped Ie.pfd_context (encode_ie Ie.application_id app_id ∷ []) in
    let r = node_request Types.pfd_management_request (context ∷ []) peer in
    after_pfd-Keeps c (request c r arrivals) (request-Keeps c r arrivals v)
Step-Keeps {c = c} (established peer kind ue_ip arrivals) v =
    let seid = (new_seid c.base_seid c.session_seq).0 in
    establish_with-Keeps c seid peer kind arrivals (establishment_ies c seid ue_ip) v
Step-Keeps {c = c} (modified seid pdrs pids arrivals) v =
    modify_found-Keeps c seid pdrs pids arrivals _ refl v
Step-Keeps {c = c} (deleted seid arrivals) v = delete_found-Keeps c seid arrivals _ v

-- Whatever happens to a CPF, in whatever order, and whatever datagrams arrive meanwhile: it keeps its
-- address, and where each session stands under its own SEID with an F-SEID of that address, it does
-- so afterwards.
pub Reaches-IsValid : {c d : Cpf} → Reaches c d → IsValid c → (d.ip ≡ c.ip) × IsValid d
Reaches-IsValid here v = (refl, v)
Reaches-IsValid (later s r) v =
    let k = Step-Keeps s v in let (e, w) = Reaches-IsValid r (IsValid-Keeps k) in (rw e k.ip, w)
