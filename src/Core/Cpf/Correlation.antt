-- ===== src/Core/Cpf/Correlation.antt =====
-- Which response a request of a CPF gets, and that a session that is not accepted goes again.
use v_epc_cups.Prelude.{
  ℕ, ◌≡◌, refl, false, ◌&&◌, Option, none, some, List, [], ◌∷◌, String, nat_beq, nat_beq_iff,
  if◌then◌else◌, arith,
}
use v_epc_cups.Prelude.Results.{Result, ok, err}
use v_epc_cups.Prelude.Classes.{nat_eq, option_eq}
use v_epc_cups.Prelude.Dict.{Dict, get, get-put, get-put_self, get-pop}
use v_epc_cups.Bytes.{Bytes, Ip}
use v_epc_cups.Pfcp.Message.{Message, from_bytes, to_bytes}
use v_epc_cups.Sxcups.Session.{Session}
use v_epc_cups.Sxcups.Store.{find, delete, new_seid}
use v_epc_cups.Core.Cpf.State.{Peer, Cpf, next_seq, change_peer}
use v_epc_cups.Core.Cpf.Dispatch.{
  is_response, filled, on_response, on_association_update, dispatch, receive, handle,
}
use v_epc_cups.Core.Cpf.Requests.{Request, Arrival, Send, arrive, waiting, wait, outgoing, request}
use v_epc_cups.Core.Cpf.NodeProcedures.{is_accepted}
use v_epc_cups.Core.Cpf.SessionProcedures.{
  offered, offering, establishment_ies, establishment_request, after_establish, session_establish,
}
use v_epc_cups.Core.Cpf.SessionChanges.{cause_of}

-- The message that a datagram leaves as the response to `seq`, after `known`.
abbrev pub response_to : ℕ → Option Message → Result Message → Option Message
response_to seq known (err e) = known
response_to seq known (ok msg) =
    if is_response msg.msg_type && nat_beq msg.seq seq then some msg else known

-- The last of the datagrams that is a response with this sequence number.
unfoldable pub last_response : ℕ → Option Message → List Arrival → Option Message
last_response seq known [] = known
last_response seq known (a ∷ arrivals) =
    last_response seq (response_to seq known (from_bytes a.bytes)) arrivals

get-filled :
    (seq : ℕ) (msg : Message) (slot : Option (Option Message)) (known : Option Message)
    (pending : Dict ℕ (Option Message))
    → get msg.seq pending ≡ slot
    → get seq pending ≡ some known
    → get seq (filled msg slot pending) ≡ some (if nat_beq msg.seq seq then some msg else known)
get-filled seq msg none known pending e k = ground (arith, nat_beq_iff msg.seq seq)
get-filled seq msg (some slot) known pending e k =
    ground (arith, get-put msg.seq seq (some msg) pending)

update-pending : (c : Cpf) (peer : Option Peer) → (on_association_update c peer).pending ≡ c.pending
unfolding on_association_update
update-pending c none = refl
update-pending c (some peer) = refl

dispatch-pending :
    (c : Cpf) (msg : Message) (from : Ip) (seq : ℕ) (known : Option Message)
    → get seq c.pending ≡ some known
    → get seq (dispatch c msg from).0.pending ≡ some (response_to seq known (ok msg))
unfolding dispatch on_response
dispatch-pending c msg from seq known k = ground (
  arith,
  get-filled seq msg (get msg.seq c.pending) known c.pending refl k,
  update-pending c (get from c.peers),
)

receive-pending :
    (c : Cpf) (now : ℕ) (from : Ip) (m : Result Message) (seq : ℕ) (known : Option Message)
    → get seq c.pending ≡ some known
    → get seq (receive c now from m).0.pending ≡ some (response_to seq known m)
unfolding change_peer
receive-pending c now from (err e) seq known k = k
receive-pending c now from (ok msg) seq known k =
    dispatch-pending (change_peer (λ (p : Peer). record p { last_seen = now }) from c) msg from seq
      known k

arrive-pending :
    (arrivals : List Arrival) (c : Cpf) (seq : ℕ) (known : Option Message)
    → get seq c.pending ≡ some known
    → get seq (arrive c arrivals).pending ≡ some (last_response seq known arrivals)
unfolding arrive handle last_response
arrive-pending [] c seq known k = k
arrive-pending (a ∷ arrivals) c seq known k =
    arrive-pending arrivals _ seq _
      (receive-pending c a.now a.from (from_bytes a.bytes) seq known k)

wait-last_response :
    (c : Cpf) (seq : ℕ) (arrivals : List Arrival) (s : Send)
    → get seq c.pending ≡ some none
    → ((wait c seq arrivals (ok s)).1 ≡ ok (last_response seq none arrivals))
      × (get seq (wait c seq arrivals (ok s)).0.pending ≡ none)
wait-last_response c seq arrivals s k =
    let e = arrive-pending arrivals c seq none k in
    (rw e refl, ground (arith, get-pop seq seq (arrive c arrivals).pending, nat_beq_iff seq seq))

-- The datagram of a request to a peer, with a SEID.
abbrev datagram : Request → ℕ → ℕ → Ip → Send
datagram r seq seid peer = record {
  payload = to_bytes (record {
    msg_type = r.msg_type;
    seid = seid;
    seq = seq;
    ies = r.ies;
    has_seid = r.has_seid;
  });
  ip = peer;
  port = 8805;
}

outgoing-datagram :
    (r : Request) (seq seid : ℕ) (peer : Ip)
    → r.seid ≡ some seid
    → r.peer ≡ some peer
    → outgoing r seq ≡ ok (datagram r seq seid peer)
unfolding outgoing
outgoing-datagram r seq seid peer es ep = rw (es, ep) refl

-- A request to a peer, with a SEID, is given the last of the datagrams that arrive in time and are
-- responses with its sequence number, or none if there is no such datagram, whatever else arrives,
-- and from whatever address. It leaves no slot behind.
pub request-last_response :
    (c : Cpf) (r : Request) (arrivals : List Arrival) (seid : ℕ) (peer : Ip)
    → r.seid ≡ some seid
    → r.peer ≡ some peer
    → ((request c r arrivals).1 ≡ ok (last_response (next_seq c).seq none arrivals))
      × (get (next_seq c).seq (request c r arrivals).0.pending ≡ none)
unfolding request waiting
request-last_response c r arrivals seid peer es ep =
    let n = (next_seq c).seq in
    rw (outgoing-datagram r n seid peer es ep) (
      wait-last_response (waiting c) n arrivals (datagram r n seid peer)
        (get-put_self n none (next_seq c).pending))

establishment_ies-ok :
    (c : Cpf) (seid : ℕ) (ue_ip : Ip)
    → (ies : List Bytes) × (establishment_ies c seid ue_ip ≡ ok ies)
unfolding establishment_ies v_epc_cups.Sxcups.Rules.Pdr.to_pfcp v_epc_cups.Sxcups.Rules.Far.to_pfcp
    v_epc_cups.Sxcups.Rules.Qer.to_pfcp v_epc_cups.Sxcups.Rules.Urr.to_pfcp
establishment_ies-ok c seid ue_ip = (_, refl)

-- What follows a response that is missing or does not accept.
after_establish-refused :
    (seid : ℕ) (s : Session) (peer : Ip) (out : Cpf × Result (Option Message))
    (resp : Option Message)
    → out.1 ≡ ok resp
    → is_accepted (cause_of resp) ≡ false
    → ((after_establish seid s peer out).1 ≡ ok none)
      × (find (after_establish seid s peer out).0.store (some seid) ≡ none)
unfolding find delete
after_establish-refused seid s peer (c, o) none answer e =
    let gone = get-pop (some seid) (some seid) c.store in
    rw answer (refl, ground (arith, gone, nat_beq_iff seid seid))
after_establish-refused seid s peer (c, o) (some resp) answer e =
    let gone = get-pop (some seid) (some seid) c.store in
    rw (answer, e) (refl, ground (arith, gone, nat_beq_iff seid seid))

-- An establishment that gets no response in time, or one without the cause "request accepted", returns
-- None and leaves no session under its SEID.
pub session_establish-refused :
    (c : Cpf) (peer : Ip) (kind : String) (ue_ip : Ip) (arrivals : List Arrival)
    → is_accepted (cause_of (last_response (next_seq c).seq none arrivals)) ≡ false
    → ((session_establish c peer kind ue_ip arrivals).1 ≡ ok none)
      × (find
            (session_establish c peer kind ue_ip arrivals).0.store
            (some (new_seid c.base_seid c.session_seq).0)
          ≡ none)
unfolding session_establish
session_establish-refused c peer kind ue_ip arrivals refused =
    let seid = (new_seid c.base_seid c.session_seq).0 in
    let (ies, e) = establishment_ies-ok c seid ue_ip in
    let r = establishment_request ies peer in
    let answer =
      (request-last_response (offering c peer kind seid) r arrivals 0 peer
        (unfold establishment_request in refl) (unfold establishment_request in refl)).0 in
    rw e (
      after_establish-refused seid (offered c seid peer kind) peer
        (request (offering c peer kind seid) r arrivals) _ answer refused)
