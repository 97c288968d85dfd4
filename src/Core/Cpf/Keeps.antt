-- ===== src/Core/Cpf/Keeps.antt =====
-- The sessions of a CPF keep their keys through a datagram, and through a request and its wait.
use v_epc_cups.Prelude.{
  ℕ, ◌≡◌, refl, Bool, true, false, Option, none, some, List, [], ◌∷◌, nat_beq, if◌then◌else◌,
}
use v_epc_cups.Prelude.Results.{Result, ok, err}
use v_epc_cups.Bytes.{Ip}
use v_epc_cups.Pfcp.Types
use v_epc_cups.Pfcp.Message.{Message, from_bytes}
use v_epc_cups.Prelude.Classes.{option_eq}
use v_epc_cups.Sxcups.Session.{Session}
use v_epc_cups.Sxcups.Store.{Store, delete}
use v_epc_cups.Sxcups.Store.Kept.{Kept, pop-Kept}
use v_epc_cups.Core.Cpf.State.{Peer, Cpf, without_peer, change_peer, next_seq}
use v_epc_cups.Core.Cpf.Dispatch.{
  dispatch, receive, handle, is_response, on_response, on_association_update,
}
use v_epc_cups.Core.Cpf.Requests.{Request, Arrival, Send, arrive, request, wait, waiting, outgoing}

-- A session under `key` has that SEID, and the F-SEID of the CPF's own address.
abbrev pub Owned : Ip → Option ℕ → Session → Type 0
Owned ip key s = (s.seid ≡ key) × (s.cp_fseid ≡ (key, ip))

abbrev pub IsValid : Cpf → Type 0
IsValid c = Kept (Owned c.ip) c.store

-- What an operation leaves: the same address, and sessions under their keys.
pub record Keeps (c d : Cpf) : Type 0 where
  pub ip : d.ip ≡ c.ip
  pub sessions : Kept (Owned c.ip) d.store

pub keeps : (c d : Cpf) → d.ip ≡ c.ip → Kept (Owned c.ip) d.store → Keeps c d
keeps c d e k = record { ip = e; sessions = k }

pub IsValid-Keeps : {c d : Cpf} → Keeps c d → IsValid d
IsValid-Keeps k = rw k.ip k.sessions

pub Keeps-trans : {c d e : Cpf} → Keeps c d → (IsValid d → Keeps d e) → Keeps c e
Keeps-trans {c = c} {d = d} {e = e} k f =
    let h = f (IsValid-Keeps k) in keeps c e (rw h.ip k.ip) (rw k.ip at h.sessions)

pub if_Keeps :
    {R : Type 0} {c : Cpf} (b : Bool) (p q : Cpf × R)
    → Keeps c p.0
    → Keeps c q.0
    → Keeps c (if b then p else q).0
if_Keeps true p q h k = h
if_Keeps false p q h k = k

pub if_Kept :
    {P : Option ℕ → Session → Type 0} (b : Bool) {one other : Store}
    → Kept P one
    → Kept P other
    → Kept P (if b then one else other)
if_Kept true h k = h
if_Kept false h k = k

pub without_peer-Kept :
    {P : Option ℕ → Session → Type 0} (ip : Ip) (entries : List (Option ℕ × Session))
    (store : Store)
    → Kept P store
    → Kept P (without_peer ip entries store)
unfolding without_peer delete
without_peer-Kept ip [] store k = k
without_peer-Kept ip ((seid, s) ∷ entries) store k =
    without_peer-Kept ip entries _ (if_Kept (nat_beq s.up_fseid.1 ip) (pop-Kept store seid k) k)

pub on_association_update-Keeps :
    (c : Cpf) (peer : Option Peer) → IsValid c → Keeps c (on_association_update c peer)
unfolding on_association_update
on_association_update-Keeps c none v = keeps c _ refl v
on_association_update-Keeps c (some peer) v =
    keeps c _ refl (without_peer-Kept peer.ip c.store c.store v)

pub dispatch-Keeps :
    (c : Cpf) (msg : Message) (from : Ip) → IsValid c → Keeps c (dispatch c msg from).0
unfolding dispatch on_response
dispatch-Keeps c msg from v =
    let t = msg.msg_type in
    if_Keeps (is_response t) _ _ (keeps c _ refl v) (
      if_Keeps (nat_beq t Types.heartbeat_request) _ _ (keeps c _ refl v) (
        if_Keeps (nat_beq t Types.session_report_request) _ _ (keeps c _ refl v) (
          if_Keeps (nat_beq t Types.association_update_request) _ _
            (on_association_update-Keeps c _ v) (keeps c _ refl v))))

pub receive-Keeps :
    (c : Cpf) (now : ℕ) (from : Ip) (m : Result Message)
    → IsValid c
    → Keeps c (receive c now from m).0
unfolding change_peer
receive-Keeps c now from (err e) v = keeps c _ refl v
receive-Keeps c now from (ok msg) v =
    let k = dispatch-Keeps _ msg from v in keeps c _ k.ip k.sessions

pub arrive-Keeps : (arrivals : List Arrival) (c : Cpf) → IsValid c → Keeps c (arrive c arrivals)
unfolding arrive handle
arrive-Keeps [] c v = keeps c _ refl v
arrive-Keeps (a ∷ arrivals) c v =
    Keeps-trans (receive-Keeps c a.now a.from (from_bytes a.bytes) v) (arrive-Keeps arrivals _)

pub wait-Keeps :
    (c : Cpf) (seq : ℕ) (arrivals : List Arrival) (sent : Result Send)
    → IsValid c
    → Keeps c (wait c seq arrivals sent).0
wait-Keeps c seq arrivals (err e) v = keeps c _ refl v
wait-Keeps c seq arrivals (ok s) v = let k = arrive-Keeps arrivals c v in keeps c _ k.ip k.sessions

pub request-Keeps :
    (c : Cpf) (r : Request) (arrivals : List Arrival) → IsValid c → Keeps c (request c r arrivals).0
unfolding request waiting next_seq
request-Keeps c r arrivals v =
    let k = wait-Keeps (waiting c) (waiting c).seq arrivals (outgoing r (waiting c).seq) v in
    keeps c _ k.ip k.sessions
