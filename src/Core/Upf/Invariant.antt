-- ===== src/Core/Upf/Invariant.antt =====
-- The sessions of a UPF keep their keys, whatever datagrams arrive.
use v_epc_cups.Prelude.{
  ℕ, ◌≡◌, refl, Bool, true, false, Option, none, some, List, [], ◌∷◌, nat_beq, if◌then◌else◌,
}
use v_epc_cups.Prelude.Results.{Result, ok, err}
use v_epc_cups.Prelude.Classes.{option_eq}
use v_epc_cups.Bytes.{Bytes, Ip}
use v_epc_cups.Pfcp.Types.{named}
use v_epc_cups.Pfcp.Types
use v_epc_cups.Pfcp.Types.Ie
use v_epc_cups.Pfcp.Message
use v_epc_cups.Pfcp.Message.{Message, from_bytes}
use v_epc_cups.Pfcp.Values.{decode_fseid}
use v_epc_cups.Sxcups.Session.{Session}
use v_epc_cups.Sxcups.Store.{Store, find, delete}
use v_epc_cups.Sxcups.Store.Laws.{delete_each-keys}
use v_epc_cups.Sxcups.Store.Kept.{Kept, put-Kept, pop-Kept, empty-Kept}
use v_epc_cups.Core.Upf.State.{Peer, Upf, Outcome, set_peer, seen_peer}
use v_epc_cups.Core.Upf.NodeProcedures.{
  on_association_setup, on_association_release, on_pfd_management,
}
use v_epc_cups.Core.Upf.SessionProcedures.{
  establish_from, established, on_session_establish, modify_step, modify_all, modify, modify_target,
  target_or, found_under, by_fseid, on_session_modify, on_session_delete, seid_part,
}
use v_epc_cups.Core.Upf.Dispatch.{dispatch, receive, handle}

-- A session under `key` has that SEID, and the F-SEID of the UPF's own address.
abbrev pub Owned : Ip → Option ℕ → Session → Type 0
Owned ip key s = (s.seid ≡ key) × (s.up_fseid ≡ (key, ip))

abbrev pub IsValid : Ip → Store → Type 0
IsValid ip store = Kept (Owned ip) store

pub empty-IsValid : (ip : Ip) → IsValid ip []
empty-IsValid ip = empty-Kept

if_Owned :
    (ip : Ip) (key : Option ℕ) (b : Bool) (s r : Session)
    → Owned ip key s
    → Owned ip key r
    → Owned ip key (if b then s else r)
if_Owned ip key true s r p q = p
if_Owned ip key false s r p q = q

modify_step-Owned :
    (ip : Ip) (key : Option ℕ) (s : Session) (t : ℕ) (v : Bytes)
    → Owned ip key s
    → Owned ip key (modify_step s t v)
unfolding modify_step
modify_step-Owned ip key s t v own = if_Owned ip key (named t "Create PDR") _ _ own (
    if_Owned ip key (named t "Create FAR") _ _ own (
      if_Owned ip key (named t "Remove PDR") _ _ own
        (if_Owned ip key (named t "Remove FAR") _ _ own own)))

modify_all-Owned :
    (ip : Ip) (key : Option ℕ) (s : Session) (ies : List (ℕ × Bytes))
    → Owned ip key s
    → Owned ip key (modify_all s ies)
unfolding modify_all
modify_all-Owned ip key s [] own = own
modify_all-Owned ip key s ((t, v) ∷ ies) own =
    modify_all-Owned ip key (modify_step s t v) ies (modify_step-Owned ip key s t v own)

-- What a handler leaves: the same address, and sessions under their keys.
pub record Keeps (u : Upf) (out : Outcome) : Type 0 where
  pub ip : out.0.ip ≡ u.ip
  pub sessions : IsValid u.ip out.0.store

keeps : (u : Upf) (out : Outcome) → out.0.ip ≡ u.ip → IsValid u.ip out.0.store → Keeps u out
keeps u out e v = record { ip = e; sessions = v }

establish_from-Keeps :
    (u : Upf) (msg : Message) (from : Ip) (v : Option Bytes)
    → IsValid u.ip u.store
    → Keeps u (establish_from u msg from v)
establish_from-Keeps u msg from none valid = keeps u _ refl valid
establish_from-Keeps u msg from (some v) valid =
    let fseid = decode_fseid v in
    keeps u _ refl (
      put-Kept u.store (seid_part fseid) (established u msg from fseid) valid
        (unfold established in (refl, refl)))

-- The target of a modification stands in the store under its key.
abbrev Targets : Store → Result (Option (Option ℕ × Session)) → Type 0
Targets store (ok (some (key, s))) = find store key ≡ some s
Targets store _ = Unit

found_under-Targets :
    (store : Store) (key : Option ℕ) (found : Option Session)
    → find store key ≡ found
    → Targets store (ok (found_under key found))
found_under-Targets store key none e = tt
found_under-Targets store key (some s) e = e

by_fseid-Targets : (u : Upf) (v : Option Bytes) → Targets u.store (by_fseid u v)
by_fseid-Targets u none = tt
by_fseid-Targets u (some v) = found_under-Targets u.store (seid_part (decode_fseid v)) _ refl

target_or-Targets :
    (u : Upf) (msg : Message) (found : Option Session)
    → find u.store (some msg.seid) ≡ found
    → Targets u.store (target_or u msg found)
target_or-Targets u msg none e = by_fseid-Targets u (Message.get msg Ie.f_seid)
target_or-Targets u msg (some s) e = e

modify-Keeps :
    (u : Upf) (msg : Message) (target : Result (Option (Option ℕ × Session)))
    → Targets u.store target
    → IsValid u.ip u.store
    → Keeps u (modify u msg target)
modify-Keeps u msg (err e) found valid = keeps u _ refl valid
modify-Keeps u msg (ok none) found valid = keeps u _ refl valid
modify-Keeps u msg (ok (some (key, s))) found valid =
    keeps u _ refl (
      put-Kept u.store key _ valid (modify_all-Owned u.ip key s msg.ies (valid.at_key key s found)))

if_Keeps :
    (u : Upf) (b : Bool) (p q : Outcome) → Keeps u p → Keeps u q → Keeps u (if b then p else q)
if_Keeps u true p q h k = h
if_Keeps u false p q h k = k

module _ (u : Upf) (msg : Message) (from : Ip) (peer : Peer) (valid : IsValid u.ip u.store) where
  on_association_release-Keeps : Keeps u (on_association_release u msg from peer)
  unfolding on_association_release set_peer
  on_association_release-Keeps = keeps u _ refl (rw (delete_each-keys u.store) (empty-IsValid u.ip))

  on_session_modify-Keeps : Keeps u (on_session_modify u msg)
  unfolding on_session_modify modify_target
  on_session_modify-Keeps = modify-Keeps u msg _ (target_or-Targets u msg _ refl) valid

  dispatch-Keeps : Keeps u (dispatch u msg from peer)
  unfolding dispatch on_association_setup on_session_establish on_session_delete on_pfd_management
      set_peer delete
  dispatch-Keeps =
      let t = msg.msg_type in
      if_Keeps u (nat_beq t Types.heartbeat_request) _ _ (keeps u _ refl valid) (
        if_Keeps u (nat_beq t Types.association_setup_request) _ _ (keeps u _ refl valid) (
          if_Keeps u (nat_beq t Types.association_update_request) _ _ (keeps u _ refl valid) (
            if_Keeps u (nat_beq t Types.association_release_request) _ _
              on_association_release-Keeps
              (if_Keeps u (nat_beq t Types.session_establishment_request) _ _
                (establish_from-Keeps u msg from _ valid)
                (if_Keeps u (nat_beq t Types.session_modification_request) _ _
                  on_session_modify-Keeps
                  (if_Keeps u (nat_beq t Types.session_deletion_request) _ _
                    (keeps u _ refl (pop-Kept u.store _ valid))
                    (if_Keeps u (nat_beq t Types.pfd_management_request) _ _ (keeps u _ refl valid)
                      (keeps u _ refl valid))))))))

receive-Keeps :
    (u : Upf) (now : ℕ) (from : Ip) (m : Result Message)
    → IsValid u.ip u.store
    → Keeps u (receive u now from m)
unfolding set_peer
receive-Keeps u now from (err e) valid = keeps u _ refl valid
receive-Keeps u now from (ok msg) valid =
    let peer = seen_peer u now from in
    let k = dispatch-Keeps (set_peer u from peer) msg from peer valid in keeps u _ k.ip k.sessions

-- Where each session stands under its own SEID with an F-SEID of the UPF's address, it does so after
-- whatever datagram, well formed or not, from whatever address; and the UPF keeps its address.
pub handle-IsValid :
    (u : Upf) (now : ℕ) (from : Ip) (bytes : Bytes)
    → IsValid u.ip u.store
    → ((handle u now from bytes).0.ip ≡ u.ip) × IsValid u.ip (handle u now from bytes).0.store
unfolding handle
handle-IsValid u now from bytes valid =
    let k = receive-Keeps u now from (from_bytes bytes) valid in (k.ip, k.sessions)
