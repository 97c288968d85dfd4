-- ===== src/Core/Upf/TeidAllocation.antt =====
-- Which TEIDs an establishment gives to the uplink PDRs.
use v_epc_cups.Prelude.{
  ℕ, ◌+◌, ◌%◌, ◌^◌, ◌≡◌, refl, inl, inr, Bool-cases, Option, none, some, List, [], ◌∷◌,
  if◌then◌else◌, All,
}
use v_epc_cups.Prelude.Results.{ok}
use v_epc_cups.Bytes.{Bytes, Ip}
use v_epc_cups.Sxcups.Rules.Pdr.{Pdr}
use v_epc_cups.Sxcups.Session.{faces}
use v_epc_cups.Prelude.Classes.{option_eq}
use v_epc_cups.Prelude.Dict.{get-put_self}
use v_epc_cups.Pfcp.Types
use v_epc_cups.Pfcp.Types.Ie
use v_epc_cups.Pfcp.Values.{ie_cause, ie_node_id, ie_fseid, decode_fseid}
use v_epc_cups.Pfcp.Message
use v_epc_cups.Pfcp.Message.{Message}
use v_epc_cups.Sxcups.Rules.Pdr
use v_epc_cups.Sxcups.Session.{Session, put_all}
use v_epc_cups.Sxcups.Store.{find}
use v_epc_cups.Core.Upf.SessionProcedures.{established, establish_allocation, on_session_establish}
use v_epc_cups.Core.Upf.State.{Upf, alloc_fteid, reply}
use v_epc_cups.Core.Upf.Rules.{rules_named, created_pdr, allocate}

-- A PDR that a Create PDR numbered.
abbrev pub Numbered : Pdr → Type 0
Numbered pdr = (i : ℕ) × (pdr.pdr_id ≡ some i)

-- The PDRs with TEIDs: those from the access side have consecutive ones from `next` on.
abbrev pub with_teids : Ip → ℕ → List Pdr → List Pdr
with_teids ip next [] = []
with_teids ip next (pdr ∷ pdrs) =
    (if faces "Access" pdr then record pdr { fteid = some (some (next, ip)) } else pdr)
    ∷ with_teids ip (if faces "Access" pdr then (next + 1) % 2 ^ 32 else next) pdrs

-- The Created PDRs, one for each of those.
abbrev id_of : Option ℕ → ℕ
id_of none = 0
id_of (some i) = i

abbrev pub announced : Ip → ℕ → List Pdr → List Bytes
announced ip next [] = []
announced ip next (pdr ∷ pdrs) =
    if faces "Access" pdr
    then created_pdr (id_of pdr.pdr_id) next ip ∷ announced ip ((next + 1) % 2 ^ 32) pdrs
    else announced ip next pdrs

-- Where every PDR has an id, each one from the access side gets a TEID of the UPF's address, one after
-- the other, each of them is announced under its PDR's id in the same order, and no other PDR changes.
pub allocate-with_teids :
    (ip : Ip) (pdrs : List Pdr) (next : ℕ)
    → All Numbered pdrs
    → ((allocate ip next pdrs).pdrs ≡ with_teids ip next pdrs)
      × ((allocate ip next pdrs).created ≡ ok (announced ip next pdrs))
unfolding allocate alloc_fteid
allocate-with_teids ip [] next h = (refl, refl)
allocate-with_teids ip (pdr ∷ pdrs) next h = elim (Bool-cases (faces "Access" pdr)) [
  | inl e ↦
      let (first, created) = allocate-with_teids ip pdrs ((next + 1) % 2 ^ 32) h.1 in
      rw (e, h.0.1) (rw first refl, rw created refl)
  | inr e ↦
      let (first, created) = allocate-with_teids ip pdrs next h.1 in
      rw e (rw first refl, rw created refl)
]

-- The PDRs of an establishment request.
abbrev pub requested : Message → List Pdr
requested msg = rules_named "Create PDR" Pdr.from_pfcp msg.ies

-- An establishment request whose F-SEID can be read, and whose PDRs have ids, is accepted with the
-- UPF's F-SEID and the TEIDs of its uplink PDRs; and the store has, under the SEID, a session with
-- the PDRs of the request and these TEIDs.
pub on_session_establish-accepts :
    (u : Upf) (msg : Message) (from : Ip) (v : Bytes) (seid : ℕ) (cp_ip : Ip)
    → Message.get msg Ie.f_seid ≡ some v
    → decode_fseid v ≡ some (seid, cp_ip)
    → All Numbered (requested msg)
    → ((on_session_establish u msg from).1
        ≡ ok (
            some (
              reply Types.session_establishment_response msg (
                ie_node_id u.ip
                ∷ ie_cause Types.cause_request_accepted
                ∷ ie_fseid seid u.ip
                ∷ announced u.ip u.next_teid (requested msg)))))
      × (s : Session) × (find (on_session_establish u msg from).0.store (some seid) ≡ some s)
      × (s.cp_fseid ≡ (some seid, cp_ip))
      × (s.pdrs ≡ put_all (λ (p : Pdr). p.pdr_id) (with_teids u.ip u.next_teid (requested msg)) [])
unfolding on_session_establish
on_session_establish-accepts u msg from v seid cp_ip asked read ids =
    let (pdrs, created) = allocate-with_teids u.ip (requested msg) u.next_teid ids in
    let s = established u msg from (some (seid, cp_ip)) in
    rw (asked, read)
      (
        unfold establish_allocation in rw created refl,
        s,
        unfold find in get-put_self (some seid) s u.store,
        unfold established in refl,
        unfold established establish_allocation in rw pdrs refl,
      )
