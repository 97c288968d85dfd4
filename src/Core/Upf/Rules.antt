-- ===== src/Core/Upf/Rules.antt =====
-- How core/upf.py collects the rules of a request, and allocates the TEIDs of its uplink PDRs.
use v_epc_cups.Prelude.{ℕ, String, Option, none, some, List, [], ◌∷◌, if◌then◌else◌}
use v_epc_cups.Prelude.Results.{Result, ok, err, type_error}
use v_epc_cups.Bytes.{Bytes, Ip}
use v_epc_cups.Pfcp.Types.{named}
use v_epc_cups.Pfcp.Types.Ie
use v_epc_cups.Pfcp.Ies.{encode_grouped}
use v_epc_cups.Pfcp.Values.{ie_pdr_id, ie_ft_eid}
use v_epc_cups.Sxcups.Rules.Pdr.{Pdr}
use v_epc_cups.Sxcups.Session.{faces}
use v_epc_cups.Core.Upf.State.{alloc_fteid}

-- The rules of the IEs with this name, in their order.
unfoldable pub rules_named : {R : Type 0} → String → (Bytes → R) → List (ℕ × Bytes) → List R
unfolding named
rules_named name decode [] = []
rules_named name decode ((t, v) ∷ ies) =
    let rest = rules_named name decode ies in if named t name then decode v ∷ rest else rest

-- The Created PDR that tells the control plane the TEID of a PDR.
unfoldable pub created_pdr : ℕ → ℕ → Ip → Bytes
unfolding encode_grouped
created_pdr pdr_id teid ip =
    encode_grouped Ie.created_pdr
      (ie_pdr_id pdr_id ∷ encode_grouped Ie.pdi (ie_ft_eid teid ip ∷ []) ∷ [])

-- The loop over the PDRs: what the generator yields next, the PDR objects, and the IEs created.
pub record Allocation : Type 0 where
  pub next_teid : ℕ
  pub pdrs : List Pdr
  pub created : Result (List Bytes)

abbrev pub also_created : Bytes → Result (List Bytes) → Result (List Bytes)
also_created ie (ok ies) = ok (ie ∷ ies)
also_created ie (err e) = err e

-- The TEID is given before the IE is built, and an id that is `None` stops the loop there.
abbrev give : Ip → ℕ → Pdr → Option ℕ → List Pdr → Allocation → Allocation
give ip next pdr none pdrs rest = record {
  next_teid = (alloc_fteid next).1;
  pdrs = record pdr { fteid = some (some ((alloc_fteid next).0, ip)) } ∷ pdrs;
  created = err type_error;
}
give ip next pdr (some i) pdrs rest = record {
  next_teid = rest.next_teid;
  pdrs = record pdr { fteid = some (some ((alloc_fteid next).0, ip)) } ∷ rest.pdrs;
  created = also_created (created_pdr i (alloc_fteid next).0 ip) rest.created;
}

unfoldable pub allocate : Ip → ℕ → List Pdr → Allocation
unfolding alloc_fteid
allocate ip next [] = record { next_teid = next; pdrs = []; created = ok [] }
allocate ip next (pdr ∷ pdrs) =
    let rest = allocate ip (if faces "Access" pdr then (alloc_fteid next).1 else next) pdrs in
    if faces "Access" pdr
    then give ip next pdr pdr.pdr_id pdrs rest
    else record rest { pdrs = pdr ∷ rest.pdrs }
