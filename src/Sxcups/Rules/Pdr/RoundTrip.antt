-- ===== src/Sxcups/Rules/Pdr/RoundTrip.antt =====
-- A PDR survives the wire, but for its network instance, which the decoder does not read.
use mathlib.Core.Option
use v_epc_cups.Prelude.{
  ℕ, ◌^◌, ◌<◌, ◌≡◌, refl, ap, sym, ◌∙◌, Option, none, some, List, [], ◌∷◌, ◌++◌, map, length, join,
  append-nil, append_assoc, All, arith, ap₂,
}
use v_epc_cups.Prelude.Results.{ok}
use v_epc_cups.Bytes.{Bytes, Ip, u32}
use v_epc_cups.Pfcp.Types.Ie
use v_epc_cups.Pfcp.Ies.{encode_ie, encode_grouped}
use v_epc_cups.Pfcp.Ies.Framing.{for_ies_end}
use v_epc_cups.Pfcp.Values.{ie_pdr_id, ie_source_interface, ie_ft_eid, ie_urr_id, ie_qer_id}
use v_epc_cups.Sxcups.Rules.Interfaces.{Interface, name_of, code_of, iface_code-name_of}
use v_epc_cups.Sxcups.Rules.Pdr.{
  Pdr, fteid_children, id_children, far_children, network_children, to_pfcp, pdr_step, blank,
  or_access, from_pfcp,
}
use v_epc_cups.Sxcups.Rules.Pdr.Reading.{
  read, read-pdr_id, read-precedence, read-interface, read-fteid, read-urr_id, read-qer_id,
  read-far_id, read-network_instance,
}

-- A PDR as the control plane builds it: every id is a number, and the interface has a code.
pub record Detection : Type 0 where
  pub pdr_id : ℕ
  pub precedence : ℕ
  pub interface : Interface
  pub fteid : Option (ℕ × Ip)
  pub network_instance : Bytes
  pub urr_ids : List ℕ
  pub qer_ids : List ℕ
  pub far_id : Option ℕ

abbrev pub pdr_of : Detection → Pdr
pdr_of d = record {
  pdr_id = some d.pdr_id;
  precedence = some d.precedence;
  source_interface = some (name_of d.interface);
  fteid = Option.map some d.fteid;
  network_instance = d.network_instance;
  urr_ids = map some d.urr_ids;
  qer_ids = map some d.qer_ids;
  far_id = d.far_id;
}

-- The fields fit the widths of their IEs.
abbrev pub FitsFteid : Option (ℕ × Ip) → Type 0
FitsFteid none = Unit
FitsFteid (some (teid, ip)) = (teid < 2 ^ 32) × (ip < 2 ^ 32)

abbrev pub FitsId : Option ℕ → Type 0
FitsId none = Unit
FitsId (some i) = i < 2 ^ 32

pub record IsSent (d : Detection) : Type 0 where
  pub pdr_id : d.pdr_id < 2 ^ 16
  pub precedence : d.precedence < 2 ^ 32
  pub fteid : FitsFteid d.fteid
  pub network_instance : length d.network_instance < 2 ^ 15
  pub urr_ids : All (λ i. i < 2 ^ 32) d.urr_ids
  pub qer_ids : All (λ i. i < 2 ^ 32) d.qer_ids
  pub far_id : FitsId d.far_id

-- The children of the optional F-TEID, and those of the Create PDR.
abbrev fteid_bytes : Option (ℕ × Ip) → List Bytes
fteid_bytes none = []
fteid_bytes (some (teid, ip)) = encode_grouped Ie.pdi (ie_ft_eid teid ip ∷ []) ∷ []

abbrev pub value_of : Detection → Bytes
value_of d = join (
    ie_pdr_id d.pdr_id
    ∷ encode_ie Ie.precedence (u32 d.precedence)
    ∷ encode_grouped Ie.pdi (ie_source_interface (code_of d.interface) ∷ [])
    ∷ (fteid_bytes d.fteid
        ++ (network_children d.network_instance
            ++ (map ie_urr_id d.urr_ids ++ (map ie_qer_id d.qer_ids ++ far_children d.far_id)))))

id_children-map :
    (encode : ℕ → Bytes) (ids : List ℕ) → id_children encode (map some ids) ≡ ok (map encode ids)
unfolding id_children
id_children-map encode [] = refl
id_children-map encode (i ∷ ids) = rw (id_children-map encode ids)

fteid_children-map : (f : Option (ℕ × Ip)) → fteid_children (Option.map some f) ≡ ok (fteid_bytes f)
unfolding fteid_children
fteid_children-map none = refl
fteid_children-map (some (teid, ip)) = refl

-- `to_pfcp` writes one Create PDR around `value_of`.
pub to_pfcp-pdr_of :
    (d : Detection) → to_pfcp (pdr_of d) ≡ ok (encode_ie Ie.create_pdr (value_of d))
unfolding to_pfcp encode_grouped
to_pfcp-pdr_of d = rw (
  fteid_children-map d.fteid,
  id_children-map ie_urr_id d.urr_ids,
  id_children-map ie_qer_id d.qer_ids,
  iface_code-name_of d.interface 0,
)

join-append : (xs ys : List Bytes) → join (xs ++ ys) ≡ join xs ++ join ys
join-append [] ys = refl
join-append (x ∷ xs) ys = rw (join-append xs ys) (sym (append_assoc x (join xs) (join ys)))

read-fteid_bytes :
    (p : Pdr) (f : Option (ℕ × Ip)) (rest : List Bytes)
    → p.fteid ≡ none
    → FitsFteid f
    → read p (join (fteid_bytes f ++ rest))
      ≡ read (record p { fteid = Option.map some f }) (join rest)
read-fteid_bytes p none rest unset fits =
    ap (λ (x : Option (Option (ℕ × Ip))). read (record p { fteid = x }) (join rest)) unset
read-fteid_bytes p (some (teid, ip)) rest unset fits =
    read-fteid p (join rest) teid ip fits.0 fits.1

read-network_children :
    (p : Pdr) (n : Bytes) (rest : List Bytes)
    → length n < 2 ^ 15
    → read p (join (network_children n ++ rest)) ≡ read p (join rest)
unfolding network_children
read-network_children p [] rest fits = refl
read-network_children p (c ∷ cs) rest fits = read-network_instance p (join rest) c cs (omega arith)

read-urr_ids :
    (p : Pdr) (ids : List ℕ) (rest : List Bytes)
    → All (λ i. i < 2 ^ 32) ids
    → read p (join (map ie_urr_id ids ++ rest))
      ≡ read (record p { urr_ids = p.urr_ids ++ map some ids }) (join rest)
read-urr_ids p [] rest fits =
    ap (λ (x : List (Option ℕ)). read (record p { urr_ids = x }) (join rest))
      (sym (append-nil p.urr_ids))
read-urr_ids p (i ∷ ids) rest fits =
    read-urr_id p (join (map ie_urr_id ids ++ rest)) i fits.0
    ∙ read-urr_ids (record p { urr_ids = p.urr_ids ++ some i ∷ [] }) ids rest fits.1
    ∙ ap (λ (x : List (Option ℕ)). read (record p { urr_ids = x }) (join rest))
        (append_assoc p.urr_ids (some i ∷ []) (map some ids))

read-qer_ids :
    (p : Pdr) (ids : List ℕ) (rest : List Bytes)
    → All (λ i. i < 2 ^ 32) ids
    → read p (join (map ie_qer_id ids ++ rest))
      ≡ read (record p { qer_ids = p.qer_ids ++ map some ids }) (join rest)
read-qer_ids p [] rest fits =
    ap (λ (x : List (Option ℕ)). read (record p { qer_ids = x }) (join rest))
      (sym (append-nil p.qer_ids))
read-qer_ids p (i ∷ ids) rest fits =
    read-qer_id p (join (map ie_qer_id ids ++ rest)) i fits.0
    ∙ read-qer_ids (record p { qer_ids = p.qer_ids ++ some i ∷ [] }) ids rest fits.1
    ∙ ap (λ (x : List (Option ℕ)). read (record p { qer_ids = x }) (join rest))
        (append_assoc p.qer_ids (some i ∷ []) (map some ids))

read-far_children :
    (p : Pdr) (f : Option ℕ)
    → p.far_id ≡ none
    → FitsId f
    → read p (join (far_children f)) ≡ record p { far_id = f }
unfolding far_children
read-far_children p none unset fits =
    for_ies_end pdr_step p ∙ ap (λ (x : Option ℕ). record p { far_id = x }) unset
read-far_children p (some i) unset fits =
    read-far_id p [] i fits ∙ for_ies_end pdr_step (record p { far_id = some i })

abbrev with_access : Pdr → Pdr
with_access p = record p { source_interface = or_access p.source_interface }

-- The PDR after each stage of the loop.
module _ (d : Detection) (s : IsSent d) where
  headed : Pdr
  headed = record blank {
    pdr_id = some d.pdr_id;
    precedence = some d.precedence;
    source_interface = some (name_of d.interface);
  }

  rules : List Bytes
  rules = map ie_urr_id d.urr_ids ++ (map ie_qer_id d.qer_ids ++ far_children d.far_id)

  read_header :
      (rest : Bytes)
      → read blank (
          ie_pdr_id d.pdr_id
          ++ (encode_ie Ie.precedence (u32 d.precedence)
              ++ (encode_grouped Ie.pdi (ie_source_interface (code_of d.interface) ∷ []) ++ rest)))
        ≡ read headed rest
  unfolding headed
  read_header rest =
      read-pdr_id blank _ d.pdr_id s.pdr_id
      ∙ read-precedence (record blank { pdr_id = some d.pdr_id }) _ d.precedence s.precedence
      ∙ read-interface (record blank { pdr_id = some d.pdr_id; precedence = some d.precedence })
          rest d.interface

  read_rules :
      (p : Pdr)
      → p.urr_ids ≡ []
      → p.qer_ids ≡ []
      → p.far_id ≡ none
      → read p (join rules)
        ≡ record p { urr_ids = map some d.urr_ids; qer_ids = map some d.qer_ids; far_id = d.far_id }
  unfolding rules
  read_rules p no_urr no_qer no_far =
      read-urr_ids p d.urr_ids (map ie_qer_id d.qer_ids ++ far_children d.far_id) s.urr_ids
      ∙ read-qer_ids _ d.qer_ids (far_children d.far_id) s.qer_ids
      ∙ read-far_children _ d.far_id no_far s.far_id
      ∙ ap₂
          (λ (us qs : List (Option ℕ)). record p {
            urr_ids = us ++ map some d.urr_ids;
            qer_ids = qs ++ map some d.qer_ids;
            far_id = d.far_id;
          })
          no_urr no_qer

  read-value_of : read blank (value_of d) ≡ record (pdr_of d) { network_instance = [] }
  unfolding headed rules
  read-value_of =
      read_header _
      ∙ read-fteid_bytes headed d.fteid (network_children d.network_instance ++ rules) refl s.fteid
      ∙ read-network_children _ d.network_instance rules s.network_instance
      ∙ read_rules _ refl refl refl

-- A Create PDR that `to_pfcp` wrote for a known interface, numbers that fit their fields and a
-- network instance that fits its frame, is decoded to the same PDR, but for the network instance,
-- which comes back empty.
pub pdr_round_trip :
    (d : Detection)
    → IsSent d
    → (v : Bytes) × (to_pfcp (pdr_of d) ≡ ok (encode_ie Ie.create_pdr v))
      × (from_pfcp v ≡ record (pdr_of d) { network_instance = [] })
unfolding from_pfcp
pdr_round_trip d s = (value_of d, to_pfcp-pdr_of d, ap with_access (read-value_of d s))
