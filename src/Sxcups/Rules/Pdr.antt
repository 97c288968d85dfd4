-- ===== src/Sxcups/Rules/Pdr.antt =====
-- The Packet Detection Rule of sxcups/rules.py.
mod Reading
pub mod RoundTrip
use v_epc_cups.Prelude.{ℕ, String, Option, none, some, List, [], ◌∷◌, ◌++◌, if◌then◌else◌}
use v_epc_cups.Prelude.Results.{Result, ok, type_error, err, need, ◌>>=◌}
use v_epc_cups.Bytes.{Bytes, Ip, u32}
use v_epc_cups.Pfcp.Types.{named}
use v_epc_cups.Pfcp.Types.Ie
use v_epc_cups.Pfcp.Ies.{Ies, encode_ie, encode_grouped, decode_ies_recursive, for_ies}
use v_epc_cups.Pfcp.Values.{
  ie_pdr_id, ie_source_interface, ie_ft_eid, ie_urr_id, ie_qer_id, ie_far_id, decode_ft_eid,
  pdr_id_of, u32_of, u8_of,
}
use v_epc_cups.Sxcups.Rules.Interfaces.{iface_name, iface_code}

-- `fteid` is `none` while unset, `some none` for the pair (None, None) of `decode_ft_eid`.
-- `network_instance` is the UTF-8 of the source's text.
pub record Pdr : Type 0 where
  pub pdr_id : Option ℕ
  pub precedence : Option ℕ
  pub source_interface : Option String
  pub fteid : Option (Option (ℕ × Ip))
  pub network_instance : Bytes
  pub urr_ids : List (Option ℕ)
  pub qer_ids : List (Option ℕ)
  pub far_id : Option ℕ

unfoldable pub fteid_children : Option (Option (ℕ × Ip)) → Result (List Bytes)
fteid_children none = ok []
fteid_children (some none) = err type_error
fteid_children (some (some (teid, ip))) = ok (encode_grouped Ie.pdi (ie_ft_eid teid ip ∷ []) ∷ [])

-- [encode(i) for i in ids]
unfoldable pub id_children : (ℕ → Bytes) → List (Option ℕ) → Result (List Bytes)
id_children encode [] = ok []
id_children encode (i ∷ ids) = do
  n ← need type_error i
  rest ← id_children encode ids
  ok (encode n ∷ rest)

unfoldable pub far_children : Option ℕ → List Bytes
far_children none = []
far_children (some i) = ie_far_id i ∷ []

unfoldable pub network_children : Bytes → List Bytes
network_children [] = []
network_children (c ∷ cs) = encode_ie Ie.network_instance (c ∷ cs) ∷ []

unfoldable pub to_pfcp : Pdr → Result Bytes
unfolding fteid_children id_children far_children network_children iface_code
to_pfcp p = do
  pid ← need type_error p.pdr_id
  precedence ← need type_error p.precedence
  fteid ← fteid_children p.fteid
  urrs ← id_children ie_urr_id p.urr_ids
  qers ← id_children ie_qer_id p.qer_ids
  ok (
      encode_grouped Ie.create_pdr (
        ie_pdr_id pid
        ∷ encode_ie Ie.precedence (u32 precedence)
        ∷ encode_grouped Ie.pdi (ie_source_interface (iface_code p.source_interface 0) ∷ [])
        ∷ (fteid
            ++ (network_children p.network_instance ++ (urrs ++ (qers ++ far_children p.far_id))))))

-- One child of a PDI.
unfoldable pub pdi_step : Pdr → ℕ → Bytes → Ies → Pdr
unfolding named iface_name
pdi_step pdr t v _ =
    if named t "F-TEID"
    then record pdr { fteid = some (decode_ft_eid v) }
    else if named t "Source Interface"
    then record pdr { source_interface = some (iface_name (u8_of v)) }
    else pdr

-- One child of a Create PDR.
unfoldable pub pdr_step : Pdr → ℕ → Bytes → Ies → Pdr
unfolding named pdi_step for_ies
pdr_step pdr t v children =
    if named t "PDR ID"
    then record pdr { pdr_id = pdr_id_of v }
    else if named t "Precedence"
    then record pdr { precedence = u32_of v }
    else if named t "FAR ID"
    then record pdr { far_id = u32_of v }
    else if named t "URR ID"
    then record pdr { urr_ids = pdr.urr_ids ++ u32_of v ∷ [] }
    else if named t "QER ID"
    then record pdr { qer_ids = pdr.qer_ids ++ u32_of v ∷ [] }
    else if named t "PDI"
    then for_ies pdi_step pdr children
    else pdr

-- cls(0, source_interface=None)
abbrev pub blank : Pdr
blank = record {
  pdr_id = some 0;
  precedence = some 100;
  source_interface = none;
  fteid = none;
  network_instance = [];
  urr_ids = [];
  qer_ids = [];
  far_id = none;
}

abbrev pub or_access : Option String → Option String
or_access none = some "Access"
or_access (some name) = some name

unfoldable pub from_pfcp : Bytes → Pdr
unfolding pdr_step for_ies decode_ies_recursive
from_pfcp value =
    let pdr = for_ies pdr_step blank (decode_ies_recursive value) in
    record pdr { source_interface = or_access pdr.source_interface }
