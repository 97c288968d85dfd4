-- ===== src/Sxcups/Rules/Far.antt =====
-- The Forwarding Action Rule of sxcups/rules.py.
pub mod RoundTrip
use text.Mathlib.Text.{◌==◌ as str_eq}
use v_epc_cups.Prelude.{
  ℕ, String, Bool, true, false, ◌||◌, Option, none, some, List, [], ◌∷◌, ◌++◌, if◌then◌else◌,
}
use v_epc_cups.Prelude.Results.{Result, ok, type_error, need, ◌>>=◌}
use v_epc_cups.Bytes.{Bytes, Ip, u8, u16, u32, inet_aton}
use v_epc_cups.Pfcp.Types.{named}
use v_epc_cups.Pfcp.Types.Ie
use v_epc_cups.Pfcp.Ies.{Ies, encode_ie, encode_grouped, decode_ies_recursive, for_ies}
use v_epc_cups.Pfcp.Values.{ie_far_id, ie_apply_action, decode_apply_action, u32_of}
use v_epc_cups.Sxcups.Rules.Interfaces.{iface_code}

-- `outer_header` is `none` for the pair (None, None).
pub record Far : Type 0 where
  pub far_id : Option ℕ
  pub apply_action : List String
  pub destination_interface : String
  pub outer_header : Option (ℕ × Ip)

-- name in names
unfoldable pub contains : String → List String → Bool
contains name [] = false
contains name (n ∷ names) = str_eq name n || contains name names

unfoldable pub outer_children : Option (ℕ × Ip) → List Bytes
outer_children none = []
outer_children (some (teid, ip)) =
    encode_ie Ie.outer_header_creation (u16 0x0100 ++ u32 teid ++ u16 0 ++ inet_aton ip) ∷ []

unfoldable pub forwarding : Far → Bytes
unfolding outer_children iface_code
forwarding f = encode_grouped Ie.forwarding_parameters (
    encode_ie Ie.destination_interface (u8 (iface_code (some f.destination_interface) 1))
    ∷ outer_children f.outer_header)

unfoldable pub to_pfcp : Far → Result Bytes
unfolding contains forwarding
to_pfcp f = do
  far_id ← need type_error f.far_id
  ok (
      encode_grouped Ie.create_far (
        ie_far_id far_id
        ∷ ie_apply_action (contains "FORWARD" f.apply_action) (contains "DROP" f.apply_action)
            (contains "BUFFER" f.apply_action) (contains "NOTIFY" f.apply_action)
            (contains "DUPLICATE" f.apply_action)
        ∷ forwarding f
        ∷ []))

-- FAR(far_id, apply_action, destination_interface) with no outer header.
unfoldable pub new_far : ℕ → List String → String → Far
new_far far_id apply_action destination_interface = record {
  far_id = some far_id;
  apply_action = apply_action;
  destination_interface = destination_interface;
  outer_header = none;
}

unfoldable pub far_step : Far → ℕ → Bytes → Ies → Far
unfolding named
far_step far t v _ =
    if named t "FAR ID"
    then record far { far_id = u32_of v }
    else if named t "Apply Action"
    then record far { apply_action = decode_apply_action v }
    else far

unfoldable pub from_pfcp : Bytes → Far
unfolding far_step for_ies decode_ies_recursive new_far
from_pfcp value = for_ies far_step (new_far 0 ("FORWARD" ∷ []) "Core") (decode_ies_recursive value)
