-- ===== src/Pfcp/Values/ApplyAction.antt =====
-- The Apply Action bits and their names.
use v_epc_cups.Prelude.{◌≡◌, Bool, String, List, [], ◌∷◌, ◌++◌, if◌then◌else◌, arith}
use v_epc_cups.Bytes.{Bytes, u8}
use v_epc_cups.Pfcp.Values.{apply_action_bits, decode_apply_action}

-- A name that is there if its flag is set.
abbrev pub named_if : Bool → String → List String
named_if flag name = if flag then name ∷ [] else []

-- The decoder names just the flags that were set, in the order of the bits, whatever follows them.
pub decode_apply_action-bits :
    (forward drop buffer notify duplicate : Bool) (rest : Bytes)
    → decode_apply_action (u8 (apply_action_bits forward drop buffer notify duplicate) ++ rest)
      ≡ named_if drop "DROP"
        ++ named_if forward "FORWARD"
        ++ named_if buffer "BUFFER"
        ++ named_if notify "NOTIFY"
        ++ named_if duplicate "DUPLICATE"
unfolding decode_apply_action apply_action_bits u8
decode_apply_action-bits forward drop buffer notify duplicate rest = ground arith
