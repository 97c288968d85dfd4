-- ===== src/Core/Pdn.antt =====
-- core/pdn.py: the packet network behind the PGW-U, which echoes.
use v_epc_cups.Prelude.{
  ℕ, ◌+◌, Bool, false, Option, none, some, ◌∷◌, ◌++◌, nat_beq, ◌&&◌, if◌then◌else◌,
}
use v_epc_cups.Bytes.{Bytes}
use v_epc_cups.Diameter.Text.{literal}

pub record Pdn : Type 0 where
  pub echo : Bool
  pub rx : ℕ

-- data.startswith(b"UL")
abbrev pub is_uplink : Bytes → Bool
is_uplink (a ∷ b ∷ bytes) = nat_beq a 85 && nat_beq b 76
is_uplink _ = false

unfoldable pub handle : Pdn → Bytes → Pdn × Option Bytes
handle pdn bytes = (
  record pdn { rx = pdn.rx + 1 },
  if pdn.echo && is_uplink bytes then some (literal "DL-ACK:" ++ bytes) else none,
)
