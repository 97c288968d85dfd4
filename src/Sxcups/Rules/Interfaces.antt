-- ===== src/Sxcups/Rules/Interfaces.antt =====
-- The interface names of sxcups/rules.py, and their codes on the wire.
use text.Mathlib.Text.{◌==◌ as str_eq}
use v_epc_cups.Prelude.{ℕ, ◌≡◌, refl, String, Option, none, some, nat_beq, if◌then◌else◌}

-- _IFACE_NAME.get(code, "Access")
unfoldable pub iface_name : Option ℕ → String
iface_name none = "Access"
iface_name (some code) =
    if nat_beq code 0
    then "Access"
    else if nat_beq code 1
    then "Core"
    else if nat_beq code 2
    then "SGi-LAN"
    else if nat_beq code 3
    then "CP-Function"
    else "Access"

-- {"Access": 0, "Core": 1, "SGi-LAN": 2, "CP-Function": 3}.get(name, default)
unfoldable pub iface_code : Option String → ℕ → ℕ
iface_code none default = default
iface_code (some name) default =
    if str_eq name "Access"
    then 0
    else if str_eq name "Core"
    then 1
    else if str_eq name "SGi-LAN"
    then 2
    else if str_eq name "CP-Function"
    then 3
    else default

-- The four names that have a code.
pub data Interface : Type 0 where
  access core sgi_lan cp_function : Interface

abbrev pub name_of : Interface → String
name_of access = "Access"
name_of core = "Core"
name_of sgi_lan = "SGi-LAN"
name_of cp_function = "CP-Function"

abbrev pub code_of : Interface → ℕ
code_of access = 0
code_of core = 1
code_of sgi_lan = 2
code_of cp_function = 3

pub iface_code-name_of :
    (i : Interface) (default : ℕ) → iface_code (some (name_of i)) default ≡ code_of i
unfolding iface_code
iface_code-name_of access default = refl
iface_code-name_of core default = refl
iface_code-name_of sgi_lan default = refl
iface_code-name_of cp_function default = refl

pub iface_name-code_of : (i : Interface) → iface_name (some (code_of i)) ≡ name_of i
unfolding iface_name
iface_name-code_of access = refl
iface_name-code_of core = refl
iface_name-code_of sgi_lan = refl
iface_name-code_of cp_function = refl
