-- ===== src/Nas.antt =====
-- protocols/nas.py: the NAS message codec and the packed digits of an IMSI.
pub mod RoundTrip
pub mod Values
use v_epc_cups.Prelude.{
  ℕ, zero, suc, ◌*◌, ◌/◌, ◌%◌, ◌^◌, Bool, true, false, Option, none, some, List, [], ◌∷◌, ◌++◌,
  length, take, drop, ltb, nat_beq, bit_or, ◌&&◌, if◌then◌else◌,
}
use v_epc_cups.Prelude.Results.{Result, ok, err, value_error, struct_error, ◌>>=◌}
use v_epc_cups.Bytes.{Bytes, u8}
use v_epc_cups.Tlv.{first_value}

pub record Message : Type 0 where
  pub msg_type : ℕ
  pub ies : List (ℕ × Bytes)

unfoldable pub get : Message → ℕ → Option Bytes
unfolding first_value
get m ie = first_value ie m.ies

-- struct.pack("!BB", t, n), which raises on a number that does not fit its byte.
unfoldable pub pack_pair : ℕ → ℕ → Result Bytes
unfolding u8
pack_pair t n = if ltb t (2 ^ 8) && ltb n (2 ^ 8) then ok (u8 t ++ u8 n) else err struct_error

unfoldable pub encode_ies : List (ℕ × Bytes) → Result Bytes
unfolding pack_pair
encode_ies [] = ok []
encode_ies ((t, v) ∷ ies) = do
  head ← pack_pair t (length v)
  rest ← encode_ies ies
  ok (head ++ (v ++ rest))

unfoldable pub to_bytes : Message → Result Bytes
unfolding encode_ies u8
to_bytes m = do
  body ← encode_ies m.ies
  if ltb m.msg_type (2 ^ 8) then ok (u8 m.msg_type ++ body) else err struct_error

-- The list is `data[i:]`; each round takes two bytes at least off the fuel.
unfoldable pub decode_ies_loop : ℕ → Bytes → List (ℕ × Bytes)
decode_ies_loop (suc fuel) (t ∷ l ∷ rest) = (t, take l rest) ∷ decode_ies_loop fuel (drop l rest)
decode_ies_loop _ _ = []

unfoldable pub from_bytes : Bytes → Result Message
unfolding decode_ies_loop
from_bytes [] = err value_error
from_bytes (msg_type ∷ rest) =
    ok (record { msg_type = msg_type; ies = decode_ies_loop (length rest) rest })

-- A digit string is the list of what int(c, 16) gives for its characters. Two digits make a byte, the
-- first one in the low half; "F" fills up an odd number of them.
unfoldable pub bcd_encode : List ℕ → Bytes
bcd_encode [] = []
bcd_encode (a ∷ []) = bit_or (15 * 2 ^ 4) a ∷ []
bcd_encode (a ∷ b ∷ digits) = bit_or (b * 2 ^ 4) a ∷ bcd_encode digits

unfoldable pub nibbles : Bytes → List ℕ
nibbles [] = []
nibbles (x ∷ bytes) = x % 16 ∷ x / 16 ∷ nibbles bytes

-- out.rstrip("F")
abbrev pub cons_stripped : ℕ → List ℕ → List ℕ
cons_stripped d [] = if nat_beq d 15 then [] else d ∷ []
cons_stripped d (e ∷ digits) = d ∷ e ∷ digits

unfoldable pub strip : List ℕ → List ℕ
strip [] = []
strip (d ∷ digits) = cons_stripped d (strip digits)

unfoldable pub bcd_decode : Bytes → List ℕ
unfolding nibbles strip
bcd_decode bytes = strip (nibbles bytes)
