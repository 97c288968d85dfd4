-- ===== src/Tlv.antt =====
-- The TLV framing that protocols/gtp_c.py and protocols/s1ap.py share: a type of one byte, a length of
-- two, and the value.
pub mod Framing
use v_epc_cups.Prelude.{
  ℕ, zero, suc, ◌+◌, ◌-◌, ◌^◌, Option, none, some, List, [], ◌∷◌, ◌++◌, length, take, drop, ltb,
  nat_beq, if◌then◌else◌, ◌&&◌,
}
use v_epc_cups.Prelude.Results.{Result, ok, err, struct_error, ◌>>=◌}
use v_epc_cups.Bytes.{Bytes, u8, u16, be_value}

-- struct.pack("!BH", t, n), which raises on a number that does not fit its field.
unfoldable pub pack_head : ℕ → ℕ → Result Bytes
unfolding u8 u16
pack_head t n = if ltb t (2 ^ 8) && ltb n (2 ^ 16) then ok (u8 t ++ u16 n) else err struct_error

-- b"".join(struct.pack("!BH", t, len(v)) + v for t, v in ies)
unfoldable pub encode_tlvs : List (ℕ × Bytes) → Result Bytes
unfolding pack_head
encode_tlvs [] = ok []
encode_tlvs ((t, v) ∷ ies) = do
  head ← pack_head t (length v)
  rest ← encode_tlvs ies
  ok (head ++ (v ++ rest))

-- The list is `data[j:]`, and `room` is `end - j`, 0 where `j` is past `end`: the loop goes on while
-- there are three bytes and room for them. A value may reach past `end`, not past the data. Each round
-- takes three bytes at least off the fuel.
unfoldable pub decode_tlvs_loop : (fuel room : ℕ) → Bytes → List (ℕ × Bytes)
unfolding be_value
decode_tlvs_loop (suc fuel) room (t ∷ l₁ ∷ l₀ ∷ rest) =
    let l = be_value 0 (l₁ ∷ l₀ ∷ []) in
    let others = decode_tlvs_loop fuel (room - (3 + l)) (drop l rest) in
    if ltb room 3 then [] else (t, take l rest) ∷ others
decode_tlvs_loop _ _ _ = []

unfoldable pub decode_tlvs : ℕ → Bytes → List (ℕ × Bytes)
unfolding decode_tlvs_loop
decode_tlvs room bytes = decode_tlvs_loop (length bytes) room bytes

-- for t, v in self.ies: the value of the first IE of this type
unfoldable pub first_value : ℕ → List (ℕ × Bytes) → Option Bytes
first_value ie [] = none
first_value ie ((t, v) ∷ ies) = if nat_beq t ie then some v else first_value ie ies
