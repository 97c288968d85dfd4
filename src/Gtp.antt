-- ===== src/Gtp.antt =====
-- protocols/gtp.py: the GTP-U header (TS 29.281) of the user plane.
pub mod RoundTrip
use v_epc_cups.Prelude.{
  ℕ, ◌+◌, ◌-◌, ◌^◌, Bool, Option, none, some, List, [], ◌∷◌, ◌++◌, length, take, drop, ltb, nat_beq,
  if◌then◌else◌,
}
use v_epc_cups.Prelude.Results.{Result, ok, err, value_error, struct_error, type_error, need, ◌>>=◌}
use v_epc_cups.Bytes.{Bytes, u8, u16, u32, be_value}

abbrev pub gtpu_port : ℕ
gtpu_port = 2152

abbrev pub g_pdu : ℕ
g_pdu = 255

-- The fields of the dictionary that `decode` returns.
pub record Packet : Type 0 where
  pub flags : ℕ
  pub type : ℕ
  pub length : ℕ
  pub teid : ℕ
  pub payload : Bytes

-- struct.pack("!BBHI", 0x30, G_PDU, length, teid & 0xFFFFFFFF): it raises for a length that does
-- not fit 16 bits, and the mask raises for a TEID that is `None`.
unfoldable pub encode_gpdu : Option ℕ → Bytes → Result Bytes
unfolding u8 u16 u32
encode_gpdu teid payload = do
  t ← need type_error teid
  (if ltb (8 + length payload) (2 ^ 16)
      then ok (u8 0x30 ++ u8 g_pdu ++ u16 (8 + length payload) ++ u32 t ++ payload)
      else err struct_error)

-- The payload of a G-PDU is `data[8:8 + length - 4]`, that of another message `data[8:8 + length]`.
unfoldable pub decode : Bytes → Result Packet
unfolding be_value
decode (flags ∷ mtype ∷ l₁ ∷ l₀ ∷ t₃ ∷ t₂ ∷ t₁ ∷ t₀ ∷ rest) =
    let n = be_value 0 (l₁ ∷ l₀ ∷ []) in
    ok (record {
      flags = flags;
      type = mtype;
      length = n;
      teid = be_value 0 (t₃ ∷ t₂ ∷ t₁ ∷ t₀ ∷ []);
      payload = if nat_beq mtype g_pdu then take (n - 4) rest else take n rest;
    })
decode _ = err value_error
