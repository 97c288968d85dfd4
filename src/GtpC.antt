-- ===== src/GtpC.antt =====
-- protocols/gtp_c.py: the GTPv2-C message codec, the F-TEID and the Bearer Context.
pub mod RoundTrip
pub mod Bearer
pub mod Contexts
pub mod BearerRoundTrip
pub mod Values
use v_epc_cups.Prelude.{
  ℕ, ◌+◌, ◌-◌, ◌*◌, ◌/◌, ◌%◌, ◌^◌, Bool, true, false, not, Option, none, some, List, [], ◌∷◌, ◌++◌,
  length, take, drop, ltb, nat_beq, bit_and, bit_or, ◌&&◌, if◌then◌else◌,
}
use v_epc_cups.Prelude.Results.{
  Result, ok, err, value_error, struct_error, index_error, need, ◌>>=◌,
}
use v_epc_cups.Bytes.{Bytes, Ip, u8, u16, u32, inet_aton, be_value, field}
use v_epc_cups.Tlv.{encode_tlvs, decode_tlvs, first_value}

pub record Message : Type 0 where
  pub msg_type : ℕ
  pub teid : ℕ
  pub seq : ℕ
  pub has_teid : Bool
  pub ies : List (ℕ × Bytes)

unfoldable pub get : Message → ℕ → Option Bytes
unfolding first_value
get m ie = first_value ie m.ies

-- 0x40 | (0x08 if self.has_teid else 0x00)
abbrev pub flags_of : Bool → ℕ
flags_of has_teid = if has_teid then bit_or 0x40 0x08 else 0x40

-- The payload: the TEID, three bytes of sequence number and a spare one, and the IEs.
unfoldable pub payload_of : Message → Bytes → Bytes
unfolding u32
payload_of m body = (if m.has_teid then u32 m.teid else []) ++ u32 (m.seq % 2 ^ 24 * 2 ^ 8) ++ body

unfoldable pub to_bytes : Message → Result Bytes
unfolding encode_tlvs payload_of u8 u16
to_bytes m = do
  body ← encode_tlvs m.ies
  ok (
      u8 (flags_of m.has_teid)
      ++ u8 m.msg_type
      ++ u16 (length (payload_of m body))
      ++ payload_of m body)

-- From the sequence number on. `used` bytes of the length stand before it, and four are its own.
unfoldable pub from_seq : (msg_type length used teid : ℕ) → Bool → Bytes → Result Message
unfolding field decode_tlvs
from_seq msg_type length used teid has_teid rest = do
  word ← need struct_error (field 4 rest)
  ok (record {
    msg_type = msg_type;
    teid = teid;
    seq = word / 2 ^ 8;
    has_teid = has_teid;
    ies = decode_tlvs (length - (used + 4)) (drop 4 rest);
  })

unfoldable pub from_teid : (msg_type length : ℕ) → Bool → Bytes → Result Message
unfolding from_seq
from_teid msg_type length true rest = do
  teid ← need struct_error (field 4 rest)
  from_seq msg_type length 4 teid true (drop 4 rest)
from_teid msg_type length false rest = from_seq msg_type length 0 0 false rest

unfoldable pub from_bytes : Bytes → Result Message
unfolding from_teid be_value
from_bytes (flags ∷ msg_type ∷ l₁ ∷ l₀ ∷ rest) =
    if ltb (length rest) 4
    then err value_error
    else from_teid msg_type (be_value 0 (l₁ ∷ l₀ ∷ [])) (not (nat_beq (bit_and flags 0x08) 0)) rest
from_bytes _ = err value_error
