-- ===== src/Pfcp/Message.antt =====
-- `Message` of protocols/pfcp.py: the header, and the list of (type, value) IEs.
pub mod RoundTrip
use v_epc_cups.Prelude.{
  ℕ, ◌+◌, ◌-◌, ◌*◌, ◌/◌, ◌%◌, ◌^◌, Bool, true, false, not, Option, none, some, List, [], ◌∷◌, ◌++◌,
  length, drop, take, nat_beq, bit_and, bit_or, if◌then◌else◌,
}
use v_epc_cups.Prelude.Results.{
  Result, ok, err, value_error, struct_error, index_error, need, ◌>>=◌,
}
use v_epc_cups.Bytes.{Bytes, u8, u16, u32, u64, be_value, field}
use v_epc_cups.Pfcp.Ies.{encode_ies, decode_ies, Ies, nil, decode_ies_recursive}

pub record Message : Type 0 where
  pub msg_type : ℕ
  pub seid : ℕ
  pub seq : ℕ
  pub ies : List (ℕ × Bytes)
  pub has_seid : Bool

-- What the constructor takes in its list: encoded bytes, or a (type, value) pair. The TypeError
-- for anything else has no counterpart here.
pub data Item : Type 0 where
  encoded : Bytes → Item
  pair : ℕ → Bytes → Item

unfoldable pub normalise : List Item → List (ℕ × Bytes)
normalise [] = []
normalise (encoded bytes ∷ items) = decode_ies bytes ++ normalise items
normalise (pair t v ∷ items) = (t, v) ∷ normalise items

-- Message(msg_type, seid, seq, ies, has_seid)
unfoldable pub new_message : (msg_type seid seq : ℕ) → List Item → Bool → Message
unfolding normalise
new_message msg_type seid seq items has_seid = record {
  msg_type = msg_type;
  seid = seid;
  seq = seq;
  ies = normalise items;
  has_seid = has_seid;
}

-- `decode_ies(encoded_ie)[0]`
abbrev pub first_ie : List (ℕ × Bytes) → Result (ℕ × Bytes)
first_ie [] = err index_error
first_ie (ie ∷ ies) = ok ie

unfoldable pub add : Message → Bytes → Result Message
add m encoded_ie = do
  ie ← first_ie (decode_ies encoded_ie)
  ok (record m { ies = m.ies ++ ie ∷ [] })

unfoldable pub get_ie : ℕ → List (ℕ × Bytes) → Option Bytes
get_ie ie_type [] = none
get_ie ie_type ((t, v) ∷ ies) = if nat_beq t ie_type then some v else get_ie ie_type ies

unfoldable pub get : Message → ℕ → Option Bytes
unfolding get_ie
get m ie_type = get_ie ie_type m.ies

abbrev children_of : Option Bytes → Ies
children_of none = nil
children_of (some v) = decode_ies_recursive v

unfoldable pub children : Message → ℕ → Ies
unfolding get
children m ie_type = children_of (get m ie_type)

-- `_u8(0x20 | 0x01)` or `_u8(0x20)`
abbrev flags_of : Bool → ℕ
flags_of has_seid = if has_seid then bit_or 0x20 0x01 else 0x20

unfoldable pub body : Message → Bytes
unfolding u32 u64
body m = (if m.has_seid then u64 m.seid else []) ++ u32 (m.seq % 2 ^ 24 * 2 ^ 8) ++ encode_ies m.ies

unfoldable pub to_bytes : Message → Bytes
unfolding body u8 u16
to_bytes m = u8 (flags_of m.has_seid) ++ u8 m.msg_type ++ u16 (length (body m)) ++ body m

-- The part of `from_bytes` after the first four bytes. `i` there is `skip + 8`, so the slice
-- `data[i:i + length - (i - 4)]` has `length - (skip + 4)` bytes at most.
unfoldable pub from_rest : (msg_type length skip seid : ℕ) → Bool → Bytes → Result Message
unfolding field decode_ies
from_rest msg_type length skip seid has_seid rest = do
  word ← need struct_error (field 4 rest)
  ok (record {
    msg_type = msg_type;
    seid = seid;
    seq = word / 2 ^ 8;
    ies = decode_ies (take (length - (skip + 4)) (drop 4 rest));
    has_seid = has_seid;
  })

unfoldable pub from_seid : (msg_type length : ℕ) → Bool → Bytes → Result Message
unfolding from_rest
from_seid msg_type length true rest = do
  seid ← need struct_error (field 8 rest)
  from_rest msg_type length 8 seid true (drop 8 rest)
from_seid msg_type length false rest = from_rest msg_type length 0 0 false rest

-- The version in the flags is read and not used.
unfoldable pub from_bytes : Bytes → Result Message
unfolding from_seid be_value
from_bytes (flags ∷ msg_type ∷ l₁ ∷ l₀ ∷ rest) =
    from_seid msg_type (be_value 0 (l₁ ∷ l₀ ∷ [])) (not (nat_beq (bit_and flags 0x01) 0)) rest
from_bytes _ = err value_error
