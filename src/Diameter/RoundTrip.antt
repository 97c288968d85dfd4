-- ===== src/Diameter/RoundTrip.antt =====
-- protocols/diameter.py: groups and messages are read back.
use mathlib.Core.Option
use v_epc_cups.Prelude.{
  ℕ, zero, suc, ◌+◌, ◌-◌, ◌^◌, ◌<◌, ◌≤◌, ◌≡◌, refl, sym, ap, ap₂, ◌∙◌, min, Bool, true, false, some,
  List, [], ◌∷◌, ◌++◌, length, drop, length-append, drop-length-append, append_assoc, append-nil,
  All, arith, ltb,
}
use v_epc_cups.Prelude.Results.{ok}
use v_epc_cups.Bytes.{Bytes, u32, be_value, u32-be_value}
use v_epc_cups.Diameter.{
  Avp, u24, bit_if, is_set, decode, decode_avps, Message, encode_avps, to_bytes, reply, from_header,
  from_bytes, group, children, avp, with_first,
}
use v_epc_cups.Diameter.Framing.{
  IsAvp, avp_bytes, u24-be_value, packed_u32, packed_u24, encode-avp_bytes, decode-avp_bytes,
}

abbrev pub avps_bytes : List Avp → Bytes
avps_bytes [] = []
avps_bytes (a ∷ avps) = avp_bytes a ++ avps_bytes avps

pub encode_avps-avps_bytes :
    (avps : List Avp) → All IsAvp avps → encode_avps avps ≡ ok (avps_bytes avps)
unfolding encode_avps
encode_avps-avps_bytes [] h = refl
encode_avps-avps_bytes (a ∷ avps) h =
    rw (encode-avp_bytes a h.0, encode_avps-avps_bytes avps h.1) refl

-- A round of the loop that reads an AVP.
decode_avps_step :
    (fuel room : ℕ) (buf : Bytes) (a : Avp) (n : ℕ)
    → 0 < room
    → decode buf ≡ ok (a, n)
    → decode_avps (suc fuel) room buf
      ≡ Option.map (with_first a) (decode_avps fuel (room - n) (drop n buf))
unfolding decode_avps
decode_avps_step fuel zero buf a n hr h = absurd (omega arith)
decode_avps_step fuel (suc room) buf a n hr h = rw (h) refl

decode_avps_round :
    (fuel r : ℕ) (a : Avp) (bs tail : Bytes)
    → 0 < length bs
    → decode (bs ++ tail) ≡ ok (a, length bs)
    → decode_avps (suc fuel) (length bs + r) (bs ++ tail)
      ≡ Option.map (with_first a) (decode_avps fuel r tail)
decode_avps_round fuel r a bs tail hl h =
    decode_avps_step fuel (length bs + r) (bs ++ tail) a (length bs) (omega arith) h
    ∙ ap₂ (λ k t. Option.map (with_first a) (decode_avps fuel k t)) (omega arith)
        (drop-length-append bs tail)

length-avp_bytes : (a : Avp) → 0 < length (avp_bytes a)
unfolding u32
length-avp_bytes a = omega arith

-- AVPs are read back from their bytes, whatever follows.
pub decode_avps-avps_bytes :
    (avps : List Avp) (rest : Bytes) (fuel : ℕ)
    → All IsAvp avps
    → length (avps_bytes avps) ≤ fuel
    → decode_avps fuel (length (avps_bytes avps)) (avps_bytes avps ++ rest) ≡ some (ok avps)
unfolding decode_avps
decode_avps-avps_bytes [] rest fuel h p = refl
decode_avps-avps_bytes (a ∷ avps) rest zero h p =
    absurd (omega (arith, length-append (avp_bytes a) (avps_bytes avps), length-avp_bytes a))
decode_avps-avps_bytes (a ∷ avps) rest (suc fuel) h p =
    let bs = avp_bytes a in
    let others = avps_bytes avps in
    rw (length-append bs others, append_assoc bs others rest)
      (decode_avps_round fuel (length others) a bs (others ++ rest) (length-avp_bytes a)
          (decode-avp_bytes a (others ++ rest) h.0)
        ∙ ap (Option.map (with_first a)) (
            decode_avps-avps_bytes avps rest fuel h.1
              (omega (arith, length-append bs others, length-avp_bytes a))))

-- A group holds its children, and they are read back.
pub children-group :
    (code vendor : ℕ) (kids : List Avp)
    → All IsAvp kids
    → (group code kids vendor ≡ ok (avp code (avps_bytes kids) vendor))
      × (children (avp code (avps_bytes kids) vendor) ≡ some (ok kids))
unfolding group children avp
children-group code vendor kids h = (
  rw (encode_avps-avps_bytes kids h) refl,
  ap (decode_avps (length (avps_bytes kids)) (length (avps_bytes kids)))
        (sym (append-nil (avps_bytes kids)))
      ∙ decode_avps-avps_bytes kids [] (length (avps_bytes kids)) h (omega arith),
)

-- A message whose numbers and AVPs fit.
abbrev pub IsMessage : Message → Type 0
IsMessage m =
    All IsAvp m.avps
    × (m.cmd_code < 2 ^ 24)
    × (m.app_id < 2 ^ 32)
    × (m.hop_id < 2 ^ 32)
    × (m.end_id < 2 ^ 32)
    × (20 + length (avps_bytes m.avps) < 2 ^ 24)

abbrev message_bytes : Message → Bytes
message_bytes m =
    1
    ∷ bit_if m.request 128
    ∷ (u24 (20 + length (avps_bytes m.avps))
        ++ (u24 m.cmd_code
            ++ (u32 m.app_id ++ (u32 m.hop_id ++ (u32 m.end_id ++ avps_bytes m.avps)))))

to_bytes-message_bytes : (m : Message) → IsMessage m → to_bytes m ≡ ok (message_bytes m)
unfolding to_bytes
to_bytes-message_bytes m h =
    rw
      (
        encode_avps-avps_bytes m.avps h.0,
        packed_u24 (20 + length (avps_bytes m.avps)) h.5,
        packed_u24 m.cmd_code h.1,
        packed_u32 m.app_id h.2,
        packed_u32 m.hop_id h.3,
        packed_u32 m.end_id h.4,
      )
      refl

is_request : (b : Bool) → is_set (be_value 0 (bit_if b 128 ∷ [])) 128 ≡ b
unfolding be_value
is_request true = refl
is_request false = refl

not_short : (n : ℕ) → 20 ≤ n → ltb n 20 ≡ false
not_short n h = ground arith

room_lem : (l n k : ℕ) → l ≡ 20 + n → l ≤ k → min l k - 20 ≡ n
room_lem l n k h p = omega arith

from_bytes-message_bytes :
    (m : Message) (rest : Bytes) → IsMessage m → from_bytes (message_bytes m ++ rest) ≡ some (ok m)
unfolding from_bytes from_header u24 u32
from_bytes-message_bytes m rest h =
    let body = avps_bytes m.avps in
    let bytes = message_bytes m ++ rest in
    rw
      (
        not_short (length bytes) (omega arith),
        room_lem _ (length body) (length bytes) (u24-be_value (20 + length body) h.5)
            (omega (arith, length-append body rest)),
        u24-be_value m.cmd_code h.1,
        u32-be_value m.app_id h.2,
        u32-be_value m.hop_id h.3,
        u32-be_value m.end_id h.4,
        is_request m.request,
        decode_avps-avps_bytes m.avps rest (length body) h.0 (omega arith),
      )
      refl

-- A message whose numbers, AVPs and length fit is encoded, and read back whatever bytes follow it.
pub diameter_round_trip :
    (m : Message) (rest : Bytes)
    → IsMessage m
    → (bytes : Bytes) × (to_bytes m ≡ ok bytes) × (from_bytes (bytes ++ rest) ≡ some (ok m))
diameter_round_trip m rest h =
    (message_bytes m, to_bytes-message_bytes m h, from_bytes-message_bytes m rest h)

-- An answer is written, and read back.
pub reply_round_trip :
    (m : Message)
    → IsMessage m
    → (bytes : Bytes) × (reply m ≡ ok (some bytes)) × (from_bytes bytes ≡ some (ok m))
unfolding reply
reply_round_trip m h =
    let r = diameter_round_trip m [] h in
    (r.0, rw (r.1) refl, ap from_bytes (sym (append-nil r.0)) ∙ r.2)
