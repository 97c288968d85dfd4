-- ===== src/Pfcp/Message/RoundTrip.antt =====
-- A PFCP message survives the wire.
use v_epc_cups.Prelude.{
  ℕ, ◌+◌, ◌-◌, ◌*◌, ◌%◌, ◌^◌, ◌<◌, ◌≡◌, refl, ap, Bool, true, false, not, nat_beq, bit_and, List,
  [], ◌++◌, length, drop, take-length-append, All, if◌then◌else◌, arith, append_assoc,
}
use v_epc_cups.Prelude.Results.{ok}
use native.Mathlib.Nat.{mod-eq_of_lt}
use v_epc_cups.Bytes.{Bytes, u8, u16, u32, u64, u16-be_value, u32-field, u64-field}
use v_epc_cups.Pfcp.Ies.{encode_ies}
use v_epc_cups.Pfcp.Ies.Framing.{IsFramed, decode_ies-encode_ies}
use v_epc_cups.Pfcp.Message.{Message, flags_of, body, to_bytes, from_bytes, from_rest, from_seid}

-- The fields fit the header: a SEID only with its flag, a 24-bit sequence number, and a body whose
-- length fits 16 bits.
pub record IsWire (m : Message) : Type 0 where
  pub type_fits : m.msg_type < 2 ^ 8
  pub seid_fits : m.seid < 2 ^ 64
  pub seid_sent : m.has_seid ≡ false → m.seid ≡ 0
  pub seq_fits : m.seq < 2 ^ 24
  pub ies_fit : All IsFramed m.ies
  pub body_fits : length (encode_ies m.ies) + 12 < 2 ^ 16

drop_4 : (v : ℕ) (rest : Bytes) → drop 4 (u32 v ++ rest) ≡ rest
unfolding u32
drop_4 v rest = refl

length-sub : (a k n : ℕ) → n ≡ a + 4 + k → n - (k + 4) ≡ a
length-sub a k n e = omega arith

from_rest-body :
    (msg_type n skip seid seq : ℕ) (has_seid : Bool) (ies : List (ℕ × Bytes)) (rest : Bytes)
    → seq < 2 ^ 24
    → All IsFramed ies
    → n ≡ length (encode_ies ies) + 4 + skip
    → from_rest msg_type n skip seid has_seid
        (u32 (seq % 2 ^ 24 * 2 ^ 8) ++ (encode_ies ies ++ rest))
      ≡ ok (record { msg_type = msg_type; seid = seid; seq = seq; ies = ies; has_seid = has_seid })
unfolding from_rest
from_rest-body msg_type n skip seid seq has_seid ies rest hs framed e =
    rw
      (
        u32-field (seq % 2 ^ 24 * 2 ^ 8) (encode_ies ies ++ rest) (omega arith),
        drop_4,
        length-sub (length (encode_ies ies)) skip n e,
        take-length-append,
        decode_ies-encode_ies ies framed,
      )
      (ap
        (λ (k : ℕ).
          ok (record { msg_type = msg_type; seid = seid; seq = k; ies = ies; has_seid = has_seid }))
        (omega arith))

drop_8 : (v : ℕ) (rest : Bytes) → drop 8 (u64 v ++ rest) ≡ rest
unfolding u64
drop_8 v rest = refl

u64_length : (v : ℕ) (bs : Bytes) → length (u64 v ++ bs) ≡ length bs + 8
unfolding u64
u64_length v bs = omega arith

u32_length : (v : ℕ) (bs : Bytes) → length (u32 v ++ bs) ≡ length bs + 4
unfolding u32
u32_length v bs = omega arith

-- `from_seid` on the body, for either value of the flag.
from_seid-body :
    (t seid seq n : ℕ) (has_seid : Bool) (ies : List (ℕ × Bytes)) (rest : Bytes)
    → seid < 2 ^ 64
    → (has_seid ≡ false → seid ≡ 0)
    → seq < 2 ^ 24
    → All IsFramed ies
    → n ≡ length (encode_ies ies) + (if has_seid then 12 else 4)
    → from_seid t n has_seid (
        (if has_seid then u64 seid else [])
        ++ (u32 (seq % 2 ^ 24 * 2 ^ 8) ++ (encode_ies ies ++ rest)))
      ≡ ok (record { msg_type = t; seid = seid; seq = seq; ies = ies; has_seid = has_seid })
unfolding from_seid
from_seid-body t seid seq n true ies rest hd none_sent hs framed e =
    rw (u64-field seid (u32 (seq % 2 ^ 24 * 2 ^ 8) ++ (encode_ies ies ++ rest)) hd, drop_8)
      (from_rest-body t n 8 seid seq true ies rest hs framed (omega arith))
from_seid-body t seid seq n false ies rest hd none_sent hs framed e =
    rw (none_sent refl) (from_rest-body t n 0 0 seq false ies rest hs framed (omega arith))

flag_read : (h : Bool) → not (nat_beq (bit_and (flags_of h % 256) 0x01) 0) ≡ h
flag_read true = refl
flag_read false = refl

header_length :
    (h : Bool) (seid seq : ℕ) (bs : Bytes)
    → length ((if h then u64 seid else []) ++ u32 seq ++ bs) ≡ length bs + (if h then 12 else 4)
unfolding u64 u32
header_length true seid seq bs = omega arith
header_length false seid seq bs = omega arith

body_fits_lem : (h : Bool) (n : ℕ) → n + 12 < 2 ^ 16 → n + (if h then 12 else 4) < 2 ^ 16
body_fits_lem true n p = p
body_fits_lem false n p = omega arith

-- The length that the header announces.
length-body :
    (m : Message) → length (body m) ≡ length (encode_ies m.ies) + (if m.has_seid then 12 else 4)
unfolding body
length-body m = header_length m.has_seid m.seid (m.seq % 2 ^ 24 * 2 ^ 8) (encode_ies m.ies)

body-append :
    (m : Message) (rest : Bytes)
    → body m ++ rest
      ≡ (if m.has_seid then u64 m.seid else [])
        ++ (u32 (m.seq % 2 ^ 24 * 2 ^ 8) ++ (encode_ies m.ies ++ rest))
unfolding body
body-append m rest = simp append_assoc

-- `from_bytes` reads back every message that fits its header from what `to_bytes` wrote, and
-- ignores bytes that follow it.
pub message_round_trip :
    (m : Message) (rest : Bytes) → IsWire m → from_bytes (to_bytes m ++ rest) ≡ ok m
unfolding from_bytes to_bytes u8 u16
message_round_trip m rest w =
    rw
      (
        u16-be_value (length (body m))
            (rw (length-body m) (body_fits_lem m.has_seid _ w.body_fits)),
        flag_read m.has_seid,
        length-body m,
        mod-eq_of_lt w.type_fits,
        body-append m rest,
      )
      (from_seid-body m.msg_type m.seid m.seq _ m.has_seid m.ies rest w.seid_fits w.seid_sent
        w.seq_fits w.ies_fit refl)
