-- ===== src/GtpC/RoundTrip.antt =====
-- What the GTPv2-C message codec reads back.
use native.Mathlib.Nat.{mod-eq_of_lt}
use v_epc_cups.Prelude.{
  ℕ, ◌+◌, ◌-◌, ◌*◌, ◌/◌, ◌%◌, ◌^◌, ◌<◌, ◌≡◌, refl, Bool-cases, inl, inr, Bool, true, false, not,
  List, [], ◌++◌, append_assoc, length, length-append, drop, nat_beq, bit_and, ltb, All, arith,
  if◌then◌else◌, ap, sym, ◌∙◌, append-nil,
}
use v_epc_cups.Prelude.Results.{ok}
use v_epc_cups.Bytes.{Bytes, u8, u16, u32, u16-be_value, u32-field}
use v_epc_cups.Tlv.{decode_tlvs}
use v_epc_cups.Tlv.Framing.{IsFramed, tlv_bytes, encode_tlvs-tlv_bytes, decode_tlvs_loop-tlv_bytes}
use v_epc_cups.GtpC.{Message, flags_of, payload_of, to_bytes, from_seq, from_teid, from_bytes}

-- The fields fit the header: a TEID only with its flag, a 24-bit sequence number, and a payload whose
-- length fits 16 bits.
pub record IsWire (m : Message) : Type 0 where
  pub type_fits : m.msg_type < 2 ^ 8
  pub teid_fits : m.teid < 2 ^ 32
  pub teid_sent : m.has_teid ≡ false → m.teid ≡ 0
  pub seq_fits : m.seq < 2 ^ 24
  pub ies_fit : All IsFramed m.ies
  pub body_fits : length (tlv_bytes m.ies) + 8 < 2 ^ 16

drop_word : (v : ℕ) (rest : Bytes) → drop 4 (u32 v ++ rest) ≡ rest
unfolding u32
drop_word v rest = refl

-- The IEs and what follows them, with the room of the IEs.
read_tlvs :
    (ies : List (ℕ × Bytes)) (rest : Bytes)
    → All IsFramed ies
    → decode_tlvs (length (tlv_bytes ies)) (tlv_bytes ies ++ rest) ≡ ies
unfolding decode_tlvs
read_tlvs ies rest h =
    decode_tlvs_loop-tlv_bytes ies _ rest h (omega (arith, length-append (tlv_bytes ies) rest))

module _ (ies : List (ℕ × Bytes)) (seq : ℕ) (rest : Bytes) (hs : seq < 2 ^ 24)
    (hi : All IsFramed ies) where
  from_seq-words :
      (msg_type room used teid : ℕ) (has_teid : Bool)
      → room ≡ used + 4 + length (tlv_bytes ies)
      → from_seq msg_type room used teid has_teid
          (u32 (seq % 2 ^ 24 * 2 ^ 8) ++ (tlv_bytes ies ++ rest))
        ≡ ok
            (record { msg_type = msg_type; teid = teid; seq = seq; has_teid = has_teid; ies = ies })
  unfolding from_seq
  from_seq-words msg_type room used teid has_teid e =
      let word : seq % 2 ^ 24 * 2 ^ 8 / 2 ^ 8 ≡ seq = omega arith in
      let left : room - (used + 4) ≡ length (tlv_bytes ies) = omega arith in
      rw
        (
          u32-field (seq % 2 ^ 24 * 2 ^ 8) (tlv_bytes ies ++ rest) (omega arith),
          drop_word (seq % 2 ^ 24 * 2 ^ 8) (tlv_bytes ies ++ rest),
          left,
          read_tlvs ies rest hi,
          word,
        )
        refl

  from_teid-words :
      (msg_type room teid : ℕ) (has_teid : Bool)
      → teid < 2 ^ 32
      → (has_teid ≡ false → teid ≡ 0)
      → room ≡ length (if has_teid then u32 teid else []) + 4 + length (tlv_bytes ies)
      → from_teid msg_type room has_teid (
          (if has_teid then u32 teid else [])
          ++ (u32 (seq % 2 ^ 24 * 2 ^ 8) ++ (tlv_bytes ies ++ rest)))
        ≡ ok
            (record { msg_type = msg_type; teid = teid; seq = seq; has_teid = has_teid; ies = ies })
  unfolding from_teid
  from_teid-words msg_type room teid true ht sent e =
      let others = u32 (seq % 2 ^ 24 * 2 ^ 8) ++ (tlv_bytes ies ++ rest) in
      rw (u32-field teid others ht, drop_word teid others)
        (from_seq-words msg_type room 4 teid true (unfold u32 in e))
  from_teid-words msg_type room teid false ht sent e =
      rw (sent refl) (from_seq-words msg_type room 0 0 false e)

length-payload_of :
    (m : Message) (body : Bytes)
    → length (payload_of m body) ≡ length (if m.has_teid then u32 m.teid else []) + 4 + length body
unfolding payload_of u32
length-payload_of m body = elim (Bool-cases m.has_teid) [
  | inl e ↦ rw e (omega arith)
  | inr e ↦ rw e (omega arith)
]

prefix_fits :
    (h : Bool) (teid n : ℕ) → n + 8 < 2 ^ 16 → length (if h then u32 teid else []) + 4 + n < 2 ^ 16
unfolding u32
prefix_fits true teid n p = omega arith
prefix_fits false teid n p = omega arith

payload_of-append :
    (m : Message) (body rest : Bytes)
    → payload_of m body ++ rest
      ≡ (if m.has_teid then u32 m.teid else []) ++ (u32 (m.seq % 2 ^ 24 * 2 ^ 8) ++ (body ++ rest))
unfolding payload_of
payload_of-append m body rest = simp append_assoc

flag_read : (h : Bool) → not (nat_beq (bit_and (flags_of h % 256) 0x08) 0) ≡ h
flag_read true = refl
flag_read false = refl

-- The bytes of a message whose IEs fit.
wire : Message → Bytes
wire m =
    u8 (flags_of m.has_teid)
    ++ u8 m.msg_type
    ++ u16 (length (payload_of m (tlv_bytes m.ies)))
    ++ payload_of m (tlv_bytes m.ies)

read_wire : (m : Message) (rest : Bytes) → IsWire m → from_bytes (wire m ++ rest) ≡ ok m
unfolding wire from_bytes u8 u16
read_wire m rest w =
    let n = length-payload_of m (tlv_bytes m.ies) in
    let fits = prefix_fits m.has_teid m.teid (length (tlv_bytes m.ies)) w.body_fits in
    let long : ltb (length (payload_of m (tlv_bytes m.ies) ++ rest)) 4 ≡ false =
      ground (arith, length-append (payload_of m (tlv_bytes m.ies)) rest, n) in
    rw
      (
        long,
        u16-be_value (length (payload_of m (tlv_bytes m.ies))) (omega (arith, n, fits)),
        flag_read m.has_teid,
        mod-eq_of_lt w.type_fits,
        payload_of-append m (tlv_bytes m.ies) rest,
      )
      (from_teid-words m.ies m.seq rest w.seq_fits w.ies_fit m.msg_type _ m.teid m.has_teid
        w.teid_fits w.teid_sent n)

-- A message whose fields fit is encoded, and read back from the bytes, whatever follows them.
pub gtp_c_round_trip :
    (m : Message) (rest : Bytes)
    → IsWire m
    → (bytes : Bytes) × (to_bytes m ≡ ok bytes) × (from_bytes (bytes ++ rest) ≡ ok m)
unfolding to_bytes wire
gtp_c_round_trip m rest w =
    (wire m, rw (encode_tlvs-tlv_bytes m.ies w.ies_fit) refl, read_wire m rest w)

-- The same with nothing after it.
pub sent_message :
    (m : Message) → IsWire m → (bytes : Bytes) × (to_bytes m ≡ ok bytes) × (from_bytes bytes ≡ ok m)
sent_message m w =
    let r = gtp_c_round_trip m [] w in (r.0, r.1, ap from_bytes (sym (append-nil r.0)) ∙ r.2)
