-- ===== src/GtpC/BearerRoundTrip.antt =====
-- What is read back of a Bearer Context.
use mathlib.Core.Option
use v_epc_cups.Prelude.{
  ℕ, ◌%◌, ◌^◌, ◌<◌, ◌≤◌, ◌≡◌, refl, sym, ap, ◌∙◌, Option, none, some, List, [], ◌∷◌, append-nil,
  length, All, arith,
}
use v_epc_cups.Prelude.Results.{Result, ok, ◌>>=◌}
use v_epc_cups.Bytes.{Bytes, Ip, u8, u16, u32, inet_aton, u8-field, u32-field, field}
use v_epc_cups.Tlv.Framing.{IsFramed, tlv_bytes, encode_tlvs-tlv_bytes, decode_tlvs-tlv_bytes}
use v_epc_cups.GtpC.Bearer.{
  FTeid, Bearer, ie_f_teid, ie_charging_id, f_teid_value, decode_f_teid, bearer_kids,
  bearer_context, bearer_step, read_kids, decode_bearer_context,
}
use v_epc_cups.GtpC.Contexts.{decode_f_teid-f_teid_value}

-- Numbers that fit their fields, where they are given.
abbrev pub FitsIn : ℕ → Option ℕ → Type 0
FitsIn w none = Unit
FitsIn w (some n) = n < 2 ^ w

abbrev pub FitsTunnel : Option (ℕ × Ip × ℕ) → Type 0
FitsTunnel none = Unit
FitsTunnel (some f) = (f.0 < 2 ^ 32) × (f.1 < 2 ^ 32)

-- What is read of a tunnel: the low six bits of its interface type.
abbrev pub read_tunnel : ℕ × Ip × ℕ → FTeid
read_tunnel f = record { teid = f.0; ip = some f.1; iface = f.2 % 2 ^ 6 }

-- The arguments of ie_bearer_context.
pub record Arguments : Type 0 where
  pub ebi : ℕ
  pub f_teid : Option (ℕ × Ip × ℕ)
  pub cause : Option ℕ
  pub charging_id : Option ℕ

abbrev pub AreFitting : Arguments → Type 0
AreFitting a = (a.ebi < 2 ^ 8) × FitsTunnel a.f_teid × FitsIn 8 a.cause × FitsIn 32 a.charging_id

abbrev pub context_bytes : Arguments → Bytes
unfolding bearer_kids
context_bytes a = tlv_bytes (bearer_kids a.ebi a.f_teid a.cause a.charging_id)

kids-IsFramed :
    (ebi : ℕ) (f : Option (ℕ × Ip × ℕ)) (cause charging_id : Option ℕ)
    → All IsFramed (bearer_kids ebi f cause charging_id)
      × (length (tlv_bytes (bearer_kids ebi f cause charging_id)) ≤ 27)
unfolding bearer_kids f_teid_value u8 u16 u32 inet_aton
kids-IsFramed ebi none none none = (omega arith, omega arith)
kids-IsFramed ebi none none (some n) = (omega arith, omega arith)
kids-IsFramed ebi none (some c) none = (omega arith, omega arith)
kids-IsFramed ebi none (some c) (some n) = (omega arith, omega arith)
kids-IsFramed ebi (some f) none none = (omega arith, omega arith)
kids-IsFramed ebi (some f) none (some n) = (omega arith, omega arith)
kids-IsFramed ebi (some f) (some c) none = (omega arith, omega arith)
kids-IsFramed ebi (some f) (some c) (some n) = (omega arith, omega arith)

one_byte : (v : ℕ) → v < 2 ^ 8 → field 1 (u8 v) ≡ some v
unfolding u8
one_byte v h = u8-field v [] h

pub one_word : (v : ℕ) → v < 2 ^ 32 → field 4 (u32 v) ≡ some v
unfolding u32
one_word v h = u32-field v [] h

pub one_tunnel :
    (f : ℕ × Ip × ℕ)
    → FitsTunnel (some f)
    → decode_f_teid (f_teid_value f.0 f.1 f.2) ≡ ok (read_tunnel f)
one_tunnel f h =
    ap decode_f_teid (sym (append-nil (f_teid_value f.0 f.1 f.2)))
    ∙ decode_f_teid-f_teid_value f.0 f.1 f.2 [] h.0 h.1

tunnel_kid :
    (b : Bearer) (f : ℕ × Ip × ℕ) (kids : List (ℕ × Bytes))
    → FitsTunnel (some f)
    → read_kids b ((ie_f_teid, f_teid_value f.0 f.1 f.2) ∷ kids)
      ≡ read_kids (record b { f_teid = some (read_tunnel f) }) kids
unfolding read_kids f_teid_value
tunnel_kid b f kids h =
    ap (λ (r : Result FTeid). r >>= λ t. read_kids (record b { f_teid = some t }) kids)
      (one_tunnel f h)

abbrev before_tunnel : ℕ → Option ℕ → Bearer
before_tunnel ebi cause = record {
  ebi = some ebi;
  f_teid = none;
  cause = cause;
  charging_id = none;
}

read_kids-bearer_kids :
    (ebi : ℕ) (f : Option (ℕ × Ip × ℕ)) (cause charging_id : Option ℕ)
    → ebi < 2 ^ 8
    → FitsTunnel f
    → FitsIn 8 cause
    → FitsIn 32 charging_id
    → read_kids
        (record { ebi = none; f_teid = none; cause = none; charging_id = none })
        (bearer_kids ebi f cause charging_id)
      ≡ ok (record {
        ebi = some ebi;
        f_teid = Option.map read_tunnel f;
        cause = cause;
        charging_id = charging_id;
      })
unfolding read_kids bearer_step bearer_kids
read_kids-bearer_kids ebi none none none he hf hc hn = rw (one_byte ebi he) refl
read_kids-bearer_kids ebi none none (some n) he hf hc hn = rw (one_byte ebi he, one_word n hn) refl
read_kids-bearer_kids ebi none (some c) none he hf hc hn = rw (one_byte ebi he, one_byte c hc) refl
read_kids-bearer_kids ebi none (some c) (some n) he hf hc hn =
    rw (one_byte ebi he, one_byte c hc, one_word n hn) refl
read_kids-bearer_kids ebi (some f) none none he hf hc hn =
    rw (one_byte ebi he) (tunnel_kid (before_tunnel ebi none) f [] hf)
read_kids-bearer_kids ebi (some f) none (some n) he hf hc hn = rw (one_byte ebi he) (
    tunnel_kid (before_tunnel ebi none) f ((ie_charging_id, u32 n) ∷ []) hf
    ∙ rw (one_word n hn) refl)
read_kids-bearer_kids ebi (some f) (some c) none he hf hc hn =
    rw (one_byte ebi he, one_byte c hc) (tunnel_kid (before_tunnel ebi (some c)) f [] hf)
read_kids-bearer_kids ebi (some f) (some c) (some n) he hf hc hn =
    rw (one_byte ebi he, one_byte c hc)
      (tunnel_kid (before_tunnel ebi (some c)) f ((ie_charging_id, u32 n) ∷ []) hf
        ∙ rw (one_word n hn) refl)

-- A Bearer Context whose numbers fit, with or without a tunnel, a cause and a charging id, takes at most
-- 27 bytes, and each of them is read back, of the interface type the low six bits.
pub bearer_round_trip :
    (a : Arguments)
    → AreFitting a
    → (bytes : Bytes) × (bearer_context a.ebi a.f_teid a.cause a.charging_id ≡ ok bytes)
      × (length bytes ≤ 27)
      × (decode_bearer_context bytes
          ≡ ok (record {
            ebi = some a.ebi;
            f_teid = Option.map read_tunnel a.f_teid;
            cause = a.cause;
            charging_id = a.charging_id;
          }))
unfolding bearer_context decode_bearer_context
bearer_round_trip a h =
    let framed = kids-IsFramed a.ebi a.f_teid a.cause a.charging_id in
    (
      context_bytes a,
      encode_tlvs-tlv_bytes (bearer_kids a.ebi a.f_teid a.cause a.charging_id) framed.0,
      framed.1,
      rw (decode_tlvs-tlv_bytes (bearer_kids a.ebi a.f_teid a.cause a.charging_id) framed.0)
          (read_kids-bearer_kids a.ebi a.f_teid a.cause a.charging_id h.0 h.1 h.2 h.3),
    )
