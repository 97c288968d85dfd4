-- ===== src/S1ap/RoundTrip.antt =====
-- What the S1AP codecs read back.
use native.Mathlib.Nat.{mod-eq_of_lt}
use v_epc_cups.Prelude.{◌^◌, ◌<◌, ◌≡◌, refl, List, [], ◌∷◌, ◌++◌, length, All, lt→ltb}
use v_epc_cups.Prelude.Results.{ok}
use v_epc_cups.Bytes.{Bytes, u8, u16, u32, inet_aton, u32-be_value}
use v_epc_cups.Tlv.Framing.{
  IsFramed, tlv_bytes, packed, encode_tlvs-tlv_bytes, decode_tlvs-tlv_bytes,
}
use v_epc_cups.S1ap.{Message, to_bytes, from_bytes, Erab, erab_setup, erab_list, decode_erab_list}

-- The fields fit: a one-byte identifier, IEs that fit, and a body whose length fits 16 bits.
pub record IsWire (m : Message) : Type 0 where
  pub msg_id_fits : m.msg_id < 2 ^ 8
  pub ies_fit : All IsFramed m.ies
  pub body_fits : length (tlv_bytes m.ies) < 2 ^ 16

-- A message whose fields fit is encoded, and read back from the bytes.
pub s1ap_round_trip :
    (m : Message) → IsWire m → (bytes : Bytes) × (to_bytes m ≡ ok bytes) × (from_bytes bytes ≡ ok m)
unfolding to_bytes from_bytes u16
s1ap_round_trip m w = (
  m.msg_id ∷ (u16 (length (tlv_bytes m.ies)) ++ tlv_bytes m.ies),
  rw
      (
        encode_tlvs-tlv_bytes m.ies w.ies_fit,
        packed m.msg_id (length (tlv_bytes m.ies)) w.msg_id_fits w.body_fits,
      )
      refl,
  rw (decode_tlvs-tlv_bytes m.ies w.ies_fit) refl,
)

abbrev pub FitsErab : Erab → Type 0
FitsErab e = (e.ebi < 2 ^ 8) × (e.teid < 2 ^ 32) × (e.ip < 2 ^ 32)

pub setup_lem : (e : Erab) → FitsErab e → erab_setup e ≡ ok (e.ebi ∷ (u32 e.teid ++ u32 e.ip))
unfolding erab_setup u8 inet_aton
setup_lem e h = rw (lt→ltb e.ebi (2 ^ 8) h.0, lt→ltb e.teid (2 ^ 32) h.1, mod-eq_of_lt h.0) refl

-- A list of E-RABs whose fields fit is encoded, and read back from the bytes.
pub erab_list_round_trip :
    (erabs : List Erab)
    → All FitsErab erabs
    → (bytes : Bytes) × (erab_list erabs ≡ ok bytes) × (decode_erab_list bytes ≡ erabs)
unfolding erab_list decode_erab_list
erab_list_round_trip [] h = ([], refl, refl)
erab_list_round_trip (e ∷ erabs) h =
    let (bytes, sent, seen) = erab_list_round_trip erabs h.1 in
    (
      e.ebi ∷ (u32 e.teid ++ u32 e.ip) ++ bytes,
      rw (setup_lem e h.0, sent) refl,
      unfold u32 in rw (u32-be_value e.teid h.0.1, u32-be_value e.ip h.0.2, seen) refl,
    )
