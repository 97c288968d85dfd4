-- ===== src/Nas/RoundTrip.antt =====
-- What the NAS codecs read back.
use native.Mathlib.Nat.{mod-eq_of_lt}
use v_epc_cups.Prelude.{
  ℕ, zero, suc, ◌*◌, ◌/◌, ◌%◌, ◌^◌, ◌<◌, ◌≤◌, ◌≡◌, refl, ap, List, [], ◌∷◌, ◌++◌, length,
  length-append, take-length-append, drop-length-append, All, arith, lt→ltb, bit_or,
}
use v_epc_cups.Prelude.Bits.{bit_or-shifted}
use v_epc_cups.Prelude.Results.{ok}
use v_epc_cups.Bytes.{Bytes, u8}
use v_epc_cups.Nas.{
  Message, pack_pair, encode_ies, to_bytes, decode_ies_loop, from_bytes, bcd_encode, bcd_decode,
  cons_stripped,
}

-- A type and a value that fit their bytes.
abbrev pub IsFramed : ℕ × Bytes → Type 0
IsFramed (t, v) = (t < 2 ^ 8) × (length v < 2 ^ 8)

abbrev pub ies_bytes : List (ℕ × Bytes) → Bytes
ies_bytes [] = []
ies_bytes ((t, v) ∷ ies) = t ∷ length v ∷ (v ++ ies_bytes ies)

packed : (t n : ℕ) → t < 2 ^ 8 → n < 2 ^ 8 → pack_pair t n ≡ ok (t ∷ n ∷ [])
unfolding pack_pair u8
packed t n ht hn =
    rw (lt→ltb t (2 ^ 8) ht, lt→ltb n (2 ^ 8) hn, mod-eq_of_lt ht, mod-eq_of_lt hn) refl

encode_ies-ies_bytes :
    (ies : List (ℕ × Bytes)) → All IsFramed ies → encode_ies ies ≡ ok (ies_bytes ies)
unfolding encode_ies
encode_ies-ies_bytes [] h = refl
encode_ies-ies_bytes ((t, v) ∷ ies) h =
    rw (packed t (length v) h.0.0 h.0.1, encode_ies-ies_bytes ies h.1) refl

decode_ies_loop-ies_bytes :
    (ies : List (ℕ × Bytes)) (fuel : ℕ)
    → length (ies_bytes ies) ≤ fuel
    → decode_ies_loop fuel (ies_bytes ies) ≡ ies
unfolding decode_ies_loop
decode_ies_loop-ies_bytes [] zero p = refl
decode_ies_loop-ies_bytes [] (suc fuel) p = refl
decode_ies_loop-ies_bytes ((t, v) ∷ ies) zero p = absurd (omega arith)
decode_ies_loop-ies_bytes ((t, v) ∷ ies) (suc fuel) p =
    rw (take-length-append, drop-length-append)
      (ap (◌∷◌ (t, v))
        (decode_ies_loop-ies_bytes ies fuel (omega (arith, length-append v (ies_bytes ies)))))

-- The bytes of a message, and what is read of them.
pub to_bytes-ies_bytes :
    (m : Message)
    → m.msg_type < 2 ^ 8
    → All IsFramed m.ies
    → to_bytes m ≡ ok (m.msg_type ∷ ies_bytes m.ies)
unfolding to_bytes u8
to_bytes-ies_bytes m ht h =
    rw (encode_ies-ies_bytes m.ies h, lt→ltb m.msg_type (2 ^ 8) ht, mod-eq_of_lt ht) refl

pub from_bytes-ies_bytes : (m : Message) → from_bytes (m.msg_type ∷ ies_bytes m.ies) ≡ ok m
unfolding from_bytes
from_bytes-ies_bytes m =
    rw (decode_ies_loop-ies_bytes m.ies (length (ies_bytes m.ies)) (omega arith)) refl

-- A message whose type and IEs fit is encoded, and read back from the bytes.
pub nas_round_trip :
    (m : Message)
    → m.msg_type < 2 ^ 8
    → All IsFramed m.ies
    → (bytes : Bytes) × (to_bytes m ≡ ok bytes) × (from_bytes bytes ≡ ok m)
nas_round_trip m ht h =
    (m.msg_type ∷ ies_bytes m.ies, to_bytes-ies_bytes m ht h, from_bytes-ies_bytes m)

-- What stripping leaves of a byte's two digits, when what follows keeps its own.
kept : (a : ℕ) (digits : List ℕ) → a < 15 → cons_stripped a digits ≡ a ∷ digits
kept a [] h = ground arith
kept a (e ∷ digits) h = refl

-- The two digits of a byte.
low : (a b : ℕ) → a < 15 → bit_or (b * 2 ^ 4) a % 16 ≡ a
low a b h = omega (arith, bit_or-shifted 4 b a (omega arith))

high : (a b : ℕ) → a < 15 → bit_or (b * 2 ^ 4) a / 16 ≡ b
high a b h = omega (arith, bit_or-shifted 4 b a (omega arith))

-- A string of digits below "F" is packed, and unpacked to itself.
pub bcd_round_trip :
    (digits : List ℕ) → All (λ d. d < 15) digits → bcd_decode (bcd_encode digits) ≡ digits
unfolding bcd_decode bcd_encode
bcd_round_trip [] h = refl
bcd_round_trip (a ∷ []) h = rw (low a 15 h.0, high a 15 h.0) (kept a [] h.0)
bcd_round_trip (a ∷ b ∷ digits) h =
    rw (low a b h.0, high a b h.0, bcd_round_trip digits h.1.1, kept b digits h.1.0)
      (kept a (b ∷ digits) h.0)
