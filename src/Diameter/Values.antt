-- ===== src/Diameter/Values.antt =====
-- protocols/diameter.py: the AVPs that the helpers build, their sizes and what is read of them.
use v_epc_cups.Prelude.{
  ℕ, ◌+◌, ◌^◌, ◌<◌, ◌≤◌, ◌≡◌, refl, some, List, [], ◌∷◌, ◌++◌, length, length-append, arith,
}
use v_epc_cups.Prelude.Results.{ok}
use v_epc_cups.Bytes.{Bytes, u32, u32-field}
use v_epc_cups.Diameter.{Avp, pad, zeros, u24, avp, avp_u32, u32_of}
use v_epc_cups.Diameter.Framing.{
  IsAvp, avp_bytes, avp_length, vendor_bytes, length-vendor_bytes, length-zeros, packed_u32,
}
use v_epc_cups.Diameter.RoundTrip.{avps_bytes}

-- An AVP takes at most this many bytes.
abbrev pub room_of : Avp → ℕ
room_of a = 15 + length a.«data»

abbrev pub total : List Avp → ℕ
total [] = 0
total (a ∷ avps) = room_of a + total avps

pad_le : (n : ℕ) → pad n ≤ 3
unfolding pad
pad_le n = omega arith

length-avp_bytes_le : (a : Avp) → length (avp_bytes a) ≤ room_of a
unfolding u32 u24
length-avp_bytes_le a =
    let xs = vendor_bytes a.vendor ++ a.«data» in
    omega (
      arith,
      length-append xs (zeros (pad (avp_length a))),
      length-append (vendor_bytes a.vendor) a.«data»,
      length-vendor_bytes a.vendor,
      length-zeros (pad (avp_length a)),
      pad_le (avp_length a),
    )

pub length-avps_bytes : (avps : List Avp) → length (avps_bytes avps) ≤ total avps
length-avps_bytes [] = omega arith
length-avps_bytes (a ∷ avps) = omega (
  arith,
  length-append (avp_bytes a) (avps_bytes avps),
  length-avp_bytes_le a,
  length-avps_bytes avps,
)

pub avp-IsAvp :
    (code vendor : ℕ) (xs : Bytes)
    → code < 2 ^ 32
    → vendor < 2 ^ 32
    → 12 + length xs < 2 ^ 24
    → IsAvp (avp code xs vendor)
unfolding avp
avp-IsAvp code vendor xs hc hv hx = (hc, hv, hx)

pub avp_u32-avp :
    (code value vendor : ℕ)
    → value < 2 ^ 32
    → avp_u32 code value vendor ≡ ok (avp code (u32 value) vendor)
unfolding avp_u32
avp_u32-avp code value vendor h = rw (packed_u32 value h) refl

pub u32_of-avp :
    (code value vendor : ℕ) → value < 2 ^ 32 → u32_of (avp code (u32 value) vendor) ≡ some value
unfolding u32_of avp u32
u32_of-avp code value vendor h = u32-field value [] h

-- An AVP of a number.
abbrev pub number_avp : ℕ → ℕ → ℕ → Avp
number_avp code n vendor = avp code (u32 n) vendor

pub number_avp-IsAvp :
    (code n vendor : ℕ) → code < 2 ^ 32 → vendor < 2 ^ 32 → IsAvp (number_avp code n vendor)
unfolding u32
number_avp-IsAvp code n vendor hc hv = avp-IsAvp code vendor (u32 n) hc hv (omega arith)
