-- ===== src/Tlv/Framing.antt =====
-- What the TLV loop reads back.
use v_epc_cups.Prelude.{
  ℕ, zero, suc, ◌+◌, ◌-◌, ◌*◌, ◌/◌, ◌%◌, ◌^◌, ◌≤◌, ◌<◌, ◌≡◌, refl, ap, ◌∙◌, sym, List, [], ◌∷◌,
  ◌++◌, append-nil, append_assoc, length, length-append, take-length-append, drop-length-append,
  All, arith, lt→ltb,
}
use native.Mathlib.Nat.{mod-eq_of_lt}
use v_epc_cups.Prelude.Results.{ok}
use v_epc_cups.Bytes.{Bytes, u8, u16}
use v_epc_cups.Tlv.{pack_head, encode_tlvs, decode_tlvs_loop, decode_tlvs}

-- A type and a value that fit their fields.
abbrev pub IsFramed : ℕ × Bytes → Type 0
IsFramed (t, v) = (t < 2 ^ 8) × (length v < 2 ^ 16)

-- The bytes of IEs that fit.
abbrev pub tlv_bytes : List (ℕ × Bytes) → Bytes
tlv_bytes [] = []
tlv_bytes ((t, v) ∷ ies) = t ∷ (u16 (length v) ++ (v ++ tlv_bytes ies))

pub packed : (t n : ℕ) → t < 2 ^ 8 → n < 2 ^ 16 → pack_head t n ≡ ok (t ∷ u16 n)
unfolding pack_head u8
packed t n ht hn = rw (lt→ltb t (2 ^ 8) ht, lt→ltb n (2 ^ 16) hn, mod-eq_of_lt ht) refl

pub encode_tlvs-tlv_bytes :
    (ies : List (ℕ × Bytes)) → All IsFramed ies → encode_tlvs ies ≡ ok (tlv_bytes ies)
unfolding encode_tlvs
encode_tlvs-tlv_bytes [] h = refl
encode_tlvs-tlv_bytes ((t, v) ∷ ies) h =
    rw (packed t (length v) h.0.0 h.0.1, encode_tlvs-tlv_bytes ies h.1) refl

two_bytes : (n : ℕ) → n < 2 ^ 16 → (0 + n / 256 % 256) * 256 + n % 256 ≡ n
two_bytes n h = omega arith

no_room : (fuel : ℕ) (bytes : Bytes) → decode_tlvs_loop fuel 0 bytes ≡ []
unfolding decode_tlvs_loop
no_room zero bytes = refl
no_room (suc fuel) [] = refl
no_room (suc fuel) (a ∷ []) = refl
no_room (suc fuel) (a ∷ b ∷ []) = refl
no_room (suc fuel) (a ∷ b ∷ c ∷ rest) = refl

-- IEs that fit are read back from their bytes, if the room is theirs, whatever follows.
pub decode_tlvs_loop-tlv_bytes :
    (ies : List (ℕ × Bytes)) (fuel : ℕ) (rest : Bytes)
    → All IsFramed ies
    → length (tlv_bytes ies) ≤ fuel
    → decode_tlvs_loop fuel (length (tlv_bytes ies)) (tlv_bytes ies ++ rest) ≡ ies
unfolding decode_tlvs_loop u16
decode_tlvs_loop-tlv_bytes [] fuel rest h p = no_room fuel rest
decode_tlvs_loop-tlv_bytes ((t, v) ∷ ies) zero rest h p = absurd (unfold u16 in omega arith)
decode_tlvs_loop-tlv_bytes ((t, v) ∷ ies) (suc fuel) rest h p =
    let after : suc (suc (suc (length (v ++ tlv_bytes ies)))) - (3 + length v)
        ≡ length (tlv_bytes ies) =
      omega (arith, length-append v (tlv_bytes ies)) in
    rw
      (
        two_bytes (length v) h.0.1,
        after,
        append_assoc v (tlv_bytes ies) rest,
        take-length-append,
        drop-length-append,
      )
      (ground (
        arith,
        decode_tlvs_loop-tlv_bytes ies fuel rest h.1
            (omega (arith, length-append v (tlv_bytes ies))),
      ))

pub decode_tlvs-tlv_bytes :
    (ies : List (ℕ × Bytes))
    → All IsFramed ies
    → decode_tlvs (length (tlv_bytes ies)) (tlv_bytes ies) ≡ ies
unfolding decode_tlvs
decode_tlvs-tlv_bytes ies h =
    ap (decode_tlvs_loop (length (tlv_bytes ies)) (length (tlv_bytes ies)))
      (sym (append-nil (tlv_bytes ies)))
    ∙ decode_tlvs_loop-tlv_bytes ies (length (tlv_bytes ies)) [] h (omega arith)

-- The bytes that IEs take.
abbrev pub tlv_size : List (ℕ × Bytes) → ℕ
tlv_size [] = 0
tlv_size ((t, v) ∷ ies) = 3 + length v + tlv_size ies

pub length-tlv_bytes : (ies : List (ℕ × Bytes)) → length (tlv_bytes ies) ≡ tlv_size ies
unfolding u16
length-tlv_bytes [] = refl
length-tlv_bytes ((t, v) ∷ ies) =
    omega (arith, length-append v (tlv_bytes ies), length-tlv_bytes ies)
