-- ===== src/Diameter/Framing.antt =====
-- protocols/diameter.py: one AVP is read back from its bytes.
use v_epc_cups.Prelude.{
  ℕ, zero, suc, ◌+◌, ◌-◌, ◌^◌, ◌<◌, ◌≤◌, ◌≡◌, refl, sym, ap, ap₂, ◌∙◌, inl, inr, Bool, true, false,
  some, [], ◌∷◌, ◌++◌, length, take, length-append, take-length-append, append_assoc, arith, lt→ltb,
  nat_beq, nat_beq_iff, Bool-cases, bit_or, if◌then◌else◌,
}
use v_epc_cups.Prelude.Results.{ok}
use v_epc_cups.Bytes.{Bytes, u32, be_value, field, u32-be_value}
use v_epc_cups.Diameter.{
  Avp, pack_u32, u24, pack_u24, pad, zeros, payload, bit_if, flags_of, encode, is_set, avp_at,
  vendor_of, decode,
}

-- An AVP whose numbers fit their fields.
abbrev pub IsAvp : Avp → Type 0
IsAvp a = (a.code < 2 ^ 32) × (a.vendor < 2 ^ 32) × (12 + length a.«data» < 2 ^ 24)

abbrev flag_byte : Bool → Bool → Bool → ℕ
flag_byte v m p = bit_or (bit_or (bit_if v 128) (bit_if m 64)) (bit_if p 32)

abbrev pub vendor_bytes : ℕ → Bytes
vendor_bytes vendor = if nat_beq vendor 0 then [] else u32 vendor

-- The payload's length, with the eight bytes before it.
abbrev pub avp_length : Avp → ℕ
avp_length a = 8 + length (vendor_bytes a.vendor ++ a.«data»)

abbrev pub avp_bytes : Avp → Bytes
avp_bytes a =
    u32 a.code
    ++ (flags_of a ∷ (u24 (avp_length a) ++ (vendor_bytes a.vendor ++ a.«data»)))
    ++ zeros (pad (avp_length a))

pub u24-be_value : (v : ℕ) → v < 2 ^ 24 → be_value 0 (u24 v) ≡ v
unfolding u24 be_value
u24-be_value v h = omega arith

pub length-zeros : (n : ℕ) → length (zeros n) ≡ n
length-zeros zero = refl
length-zeros (suc n) = ap suc (length-zeros n)

pub packed_u32 : (v : ℕ) → v < 2 ^ 32 → pack_u32 v ≡ ok (u32 v)
unfolding pack_u32
packed_u32 v h = rw (lt→ltb v (2 ^ 32) h) refl

pub packed_u24 : (v : ℕ) → v < 2 ^ 24 → pack_u24 v ≡ ok (u24 v)
unfolding pack_u24
packed_u24 v h = rw (lt→ltb v (2 ^ 24) h) refl

pub length-vendor_bytes : (v : ℕ) → length (vendor_bytes v) ≤ 4
unfolding u32
length-vendor_bytes v = ground arith

payload-vendor_bytes :
    (a : Avp) → a.vendor < 2 ^ 32 → payload a ≡ ok (vendor_bytes a.vendor ++ a.«data»)
unfolding payload
payload-vendor_bytes a h =
    rw (packed_u32 a.vendor h)
      elim (Bool-cases (nat_beq a.vendor 0)) [ inl p ↦ rw (p) refl | inr p ↦ rw (p) refl ]

pub encode-avp_bytes : (a : Avp) → IsAvp a → encode a ≡ ok (avp_bytes a)
unfolding encode u24 u32
encode-avp_bytes a h =
    rw
      (
        payload-vendor_bytes a h.1,
        packed_u32 a.code h.0,
        packed_u24 (8 + length (vendor_bytes a.vendor ++ a.«data»)) (
            omega (
              arith,
              length-append (vendor_bytes a.vendor) a.«data»,
              length-vendor_bytes a.vendor,
              h.2,
            )),
      )
      (ap
        (λ k. ok (
          u32 a.code
          ++ (flags_of a ∷ (u24 (avp_length a) ++ (vendor_bytes a.vendor ++ a.«data»)))
          ++ zeros (pad k)))
        (omega arith))

field4 :
    (a b c d : ℕ) (rest : Bytes)
    → field 4 (a ∷ b ∷ c ∷ d ∷ rest) ≡ some (be_value 0 (a ∷ b ∷ c ∷ d ∷ []))
unfolding field
field4 a b c d rest = ground arith

-- The AVP that is read, and where the next one starts.
abbrev read_avp : (code vendor : ℕ) (m p : Bool) → Bytes → ℕ → Avp × ℕ
read_avp code vendor m p xs n =
    (record { code = code; «data» = xs; vendor = vendor; mandatory = m; protected = p }, n + pad n)

take-value :
    (n k : ℕ) (xs zs rest : Bytes) → n ≡ k + length xs → take (n - k) ((xs ++ zs) ++ rest) ≡ xs
take-value n k xs zs rest h =
    rw (append_assoc xs zs rest)
      (ap (λ i. take i (xs ++ (zs ++ rest))) (omega arith) ∙ take-length-append xs (zs ++ rest))

flag_byte_lem :
    (v m p : Bool)
    → (is_set (flag_byte v m p) 128 ≡ v)
      × (is_set (flag_byte v m p) 64 ≡ m)
      × (is_set (flag_byte v m p) 32 ≡ p)
flag_byte_lem false false false = (refl, refl, refl)
flag_byte_lem false false true = (refl, refl, refl)
flag_byte_lem false true false = (refl, refl, refl)
flag_byte_lem false true true = (refl, refl, refl)
flag_byte_lem true false false = (refl, refl, refl)
flag_byte_lem true false true = (refl, refl, refl)
flag_byte_lem true true false = (refl, refl, refl)
flag_byte_lem true true true = (refl, refl, refl)

module _ (code : ℕ) (c₃ c₂ c₁ c₀ n l₂ l₁ l₀ : ℕ) (xs zs rest : Bytes) (m p : Bool)
    (hc : be_value 0 (c₃ ∷ c₂ ∷ c₁ ∷ c₀ ∷ []) ≡ code)
    (hl : be_value 0 (l₂ ∷ l₁ ∷ l₀ ∷ []) ≡ n) where
  decode-plain :
      n ≡ 8 + length xs
      → decode (c₃ ∷ c₂ ∷ c₁ ∷ c₀ ∷ flag_byte false m p ∷ l₂ ∷ l₁ ∷ l₀ ∷ ((xs ++ zs) ++ rest))
        ≡ ok (read_avp code 0 m p xs n)
  unfolding decode vendor_of avp_at
  decode-plain hn =
      let f = flag_byte_lem false m p in
      rw (field4, hc, hl, f.0, f.1, f.2, take-value n 8 xs zs rest hn) refl

  decode-with_vendor :
      (vendor v₃ v₂ v₁ v₀ : ℕ)
      → be_value 0 (v₃ ∷ v₂ ∷ v₁ ∷ v₀ ∷ []) ≡ vendor
      → n ≡ 12 + length xs
      → decode (
          c₃
          ∷ c₂
          ∷ c₁
          ∷ c₀
          ∷ flag_byte true m p
          ∷ l₂
          ∷ l₁
          ∷ l₀
          ∷ v₃
          ∷ v₂
          ∷ v₁
          ∷ v₀
          ∷ ((xs ++ zs) ++ rest))
        ≡ ok (read_avp code vendor m p xs n)
  unfolding decode vendor_of avp_at
  decode-with_vendor vendor v₃ v₂ v₁ v₀ hv hn =
      let f = flag_byte_lem true m p in
      rw
        (
          field4 c₃ c₂ c₁ c₀ _,
          field4 v₃ v₂ v₁ v₀ _,
          hc,
          hl,
          hv,
          f.0,
          f.1,
          f.2,
          take-value n 12 xs zs rest hn,
        )
        refl

length-padded : (n k l : ℕ) (xs : Bytes) → l ≡ n + length (xs ++ zeros k) → n + length xs + k ≡ l
length-padded n k l xs h = omega (arith, length-append xs (zeros k), length-zeros k)

-- An AVP is read back from its bytes, and its end is found, whatever follows.
pub decode-avp_bytes :
    (a : Avp) (rest : Bytes) → IsAvp a → decode (avp_bytes a ++ rest) ≡ ok (a, length (avp_bytes a))
unfolding u32 u24 flags_of
decode-avp_bytes a rest h =
    let xs = a.«data» in
    let m = a.mandatory in
    let p = a.protected in
    let hc = u32-be_value a.code h.0 in
    elim (Bool-cases (nat_beq a.vendor 0)) [
      | inl e ↦
          let n = 8 + length xs in
          rw (e) (
            decode-plain a.code _ _ _ _ n _ _ _ xs (zeros (pad n)) rest m p hc
              (u24-be_value n (omega (arith, h.2))) refl
            ∙ ap₂
                (λ v k. ok (
                  record { code = a.code; «data» = xs; vendor = v; mandatory = m; protected = p },
                  k,
                ))
                (sym ((nat_beq_iff a.vendor 0).0 e)) (length-padded 8 (pad n) _ xs (omega arith)))
      | inr e ↦
          let n = 8 + length (u32 a.vendor ++ xs) in
          rw (e) (
            decode-with_vendor a.code _ _ _ _ n _ _ _ xs (zeros (pad n)) rest m p hc
              (u24-be_value n (omega (arith, h.2))) a.vendor _ _ _ _ (u32-be_value a.vendor h.1)
              (omega arith)
            ∙ ap (λ k. ok (a, k)) (length-padded 8 (pad n) _ (u32 a.vendor ++ xs) (omega arith)))
    ]
