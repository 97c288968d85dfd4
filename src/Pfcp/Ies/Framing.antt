-- ===== src/Pfcp/Ies/Framing.antt =====
-- What the TLV loops read back, and that their fuel is enough.
use v_epc_cups.Prelude.{
  ℕ, zero, suc, ◌+◌, ◌*◌, ◌/◌, ◌%◌, ◌^◌, ◌≤◌, ◌<◌, ◌≡◌, refl, sym, ap, ◌∙◌, List, [], ◌∷◌, ◌++◌,
  length, length-append, length-drop, length-take, take, take-length-append, drop,
  drop-length-append, All, arith, if◌then◌else◌,
}
use v_epc_cups.Bytes.{Bytes, u16, be_value}
use v_epc_cups.Pfcp.Types.{grouped}
use v_epc_cups.Pfcp.Ies.{
  encode_ie, encode_ies, decode_ies_loop, decode_ies, Ies, nil, cons, with_children, decode_nested,
  decode_ies_recursive, for_ies,
}

-- More fuel than bytes changes nothing.
decode_ies_loop_fuel :
    (f g : ℕ) (bytes : Bytes)
    → length bytes ≤ f
    → length bytes ≤ g
    → decode_ies_loop f bytes ≡ decode_ies_loop g bytes
unfolding decode_ies_loop
decode_ies_loop_fuel (suc f) (suc g) (a ∷ b ∷ c ∷ d ∷ rest) p q =
    let l = be_value 0 (c ∷ d ∷ []) in
    ap (◌∷◌ (be_value 0 (a ∷ b ∷ []), take l rest)) (
      decode_ies_loop_fuel f g (drop l rest) (omega (arith, length-drop l rest))
        (omega (arith, length-drop l rest)))
decode_ies_loop_fuel zero zero bytes p q = refl
decode_ies_loop_fuel zero (suc g) [] p q = refl
decode_ies_loop_fuel zero (suc g) (a ∷ bytes) p q = absurd (omega arith)
decode_ies_loop_fuel (suc f) zero [] p q = refl
decode_ies_loop_fuel (suc f) zero (a ∷ bytes) p q = absurd (omega arith)
decode_ies_loop_fuel (suc f) (suc g) [] p q = refl
decode_ies_loop_fuel (suc f) (suc g) (a ∷ []) p q = refl
decode_ies_loop_fuel (suc f) (suc g) (a ∷ b ∷ []) p q = refl
decode_ies_loop_fuel (suc f) (suc g) (a ∷ b ∷ c ∷ []) p q = refl

two_bytes : (v : ℕ) → v < 2 ^ 16 → (0 + v / 256 % 256) * 256 + v % 256 ≡ v
two_bytes v h = omega arith

-- An encoded IE in front of `rest` is read back whole, and the loop goes on with `rest`.
pub decode_ies-encode_ie :
    (t : ℕ) (v rest : Bytes)
    → t < 2 ^ 16
    → length v < 2 ^ 16
    → decode_ies (encode_ie t v ++ rest) ≡ (t, v) ∷ decode_ies rest
unfolding decode_ies encode_ie u16
decode_ies-encode_ie t v rest ht hv =
    rw (two_bytes t ht, two_bytes (length v) hv, take-length-append, drop-length-append)
      (ap (◌∷◌ (t, v)) (
        decode_ies_loop_fuel (suc (suc (suc (length (v ++ rest))))) (length rest) rest
          (omega (arith, length-append v rest)) (omega arith)))

-- The value of each IE that the loop returns is shorter than the bytes read by four at least.
abbrev FitsIn : ℕ → ℕ × Bytes → Type 0
FitsIn n (t, v) = length v + 4 ≤ n

All-mono : (m n : ℕ) (ies : List (ℕ × Bytes)) → m ≤ n → All (FitsIn m) ies → All (FitsIn n) ies
All-mono m n [] le fit = tt
All-mono m n (ie ∷ ies) le fit = (omega arith, All-mono m n ies le fit.1)

decode_ies_loop-FitsIn :
    (f : ℕ) (bytes : Bytes) → All (FitsIn (length bytes)) (decode_ies_loop f bytes)
unfolding decode_ies_loop
decode_ies_loop-FitsIn (suc f) (a ∷ b ∷ c ∷ d ∷ rest) =
    let l = be_value 0 (c ∷ d ∷ []) in
    (
      omega (arith, length-take l rest),
      All-mono (length (drop l rest)) _ (decode_ies_loop f (drop l rest))
          (omega (arith, length-drop l rest)) (decode_ies_loop-FitsIn f (drop l rest)),
    )
decode_ies_loop-FitsIn zero bytes = tt
decode_ies_loop-FitsIn (suc f) [] = tt
decode_ies_loop-FitsIn (suc f) (a ∷ []) = tt
decode_ies_loop-FitsIn (suc f) (a ∷ b ∷ []) = tt
decode_ies_loop-FitsIn (suc f) (a ∷ b ∷ c ∷ []) = tt

with_children_cong :
    (n : ℕ) (dec dec' : Bytes → Ies) (ies : List (ℕ × Bytes))
    → ((v : Bytes) → length v + 4 ≤ n → dec v ≡ dec' v)
    → All (FitsIn n) ies
    → with_children dec ies ≡ with_children dec' ies
unfolding with_children
with_children_cong n dec dec' [] same fit = refl
with_children_cong n dec dec' ((t, v) ∷ ies) same fit =
    rw (same v fit.0, with_children_cong n dec dec' ies same fit.1)

decode_nested_fuel :
    (f g : ℕ) (bytes : Bytes)
    → length bytes ≤ f
    → length bytes ≤ g
    → decode_nested f bytes ≡ decode_nested g bytes
unfolding decode_nested decode_ies
decode_nested_fuel zero zero bytes p q = refl
decode_nested_fuel zero (suc g) [] p q = refl
decode_nested_fuel zero (suc g) (a ∷ bytes) p q = absurd (omega arith)
decode_nested_fuel (suc f) zero [] p q = refl
decode_nested_fuel (suc f) zero (a ∷ bytes) p q = absurd (omega arith)
decode_nested_fuel (suc f) (suc g) bytes p q =
    with_children_cong (length bytes) (decode_nested f) (decode_nested g) _
      (λ v h. decode_nested_fuel f g v (omega arith) (omega arith))
      (decode_ies_loop-FitsIn (length bytes) bytes)

decode_ies-FitsIn : (bytes : Bytes) → All (FitsIn (length bytes)) (decode_ies bytes)
unfolding decode_ies
decode_ies-FitsIn bytes = decode_ies_loop-FitsIn (length bytes) bytes

-- The decoder of a value decodes the children in the same way, with the length of the value for fuel.
pub decode_ies_recursive_lem :
    (bytes : Bytes)
    → decode_ies_recursive bytes ≡ with_children decode_ies_recursive (decode_ies bytes)
unfolding decode_ies_recursive decode_ies
decode_ies_recursive_lem [] = refl
decode_ies_recursive_lem (b ∷ bytes) =
    with_children_cong (length (b ∷ bytes)) (decode_nested (length bytes)) decode_ies_recursive _
      (λ v h. decode_nested_fuel (length bytes) (length v) v (omega arith) (omega arith))
      (decode_ies-FitsIn (b ∷ bytes))

-- An encoded IE in front of `rest` comes back first, with the children of its value if its type is
-- a grouped one.
pub decode_ies_recursive-encode_ie :
    (t : ℕ) (v rest : Bytes)
    → t < 2 ^ 16
    → length v < 2 ^ 16
    → decode_ies_recursive (encode_ie t v ++ rest)
      ≡ cons t v (if grouped t then decode_ies_recursive v else nil) (decode_ies_recursive rest)
decode_ies_recursive-encode_ie t v rest ht hv =
    decode_ies_recursive_lem (encode_ie t v ++ rest)
    ∙ ap (with_children decode_ies_recursive) (decode_ies-encode_ie t v rest ht hv)
    ∙ unfold with_children in
      ap (cons t v (if grouped t then decode_ies_recursive v else nil))
        (sym (decode_ies_recursive_lem rest))

-- What goes into a frame: a 16-bit type and a value of at most 65535 bytes.
abbrev pub IsFramed : ℕ × Bytes → Type 0
IsFramed (t, v) = (t < 2 ^ 16) × (length v < 2 ^ 16)

-- A list of IEs that fit their frames is read back from its encoding, with nothing lost.
pub decode_ies-encode_ies :
    (ies : List (ℕ × Bytes)) → All IsFramed ies → decode_ies (encode_ies ies) ≡ ies
decode_ies-encode_ies [] h = unfold decode_ies in refl
decode_ies-encode_ies ((t, v) ∷ ies) h =
    decode_ies-encode_ie t v (encode_ies ies) h.0.0 h.0.1
    ∙ ap (◌∷◌ (t, v)) (decode_ies-encode_ies ies h.1)

-- A loop over the decoded IEs takes one round for an encoded IE, and goes on with the rest.
pub for_ies-encode_ie {ℓ} :
    {S : Type ℓ} (body : S → ℕ → Bytes → Ies → S) (s : S) (t : ℕ) (v rest : Bytes)
    → t < 2 ^ 16
    → length v < 2 ^ 16
    → for_ies body s (decode_ies_recursive (encode_ie t v ++ rest))
      ≡ for_ies body
          (body s t v (if grouped t then decode_ies_recursive v else nil))
          (decode_ies_recursive rest)
for_ies-encode_ie body s t v rest ht hv =
    ap (for_ies body s) (decode_ies_recursive-encode_ie t v rest ht hv) ∙ unfold for_ies in refl

pub for_ies_end {ℓ} :
    {S : Type ℓ} (body : S → ℕ → Bytes → Ies → S) (s : S)
    → for_ies body s (decode_ies_recursive []) ≡ s
unfolding for_ies decode_ies_recursive
for_ies_end body s = refl

pub length-encode_ie :
    (t : ℕ) (v rest : Bytes) → length (encode_ie t v ++ rest) ≡ 4 + length v + length rest
unfolding encode_ie u16
length-encode_ie t v rest = omega (arith, length-append v rest)
