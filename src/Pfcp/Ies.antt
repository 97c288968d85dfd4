-- ===== src/Pfcp/Ies.antt =====
-- The TLV framing of protocols/pfcp.py: `encode_ie`, `encode_grouped`, `decode_ies` and
-- `decode_ies_recursive`.
pub mod Framing
use v_epc_cups.Prelude.{ℕ, zero, suc, List, [], ◌∷◌, ◌++◌, length, take, drop, join, if◌then◌else◌}
use v_epc_cups.Bytes.{Bytes, u16, be_value}
use v_epc_cups.Pfcp.Types.{grouped}

unfoldable pub encode_ie : ℕ → Bytes → Bytes
encode_ie ie_type value = u16 ie_type ++ u16 (length value) ++ value

unfoldable pub encode_grouped : ℕ → List Bytes → Bytes
unfolding encode_ie
encode_grouped ie_type children = encode_ie ie_type (join children)

-- b"".join(encode_ie(t, v) for t, v in ies)
abbrev pub encode_ies : List (ℕ × Bytes) → Bytes
encode_ies [] = []
encode_ies ((t, v) ∷ ies) = encode_ie t v ++ encode_ies ies

-- The list is `data[i:]`, and the four bytes that the pattern takes are the test `i + 4 <= n`. A
-- slice past the end is cut short. Each round takes four bytes at least off the fuel.
unfoldable pub decode_ies_loop : ℕ → Bytes → List (ℕ × Bytes)
decode_ies_loop (suc fuel) (t₁ ∷ t₀ ∷ l₁ ∷ l₀ ∷ rest) =
    let t = be_value 0 (t₁ ∷ t₀ ∷ []) in
    let l = be_value 0 (l₁ ∷ l₀ ∷ []) in (t, take l rest) ∷ decode_ies_loop fuel (drop l rest)
decode_ies_loop _ _ = []

unfoldable pub decode_ies : Bytes → List (ℕ × Bytes)
unfolding decode_ies_loop be_value
decode_ies bytes = decode_ies_loop (length bytes) bytes

-- The list of (type, value, children) that `decode_ies_recursive` returns.
pub data Ies : Type 0 where
  nil : Ies
  cons : ℕ → Bytes → Ies → Ies → Ies

unfoldable pub with_children : (Bytes → Ies) → List (ℕ × Bytes) → Ies
with_children decode [] = nil
with_children decode ((t, v) ∷ ies) =
    cons t v (if grouped t then decode v else nil) (with_children decode ies)

unfoldable pub decode_nested : ℕ → Bytes → Ies
unfolding decode_ies with_children grouped
decode_nested zero bytes = nil
decode_nested (suc depth) bytes = with_children (decode_nested depth) (decode_ies bytes)

-- A value is shorter than the bytes that it stands in, so their length bounds the nesting. Python's limit
-- on nested calls, which some thousand IEs one in the other would meet, is not modelled.
unfoldable pub decode_ies_recursive : Bytes → Ies
unfolding decode_nested
decode_ies_recursive bytes = decode_nested (length bytes) bytes

-- `for t, v, children in ies`
unfoldable pub for_ies {ℓ} : {S : Type ℓ} → (S → ℕ → Bytes → Ies → S) → S → Ies → S
for_ies body s nil = s
for_ies body s (cons t v children ies) = for_ies body (body s t v children) ies
