-- ===== src/Diameter/Text.antt =====
-- Texts in AVPs: `Avp.text` of protocols/diameter.py. A `str` is given by its UTF-8 bytes, so that
-- `encode` is the identity and two texts are equal just where their bytes are.
use Prim.Native.Char.{code}
use Prim.Native.String.{String}
use v_epc_cups.Prelude.{
  length, ◌≤◌, ℕ, zero, suc, ◌<◌, ◌≡◌, refl, ap, Bool, true, false, Option, none, some, [], ◌∷◌,
  All, arith, lt→ltb, ltb, leb, ◌&&◌, if◌then◌else◌,
}
use v_epc_cups.Bytes.{Bytes}
use v_epc_cups.Diameter.{Avp}

-- The bytes of a literal without characters beyond ASCII.
abbrev pub literal : String → Bytes
literal String.[] = []
literal (String.◌∷◌ c s) = code c ∷ literal s

abbrev between : ℕ → ℕ → ℕ → Bool
between low high b = leb low b && leb b high

-- A next byte between these bounds, and `n` continuation bytes after it.
abbrev continues : ℕ → Bytes → Bool
continues zero bytes = true
continues (suc n) [] = false
continues (suc n) (b ∷ bytes) = between 128 191 b && continues n bytes

abbrev follows : ℕ → ℕ → ℕ → Bytes → Bool
follows low high n [] = false
follows low high n (b ∷ bytes) = between low high b && continues n bytes

-- The bounds of the second byte of a sequence that starts with `b`, and the number of bytes after it.
abbrev second_byte : ℕ → Option (ℕ × ℕ × ℕ)
second_byte b =
    if between 194 223 b
    then some (128, 191, 0)
    else if between 224 239 b
    then some (if leb b 224 then 160 else 128, if between 237 237 b then 159 else 191, 1)
    else if between 240 244 b
    then some (if leb b 240 then 144 else 128, if leb 244 b then 143 else 191, 2)
    else none

abbrev tail_of : Bytes → Option (ℕ × ℕ × ℕ) → Option ℕ
tail_of bytes none = none
tail_of bytes (some (low, high, n)) = if follows low high n bytes then some (suc n) else none

-- The number of continuation bytes of the well-formed UTF-8 sequence that starts with `b`, `none`
-- where none does.
unfoldable pub sequence_tail : ℕ → Bytes → Option ℕ
sequence_tail b bytes = if ltb b 128 then some 0 else tail_of bytes (second_byte b)

-- What is kept of a byte, and of the sequence that is read.
abbrev keep : ℕ → Option ℕ → (ℕ → Bytes) → Bytes
keep b none rest = rest 0
keep b (some n) rest = b ∷ rest n

-- data.decode(errors="ignore"): the first number counts the bytes left of the sequence that is read.
-- Bytes that are in no well-formed sequence are left out one by one.
unfoldable pub decode_ignore : ℕ → Bytes → Bytes
unfolding sequence_tail
decode_ignore n [] = []
decode_ignore (suc n) (b ∷ bytes) = b ∷ decode_ignore n bytes
decode_ignore zero (b ∷ bytes) = keep b (sequence_tail b bytes) (λ n. decode_ignore n bytes)

unfoldable pub text : Avp → Bytes
unfolding decode_ignore
text a = decode_ignore 0 a.«data»

-- The bytes of a text.
abbrev pub IsText : Bytes → Type 0
IsText bytes = decode_ignore 0 bytes ≡ bytes

pub ascii-IsText : (bytes : Bytes) → All (λ b. b < 128) bytes → IsText bytes
unfolding decode_ignore
ascii-IsText [] h = refl
ascii-IsText (b ∷ bytes) h = rw (lt→ltb b 128 h.0) (ap (◌∷◌ b) (ascii-IsText bytes h.1))

keep-length :
    (b k : ℕ) (o : Option ℕ) (rest : ℕ → Bytes)
    → ((n : ℕ) → length (rest n) ≤ k)
    → length (keep b o rest) ≤ suc k
keep-length b k none rest h = omega (arith, h 0)
keep-length b k (some n) rest h = omega (arith, h n)

-- What is kept of a text is no longer than the text.
pub length-decode_ignore : (n : ℕ) (bytes : Bytes) → length (decode_ignore n bytes) ≤ length bytes
unfolding decode_ignore
length-decode_ignore n [] = omega arith
length-decode_ignore (suc n) (b ∷ bytes) = omega (arith, length-decode_ignore n bytes)
length-decode_ignore zero (b ∷ bytes) =
    keep-length b (length bytes) (sequence_tail b bytes) (λ n. decode_ignore n bytes)
      (λ n. length-decode_ignore n bytes)
