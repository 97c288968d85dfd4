-- ===== src/Nas/Values.antt =====
-- protocols/nas.py: the message types, the IE numbers, and the values of the IEs.
use v_epc_cups.Prelude.{
  ℕ, ◌+◌, ◌-◌, ◌^◌, ◌<◌, ◌≤◌, ◌≡◌, refl, ap, ap₂, ◌∙◌, Option, List, [], ◌∷◌, ◌++◌, map, All, arith,
  ltb, leb, ◌&&◌, if◌then◌else◌,
}
use v_epc_cups.Prelude.Results.{Result, ok, err, value_error, struct_error, ◌>>=◌}
use v_epc_cups.Bytes.{Bytes, Ip, u8, u16, field}
use v_epc_cups.Diameter.Text.{decode_ignore}
use v_epc_cups.Nas.{bcd_encode, bcd_decode}
use v_epc_cups.Nas.RoundTrip.{bcd_round_trip}

abbrev pub attach_request : ℕ
attach_request = 65

abbrev pub attach_accept : ℕ
attach_accept = 66

abbrev pub attach_complete : ℕ
attach_complete = 67

abbrev pub attach_reject : ℕ
attach_reject = 68

abbrev pub detach_request : ℕ
detach_request = 69

abbrev pub detach_accept : ℕ
detach_accept = 70

abbrev pub auth_request : ℕ
auth_request = 82

abbrev pub auth_response : ℕ
auth_response = 83

abbrev pub security_mode_command : ℕ
security_mode_command = 93

abbrev pub security_mode_complete : ℕ
security_mode_complete = 94

abbrev pub ie_imsi : ℕ
ie_imsi = 1

abbrev pub ie_apn : ℕ
ie_apn = 3

abbrev pub ie_pdn_type : ℕ
ie_pdn_type = 4

abbrev pub ie_ebi : ℕ
ie_ebi = 5

abbrev pub ie_rand : ℕ
ie_rand = 7

abbrev pub ie_autn : ℕ
ie_autn = 8

abbrev pub ie_res : ℕ
ie_res = 10

abbrev pub ie_attach_type : ℕ
ie_attach_type = 11

abbrev pub ie_ue_ip : ℕ
ie_ue_ip = 13

abbrev pub ie_ambr : ℕ
ie_ambr = 16

-- int(c, 16) of an ASCII character
unfoldable pub hex_value : ℕ → Result ℕ
hex_value c =
    if leb 48 c && leb c 57
    then ok (c - 48)
    else if leb 65 c && leb c 70
    then ok (c - 55)
    else if leb 97 c && leb c 102
    then ok (c - 87)
    else err value_error

unfoldable pub hex_values : Bytes → Result (List ℕ)
unfolding hex_value
hex_values [] = ok []
hex_values (c ∷ text) = do d ← hex_value c; rest ← hex_values text; ok (d ∷ rest)

-- The value of ie_imsi(imsi), of an ASCII text.
unfoldable pub imsi_value : Bytes → Result Bytes
unfolding hex_values bcd_encode
imsi_value imsi = hex_values imsi >>= λ digits. ok (bcd_encode digits)

-- "%X" % d
unfoldable pub hex_char : ℕ → ℕ
hex_char d = if ltb d 10 then 48 + d else 55 + d

unfoldable pub decode_imsi : Bytes → Bytes
unfolding hex_char bcd_decode
decode_imsi v = map hex_char (bcd_decode v)

-- struct.pack("!B", v) and struct.pack("!HH", ul, dl), which raise on what does not fit.
unfoldable pub byte_value : ℕ → Result Bytes
byte_value v = if ltb v (2 ^ 8) then ok (u8 v) else err struct_error

unfoldable pub pair_value : ℕ → ℕ → Result Bytes
pair_value ul dl =
    if ltb ul (2 ^ 16) && ltb dl (2 ^ 16) then ok (u16 ul ++ u16 dl) else err struct_error

unfoldable pub decode_ue_ip : Bytes → Option Ip
unfolding field
decode_ue_ip v = field 4 v

unfoldable pub decode_apn : Bytes → Bytes
unfolding decode_ignore
decode_apn v = decode_ignore 0 v

-- A decimal digit of a text.
abbrev pub IsDigit : ℕ → Type 0
IsDigit c = (48 ≤ c) × (c ≤ 57)

hex_value-digit : (c : ℕ) → IsDigit c → hex_value c ≡ ok (c - 48)
unfolding hex_value
hex_value-digit c h = ground arith

hex_char-digit : (c : ℕ) → IsDigit c → hex_char (c - 48) ≡ c
unfolding hex_char
hex_char-digit c h = ground arith

abbrev digits_of : Bytes → List ℕ
digits_of = map (λ c. c - 48)

hex_values-digits : (text : Bytes) → All IsDigit text → hex_values text ≡ ok (digits_of text)
unfolding hex_values
hex_values-digits [] h = refl
hex_values-digits (c ∷ text) h = rw (hex_value-digit c h.0, hex_values-digits text h.1) refl

digits_small : (text : Bytes) → All IsDigit text → All (λ d. d < 15) (digits_of text)
digits_small [] h = tt
digits_small (c ∷ text) h = (omega arith, digits_small text h.1)

hex_chars-digits : (text : Bytes) → All IsDigit text → map hex_char (digits_of text) ≡ text
hex_chars-digits [] h = refl
hex_chars-digits (c ∷ text) h = ap₂ ◌∷◌ (hex_char-digit c h.0) (hex_chars-digits text h.1)

-- An IMSI of decimal digits is packed, and read back.
pub imsi_round_trip :
    (imsi : Bytes)
    → All IsDigit imsi
    → (value : Bytes) × (imsi_value imsi ≡ ok value) × (decode_imsi value ≡ imsi)
unfolding imsi_value decode_imsi
imsi_round_trip imsi h = (
  bcd_encode (digits_of imsi),
  rw (hex_values-digits imsi h) refl,
  ap (map hex_char) (bcd_round_trip (digits_of imsi) (digits_small imsi h))
      ∙ hex_chars-digits imsi h,
)
