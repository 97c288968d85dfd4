-- ===== src/GtpC/Values.antt =====
-- protocols/gtp_c.py: the message types, the IE numbers, and the values of the IEs.
use v_epc_cups.Prelude.{
  ℕ, ◌^◌, ◌<◌, ◌≡◌, refl, Option, ◌++◌, length, take, drop, ltb, bit_or, if◌then◌else◌,
}
use v_epc_cups.Bytes.{Bytes, Ip, u8, u16, u32, inet_aton, be_value, field, u32-be_value}

abbrev pub create_session_request : ℕ
create_session_request = 32

abbrev pub create_session_response : ℕ
create_session_response = 33

abbrev pub modify_bearer_request : ℕ
modify_bearer_request = 34

abbrev pub modify_bearer_response : ℕ
modify_bearer_response = 35

abbrev pub delete_session_request : ℕ
delete_session_request = 36

abbrev pub delete_session_response : ℕ
delete_session_response = 37

abbrev pub ie_imsi : ℕ
ie_imsi = 1

abbrev pub ie_apn : ℕ
ie_apn = 71

abbrev pub ie_ambr : ℕ
ie_ambr = 72

abbrev pub ie_paa : ℕ
ie_paa = 79

abbrev pub ie_rat_type : ℕ
ie_rat_type = 82

abbrev pub ie_serving_network : ℕ
ie_serving_network = 83

abbrev pub ie_uli : ℕ
ie_uli = 86

abbrev pub ie_bearer_context : ℕ
ie_bearer_context = 93

abbrev pub ie_pdn_type : ℕ
ie_pdn_type = 99

abbrev pub iface_s1u_enb : ℕ
iface_s1u_enb = 0

abbrev pub iface_s1u_sgw : ℕ
iface_s1u_sgw = 1

abbrev pub iface_s5_s8_sgw : ℕ
iface_s5_s8_sgw = 4

abbrev pub iface_s5_s8_pgw : ℕ
iface_s5_s8_pgw = 5

unfoldable pub ambr_value : ℕ → ℕ → Bytes
unfolding u8 u32
ambr_value ul dl = u8 0 ++ (u32 ul ++ u32 dl)

unfoldable pub decode_ambr : Bytes → ℕ × ℕ
unfolding be_value
decode_ambr v =
    if ltb (length v) 9
    then (0, 0)
    else (be_value 0 (take 4 (drop 1 v)), be_value 0 (take 4 (drop 5 v)))

unfoldable pub paa_value : Ip → Bytes
unfolding u8 inet_aton
paa_value ip = u8 1 ++ inet_aton ip

unfoldable pub decode_paa : Bytes → Option Ip
unfolding field
decode_paa v = field 4 (drop 1 v)

unfoldable pub uli_value : Bytes → ℕ → ℕ → Bytes
unfolding u8 u16 u32
uli_value plmn tac ecgi = u8 (bit_or 0x10 0x04) ++ (plmn ++ (u16 tac ++ (plmn ++ u32 ecgi)))

pub decode_ambr-ambr_value :
    (ul dl : ℕ) → ul < 2 ^ 32 → dl < 2 ^ 32 → decode_ambr (ambr_value ul dl) ≡ (ul, dl)
unfolding decode_ambr ambr_value u8 u32
decode_ambr-ambr_value ul dl hu hd = rw (u32-be_value ul hu, u32-be_value dl hd) refl
