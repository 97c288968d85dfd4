-- ===== src/Core/Mme/S11.antt =====
-- core/mme.py: the requests to the SGW-C over S11 (`_s11_create`, `_s11_modify`, `_s11_delete`).
use v_epc_cups.Prelude.{ℕ, true, Option, none, some, List, [], ◌∷◌}
use v_epc_cups.Prelude.Results.{Result, ok, ◌>>=◌}
use v_epc_cups.Bytes.{Bytes, Ip, u8}
use v_epc_cups.GtpC
use v_epc_cups.GtpC.{Message}
use v_epc_cups.GtpC.Bearer.{ie_f_teid, f_teid_value, decode_f_teid, bearer_context}
use v_epc_cups.GtpC.Values.{
  create_session_request, modify_bearer_request, delete_session_request, ie_imsi, ie_apn, ie_ambr,
  ie_paa, ie_rat_type, ie_serving_network, ie_uli, ie_bearer_context, ie_pdn_type, iface_s1u_enb,
  iface_s1u_sgw, decode_ambr, decode_paa, uli_value,
}
use v_epc_cups.Core.Mme.State.{Bearer, Mme}

abbrev pub enb_ip : Ip
enb_ip = 2130706443

abbrev pub sgwu_ip : Ip
sgwu_ip = 2130706434

-- A request with this number.
abbrev request_of : ℕ → ℕ → List (ℕ × Bytes) → Message
request_of t seq ies = record { msg_type = t; teid = 0; seq = seq; has_teid = true; ies = ies }

unfoldable pub create_request : Mme → Bytes → Bytes → ℕ → Result Bytes
unfolding GtpC.to_bytes bearer_context f_teid_value uli_value u8
create_request mme imsi apn ebi = do
  context ← bearer_context ebi (some (0x400000, mme.ip, iface_s1u_sgw)) none none
  GtpC.to_bytes (
      request_of create_session_request 1 (
        (ie_imsi, imsi)
        ∷ (ie_apn, apn)
        ∷ (ie_pdn_type, u8 1)
        ∷ (ie_f_teid, f_teid_value 0x400000 mme.ip iface_s1u_sgw)
        ∷ (ie_rat_type, u8 6)
        ∷ (ie_serving_network, mme.plmn)
        ∷ (ie_uli, uli_value mme.plmn 1 1)
        ∷ (ie_bearer_context, context)
        ∷ []))

-- teid, ip, _ = decode_f_teid(f) if f
unfoldable pub tunnel_of : Option Bytes → Result (Option ℕ × Option Ip)
unfolding decode_f_teid
tunnel_of none = ok (none, none)
tunnel_of (some []) = ok (none, none)
tunnel_of (some (b ∷ v)) = do f ← decode_f_teid (b ∷ v); ok (some f.teid, f.ip)

abbrev paa_of : Option Bytes → Option Ip
paa_of none = none
paa_of (some v) = decode_paa v

abbrev ambr_of : Option Bytes → ℕ × ℕ
ambr_of none = (0, 0)
ambr_of (some v) = decode_ambr v

abbrev or_else : Ip → Option Ip → Ip
or_else default none = default
or_else default (some ip) = ip

unfoldable pub read_bearer : ℕ → Message → Result Bearer
unfolding GtpC.get tunnel_of decode_paa decode_ambr
read_bearer ebi r = do
  tunnel ← tunnel_of (GtpC.get r ie_f_teid)
  ok (record {
    sgw_s1u_teid = tunnel.0;
    sgw_s1u_ip = or_else sgwu_ip tunnel.1;
    ue_ip = paa_of (GtpC.get r ie_paa);
    ambr = ambr_of (GtpC.get r ie_ambr);
    ebi = ebi;
  })

-- What `_s11_create` returns for this answer, `none` for none in time.
unfoldable pub create_result : ℕ → Option Bytes → Result (Option Bearer)
unfolding GtpC.from_bytes read_bearer
create_result ebi none = ok none
create_result ebi (some rep) = do
  r ← GtpC.from_bytes rep
  bearer ← read_bearer ebi r
  ok (some bearer)

unfoldable pub modify_request : Bytes → ℕ → Result Bytes
unfolding GtpC.to_bytes bearer_context
modify_request imsi enb_teid = do
  context ← bearer_context 5 (some (enb_teid, enb_ip, iface_s1u_enb)) none none
  GtpC.to_bytes
      (request_of modify_bearer_request 2 ((ie_imsi, imsi) ∷ (ie_bearer_context, context) ∷ []))

unfoldable pub delete_request : Bytes → Result Bytes
unfolding GtpC.to_bytes
delete_request imsi = GtpC.to_bytes (request_of delete_session_request 3 ((ie_imsi, imsi) ∷ []))
