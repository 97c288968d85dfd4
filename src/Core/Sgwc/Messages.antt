-- ===== src/Core/Sgwc/Messages.antt =====
-- core/epc_sgw_c.py: the messages that the SGW-C builds and reads.
use v_epc_cups.Prelude.{ℕ, Option, none, some, List, [], ◌∷◌}
use v_epc_cups.Prelude.Results.{Result, ok, ◌>>=◌}
use v_epc_cups.Bytes.{Bytes, Ip, u8}
use v_epc_cups.GtpC
use v_epc_cups.GtpC.{Message}
use v_epc_cups.GtpC.Bearer.{
  FTeid, ie_cause, ie_f_teid, f_teid_value, decode_f_teid, bearer_context, decode_bearer_context,
}
use v_epc_cups.GtpC.Values.{
  create_session_request, create_session_response, modify_bearer_response, delete_session_request,
  ie_imsi, ie_apn, ie_ambr, ie_paa, ie_rat_type, ie_serving_network, ie_bearer_context, ie_pdn_type,
  iface_s1u_sgw, iface_s5_s8_sgw, ambr_value, decode_ambr, paa_value, decode_paa,
}
use v_epc_cups.Diameter.Text.{literal}
use v_epc_cups.Core.Epc.{f_teid_in, new_message}
use v_epc_cups.Core.Sgwc.State.{Sgwc, Context}

-- The request to the PGW-C, with the TEID of the SGW-U for S5-U.
abbrev pub s5_ies : Sgwc → ℕ → Bytes → Bytes → Bytes → List (ℕ × Bytes)
s5_ies sgw s5u imsi apn context =
    (ie_imsi, imsi)
    ∷ (ie_apn, apn)
    ∷ (ie_pdn_type, u8 1)
    ∷ (ie_f_teid, f_teid_value s5u sgw.sgw_u_ip iface_s5_s8_sgw)
    ∷ (ie_f_teid, f_teid_value 0x1000 sgw.ip iface_s5_s8_sgw)
    ∷ (ie_rat_type, u8 6)
    ∷ (ie_serving_network, literal "00101")
    ∷ (ie_bearer_context, context)
    ∷ []

unfoldable pub s5_request : Sgwc → ℕ → Bytes → Bytes → ℕ → Result Bytes
unfolding bearer_context GtpC.to_bytes f_teid_value u8
s5_request sgw seq imsi apn ebi = do
  context ← bearer_context ebi none none none
  GtpC.to_bytes (new_message create_session_request seq (s5_ies sgw sgw.s5u imsi apn context))

-- What is read of the PGW-C's answer.
pub record Offer : Type 0 where
  pub pgw_teid : ℕ
  pub pgw_ip : Option Ip
  pub ue_ip : Option Ip
  pub ambr : ℕ × ℕ

abbrev pub default_ue_ip : Ip
default_ue_ip = 0x0A0A0002

abbrev pub paa_of : Option Bytes → Option Ip
unfolding decode_paa
paa_of none = some default_ue_ip
paa_of (some []) = some default_ue_ip
paa_of (some (b ∷ v)) = decode_paa (b ∷ v)

abbrev pub ambr_of : Option Bytes → ℕ × ℕ
unfolding decode_ambr
ambr_of none = (100000, 200000)
ambr_of (some []) = (100000, 200000)
ambr_of (some (b ∷ v)) = decode_ambr (b ∷ v)

unfoldable pub read_offer : Ip → Message → Result Offer
unfolding f_teid_in GtpC.get decode_paa decode_ambr
read_offer pgw_c_ip r = do
  tunnel ← f_teid_in pgw_c_ip r
  ok (record {
    pgw_teid = tunnel.teid;
    pgw_ip = tunnel.ip;
    ue_ip = paa_of (GtpC.get r ie_paa);
    ambr = ambr_of (GtpC.get r ie_ambr);
  })

unfoldable pub offer_in : Ip → Bytes → Result Offer
unfolding GtpC.from_bytes read_offer
offer_in pgw_c_ip rep = do r ← GtpC.from_bytes rep; read_offer pgw_c_ip r

-- An answer with this cause alone.
unfoldable pub answer_of : ℕ → ℕ → ℕ → Result Bytes
unfolding GtpC.to_bytes u8
answer_of msg_type seq cause = GtpC.to_bytes (new_message msg_type seq ((ie_cause, u8 cause) ∷ []))

-- A session that the user plane has opened.
pub record Opened : Type 0 where
  pub imsi : Bytes
  pub seid : ℕ
  pub s1u : ℕ
  pub ebi : ℕ

abbrev pub created_ies : Sgwc → Opened → Ip → ℕ × ℕ → Bytes → List (ℕ × Bytes)
created_ies sgw s ue_ip ambr context =
    (ie_cause, u8 16)
    ∷ (ie_imsi, s.imsi)
    ∷ (ie_f_teid, f_teid_value s.s1u sgw.sgw_u_ip iface_s1u_sgw)
    ∷ (ie_f_teid, f_teid_value 0x1000 sgw.ip iface_s1u_sgw)
    ∷ (ie_paa, paa_value ue_ip)
    ∷ (ie_ambr, ambr_value ambr.0 ambr.1)
    ∷ (ie_bearer_context, context)
    ∷ []

-- The answer to the MME for a session that is set up.
unfoldable pub created_answer : Sgwc → ℕ → Opened → Ip → ℕ × ℕ → Result Bytes
unfolding bearer_context GtpC.to_bytes f_teid_value paa_value ambr_value u8
created_answer sgw seq s ue_ip ambr = do
  context ← bearer_context s.ebi (some (s.s1u, sgw.sgw_u_ip, iface_s1u_sgw)) (some 16) none
  GtpC.to_bytes (new_message create_session_response seq (created_ies sgw s ue_ip ambr context))

-- The eNodeB's tunnel: that of the Bearer Context, or else that of the message.
abbrev pub context_tunnel : Option Bytes → Result (Option FTeid)
unfolding decode_bearer_context
context_tunnel none = ok none
context_tunnel (some []) = ok none
context_tunnel (some (b ∷ bc)) = do kids ← decode_bearer_context (b ∷ bc); ok kids.f_teid

abbrev message_tunnel : Option Bytes → Result (Option FTeid)
unfolding decode_f_teid
message_tunnel none = ok none
message_tunnel (some []) = ok none
message_tunnel (some (b ∷ v)) = do f ← decode_f_teid (b ∷ v); ok (some f)

abbrev pub tunnel_or_else : Message → Option FTeid → Result (Option FTeid)
unfolding GtpC.get decode_f_teid
tunnel_or_else msg none = message_tunnel (GtpC.get msg ie_f_teid)
tunnel_or_else msg (some f) = ok (some f)

unfoldable pub enb_tunnel : Message → Result (Option FTeid)
unfolding GtpC.get decode_bearer_context decode_f_teid
enb_tunnel msg = do f ← context_tunnel (GtpC.get msg ie_bearer_context); tunnel_or_else msg f

-- The answer to a Modify Bearer Request, with the tunnel of the SGW-U where there is a context.
unfoldable pub modified_answer : ℕ → List (ℕ × Bytes) → Result Bytes
unfolding GtpC.to_bytes u8
modified_answer seq ies =
    GtpC.to_bytes (new_message modify_bearer_response seq ((ie_cause, u8 16) ∷ ies))

unfoldable pub s1u_tunnel : Sgwc → Context → ℕ × Bytes
unfolding f_teid_value
s1u_tunnel sgw c = (ie_f_teid, f_teid_value c.s1u sgw.sgw_u_ip iface_s1u_sgw)

unfoldable pub s5_delete : ℕ → Bytes → Result Bytes
unfolding GtpC.to_bytes
s5_delete seq imsi = GtpC.to_bytes (new_message delete_session_request seq ((ie_imsi, imsi) ∷ []))
