-- ===== src/Core/Pgwc/Messages.antt =====
-- core/epc_pgw_c.py: the answers of the PGW-C to the SGW-C.
use v_epc_cups.Prelude.{ℕ, ◌+◌, ◌%◌, ◌^◌, Option, none, some, List, [], ◌∷◌}
use v_epc_cups.Prelude.Results.{Result, type_error, need, ◌>>=◌}
use v_epc_cups.Bytes.{Bytes, Ip, u8}
use v_epc_cups.GtpC
use v_epc_cups.GtpC.Bearer.{ie_cause, ie_f_teid, f_teid_value, bearer_context}
use v_epc_cups.GtpC.Values.{
  create_session_response, modify_bearer_response, ie_imsi, ie_ambr, ie_paa, ie_bearer_context,
  iface_s5_s8_pgw, ambr_value, paa_value,
}
use v_epc_cups.Core.Pcrf.{Qos}
use v_epc_cups.Core.Epc.{new_message}
use v_epc_cups.Core.Pgwc.State.{Pgwc, Context}

-- What a new session's answer is made of.
pub record Created : Type 0 where
  pub imsi : Bytes
  pub pgw_teid : ℕ
  pub seid : ℕ
  pub ue_ip : Ip
  pub ebi : ℕ

abbrev pub created_ies : Pgwc → Created → ℕ → ℕ → Bytes → List (ℕ × Bytes)
created_ies pgw s ul dl context =
    (ie_cause, u8 16)
    ∷ (ie_imsi, s.imsi)
    ∷ (ie_f_teid, f_teid_value s.pgw_teid pgw.pgw_u_ip iface_s5_s8_pgw)
    ∷ (ie_f_teid, f_teid_value (s.seid % 2 ^ 32) pgw.ip iface_s5_s8_pgw)
    ∷ (ie_paa, paa_value s.ue_ip)
    ∷ (ie_ambr, ambr_value ul dl)
    ∷ (ie_bearer_context, context)
    ∷ []

-- A rate that is None raises.
unfoldable pub created_answer : Pgwc → ℕ → Created → Qos → Result Bytes
unfolding bearer_context GtpC.to_bytes f_teid_value paa_value ambr_value u8
created_answer pgw seq s qos = do
  ul ← need type_error qos.mbr_ul
  dl ← need type_error qos.mbr_dl
  context ←
      bearer_context s.ebi (some (s.pgw_teid, pgw.pgw_u_ip, iface_s5_s8_pgw)) (some 16)
        (some (0x2000 + pgw.ue_n))
  GtpC.to_bytes (new_message create_session_response seq (created_ies pgw s ul dl context))

unfoldable pub modified_answer : Pgwc → ℕ → Option Context → Result Bytes
unfolding bearer_context GtpC.to_bytes f_teid_value u8
modified_answer pgw seq none =
    GtpC.to_bytes (new_message modify_bearer_response seq ((ie_cause, u8 16) ∷ []))
modified_answer pgw seq (some c) = do
  context ← bearer_context c.ebi (some (c.pgw_teid, pgw.pgw_u_ip, iface_s5_s8_pgw)) (some 16) none
  GtpC.to_bytes (
      new_message modify_bearer_response seq (
        (ie_cause, u8 16)
        ∷ (ie_f_teid, f_teid_value c.pgw_teid pgw.pgw_u_ip iface_s5_s8_pgw)
        ∷ (ie_bearer_context, context)
        ∷ []))
