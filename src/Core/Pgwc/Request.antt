-- ===== src/Core/Pgwc/Request.antt =====
-- core/epc_pgw_c.py: the credit control request to the PCRF (`_gx_ccr`).
use v_epc_cups.Prelude.{ℕ, true, [], ◌∷◌}
use v_epc_cups.Prelude.Results.{Result, ok, ◌>>=◌}
use v_epc_cups.Bytes.{Bytes}
use v_epc_cups.Diameter.{Message, avp, avp_u32, to_bytes}
use v_epc_cups.Diameter.Codes.{
  gx_app, cmd_credit_control, avp_session_id, avp_origin_host, avp_destination_realm,
  avp_auth_session_state, avp_cc_request_type, avp_cc_request_number, no_state_maintained,
}
use v_epc_cups.Diameter.Text.{literal}
use v_epc_cups.Core.Mme.Request.{destination_realm, session_id, subscription_id}

abbrev pub pgwc_origin_host : Bytes
pgwc_origin_host = literal "pgw-c.epc.mnc001.mcc001.3gppnetwork.org"

abbrev pub cc_termination : ℕ
cc_termination = 3

-- The request with this number and type, of a PGW-C at this address in text.
unfoldable pub ccr_message : Bytes → ℕ → Bytes → ℕ → Result Message
unfolding avp avp_u32 subscription_id
ccr_message ip ccn imsi ctype = do
  subs ← subscription_id imsi
  kind ← avp_u32 avp_cc_request_type ctype 0
  number ← avp_u32 avp_cc_request_number ccn 0
  ok (record {
    cmd_code = cmd_credit_control;
    app_id = gx_app;
    avps =
        avp avp_session_id (session_id ip ccn) 0
        ∷ avp avp_origin_host pgwc_origin_host 0
        ∷ avp avp_destination_realm destination_realm 0
        ∷ avp avp_auth_session_state (no_state_maintained ∷ []) 0
        ∷ subs
        ∷ kind
        ∷ number
        ∷ [];
    request = true;
    hop_id = ccn;
    end_id = ccn;
  })

unfoldable pub ccr_bytes : Bytes → ℕ → Bytes → ℕ → Result Bytes
unfolding ccr_message to_bytes
ccr_bytes ip ccn imsi ctype = do msg ← ccr_message ip ccn imsi ctype; to_bytes msg
