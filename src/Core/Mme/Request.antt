-- ===== src/Core/Mme/Request.antt =====
-- core/mme.py: the authentication request to the HSS that `_air` sends, and the test of an answer's result.
use v_epc_cups.Prelude.{ℕ, Bool, true, Option, none, some, [], ◌∷◌, ◌++◌, nat_beq}
use v_epc_cups.Prelude.Results.{Result, ok, type_error, need, ◌>>=◌}
use v_epc_cups.Bytes.{Bytes}
use v_epc_cups.Diameter.{Avp, Message, avp, avp_u32, group, u32_of}
use v_epc_cups.Diameter.Codes.{
  s6a_app, cmd_auth_info, vendor_3gpp, avp_session_id, avp_origin_host, avp_destination_realm,
  avp_auth_session_state, avp_subscription_id, avp_subscription_id_type, avp_subscription_id_data,
  avp_requested_eutran_auth_info, diameter_success, no_state_maintained,
}
use v_epc_cups.Diameter.Text.{literal}
use v_epc_cups.Core.Hss.{decimal}

abbrev pub mme_origin_host : Bytes
mme_origin_host = literal "mme.epc.mnc001.mcc001.3gppnetwork.org"

abbrev pub destination_realm : Bytes
destination_realm = literal "epc.mnc001.mcc001.3gppnetwork.org"

-- "%s;%d" % (self.ip, n)
abbrev pub session_id : Bytes → ℕ → Bytes
session_id ip n = ip ++ (literal ";" ++ decimal n)

-- The subscription's identity, and the number of vectors that is asked for.
unfoldable pub subscription_id : Bytes → Result Avp
unfolding avp_u32 group
subscription_id imsi = do
  kind ← avp_u32 avp_subscription_id_type 1 0
  group avp_subscription_id (kind ∷ avp avp_subscription_id_data imsi 0 ∷ []) 0

-- The request of an MME at this address, in text, with this number.
unfoldable pub air_message : Bytes → ℕ → Bytes → Result Message
unfolding subscription_id
air_message ip n imsi = do
  subs ← subscription_id imsi
  want ← avp_u32 avp_requested_eutran_auth_info 1 vendor_3gpp
  ok (record {
    cmd_code = cmd_auth_info;
    app_id = s6a_app;
    avps =
        avp avp_session_id (session_id ip n) 0
        ∷ avp avp_origin_host mme_origin_host 0
        ∷ avp avp_destination_realm destination_realm 0
        ∷ avp avp_auth_session_state (no_state_maintained ∷ []) 0
        ∷ subs
        ∷ want
        ∷ [];
    request = true;
    hop_id = n;
    end_id = n;
  })

-- Whether the answer goes on after the test of its Result-Code. The log line of a code that is not
-- success raises where the code is too short to be a number.
unfoldable pub succeeds : Option Avp → Result Bool
unfolding u32_of
succeeds none = ok true
succeeds (some rc) = do code ← need type_error (u32_of rc); ok (nat_beq code diameter_success)
