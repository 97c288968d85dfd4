-- ===== src/Core/Pcrf.antt =====
-- core/pcrf.py: the policy server, which answers the credit control requests of the PGW-C.
pub mod Answers
use mathlib.Core.Option
use v_epc_cups.Prelude.{
  ℕ, ◌+◌, Bool, false, Option, none, some, List, [], ◌∷◌, ◌++◌, nat_beq, not, ◌||◌, if◌then◌else◌,
}
use v_epc_cups.Prelude.Results.{Result, ok, err, type_error, struct_error, ◌>>=◌, need}
use v_epc_cups.Prelude.Runs.{Run}
use v_epc_cups.Prelude.Classes.{bytes_eq}
use v_epc_cups.Prelude.Dict.{Dict, get, put}
use v_epc_cups.Bytes.{Bytes}
use v_epc_cups.Diameter
use v_epc_cups.Diameter.{Avp, Message, avp, avp_u32, group, children, reply, from_bytes, u32_of}
use v_epc_cups.Diameter.Codes.{
  gx_app, cmd_credit_control, vendor_3gpp, avp_session_id, avp_origin_host, avp_origin_realm,
  avp_result_code, avp_auth_session_state, avp_subscription_id, avp_cc_request_type,
  avp_cc_request_number, avp_qos_information, avp_qos_class_identifier, avp_max_req_bandwidth_ul,
  avp_max_req_bandwidth_dl, diameter_success, no_state_maintained, cc_initial, cc_update, cc_event,
}
use v_epc_cups.Diameter.Text.{literal}
use v_epc_cups.Core.Hss.{first_data, session_text}

pub record Policy : Type 0 where
  pub qci : ℕ
  pub mbr_ul : ℕ
  pub mbr_dl : ℕ
  pub charging : Bytes

abbrev pub default_policy : Policy
default_policy = record { qci = 9; mbr_ul = 100000; mbr_dl = 200000; charging = literal "ONLINE" }

-- The policies by IMSI.
abbrev pub Pcrf : Type 0
Pcrf = Dict Bytes Policy

-- The keyword arguments of `set_policy`; `none` is for one that is not given.
pub record Change : Type 0 where
  pub qci : Option ℕ
  pub mbr_ul : Option ℕ
  pub mbr_dl : Option ℕ
  pub charging : Option Bytes

abbrev given {ℓ} : {A : Type ℓ} → A → Option A → A
given old none = old
given old (some new) = new

unfoldable pub set_policy : Bytes → Change → Pcrf → Pcrf
unfolding put
set_policy imsi kw policies =
    put imsi
      (record {
        qci = given default_policy.qci kw.qci;
        mbr_ul = given default_policy.mbr_ul kw.mbr_ul;
        mbr_dl = given default_policy.mbr_dl kw.mbr_dl;
        charging = given default_policy.charging kw.charging;
      })
      policies

-- self.policies.get(imsi, DEFAULT_POLICY)
unfoldable pub policy_for : Pcrf → Bytes → Policy
unfolding get
policy_for policies imsi = given default_policy (get imsi policies)

unfoldable pub imsi_of : Message → Run Bytes
unfolding children
imsi_of msg = elim (Diameter.get msg avp_subscription_id 0) [
  | none ↦ some (ok (literal "-"))
  | some subs ↦
      Option.map (λ r. r >>= λ kids. ok (given (literal "-") (first_data kids))) (children subs)
]

-- ccr_type.u32() if ccr_type else D.CC_EVENT
abbrev pub type_of : Option Avp → Option ℕ
type_of none = some cc_event
type_of (some a) = u32_of a

-- The request's number, which the answer repeats; a number of less than four bytes is None.
unfoldable pub number_avps : Option Avp → Result (List Avp)
unfolding u32_of avp_u32
number_avps none = ok []
number_avps (some num) = do
  n ← need struct_error (u32_of num)
  a ← avp_u32 avp_cc_request_number n 0
  ok (a ∷ [])

unfoldable pub qos_information : Policy → Result Avp
unfolding avp_u32 group
qos_information pol = do
  qci ← avp_u32 avp_qos_class_identifier pol.qci vendor_3gpp
  ul ← avp_u32 avp_max_req_bandwidth_ul pol.mbr_ul vendor_3gpp
  dl ← avp_u32 avp_max_req_bandwidth_dl pol.mbr_dl vendor_3gpp
  group avp_qos_information (qci ∷ ul ∷ dl ∷ []) vendor_3gpp

-- ctype in (D.CC_INITIAL, D.CC_UPDATE)
abbrev pub is_authorized : ℕ → Bool
is_authorized ctype = nat_beq ctype cc_initial || nat_beq ctype cc_update

-- The QoS that the policy authorises, for an initial request or an update.
unfoldable pub qos_avps : ℕ → Policy → Result (List Avp)
unfolding qos_information
qos_avps ctype pol =
    if is_authorized ctype then (qos_information pol >>= λ info. ok (info ∷ [])) else ok []

abbrev pub origin_host : Bytes
origin_host = literal "pcrf.epc.mnc001.mcc001.3gppnetwork.org"

abbrev pub origin_realm : Bytes
origin_realm = literal "epc.mnc001.mcc001.3gppnetwork.org"

abbrev pub base_avps : Message → List Avp
base_avps msg =
    avp avp_session_id (session_text (literal "gx;1") (Diameter.get msg avp_session_id 0)) 0
    ∷ avp avp_origin_host origin_host 0
    ∷ avp avp_origin_realm origin_realm 0
    ∷ avp avp_auth_session_state (no_state_maintained ∷ []) 0
    ∷ []

unfoldable pub answer : Message → ℕ → Policy → Result Message
unfolding number_avps avp_u32 qos_avps
answer msg ctype pol = do
  number ← number_avps (Diameter.get msg avp_cc_request_number 0)
  kind ← avp_u32 avp_cc_request_type ctype 0
  rc ← avp_u32 avp_result_code diameter_success 0
  qos ← qos_avps ctype pol
  ok (record {
    cmd_code = cmd_credit_control;
    app_id = gx_app;
    avps = base_avps msg ++ (number ++ (kind ∷ rc ∷ qos));
    request = false;
    hop_id = msg.hop_id;
    end_id = msg.end_id;
  })

-- With the identity that was read. The line for the log raises where the type is None.
unfoldable pub answer_for : Pcrf → Message → Option ℕ → Bytes → Result (Option Bytes)
unfolding policy_for answer reply
answer_for policies msg none imsi = err type_error
answer_for policies msg (some ctype) imsi = answer msg ctype (policy_for policies imsi) >>= reply

unfoldable pub answer_to : Pcrf → Message → Run (Option Bytes)
unfolding imsi_of answer_for
answer_to policies msg =
    if not (nat_beq msg.cmd_code cmd_credit_control)
    then some (ok none)
    else Option.map
        (λ r. r >>= answer_for policies msg (type_of (Diameter.get msg avp_cc_request_type 0)))
        (imsi_of msg)

abbrev received : Pcrf → Run Message → Run (Option Bytes)
received policies none = none
received policies (some (err e)) = some (ok none)
received policies (some (ok msg)) = answer_to policies msg

-- The answer to a datagram; `none` where the handler never ends. An error of the reader is caught.
unfoldable pub handle : Pcrf → Bytes → Run (Option Bytes)
unfolding from_bytes answer_to
handle policies bytes = received policies (from_bytes bytes)

-- `out` of `parse_qos`; a number of less than four bytes is None.
pub record Qos : Type 0 where
  pub qci : Option ℕ
  pub mbr_ul : Option ℕ
  pub mbr_dl : Option ℕ

unfoldable pub qos_step : Qos → Avp → Qos
unfolding u32_of
qos_step out a =
    if nat_beq a.code avp_qos_class_identifier
    then record out { qci = u32_of a }
    else if nat_beq a.code avp_max_req_bandwidth_ul
    then record out { mbr_ul = u32_of a }
    else if nat_beq a.code avp_max_req_bandwidth_dl
    then record out { mbr_dl = u32_of a }
    else out

abbrev pub read_qos : Qos → List Avp → Qos
read_qos out [] = out
read_qos out (a ∷ kids) = read_qos (qos_step out a) kids

abbrev pub no_qos : Qos
no_qos = record { qci = some 9; mbr_ul = some 0; mbr_dl = some 0 }

unfoldable pub qos_of : Option Avp → Run Qos
unfolding children qos_step
qos_of none = some (ok no_qos)
qos_of (some info) = Option.map (λ r. r >>= λ kids. ok (read_qos no_qos kids)) (children info)

unfoldable pub parse_qos : Message → Run Qos
unfolding qos_of
parse_qos cca = qos_of (Diameter.get cca avp_qos_information vendor_3gpp)
