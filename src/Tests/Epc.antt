-- ===== src/Tests/Epc.antt =====
-- The theorems on Diameter and the functions of the EPC at concrete inputs.
use v_epc_cups.Prelude.{
  ℕ, ◌^◌, ◌≤◌, ◌<◌, ◌≡◌, ◌↔◌, length, drop, refl, inl, true, none, some, List, [], ◌∷◌, ◌++◌, All,
  arith,
}
use v_epc_cups.Prelude.Results.{ok}
use v_epc_cups.Prelude.Classes.{nat_eq, bytes_eq}
use v_epc_cups.Prelude.Dict.{get}
use v_epc_cups.Bytes.{Bytes, u32}
use v_epc_cups.Diameter
use v_epc_cups.Diameter.{Avp, Message, avp, to_bytes, from_bytes, decode_avps}
use v_epc_cups.Diameter.Codes.{
  s6a_app, gx_app, cmd_auth_info, cmd_update_location, cmd_credit_control, vendor_3gpp,
  avp_session_id, avp_subscription_id, avp_subscription_id_type, avp_subscription_id_data,
  avp_cc_request_type, avp_cc_request_number, avp_requested_eutran_auth_info, avp_result_code,
  avp_authentication_info, avp_number_of_requested_vectors, avp_subscription_data, diameter_success,
  diameter_user_unknown,
}
use v_epc_cups.Diameter.Text.{literal, ascii-IsText}
use v_epc_cups.Diameter.Loop.{Hangs, avps_room, from_bytes-none-Hangs}
use v_epc_cups.Diameter.RoundTrip.{
  IsMessage, avps_bytes, children-group, diameter_round_trip, reply_round_trip,
}
use v_epc_cups.Diameter.Values.{number_avp, u32_of-avp}
use v_epc_cups.Core.Hss.Parse.{parse_auth_info, parse_subscription_data}
use v_epc_cups.Core.Hss.AuthInfo.{Carries, first_vector}
use v_epc_cups.Core.Hss.Answers.{IsEchoed, with_count, handle-auth_info}
use v_epc_cups.Core.Hss.Unknown.{handle-unknown}
use v_epc_cups.Core.Hss.Subscription.{IsSubscriber, profile, handle-update_location}
use v_epc_cups.Core.Pcrf.{Pcrf, default_policy, policy_for, imsi_of, type_of, parse_qos}
use v_epc_cups.Core.Pcrf.Answers.{IsPolicy, authorized, handle-authorized}
use v_epc_cups.Core.Hss.{Hss, subs_id, new_hss, default_subscriber, wanted, vector, handle}

-- A header with the length 36, an AVP of eight bytes, and one whose length is 0.
abbrev endless : Bytes
endless =
    1 ∷ 0 ∷ 0 ∷ 36 ∷ 0 ∷ 0 ∷ 1 ∷ 62 ∷ 1 ∷ 0 ∷ 0 ∷ 35 ∷ 0 ∷ 0 ∷ 0 ∷ 1 ∷ 0 ∷ 0 ∷ 0 ∷ 1 ∷ 0 ∷ 0 ∷ 0 ∷ 1
    ∷ 0x40 ∷ 0 ∷ 0 ∷ 8 ∷ 0 ∷ 0 ∷ 0 ∷ 1 ∷ 0x40 ∷ 0 ∷ 0 ∷ 0 ∷ []

from_bytes-none-Hangs_example :
    ((from_bytes endless ≡ none)
      ↔ ((20 ≤ length endless) × Hangs (avps_room endless) (drop 20 endless)))
    × (Hangs (avps_room endless) (drop 20 endless)
        → (rounds : ℕ) → decode_avps rounds (avps_room endless) (drop 20 endless) ≡ none)
from_bytes-none-Hangs_example = from_bytes-none-Hangs endless

-- It is not read.
endless-none : from_bytes endless ≡ none
unfolding from_bytes v_epc_cups.Diameter.from_header v_epc_cups.Diameter.decode_avps
endless-none = refl

abbrev pub imsi : Bytes
imsi = literal "001010000000001"

abbrev identity : List Avp
identity = number_avp avp_subscription_id_type 1 0 ∷ avp avp_subscription_id_data imsi 0 ∷ []

-- A request of the MME, of this type, for two vectors.
abbrev question : ℕ → Message
question cmd = record {
  cmd_code = cmd;
  app_id = s6a_app;
  avps =
      avp avp_session_id (literal "mme;1") 0
      ∷ avp avp_subscription_id (avps_bytes identity) 0
      ∷ number_avp avp_requested_eutran_auth_info 2 vendor_3gpp
      ∷ [];
  request = true;
  hop_id = 1;
  end_id = 1;
}

identity-IsAvp : All v_epc_cups.Diameter.Framing.IsAvp identity
unfolding u32 avp
identity-IsAvp =
    ((omega arith, omega arith, omega arith), ((omega arith, omega arith, omega arith), tt))

question-IsMessage : (cmd : ℕ) → cmd < 2 ^ 24 → IsMessage (question cmd)
unfolding u32 avp v_epc_cups.Diameter.u24 v_epc_cups.Diameter.pad
question-IsMessage cmd h = (
  (
    (omega arith, omega arith, omega arith),
    ((omega arith, omega arith, omega arith), ((omega arith, omega arith, omega arith), tt)),
  ),
  h,
  omega arith,
  omega arith,
  omega arith,
  omega arith,
)

question-identity : (cmd : ℕ) → subs_id (question cmd) ≡ some (ok (some imsi))
unfolding subs_id Diameter.get Diameter.find avp v_epc_cups.Diameter.Text.text
question-identity cmd = rw ((children-group avp_subscription_id 0 identity identity-IsAvp).1) refl

diameter_round_trip_example :
    (bytes : Bytes) × (to_bytes (question cmd_auth_info) ≡ ok bytes)
    × (from_bytes (bytes ++ 7 ∷ []) ≡ some (ok (question cmd_auth_info)))
diameter_round_trip_example =
    diameter_round_trip (question cmd_auth_info) (7 ∷ [])
      (question-IsMessage cmd_auth_info (omega arith))

-- The bytes of a question, and that they are read.
abbrev asked : (cmd : ℕ) → cmd < 2 ^ 24 → Bytes
asked cmd h = (reply_round_trip (question cmd) (question-IsMessage cmd h)).0

asked-question : (cmd : ℕ) (h : cmd < 2 ^ 24) → from_bytes (asked cmd h) ≡ some (ok (question cmd))
asked-question cmd h = (reply_round_trip (question cmd) (question-IsMessage cmd h)).2

-- A function in the place of SHA-256.
abbrev pub hash : Bytes → Bytes
hash bytes = bytes

question-IsEchoed : (cmd : ℕ) → IsEchoed (question cmd)
unfolding Diameter.get Diameter.find avp v_epc_cups.Diameter.Text.text
    v_epc_cups.Diameter.Text.decode_ignore
question-IsEchoed cmd = (omega arith, omega arith, omega arith)

question-wanted :
    (cmd : ℕ)
    → wanted (Diameter.get (question cmd) avp_requested_eutran_auth_info vendor_3gpp) ≡ some 2
unfolding Diameter.get Diameter.find avp
question-wanted cmd = u32_of-avp avp_requested_eutran_auth_info 2 vendor_3gpp (omega arith)

pub known : get imsi new_hss.subscribers ≡ some default_subscriber
unfolding new_hss get
known = refl

abbrev auth_fits : cmd_auth_info < 2 ^ 24
auth_fits = omega arith

abbrev update_fits : cmd_update_location < 2 ^ 24
update_fits = omega arith

handle-auth_info_example :
    (reply : Bytes) × (ans : Message) × (info : Avp) × (handle hash new_hss
        (asked cmd_auth_info auth_fits)
      ≡ some (with_count hash new_hss (question cmd_auth_info) imsi, ok (some reply)))
    × (from_bytes reply ≡ some (ok ans))
    × (Diameter.get ans avp_result_code 0 ≡ some (avp avp_result_code (u32 diameter_success) 0))
    × (Diameter.get ans avp_authentication_info vendor_3gpp ≡ some info)
    × (parse_auth_info info ≡ some (ok (first_vector 2 (vector hash imsi 0))))
    × ((avps : List Avp) × (Diameter.children info
          ≡ some (ok (number_avp avp_number_of_requested_vectors 2 vendor_3gpp ∷ avps)))
        × Carries avps (vector hash imsi 0 ∷ vector hash imsi 1 ∷ []))
handle-auth_info_example =
    handle-auth_info hash new_hss (asked cmd_auth_info auth_fits) (question cmd_auth_info) imsi
      default_subscriber 1 (asked-question cmd_auth_info auth_fits)
      (refl, refl, question-identity cmd_auth_info) (question-IsEchoed cmd_auth_info) known
      (question-wanted cmd_auth_info) (omega arith)

default-IsSubscriber : IsSubscriber default_subscriber
unfolding v_epc_cups.Diameter.Text.decode_ignore
default-IsSubscriber = (refl, omega arith, omega arith, omega arith, omega arith, omega arith)

handle-update_location_example :
    (reply : Bytes) × (ans : Message) × («data» : Avp) × (handle hash new_hss
        (asked cmd_update_location update_fits)
      ≡ some (new_hss, ok (some reply)))
    × (from_bytes reply ≡ some (ok ans))
    × (Diameter.get ans avp_result_code 0 ≡ some (avp avp_result_code (u32 diameter_success) 0))
    × (Diameter.get ans avp_subscription_data vendor_3gpp ≡ some «data»)
    × (parse_subscription_data «data» ≡ some (ok (profile default_subscriber)))
handle-update_location_example =
    handle-update_location hash new_hss (asked cmd_update_location update_fits)
      (question cmd_update_location) imsi default_subscriber
      (asked-question cmd_update_location update_fits)
      (refl, refl, question-identity cmd_update_location) (question-IsEchoed cmd_update_location)
      known default-IsSubscriber

-- A server without subscribers.
abbrev empty_hss : Hss
empty_hss = record { subscribers = []; vec_counter = [] }

stranger : get imsi empty_hss.subscribers ≡ none
unfolding get
stranger = refl

handle-unknown_example :
    (reply : Bytes) × (ans : Message) × (handle hash empty_hss (asked cmd_auth_info auth_fits)
      ≡ some (empty_hss, ok (some reply)))
    × (from_bytes reply ≡ some (ok ans))
    × (Diameter.get ans avp_result_code 0
        ≡ some (avp avp_result_code (u32 diameter_user_unknown) 0))
    × (Diameter.get ans avp_authentication_info vendor_3gpp ≡ none)
    × (Diameter.get ans avp_subscription_data vendor_3gpp ≡ none)
handle-unknown_example =
    handle-unknown hash empty_hss (asked cmd_auth_info auth_fits) (question cmd_auth_info)
      (some imsi) cmd_auth_info (inl refl) (asked-question cmd_auth_info auth_fits)
      (refl, refl, question-identity cmd_auth_info) (question-IsEchoed cmd_auth_info) stranger

-- A first credit control request.
abbrev credit : Message
credit = record {
  cmd_code = cmd_credit_control;
  app_id = gx_app;
  avps =
      avp avp_session_id (literal "pgw;1") 0
      ∷ avp avp_subscription_id (avps_bytes identity) 0
      ∷ number_avp avp_cc_request_type 1 0
      ∷ number_avp avp_cc_request_number 1 0
      ∷ [];
  request = true;
  hop_id = 1;
  end_id = 1;
}

credit-IsMessage : IsMessage credit
unfolding u32 avp v_epc_cups.Diameter.u24 v_epc_cups.Diameter.pad
credit-IsMessage = (
  (
    (omega arith, omega arith, omega arith),
    (
      (omega arith, omega arith, omega arith),
      ((omega arith, omega arith, omega arith), ((omega arith, omega arith, omega arith), tt)),
    ),
  ),
  omega arith,
  omega arith,
  omega arith,
  omega arith,
  omega arith,
)

credit-identity : imsi_of credit ≡ some (ok imsi)
unfolding imsi_of Diameter.get Diameter.find avp v_epc_cups.Diameter.Text.text
credit-identity =
    rw (imsi_of, (children-group avp_subscription_id 0 identity identity-IsAvp).1) refl

credit-type : type_of (Diameter.get credit avp_cc_request_type 0) ≡ some 1
unfolding Diameter.get Diameter.find avp
credit-type = u32_of-avp avp_cc_request_type 1 0 (omega arith)

credit-IsEchoed : v_epc_cups.Core.Pcrf.Answers.IsEchoed credit
unfolding Diameter.get Diameter.find avp v_epc_cups.Diameter.Text.text
    v_epc_cups.Diameter.Text.decode_ignore
credit-IsEchoed = (
  omega arith,
  omega arith,
  omega arith,
  (1, u32_of-avp avp_cc_request_number 1 0 (omega arith), omega arith),
)

abbrev policies : Pcrf
policies = (imsi, default_policy) ∷ []

credit-IsPolicy : IsPolicy (policy_for policies imsi)
unfolding policy_for get
credit-IsPolicy = (omega arith, omega arith, omega arith)

abbrev credit_bytes : Bytes
credit_bytes = (reply_round_trip credit credit-IsMessage).0

handle-authorized_example :
    (reply : Bytes) × (ans : Message) × (v_epc_cups.Core.Pcrf.handle policies credit_bytes
      ≡ some (ok (some reply)))
    × (from_bytes reply ≡ some (ok ans))
    × (parse_qos ans ≡ some (ok (authorized 1 (policy_for policies imsi))))
handle-authorized_example =
    handle-authorized policies credit_bytes credit imsi 1
      (reply_round_trip credit credit-IsMessage).2 refl credit-type (omega arith) credit-identity
      credit-IsEchoed credit-IsPolicy
