-- ===== src/Core/Hss.antt =====
-- core/hss.py: the subscriber server, with its authentication vectors and subscription data.
pub mod Parse
pub mod AuthInfo
pub mod Answers
pub mod Unknown
pub mod Subscription
use mathlib.Core.Option
use v_epc_cups.Prelude.{
  map, ℕ, zero, suc, ◌+◌, ◌/◌, ◌%◌, ◌^◌, Bool, Option, none, some, List, [], ◌∷◌, ◌++◌, take, ltb,
  nat_beq, ◌&&◌, if◌then◌else◌,
}
use v_epc_cups.Prelude.Results.{Result, ok, err, type_error, ◌>>=◌}
use v_epc_cups.Prelude.Runs.{Run}
use v_epc_cups.Prelude.Classes.{bytes_eq}
use v_epc_cups.Prelude.Dict.{Dict, get, put}
use v_epc_cups.Bytes.{Bytes}
use v_epc_cups.Diameter
use v_epc_cups.Diameter.{Avp, Message, avp, avp_u32, group, children, reply, from_bytes, u32_of}
use v_epc_cups.Diameter.Codes.{
  s6a_app, cmd_auth_info, cmd_update_location, vendor_3gpp, avp_session_id, avp_origin_host,
  avp_origin_realm, avp_result_code, avp_auth_session_state, avp_subscription_id,
  avp_subscription_id_data, avp_subscription_data, avp_authentication_info, avp_e_utran_vector,
  avp_number_of_requested_vectors, avp_requested_eutran_auth_info, avp_rand, avp_xres, avp_autn,
  avp_kasme, avp_apn_configuration_profile, avp_apn_configuration, avp_service_selection,
  avp_eps_subscribed_qos_profile, avp_qos_class_identifier, avp_allocation_retention_priority,
  avp_ambr, avp_max_req_bandwidth_ul, avp_max_req_bandwidth_dl, avp_pdn_type_3gpp,
  avp_subscriber_status, diameter_success, diameter_user_unknown, no_state_maintained,
}
use v_epc_cups.Diameter.Text.{literal, text}

pub record Subscriber : Type 0 where
  pub apn : Bytes
  pub ambr_ul : ℕ
  pub ambr_dl : ℕ
  pub qci : ℕ
  pub status : ℕ

-- The subscribers, and the number of vectors handed out, by IMSI.
pub record Hss : Type 0 where
  pub subscribers : Dict Bytes Subscriber
  pub vec_counter : Dict Bytes ℕ

unfoldable pub add_subscriber : Bytes → Subscriber → Hss → Hss
unfolding put
add_subscriber imsi sub hss = record hss { subscribers = put imsi sub hss.subscribers }

abbrev pub default_subscriber : Subscriber
default_subscriber = record {
  apn = literal "internet";
  ambr_ul = 100000;
  ambr_dl = 200000;
  qci = 9;
  status = 0;
}

-- A new server, with its default subscriber.
unfoldable pub new_hss : Hss
unfolding add_subscriber
new_hss =
    add_subscriber (literal "001010000000001") default_subscriber
      (record { subscribers = []; vec_counter = [] })

-- "%d" % n: each round takes a digit, and there are at most n + 1.
unfoldable pub digits : (fuel n : ℕ) → Bytes → Bytes
digits zero n acc = acc
digits (suc fuel) n acc =
    let more = digits fuel (n / 10) ((48 + n % 10) ∷ acc) in
    if ltb n 10 then (48 + n) ∷ acc else more

unfoldable pub decimal : ℕ → Bytes
unfolding digits
decimal n = digits (suc n) n []

pub record Vector : Type 0 where
  pub rand : Bytes
  pub xres : Bytes
  pub autn : Bytes
  pub kasme : Bytes

-- range(n), from `i`
abbrev pub range_from : ℕ → ℕ → List ℕ
range_from i zero = []
range_from i (suc n) = i ∷ range_from (suc i) n

-- hashlib.sha256(bytes).digest() is not code of the program.
module _ (sha256 : Bytes → Bytes) where
  unfoldable pub k_of : Bytes → Bytes
  k_of imsi = take 16 (sha256 (literal "K|" ++ imsi))

  unfoldable pub vector : Bytes → ℕ → Vector
  unfolding k_of decimal
  vector imsi n =
      let k = k_of imsi in
      let rand = take 16 (sha256 (literal "RAND|" ++ (imsi ++ (literal "|" ++ decimal n)))) in
      record {
        rand = rand;
        xres = take 8 (sha256 (k ++ (rand ++ literal "XRES")));
        autn = take 16 (sha256 (k ++ (rand ++ literal "AUTN")));
        kasme = take 32 (sha256 (k ++ (rand ++ literal "KASME")));
      }

-- The data of the first child with a subscription's identity.
abbrev pub first_data : List Avp → Option Bytes
first_data [] = none
first_data (a ∷ kids) =
    if nat_beq a.code avp_subscription_id_data then some (text a) else first_data kids

unfoldable pub subs_id : Message → Run (Option Bytes)
unfolding children
subs_id msg = elim (Diameter.get msg avp_subscription_id 0) [
  | none ↦ some (ok none)
  | some subs ↦ Option.map (λ r. r >>= λ kids. ok (first_data kids)) (children subs)
]

-- The text of the request's Session-Id, or this one.
abbrev pub session_text : Bytes → Option Avp → Bytes
session_text default none = default
session_text default (some sid) = text sid

abbrev pub origin_host : Bytes
origin_host = literal "hss.epc.mnc001.mcc001.3gppnetwork.org"

abbrev pub origin_realm : Bytes
origin_realm = literal "epc.mnc001.mcc001.3gppnetwork.org"

-- The AVPs of an answer before its Result-Code.
abbrev pub base_avps : Message → List Avp
base_avps req =
    avp avp_session_id (session_text (literal "hss;1") (Diameter.get req avp_session_id 0)) 0
    ∷ avp avp_origin_host origin_host 0
    ∷ avp avp_origin_realm origin_realm 0
    ∷ avp avp_auth_session_state (no_state_maintained ∷ []) 0
    ∷ []

-- `_base_ans` with this Result-Code, which an unknown subscriber replaces at the end of the list,
-- and the AVPs that a handler adds.
unfoldable pub answer : Message → ℕ → ℕ → List Avp → Result Message
unfolding avp_u32
answer req cmd result added = do
  rc ← avp_u32 avp_result_code result 0
  ok (record {
    cmd_code = cmd;
    app_id = s6a_app;
    avps = base_avps req ++ (rc ∷ added);
    request = Bool.false;
    hop_id = req.hop_id;
    end_id = req.end_id;
  })

unfoldable pub vector_avp : Vector → Result Avp
unfolding group avp
vector_avp v =
    group avp_e_utran_vector
      (avp avp_rand v.rand vendor_3gpp
        ∷ avp avp_xres v.xres vendor_3gpp
        ∷ avp avp_autn v.autn vendor_3gpp
        ∷ avp avp_kasme v.kasme vendor_3gpp
        ∷ [])
      vendor_3gpp

unfoldable pub vector_avps : List Vector → Result (List Avp)
unfolding vector_avp
vector_avps [] = ok []
vector_avps (v ∷ vs) = do a ← vector_avp v; rest ← vector_avps vs; ok (a ∷ rest)

unfoldable pub auth_info : ℕ → List Vector → Result Avp
unfolding vector_avps avp_u32 group
auth_info n vs = do
  vectors ← vector_avps vs
  number ← avp_u32 avp_number_of_requested_vectors n vendor_3gpp
  group avp_authentication_info (number ∷ vectors) vendor_3gpp

unfoldable pub unknown : Message → ℕ → Result (Option Bytes)
unfolding answer reply
unknown req cmd = do ans ← answer req cmd diameter_user_unknown []; reply ans

-- want.u32() if want else 1
abbrev pub wanted : Option Avp → Option ℕ
wanted none = some 1
wanted (some want) = u32_of want

abbrev pub counted : Option ℕ → ℕ
counted none = 1
counted (some n) = n + 1

module _ (sha256 : Bytes → Bytes) where
  -- The answer to an AIR of a known subscriber who wants this many vectors; `range(None)` raises.
  unfoldable pub vectors_answer : Message → Bytes → Option ℕ → Result (Option Bytes)
  unfolding answer auth_info vector reply
  vectors_answer req imsi none = err type_error
  vectors_answer req imsi (some n) = do
    info ← auth_info n (map (vector sha256 imsi) (range_from 0 n))
    ans ← answer req cmd_auth_info diameter_success (info ∷ [])
    reply ans

  -- What a request for this identity does, `none` for no identity.
  unfoldable pub ai_for : Hss → Message → Option Bytes → Hss × Result (Option Bytes)
  unfolding get put unknown vectors_answer
  ai_for hss req none = (hss, unknown req cmd_auth_info)
  ai_for hss req (some imsi) = elim (get imsi hss.subscribers) [
    | none ↦ (hss, unknown req cmd_auth_info)
    | some sub ↦ (
      record hss { vec_counter = put imsi (counted (get imsi hss.vec_counter)) hss.vec_counter },
      vectors_answer req imsi
          (wanted (Diameter.get req avp_requested_eutran_auth_info vendor_3gpp)),
    )
  ]

unfoldable pub apn_configuration : Subscriber → Result Avp
unfolding avp avp_u32 group
apn_configuration sub = do
  pdn_type ← avp_u32 avp_pdn_type_3gpp 1 vendor_3gpp
  qci ← avp_u32 avp_qos_class_identifier sub.qci vendor_3gpp
  priority ← avp_u32 avp_allocation_retention_priority 8 vendor_3gpp
  qos ← group avp_eps_subscribed_qos_profile (qci ∷ priority ∷ []) vendor_3gpp
  ul ← avp_u32 avp_max_req_bandwidth_ul sub.ambr_ul vendor_3gpp
  dl ← avp_u32 avp_max_req_bandwidth_dl sub.ambr_dl vendor_3gpp
  ambr ← group avp_ambr (ul ∷ dl ∷ []) vendor_3gpp
  group avp_apn_configuration
      (avp avp_service_selection sub.apn vendor_3gpp ∷ pdn_type ∷ qos ∷ ambr ∷ []) vendor_3gpp

unfoldable pub subscription_data : Subscriber → Result Avp
unfolding apn_configuration
subscription_data sub = do
  config ← apn_configuration sub
  status ← avp_u32 avp_subscriber_status sub.status vendor_3gpp
  profile ← group avp_apn_configuration_profile (config ∷ []) vendor_3gpp
  group avp_subscription_data (status ∷ profile ∷ []) vendor_3gpp

unfoldable pub subscription_answer : Message → Subscriber → Result (Option Bytes)
unfolding subscription_data answer reply
subscription_answer req sub = do
  «data» ← subscription_data sub
  ans ← answer req cmd_update_location diameter_success («data» ∷ [])
  reply ans

unfoldable pub ul_for : Hss → Message → Option Bytes → Result (Option Bytes)
unfolding get unknown subscription_answer
ul_for hss req none = unknown req cmd_update_location
ul_for hss req (some imsi) = elim (get imsi hss.subscribers) [
  | none ↦ unknown req cmd_update_location
  | some sub ↦ subscription_answer req sub
]

-- After `_subs_id`, whose error ends the handler.
abbrev pub with_id :
    {A : Type 0}
    → Hss
    → Run (Option Bytes)
    → (Option Bytes → Hss × Result (Option A))
    → Option (Hss × Result (Option A))
with_id hss none f = none
with_id hss (some (err e)) f = some (hss, err e)
with_id hss (some (ok imsi)) f = some (f imsi)

module _ (sha256 : Bytes → Bytes) where
  unfoldable pub dispatch : Hss → Message → Option (Hss × Result (Option Bytes))
  unfolding subs_id ai_for ul_for
  dispatch hss msg =
      if nat_beq msg.cmd_code cmd_auth_info && msg.request
      then with_id hss (subs_id msg) (ai_for sha256 hss msg)
      else if nat_beq msg.cmd_code cmd_update_location && msg.request
      then with_id hss (subs_id msg) (λ imsi. (hss, ul_for hss msg imsi))
      else some (hss, ok none)

  abbrev received : Hss → Run Message → Option (Hss × Result (Option Bytes))
  received hss none = none
  received hss (some (err e)) = some (hss, ok none)
  received hss (some (ok msg)) = dispatch hss msg

  -- The server after the datagram, and its answer; `none` where it never ends. An error of the
  -- reader is caught.
  unfoldable pub handle : Hss → Bytes → Option (Hss × Result (Option Bytes))
  unfolding from_bytes
  handle hss bytes = received hss (from_bytes bytes)
