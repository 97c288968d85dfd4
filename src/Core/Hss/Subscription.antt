-- ===== src/Core/Hss/Subscription.antt =====
-- core/hss.py: the Subscription-Data AVP that the server builds, as it is read back.
use v_epc_cups.Prelude.{
  ℕ, ◌+◌, ◌^◌, ◌<◌, ◌≤◌, ◌≡◌, refl, ap, ◌∙◌, some, List, [], ◌∷◌, length, All, arith,
}
use v_epc_cups.Prelude.Results.{ok, ◌>>=◌}
use v_epc_cups.Prelude.Classes.{bytes_eq}
use v_epc_cups.Prelude.Dict.{get}
use v_epc_cups.Bytes.{Bytes, u32}
use v_epc_cups.Diameter
use v_epc_cups.Diameter.{Avp, Message, avp, from_bytes, u32_of, children}
use v_epc_cups.Diameter.Codes.{
  cmd_update_location, vendor_3gpp, avp_result_code, avp_subscription_data,
  avp_apn_configuration_profile, avp_apn_configuration, avp_service_selection,
  avp_eps_subscribed_qos_profile, avp_qos_class_identifier, avp_allocation_retention_priority,
  avp_ambr, avp_max_req_bandwidth_ul, avp_max_req_bandwidth_dl, avp_pdn_type_3gpp,
  avp_subscriber_status, diameter_success,
}
use v_epc_cups.Diameter.Text.{IsText, text}
use v_epc_cups.Diameter.Framing.{IsAvp}
use v_epc_cups.Diameter.RoundTrip.{avps_bytes, children-group}
use v_epc_cups.Diameter.Values.{
  total, length-avps_bytes, avp-IsAvp, avp_u32-avp, u32_of-avp, number_avp, number_avp-IsAvp,
}
use v_epc_cups.Core.Hss.{
  Hss, Subscriber, apn_configuration, subscription_data, subscription_answer, ul_for, answer,
  handle,
}
use v_epc_cups.Core.Hss.Parse.{
  Subscription, config_step, profile_step, data_step, parse_subscription_data,
}
use v_epc_cups.Core.Hss.Answers.{
  IsRequest, IsEchoed, answer_message, answer_lem, answered, dispatch-ul_for,
}

-- A profile whose numbers fit and whose access point name is a text of moderate length.
abbrev pub IsSubscriber : Subscriber → Type 0
IsSubscriber sub =
    IsText sub.apn
    × (length sub.apn ≤ 2 ^ 16)
    × (sub.ambr_ul < 2 ^ 32)
    × (sub.ambr_dl < 2 ^ 32)
    × (sub.qci < 2 ^ 32)
    × (sub.status < 2 ^ 32)

abbrev grouped : ℕ → List Avp → Avp
grouped code kids = avp code (avps_bytes kids) vendor_3gpp

-- A group whose children fit, and take at most `n` bytes.
grouped-IsAvp :
    (code : ℕ) (kids : List Avp)
    → code < 2 ^ 32
    → 12 + total kids < 2 ^ 24
    → IsAvp (grouped code kids) × (total (grouped code kids ∷ []) ≤ 15 + total kids)
unfolding avp
grouped-IsAvp code kids hc hk = (
  avp-IsAvp code vendor_3gpp (avps_bytes kids) hc (omega arith)
      (omega (arith, length-avps_bytes kids)),
  omega (arith, length-avps_bytes kids),
)

module _ (sub : Subscriber) where
  abbrev qos_kids : List Avp
  qos_kids =
      number_avp avp_qos_class_identifier sub.qci vendor_3gpp
      ∷ number_avp avp_allocation_retention_priority 8 vendor_3gpp
      ∷ []

  qos_kids-IsAvp : All IsAvp qos_kids × (total qos_kids ≤ 38)
  unfolding u32 avp
  qos_kids-IsAvp = (
    (
      number_avp-IsAvp avp_qos_class_identifier sub.qci vendor_3gpp (omega arith) (omega arith),
      (
        number_avp-IsAvp avp_allocation_retention_priority 8 vendor_3gpp (omega arith)
            (omega arith),
        tt,
      ),
    ),
    omega arith,
  )

  abbrev ambr_kids : List Avp
  ambr_kids =
      number_avp avp_max_req_bandwidth_ul sub.ambr_ul vendor_3gpp
      ∷ number_avp avp_max_req_bandwidth_dl sub.ambr_dl vendor_3gpp
      ∷ []

  ambr_kids-IsAvp : All IsAvp ambr_kids × (total ambr_kids ≤ 38)
  unfolding u32 avp
  ambr_kids-IsAvp = (
    (
      number_avp-IsAvp avp_max_req_bandwidth_ul sub.ambr_ul vendor_3gpp (omega arith) (omega arith),
      (
        number_avp-IsAvp avp_max_req_bandwidth_dl sub.ambr_dl vendor_3gpp (omega arith)
            (omega arith),
        tt,
      ),
    ),
    omega arith,
  )

  abbrev config_kids : List Avp
  config_kids =
      avp avp_service_selection sub.apn vendor_3gpp
      ∷ number_avp avp_pdn_type_3gpp 1 vendor_3gpp
      ∷ grouped avp_eps_subscribed_qos_profile qos_kids
      ∷ grouped avp_ambr ambr_kids
      ∷ []

  config_kids-IsAvp : length sub.apn ≤ 2 ^ 16 → All IsAvp config_kids × (total config_kids ≤ 2 ^ 17)
  unfolding u32 avp
  config_kids-IsAvp h =
      let q =
        grouped-IsAvp avp_eps_subscribed_qos_profile qos_kids (omega arith)
          (omega (arith, qos_kids-IsAvp.1)) in
      let a = grouped-IsAvp avp_ambr ambr_kids (omega arith) (omega (arith, ambr_kids-IsAvp.1)) in
      (
        (
          avp-IsAvp avp_service_selection vendor_3gpp sub.apn (omega arith) (omega arith)
              (omega arith),
          (
            number_avp-IsAvp avp_pdn_type_3gpp 1 vendor_3gpp (omega arith) (omega arith),
            (q.0, (a.0, tt)),
          ),
        ),
        omega (
          arith,
          length-avps_bytes qos_kids,
          length-avps_bytes ambr_kids,
          qos_kids-IsAvp.1,
          ambr_kids-IsAvp.1,
        ),
      )

  abbrev profile_kids : List Avp
  profile_kids = grouped avp_apn_configuration config_kids ∷ []

  abbrev data_kids : List Avp
  data_kids =
      number_avp avp_subscriber_status sub.status vendor_3gpp
      ∷ grouped avp_apn_configuration_profile profile_kids
      ∷ []

  profile_kids-IsAvp :
      length sub.apn ≤ 2 ^ 16 → All IsAvp profile_kids × (total profile_kids ≤ 2 ^ 18)
  profile_kids-IsAvp h =
      let c = config_kids-IsAvp h in
      let g = grouped-IsAvp avp_apn_configuration config_kids (omega arith) (omega (arith, c.1)) in
      ((g.0, tt), omega (arith, g.1, c.1))

  data_kids-IsAvp : length sub.apn ≤ 2 ^ 16 → All IsAvp data_kids × (total data_kids ≤ 2 ^ 19)
  unfolding u32 avp
  data_kids-IsAvp h =
      let p = profile_kids-IsAvp h in
      let g =
        grouped-IsAvp avp_apn_configuration_profile profile_kids (omega arith)
          (omega (arith, p.1)) in
      (
        (
          number_avp-IsAvp avp_subscriber_status sub.status vendor_3gpp (omega arith) (omega arith),
          (g.0, tt),
        ),
        omega (arith, g.1, p.1),
      )

  abbrev data_avp : Avp
  data_avp = grouped avp_subscription_data data_kids

  apn_configuration_lem :
      IsSubscriber sub → apn_configuration sub ≡ ok (grouped avp_apn_configuration config_kids)
  unfolding apn_configuration
  apn_configuration_lem h =
      rw
        (
          avp_u32-avp avp_qos_class_identifier sub.qci vendor_3gpp h.4,
          (children-group avp_eps_subscribed_qos_profile vendor_3gpp qos_kids qos_kids-IsAvp.0).0,
          avp_u32-avp avp_max_req_bandwidth_ul sub.ambr_ul vendor_3gpp h.2,
          avp_u32-avp avp_max_req_bandwidth_dl sub.ambr_dl vendor_3gpp h.3,
          (children-group avp_ambr vendor_3gpp ambr_kids ambr_kids-IsAvp.0).0,
        )
        (children-group avp_apn_configuration vendor_3gpp config_kids (config_kids-IsAvp h.1).0).0

  subscription_data_lem : IsSubscriber sub → subscription_data sub ≡ ok data_avp
  unfolding subscription_data
  subscription_data_lem h =
      rw
        (
          apn_configuration_lem h,
          avp_u32-avp avp_subscriber_status sub.status vendor_3gpp h.5,
          (children-group avp_apn_configuration_profile vendor_3gpp profile_kids
              (profile_kids-IsAvp h.1).0).0,
        )
        (children-group avp_subscription_data vendor_3gpp data_kids (data_kids-IsAvp h.1).0).0

  -- The profile as it is read.
  abbrev pub profile : Subscription
  profile = record {
    apn = some sub.apn;
    ambr_ul = some sub.ambr_ul;
    ambr_dl = some sub.ambr_dl;
    qci = some sub.qci;
  }

  parse_subscription_data-data_avp :
      IsSubscriber sub → parse_subscription_data data_avp ≡ some (ok profile)
  unfolding parse_subscription_data data_step profile_step config_step text avp
  parse_subscription_data-data_avp h =
      rw
        (
          (children-group avp_subscription_data vendor_3gpp data_kids (data_kids-IsAvp h.1).0).1,
          (children-group avp_apn_configuration_profile vendor_3gpp profile_kids
              (profile_kids-IsAvp h.1).0).1,
          (children-group avp_apn_configuration vendor_3gpp config_kids
              (config_kids-IsAvp h.1).0).1,
          h.0,
          (children-group avp_eps_subscribed_qos_profile vendor_3gpp qos_kids qos_kids-IsAvp.0).1,
          u32_of-avp avp_qos_class_identifier sub.qci vendor_3gpp h.4,
          (children-group avp_ambr vendor_3gpp ambr_kids ambr_kids-IsAvp.0).1,
          u32_of-avp avp_max_req_bandwidth_ul sub.ambr_ul vendor_3gpp h.2,
          u32_of-avp avp_max_req_bandwidth_dl sub.ambr_dl vendor_3gpp h.3,
        )
        refl

ul_for_known :
    (hss : Hss) (req : Message) (imsi : Bytes) (sub : Subscriber)
    → get imsi hss.subscribers ≡ some sub
    → ul_for hss req (some imsi) ≡ subscription_answer req sub
unfolding ul_for
ul_for_known hss req imsi sub h = rw (ul_for, h) refl

subscription_answer_lem :
    (req : Message) (sub : Subscriber) (reply : Bytes)
    → IsSubscriber sub
    → Diameter.reply (answer_message req cmd_update_location diameter_success (data_avp sub ∷ []))
      ≡ ok (some reply)
    → subscription_answer req sub ≡ ok (some reply)
unfolding subscription_answer
subscription_answer_lem req sub reply hf h =
    ap (λ r. r >>= λ x. answer req cmd_update_location diameter_success (x ∷ []) >>= Diameter.reply)
      (subscription_data_lem sub hf)
    ∙ ap (λ r. r >>= Diameter.reply)
        (answer_lem req cmd_update_location diameter_success (data_avp sub ∷ []) (omega arith))
    ∙ h

-- An update of a known subscriber is answered with success and the profile is read back, where the rates,
-- the QCI and the status of the profile are below 2 ^ 32, its access point name is a text of at most 2 ^ 16
-- bytes, the request's two identifiers are below 2 ^ 32 and its Session-Id has at most 2 ^ 16 bytes. Nothing
-- changes.
pub handle-update_location :
    (sha256 : Bytes → Bytes) (hss : Hss) (bytes : Bytes) (req : Message) (imsi : Bytes)
    (sub : Subscriber)
    → from_bytes bytes ≡ some (ok req)
    → IsRequest req cmd_update_location (some imsi)
    → IsEchoed req
    → get imsi hss.subscribers ≡ some sub
    → IsSubscriber sub
    → (reply : Bytes) × (ans : Message) × («data» : Avp) × (handle sha256 hss bytes
        ≡ some (hss, ok (some reply)))
      × (from_bytes reply ≡ some (ok ans))
      × (Diameter.get ans avp_result_code 0 ≡ some (avp avp_result_code (u32 diameter_success) 0))
      × (Diameter.get ans avp_subscription_data vendor_3gpp ≡ some «data»)
      × (parse_subscription_data «data» ≡ some (ok (profile sub)))
unfolding handle Diameter.get Diameter.find avp
handle-update_location sha256 hss bytes req imsi sub hr hq he hs hf =
    let kids = data_kids-IsAvp sub hf.1 in
    let g =
      grouped-IsAvp avp_subscription_data (data_kids sub) (omega arith) (omega (arith, kids.1)) in
    let added = data_avp sub ∷ [] in
    let a =
      answered req cmd_update_location diameter_success added he (omega arith) (g.0, tt)
        (omega (arith, g.1, kids.1)) in
    (
      a.0,
      answer_message req cmd_update_location diameter_success added,
      data_avp sub,
      rw (hr) (
          dispatch-ul_for sha256 hss req (some imsi) hq
          ∙ ap (λ r. some (hss, r))
              (ul_for_known hss req imsi sub hs ∙ subscription_answer_lem req sub a.0 hf a.1)),
      a.2,
      refl,
      refl,
      parse_subscription_data-data_avp sub hf,
    )
