-- ===== src/Core/Mme/Authentication.antt =====
-- The authentication between core/ue.py, core/mme.py and core/hss.py.
use v_epc_cups.Prelude.{ℕ, ◌≡◌, refl, sym, ap, ◌∙◌, true, some, [], ◌∷◌, append-nil, arith}
use v_epc_cups.Prelude.Results.{ok, ◌>>=◌}
use v_epc_cups.Prelude.Runs
use v_epc_cups.Prelude.Classes.{bytes_eq}
use v_epc_cups.Prelude.Dict.{get}
use v_epc_cups.Bytes.{Bytes, u32}
use v_epc_cups.Diameter
use v_epc_cups.Diameter.{Avp, Message, avp, from_bytes, to_bytes}
use v_epc_cups.Diameter.Codes.{
  s6a_app, cmd_auth_info, vendor_3gpp, avp_session_id, avp_origin_host, avp_destination_realm,
  avp_auth_session_state, avp_subscription_id, avp_requested_eutran_auth_info, avp_result_code,
  avp_authentication_info, diameter_success, no_state_maintained,
}
use v_epc_cups.Diameter.Text.{text, length-decode_ignore}
use v_epc_cups.Diameter.RoundTrip.{avps_bytes, IsMessage, children-group, diameter_round_trip}
use v_epc_cups.Diameter.Values.{
  length-avps_bytes, avp-IsAvp, u32_of-avp, number_avp, number_avp-IsAvp,
}
use v_epc_cups.Core.Hss.{Hss, Subscriber, Vector, k_of, vector, subs_id, wanted, handle}
use v_epc_cups.Core.Hss.Parse.{parse_auth_info}
use v_epc_cups.Core.Hss.AuthInfo.{first_vector}
use v_epc_cups.Core.Hss.Answers.{IsEchoed, with_count, handle-auth_info}
use v_epc_cups.Core.Mme.Request.{
  mme_origin_host, destination_realm, session_id, air_message, succeeds,
}
use v_epc_cups.Core.Mme.S6a.{vector_of, read_aia, air_result}
use v_epc_cups.Core.Ue.{res}
use v_epc_cups.Core.Mme.Identity.{
  FitsIdentity, subs_kids, subs_avp, subs_kids-IsAvp, length-session_id, subscription_id-subs_avp,
}

-- The parameters of an attach: the MME's address in text, its counter, and the IMSI.
module _ (ip : Bytes) (n : ℕ) (imsi : Bytes) where
  abbrev pub air : Message
  air = record {
    cmd_code = cmd_auth_info;
    app_id = s6a_app;
    avps =
        avp avp_session_id (session_id ip n) 0
        ∷ avp avp_origin_host mme_origin_host 0
        ∷ avp avp_destination_realm destination_realm 0
        ∷ avp avp_auth_session_state (no_state_maintained ∷ []) 0
        ∷ subs_avp ip n imsi
        ∷ number_avp avp_requested_eutran_auth_info 1 vendor_3gpp
        ∷ [];
    request = true;
    hop_id = n;
    end_id = n;
  }

  air-IsMessage : FitsIdentity ip n imsi → IsMessage air
  unfolding u32 avp
  air-IsMessage h =
      let kids = subs_kids-IsAvp ip n imsi h in
      let id = length-session_id ip n imsi h in
      (
        (
          avp-IsAvp avp_session_id 0 (session_id ip n) (omega arith) (omega arith) (omega arith),
          (
            avp-IsAvp avp_origin_host 0 mme_origin_host (omega arith) (omega arith) (omega arith),
            (
              avp-IsAvp avp_destination_realm 0 destination_realm (omega arith) (omega arith)
                  (omega arith),
              (
                avp-IsAvp avp_auth_session_state 0 (no_state_maintained ∷ []) (omega arith)
                    (omega arith) (omega arith),
                (
                  avp-IsAvp avp_subscription_id 0 (avps_bytes (subs_kids ip n imsi)) (omega arith)
                      (omega arith)
                      (omega (arith, length-avps_bytes (subs_kids ip n imsi), kids.1)),
                  (
                    number_avp-IsAvp avp_requested_eutran_auth_info 1 vendor_3gpp (omega arith)
                        (omega arith),
                    tt,
                  ),
                ),
              ),
            ),
          ),
        ),
        omega arith,
        omega arith,
        h.1,
        h.1,
        omega (arith, length-avps_bytes air.avps, length-avps_bytes (subs_kids ip n imsi), kids.1),
      )

  air_message-air : FitsIdentity ip n imsi → air_message ip n imsi ≡ ok air
  unfolding air_message
  air_message-air h = rw (subscription_id-subs_avp ip n imsi h) refl

  subs_id-air : FitsIdentity ip n imsi → subs_id air ≡ some (ok (some imsi))
  unfolding subs_id Diameter.get Diameter.find text avp
  subs_id-air h =
      rw
        (
          (children-group avp_subscription_id 0 (subs_kids ip n imsi)
              (subs_kids-IsAvp ip n imsi h).0).1,
          h.2,
        )
        refl

  air-IsEchoed : FitsIdentity ip n imsi → IsEchoed air
  unfolding Diameter.get Diameter.find text avp
  air-IsEchoed h = (
    h.1,
    h.1,
    omega (arith, length-decode_ignore 0 (session_id ip n), length-session_id ip n imsi h),
  )

  wanted-air : wanted (Diameter.get air avp_requested_eutran_auth_info vendor_3gpp) ≡ some 1
  unfolding Diameter.get Diameter.find avp
  wanted-air = u32_of-avp avp_requested_eutran_auth_info 1 vendor_3gpp (omega arith)

read_aia_lem :
    (ans : Message) (info : Avp) (k : ℕ) (v : Vector)
    → Diameter.get ans avp_result_code 0 ≡ some (avp avp_result_code (u32 diameter_success) 0)
    → Diameter.get ans avp_authentication_info vendor_3gpp ≡ some info
    → parse_auth_info info ≡ some (ok (first_vector k v))
    → read_aia ans ≡ some (ok (some (first_vector k v)))
unfolding read_aia succeeds vector_of
read_aia_lem ans info k v hr hi hp =
    rw (hr, u32_of-avp avp_result_code diameter_success 0 (omega arith), hi, hp) refl

-- The MME's request for a known subscriber, whose IMSI is a text of at most 2 ^ 8 bytes, from an
-- address in text of as many bytes at most and with a number below 2 ^ 32, is answered by the HSS, the
-- MME reads vector 0 of the answer, and the response that the UE computes of its RAND is its XRES.
pub air_result-vector :
    (sha256 : Bytes → Bytes) (hss : Hss) (ip imsi : Bytes) (n : ℕ) (sub : Subscriber)
    → FitsIdentity ip n imsi
    → get imsi hss.subscribers ≡ some sub
    → (bytes : Bytes) × (reply : Bytes) × ((air_message ip n imsi >>= to_bytes) ≡ ok bytes)
      × (handle sha256 hss bytes
          ≡ some (with_count sha256 hss (air ip n imsi) imsi, ok (some reply)))
      × (air_result (some reply) ≡ some (ok (some (first_vector 1 (vector sha256 imsi 0)))))
      × (res sha256 imsi (vector sha256 imsi 0).rand ≡ (vector sha256 imsi 0).xres)
unfolding air_result vector k_of res
air_result-vector sha256 hss ip imsi n sub ha hs =
    let w = diameter_round_trip (air ip n imsi) [] (air-IsMessage ip n imsi ha) in
    let read : from_bytes w.0 ≡ some (ok (air ip n imsi)) =
      ap from_bytes (sym (append-nil w.0)) ∙ w.2 in
    let r =
      handle-auth_info sha256 hss w.0 (air ip n imsi) imsi sub 0 read
        (refl, refl, subs_id-air ip n imsi ha) (air-IsEchoed ip n imsi ha) hs (wanted-air ip n imsi)
        (omega arith) in
    (
      w.0,
      r.0,
      ap (λ m. m >>= to_bytes) (air_message-air ip n imsi ha) ∙ w.1,
      r.3,
      ap (λ m. Runs.◌>>=◌ m read_aia) r.4
          ∙ read_aia_lem r.1 r.2 1 (vector sha256 imsi 0) r.5 r.6 r.7,
      refl,
    )
