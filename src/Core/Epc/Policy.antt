-- ===== src/Core/Epc/Policy.antt =====
-- core/epc_pgw_c.py and core/pcrf.py: the credit control request of the PGW-C, and the PCRF's answer.
use v_epc_cups.Prelude.{
  ℕ, ◌+◌, ◌^◌, ◌<◌, ◌≡◌, refl, sym, ap, ◌∙◌, true, Option, none, some, List, [], ◌∷◌, append-nil,
  arith,
}
use v_epc_cups.Prelude.Results.{Result, ok, err, ◌>>=◌}
use v_epc_cups.Prelude.Runs
use v_epc_cups.Prelude.Runs.{Run}
use v_epc_cups.Bytes.{Bytes, u32}
use v_epc_cups.Diameter
use v_epc_cups.Diameter.{Message, avp, from_bytes, to_bytes}
use v_epc_cups.Diameter.Codes.{
  gx_app, cmd_credit_control, avp_session_id, avp_origin_host, avp_destination_realm,
  avp_auth_session_state, avp_subscription_id, avp_cc_request_type, avp_cc_request_number,
  no_state_maintained,
}
use v_epc_cups.Diameter.Text.{text, length-decode_ignore}
use v_epc_cups.Diameter.RoundTrip.{avps_bytes, IsMessage, children-group, diameter_round_trip}
use v_epc_cups.Diameter.Values.{
  length-avps_bytes, avp-IsAvp, avp_u32-avp, u32_of-avp, number_avp, number_avp-IsAvp,
}
use v_epc_cups.Core.Mme.Request.{destination_realm, session_id}
use v_epc_cups.Core.Mme.Identity.{
  FitsIdentity, subs_kids, subs_avp, subs_kids-IsAvp, length-session_id, subscription_id-subs_avp,
}
use v_epc_cups.Core.Pcrf.{Pcrf, Qos, policy_for, imsi_of, type_of, handle, parse_qos}
use v_epc_cups.Core.Pcrf.Answers.{IsPolicy, IsEchoed, authorized, handle-authorized}
use v_epc_cups.Core.Procedures.{resume}
use v_epc_cups.Core.Cpf.Requests.{Arrival}
use v_epc_cups.Core.Pgwc.State.{Pgwc}
use v_epc_cups.Core.Pgwc.Request.{pgwc_origin_host, ccr_message, ccr_bytes}
use v_epc_cups.Core.Pgwc.Gx.{qos_in}
use v_epc_cups.Core.Pgwc.{to_pcrf, ask_policy, gx_ccr}

module _ (ip : Bytes) (n : ℕ) (imsi : Bytes) (ctype : ℕ) (h : FitsIdentity ip n imsi)
    (fits : ctype < 2 ^ 32) where
  abbrev ccr : Message
  ccr = record {
    cmd_code = cmd_credit_control;
    app_id = gx_app;
    avps =
        avp avp_session_id (session_id ip n) 0
        ∷ avp avp_origin_host pgwc_origin_host 0
        ∷ avp avp_destination_realm destination_realm 0
        ∷ avp avp_auth_session_state (no_state_maintained ∷ []) 0
        ∷ subs_avp ip n imsi
        ∷ number_avp avp_cc_request_type ctype 0
        ∷ number_avp avp_cc_request_number n 0
        ∷ [];
    request = true;
    hop_id = n;
    end_id = n;
  }

  ccr-IsMessage : IsMessage ccr
  unfolding u32 avp
  ccr-IsMessage =
      let kids = subs_kids-IsAvp ip n imsi h in
      let id = length-session_id ip n imsi h in
      let group = avps_bytes (subs_kids ip n imsi) in
      (
        (
          avp-IsAvp avp_session_id 0 (session_id ip n) (omega arith) (omega arith) (omega arith),
          (
            avp-IsAvp avp_origin_host 0 pgwc_origin_host (omega arith) (omega arith) (omega arith),
            (
              avp-IsAvp avp_destination_realm 0 destination_realm (omega arith) (omega arith)
                  (omega arith),
              (
                avp-IsAvp avp_auth_session_state 0 (no_state_maintained ∷ []) (omega arith)
                    (omega arith) (omega arith),
                (
                  avp-IsAvp avp_subscription_id 0 group (omega arith) (omega arith)
                      (omega (arith, length-avps_bytes (subs_kids ip n imsi), kids.1)),
                  (
                    number_avp-IsAvp avp_cc_request_type ctype 0 (omega arith) (omega arith),
                    (number_avp-IsAvp avp_cc_request_number n 0 (omega arith) (omega arith), tt),
                  ),
                ),
              ),
            ),
          ),
        ),
        omega arith,
        omega arith,
        h.1,
        h.1,
        omega (arith, length-avps_bytes ccr.avps, length-avps_bytes (subs_kids ip n imsi), kids.1),
      )

  ccr_message-ccr : ccr_message ip n imsi ctype ≡ ok ccr
  unfolding ccr_message
  ccr_message-ccr =
      rw
        (
          subscription_id-subs_avp ip n imsi h,
          avp_u32-avp avp_cc_request_type ctype 0 fits,
          avp_u32-avp avp_cc_request_number n 0 h.1,
        )
        refl

  imsi_of-ccr : imsi_of ccr ≡ some (ok imsi)
  unfolding imsi_of Diameter.get Diameter.find text avp
  imsi_of-ccr =
      rw
        (
          (children-group avp_subscription_id 0 (subs_kids ip n imsi)
              (subs_kids-IsAvp ip n imsi h).0).1,
          h.2,
        )
        refl

  type_of-ccr : type_of (Diameter.get ccr avp_cc_request_type 0) ≡ some ctype
  unfolding Diameter.get Diameter.find avp
  type_of-ccr = u32_of-avp avp_cc_request_type ctype 0 fits

  ccr-IsEchoed : IsEchoed ccr
  unfolding Diameter.get Diameter.find text avp
  ccr-IsEchoed = (
    h.1,
    h.1,
    omega (arith, length-decode_ignore 0 (session_id ip n), length-session_id ip n imsi h),
    (n, u32_of-avp avp_cc_request_number n 0 h.1, h.1),
  )

  ccr-sent :
      (bytes : Bytes) × (ccr_bytes ip n imsi ctype ≡ ok bytes) × (from_bytes bytes ≡ some (ok ccr))
  unfolding ccr_bytes
  ccr-sent =
      let w = diameter_round_trip ccr [] ccr-IsMessage in
      (
        w.0,
        ap (λ (m : Result Message). m >>= to_bytes) ccr_message-ccr ∙ w.1,
        ap from_bytes (sym (append-nil w.0)) ∙ w.2,
      )

-- What comes back of a run of a handler.
abbrev pub heard : Run (Option Bytes) → Option Bytes
heard none = none
heard (some (err e)) = none
heard (some (ok reply)) = reply

-- What a PCRF with these policies answers to the bytes of a request.
abbrev pub answered_by : Pcrf → Bytes → Option Bytes
answered_by policies bytes = heard (handle policies bytes)

qos_in-reply :
    (reply : Bytes) (ans : Message) (qos : Qos)
    → from_bytes reply ≡ some (ok ans)
    → parse_qos ans ≡ some (ok qos)
    → qos_in (some reply) ≡ some (ok qos)
unfolding qos_in
qos_in-reply reply ans qos hr hq = ap (λ m. Runs.◌>>=◌ m parse_qos) hr ∙ hq

-- The exchange of the PGW-C with a PCRF of these policies, for an IMSI that is a text of at most 2 ^ 8
-- bytes and a policy whose numbers are below 2 ^ 32, where the address in text of the PGW-C has at most
-- 2 ^ 8 bytes, and its next request number and the type are below 2 ^ 32: one request is sent, its
-- number is the next one, and what is read of the answer is what the policy of the IMSI, or the default
-- policy, authorises for this type.
pub gx_ccr-authorized :
    (policies : Pcrf) (before during : List Arrival) (imsi : Bytes) (ctype : ℕ) (pgw : Pgwc)
    → FitsIdentity pgw.ip_text (pgw.ccn + 1) imsi
    → ctype < 2 ^ 32
    → IsPolicy (policy_for policies imsi)
    → (req : Bytes) × (gx_ccr (answered_by policies) before during imsi ctype pgw ≡ (
      record pgw { ccn = pgw.ccn + 1 },
      to_pcrf pgw.pcrf_ip req ∷ [],
      some (ok (authorized ctype (policy_for policies imsi))),
    ))
unfolding gx_ccr
gx_ccr-authorized policies before during imsi ctype pgw h fits hp =
    let n = pgw.ccn + 1 in
    let msg = ccr pgw.ip_text n imsi ctype h fits in
    let w = ccr-sent pgw.ip_text n imsi ctype h fits in
    let r =
      handle-authorized policies w.0 msg imsi ctype w.2 refl
        (type_of-ccr pgw.ip_text n imsi ctype h fits) fits
        (imsi_of-ccr pgw.ip_text n imsi ctype h fits) (ccr-IsEchoed pgw.ip_text n imsi ctype h fits)
        hp in
    let asked : Pgwc = record pgw { ccn = n } in
    (
      w.0,
      ap
            (λ (b : Result Bytes).
              resume (asked, [], some b)
                (ask_policy (answered_by policies) before during pgw.pcrf_ip))
            w.1
          ∙ ap (λ (q : Run Qos). (asked, to_pcrf pgw.pcrf_ip w.0 ∷ [], q))
              (ap (λ (o : Run (Option Bytes)). qos_in (heard o)) r.2
                ∙ qos_in-reply r.0 r.1 _ r.3 r.4),
    )
