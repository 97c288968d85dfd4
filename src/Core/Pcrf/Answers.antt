-- ===== src/Core/Pcrf/Answers.antt =====
-- core/pcrf.py: the answers of the policy server, as the PGW-C reads them.
use mathlib.Core.Option
use v_epc_cups.Prelude.{
  ℕ, ◌+◌, ◌^◌, ◌<◌, ◌≤◌, ◌≡◌, refl, ap, ap₂, ◌∙◌, inl, inr, true, false, Option, none, some, List,
  [], ◌∷◌, ◌++◌, length, All, arith, nat_beq, Bool-cases, if◌then◌else◌,
}
use v_epc_cups.Prelude.Results.{ok, ◌>>=◌}
use v_epc_cups.Bytes.{Bytes, u32}
use v_epc_cups.Diameter
use v_epc_cups.Diameter.{Avp, Message, avp, from_bytes, u32_of, find}
use v_epc_cups.Diameter.Codes.{
  gx_app, cmd_credit_control, vendor_3gpp, avp_session_id, avp_origin_host, avp_origin_realm,
  avp_result_code, avp_auth_session_state, avp_cc_request_type, avp_cc_request_number,
  avp_qos_information, avp_qos_class_identifier, avp_max_req_bandwidth_ul, avp_max_req_bandwidth_dl,
  diameter_success, no_state_maintained,
}
use v_epc_cups.Diameter.Text.{literal}
use v_epc_cups.Diameter.Framing.{IsAvp}
use v_epc_cups.Diameter.RoundTrip.{avps_bytes, IsMessage, children-group, reply_round_trip}
use v_epc_cups.Diameter.Values.{
  number_avp, number_avp-IsAvp, total, length-avps_bytes, avp-IsAvp, avp_u32-avp, u32_of-avp,
}
use v_epc_cups.Core.Hss.{session_text}
use v_epc_cups.Core.Pcrf.{
  Pcrf, Policy, policy_for, imsi_of, type_of, number_avps, qos_information, is_authorized, qos_avps,
  origin_host, origin_realm, base_avps, answer, answer_for, answer_to, qos_of, handle, Qos, no_qos,
  qos_step, parse_qos,
}

-- A policy whose numbers fit.
abbrev pub IsPolicy : Policy → Type 0
IsPolicy pol = (pol.qci < 2 ^ 32) × (pol.mbr_ul < 2 ^ 32) × (pol.mbr_dl < 2 ^ 32)

abbrev qos_kids : Policy → List Avp
qos_kids pol =
    number_avp avp_qos_class_identifier pol.qci vendor_3gpp
    ∷ number_avp avp_max_req_bandwidth_ul pol.mbr_ul vendor_3gpp
    ∷ number_avp avp_max_req_bandwidth_dl pol.mbr_dl vendor_3gpp
    ∷ []

qos_kids-IsAvp : (pol : Policy) → All IsAvp (qos_kids pol)
qos_kids-IsAvp pol = (
  number_avp-IsAvp avp_qos_class_identifier pol.qci vendor_3gpp (omega arith) (omega arith),
  (
    number_avp-IsAvp avp_max_req_bandwidth_ul pol.mbr_ul vendor_3gpp (omega arith) (omega arith),
    (
      number_avp-IsAvp avp_max_req_bandwidth_dl pol.mbr_dl vendor_3gpp (omega arith) (omega arith),
      tt,
    ),
  ),
)

abbrev info_avp : Policy → Avp
info_avp pol = avp avp_qos_information (avps_bytes (qos_kids pol)) vendor_3gpp

length-qos_kids : (pol : Policy) → length (avps_bytes (qos_kids pol)) ≤ 57
unfolding u32 avp
length-qos_kids pol = omega (arith, length-avps_bytes (qos_kids pol))

info_avp-IsAvp : (pol : Policy) → IsAvp (info_avp pol)
info_avp-IsAvp pol =
    avp-IsAvp avp_qos_information vendor_3gpp (avps_bytes (qos_kids pol)) (omega arith)
      (omega arith) (omega (arith, length-qos_kids pol))

qos_information-info_avp : (pol : Policy) → IsPolicy pol → qos_information pol ≡ ok (info_avp pol)
unfolding qos_information
qos_information-info_avp pol h =
    rw
      (
        avp_u32-avp avp_qos_class_identifier pol.qci vendor_3gpp h.0,
        avp_u32-avp avp_max_req_bandwidth_ul pol.mbr_ul vendor_3gpp h.1,
        avp_u32-avp avp_max_req_bandwidth_dl pol.mbr_dl vendor_3gpp h.2,
      )
      (children-group avp_qos_information vendor_3gpp (qos_kids pol) (qos_kids-IsAvp pol)).0

-- What an answer carries for a request of this type, and what is read of it.
abbrev added : ℕ → Policy → List Avp
added ctype pol = if is_authorized ctype then info_avp pol ∷ [] else []

abbrev pub authorized : ℕ → Policy → Qos
authorized ctype pol =
    if is_authorized ctype
    then record { qci = some pol.qci; mbr_ul = some pol.mbr_ul; mbr_dl = some pol.mbr_dl }
    else no_qos

qos_avps-added :
    (ctype : ℕ) (pol : Policy) → IsPolicy pol → qos_avps ctype pol ≡ ok (added ctype pol)
unfolding qos_avps
qos_avps-added ctype pol h =
    rw (qos_information-info_avp pol h)
      elim (Bool-cases (is_authorized ctype)) [ inl e ↦ rw (e) refl | inr e ↦ rw (e) refl ]

-- The request has no number, or one that is read.
abbrev pub IsNumbered : Option Avp → Type 0
IsNumbered none = Unit
IsNumbered (some num) = (n : ℕ) × (u32_of num ≡ some n) × (n < 2 ^ 32)

abbrev numbers : (num : Option Avp) → IsNumbered num → List Avp
numbers none h = []
numbers (some num) h = number_avp avp_cc_request_number h.0 0 ∷ []

number_avps-numbers : (num : Option Avp) (h : IsNumbered num) → number_avps num ≡ ok (numbers num h)
unfolding number_avps
number_avps-numbers none h = refl
number_avps-numbers (some num) h = rw (h.1, avp_u32-avp avp_cc_request_number h.0 0 h.2) refl

numbers-IsAvp :
    (num : Option Avp) (h : IsNumbered num) (avps : List Avp)
    → All IsAvp avps
    → All IsAvp (numbers num h ++ avps) × (total (numbers num h ++ avps) ≤ 19 + total avps)
unfolding u32 avp
numbers-IsAvp none h avps ha = (ha, omega arith)
numbers-IsAvp (some num) h avps ha =
    ((number_avp-IsAvp avp_cc_request_number h.0 0 (omega arith) (omega arith), ha), omega arith)

find-numbers :
    (num : Option Avp) (h : IsNumbered num) (avps : List Avp)
    → find avp_qos_information vendor_3gpp (numbers num h ++ avps)
      ≡ find avp_qos_information vendor_3gpp avps
unfolding find avp
find-numbers none h avps = refl
find-numbers (some num) h avps = refl

abbrev pub IsEchoed : Message → Type 0
IsEchoed req =
    (req.hop_id < 2 ^ 32)
    × (req.end_id < 2 ^ 32)
    × (length (session_text (literal "gx;1") (Diameter.get req avp_session_id 0)) ≤ 2 ^ 16)
    × IsNumbered (Diameter.get req avp_cc_request_number 0)

abbrev tail_avps : ℕ → Policy → List Avp
tail_avps ctype pol =
    number_avp avp_cc_request_type ctype 0
    ∷ number_avp avp_result_code diameter_success 0
    ∷ added ctype pol

abbrev answer_with : Message → List Avp → ℕ → Policy → Message
answer_with req ns ctype pol = record {
  cmd_code = cmd_credit_control;
  app_id = gx_app;
  avps = base_avps req ++ (ns ++ tail_avps ctype pol);
  request = false;
  hop_id = req.hop_id;
  end_id = req.end_id;
}

answer_lem :
    (req : Message) (ctype : ℕ) (pol : Policy) (ns : List Avp)
    → number_avps (Diameter.get req avp_cc_request_number 0) ≡ ok ns
    → ctype < 2 ^ 32
    → IsPolicy pol
    → answer req ctype pol ≡ ok (answer_with req ns ctype pol)
unfolding answer
answer_lem req ctype pol ns hn hc hp =
    rw (hn, avp_u32-avp avp_cc_request_type ctype 0 hc, qos_avps-added ctype pol hp) refl

-- The information is found behind what comes before it.
qos_of-added :
    (ctype : ℕ) (pol : Policy)
    → IsPolicy pol
    → qos_of (find avp_qos_information vendor_3gpp (added ctype pol))
      ≡ some (ok (authorized ctype pol))
unfolding qos_of qos_step find avp
qos_of-added ctype pol hp = elim (Bool-cases (is_authorized ctype)) [
  | inl e ↦ rw (e) (
      rw
        (
          (children-group avp_qos_information vendor_3gpp (qos_kids pol) (qos_kids-IsAvp pol)).1,
          u32_of-avp avp_qos_class_identifier pol.qci vendor_3gpp hp.0,
          u32_of-avp avp_max_req_bandwidth_ul pol.mbr_ul vendor_3gpp hp.1,
          u32_of-avp avp_max_req_bandwidth_dl pol.mbr_dl vendor_3gpp hp.2,
        )
        refl)
  | inr e ↦ rw (e) refl
]

module _ (req : Message) (ctype : ℕ) (pol : Policy) (he : IsEchoed req) where
  abbrev answer_read : Message
  answer_read = answer_with req (numbers (Diameter.get req avp_cc_request_number 0) he.3) ctype pol

  answer-answer_read : ctype < 2 ^ 32 → IsPolicy pol → answer req ctype pol ≡ ok answer_read
  answer-answer_read hc hp =
      answer_lem req ctype pol (numbers (Diameter.get req avp_cc_request_number 0) he.3)
        (number_avps-numbers (Diameter.get req avp_cc_request_number 0) he.3) hc hp

  added-IsAvp : All IsAvp (added ctype pol) × (total (added ctype pol) ≤ 72)
  unfolding avp
  added-IsAvp = elim (Bool-cases (is_authorized ctype)) [
    | inl e ↦ rw (e) ((info_avp-IsAvp pol, tt), omega (arith, length-qos_kids pol))
    | inr e ↦ rw (e) (tt, omega arith)
  ]

  tail_avps-IsAvp : All IsAvp (tail_avps ctype pol) × (total (tail_avps ctype pol) ≤ 110)
  unfolding u32 avp
  tail_avps-IsAvp = (
    (
      number_avp-IsAvp avp_cc_request_type ctype 0 (omega arith) (omega arith),
      (
        number_avp-IsAvp avp_result_code diameter_success 0 (omega arith) (omega arith),
        added-IsAvp.0,
      ),
    ),
    omega (arith, added-IsAvp.1),
  )

  answer_read-IsMessage : IsMessage answer_read
  unfolding avp
  answer_read-IsMessage =
      let ns =
        numbers-IsAvp (Diameter.get req avp_cc_request_number 0) he.3 (tail_avps ctype pol)
          tail_avps-IsAvp.0 in
      (
        (
          avp-IsAvp avp_session_id 0 _ (omega arith) (omega arith) (omega (arith, he.2)),
          (
            avp-IsAvp avp_origin_host 0 origin_host (omega arith) (omega arith) (omega arith),
            (
              avp-IsAvp avp_origin_realm 0 origin_realm (omega arith) (omega arith) (omega arith),
              (
                avp-IsAvp avp_auth_session_state 0 (no_state_maintained ∷ []) (omega arith)
                    (omega arith) (omega arith),
                ns.0,
              ),
            ),
          ),
        ),
        omega arith,
        omega arith,
        he.0,
        he.1,
        omega (arith, length-avps_bytes answer_read.avps, he.2, ns.1, tail_avps-IsAvp.1),
      )

  parse_qos-answer_read : IsPolicy pol → parse_qos answer_read ≡ some (ok (authorized ctype pol))
  unfolding parse_qos Diameter.get find avp
  parse_qos-answer_read hp =
      ap qos_of (find-numbers (Diameter.get req avp_cc_request_number 0) he.3 (tail_avps ctype pol))
      ∙ qos_of-added ctype pol hp

answer_to_lem :
    (policies : Pcrf) (req : Message) (imsi : Bytes) (ctype : ℕ)
    → req.cmd_code ≡ cmd_credit_control
    → type_of (Diameter.get req avp_cc_request_type 0) ≡ some ctype
    → imsi_of req ≡ some (ok imsi)
    → answer_to policies req ≡ some (answer req ctype (policy_for policies imsi) >>= Diameter.reply)
unfolding answer_to answer_for
answer_to_lem policies req imsi ctype hc ht hi =
    let taken : nat_beq req.cmd_code cmd_credit_control ≡ true = rw (hc) refl in
    rw (taken) (ap₂ (λ t i. Option.map (λ r. r >>= answer_for policies req t) i) ht hi)

-- A credit control request is answered where its type, its identity and, if it has one, its number can be
-- read, these numbers, the two identifiers and the numbers of the policy are below 2 ^ 32, and the
-- Session-Id has at most 2 ^ 16 bytes. The PGW-C reads the policy of the identity, or the default policy,
-- of the answer to an initial request or an update, and no authorised rate of any other.
pub handle-authorized :
    (policies : Pcrf) (bytes : Bytes) (req : Message) (imsi : Bytes) (ctype : ℕ)
    → from_bytes bytes ≡ some (ok req)
    → req.cmd_code ≡ cmd_credit_control
    → type_of (Diameter.get req avp_cc_request_type 0) ≡ some ctype
    → ctype < 2 ^ 32
    → imsi_of req ≡ some (ok imsi)
    → IsEchoed req
    → IsPolicy (policy_for policies imsi)
    → (reply : Bytes) × (ans : Message) × (handle policies bytes ≡ some (ok (some reply)))
      × (from_bytes reply ≡ some (ok ans))
      × (parse_qos ans ≡ some (ok (authorized ctype (policy_for policies imsi))))
unfolding handle
handle-authorized policies bytes req imsi ctype hr hc ht hl hi he hp =
    let pol = policy_for policies imsi in
    let r =
      reply_round_trip (answer_read req ctype pol he) (answer_read-IsMessage req ctype pol he) in
    (
      r.0,
      answer_read req ctype pol he,
      rw (hr) (
          answer_to_lem policies req imsi ctype hc ht hi
          ∙ ap (λ x. some (x >>= Diameter.reply)) (answer-answer_read req ctype pol he hl hp)
          ∙ ap some r.1),
      r.2,
      parse_qos-answer_read req ctype pol he hp,
    )
