-- ===== src/Core/Hss/Unknown.antt =====
-- core/hss.py: the answers to requests of an identity that is not known.
use v_epc_cups.Prelude.{
  ◌⊎◌, inl, inr, ℕ, ◌^◌, ◌<◌, ◌≡◌, refl, sym, ap, ◌∙◌, Option, none, some, [], arith,
}
use v_epc_cups.Prelude.Results.{ok, ◌>>=◌}
use v_epc_cups.Prelude.Classes.{bytes_eq}
use v_epc_cups.Prelude.Dict.{get}
use v_epc_cups.Bytes.{Bytes, u32}
use v_epc_cups.Diameter
use v_epc_cups.Diameter.{Avp, Message, avp, from_bytes, u32_of}
use v_epc_cups.Diameter.Codes.{
  cmd_auth_info, cmd_update_location, vendor_3gpp, avp_result_code, avp_authentication_info,
  avp_subscription_data, diameter_user_unknown,
}
use v_epc_cups.Core.Hss.{Hss, unknown, ai_for, ul_for, dispatch, handle}
use v_epc_cups.Core.Hss.Answers.{
  IsEchoed, answer_message, answer_lem, answered, IsRequest, dispatch-ai_for, dispatch-ul_for,
}

-- No subscriber has this identity.
abbrev pub IsUnknown : Hss → Option Bytes → Type 0
IsUnknown hss none = Unit
IsUnknown hss (some imsi) = get imsi hss.subscribers ≡ none

module _ (sha256 : Bytes → Bytes) (hss : Hss) (req : Message) where
  ai_for-unknown :
      (who : Option Bytes)
      → IsUnknown hss who
      → ai_for sha256 hss req who ≡ (hss, unknown req cmd_auth_info)
  unfolding ai_for
  ai_for-unknown none h = refl
  ai_for-unknown (some imsi) h = rw (ai_for, h) refl

  ul_for-unknown :
      (who : Option Bytes)
      → IsUnknown hss who
      → ul_for hss req who ≡ unknown req cmd_update_location
  unfolding ul_for
  ul_for-unknown none h = refl
  ul_for-unknown (some imsi) h = rw (ul_for, h) refl

  dispatch-unknown :
      (who : Option Bytes) (cmd : ℕ)
      → (cmd ≡ cmd_auth_info) ⊎ (cmd ≡ cmd_update_location)
      → IsRequest req cmd who
      → IsUnknown hss who
      → dispatch sha256 hss req ≡ some (hss, unknown req cmd)
  dispatch-unknown who cmd (inl c) hq h =
      dispatch-ai_for sha256 hss req who (hq.0 ∙ c, hq.1, hq.2)
      ∙ ap some (ai_for-unknown who h)
      ∙ ap (λ k. some (hss, unknown req k)) (sym c)
  dispatch-unknown who cmd (inr c) hq h =
      dispatch-ul_for sha256 hss req who (hq.0 ∙ c, hq.1, hq.2)
      ∙ ap (λ r. some (hss, r)) (ul_for-unknown who h)
      ∙ ap (λ k. some (hss, unknown req k)) (sym c)

fits : (cmd : ℕ) → (cmd ≡ cmd_auth_info) ⊎ (cmd ≡ cmd_update_location) → cmd < 2 ^ 24
fits cmd (inl c) = omega arith
fits cmd (inr c) = omega arith

unknown_lem :
    (req : Message) (cmd : ℕ) (reply : Bytes)
    → Diameter.reply (answer_message req cmd diameter_user_unknown []) ≡ ok (some reply)
    → unknown req cmd ≡ ok (some reply)
unfolding unknown
unknown_lem req cmd reply h =
    ap (λ r. r >>= Diameter.reply) (answer_lem req cmd diameter_user_unknown [] (omega arith)) ∙ h

-- An authentication or update request of an identity that no subscriber has, or of none, whose two
-- identifiers are below 2 ^ 32 and whose Session-Id has at most 2 ^ 16 bytes, changes nothing and is
-- answered with the result for an unknown user, and no vector or subscription data.
pub handle-unknown :
    (sha256 : Bytes → Bytes) (hss : Hss) (bytes : Bytes) (req : Message) (who : Option Bytes)
    (cmd : ℕ)
    → (cmd ≡ cmd_auth_info) ⊎ (cmd ≡ cmd_update_location)
    → from_bytes bytes ≡ some (ok req)
    → IsRequest req cmd who
    → IsEchoed req
    → IsUnknown hss who
    → (reply : Bytes) × (ans : Message) × (handle sha256 hss bytes ≡ some (hss, ok (some reply)))
      × (from_bytes reply ≡ some (ok ans))
      × (Diameter.get ans avp_result_code 0
          ≡ some (avp avp_result_code (u32 diameter_user_unknown) 0))
      × (Diameter.get ans avp_authentication_info vendor_3gpp ≡ none)
      × (Diameter.get ans avp_subscription_data vendor_3gpp ≡ none)
unfolding handle Diameter.get Diameter.find avp
handle-unknown sha256 hss bytes req who cmd hc hr hq he hu =
    let a = answered req cmd diameter_user_unknown [] he (fits cmd hc) tt (omega arith) in
    (
      a.0,
      answer_message req cmd diameter_user_unknown [],
      rw (hr) (
          dispatch-unknown sha256 hss req who cmd hc hq hu
          ∙ ap (λ r. some (hss, r)) (unknown_lem req cmd a.0 a.1)),
      a.2,
      refl,
      refl,
      refl,
    )
