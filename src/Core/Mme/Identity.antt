-- ===== src/Core/Mme/Identity.antt =====
-- core/mme.py: the session and the subscription that a Diameter request of the MME or the PGW-C names.
use v_epc_cups.Prelude.{
  ℕ, zero, suc, ◌+◌, ◌*◌, ◌/◌, ◌%◌, ◌^◌, ◌<◌, ◌≤◌, ◌≡◌, inl, inr, List, [], ◌∷◌, ◌++◌, length,
  length-append, All, ltb, lt→ltb, Bool-cases, arith,
}
use v_epc_cups.Prelude.Results.{ok}
use v_epc_cups.Prelude.Classes.{bytes_eq}
use v_epc_cups.Bytes.{Bytes, u32}
use v_epc_cups.Diameter.{Avp, avp}
use v_epc_cups.Diameter.Codes.{
  avp_subscription_id, avp_subscription_id_type, avp_subscription_id_data,
}
use v_epc_cups.Diameter.Text.{IsText, literal}
use v_epc_cups.Diameter.Framing.{IsAvp}
use v_epc_cups.Diameter.RoundTrip.{avps_bytes, children-group}
use v_epc_cups.Diameter.Values.{total, avp-IsAvp, number_avp, number_avp-IsAvp}
use v_epc_cups.Core.Hss.{digits, decimal}
use v_epc_cups.Core.Mme.Request.{session_id, subscription_id}

abbrev pow10 : ℕ → ℕ
pow10 zero = 1
pow10 (suc k) = 10 * pow10 k

length-digits :
    (fuel k n : ℕ) (acc : Bytes)
    → n < pow10 (suc k)
    → length (digits fuel n acc) ≤ suc k + length acc
unfolding digits
length-digits zero k n acc h = omega arith
length-digits (suc fuel) zero n acc h = rw (lt→ltb n 10 (omega arith)) (omega arith)
length-digits (suc fuel) (suc k) n acc h = elim (Bool-cases (ltb n 10)) [
  | inl e ↦ rw (e) (omega arith)
  | inr e ↦
      rw (e) (omega (arith, length-digits fuel k (n / 10) ((48 + n % 10) ∷ acc) (omega arith)))
]

pub length-decimal : (n : ℕ) → n < 2 ^ 32 → length (decimal n) ≤ 10
unfolding decimal
length-decimal n h = omega (arith, length-digits (suc n) 9 n [] (omega arith))

-- The parameters of a request: the sender's address in text, its counter, and the IMSI.
module _ (ip : Bytes) (n : ℕ) (imsi : Bytes) where
  -- They fit their fields, and the IMSI is a text.
  abbrev pub FitsIdentity : Type 0
  FitsIdentity = (length ip ≤ 2 ^ 8) × (n < 2 ^ 32) × IsText imsi × (length imsi ≤ 2 ^ 8)

  abbrev pub subs_kids : List Avp
  subs_kids = number_avp avp_subscription_id_type 1 0 ∷ avp avp_subscription_id_data imsi 0 ∷ []

  abbrev pub subs_avp : Avp
  subs_avp = avp avp_subscription_id (avps_bytes subs_kids) 0

  pub subs_kids-IsAvp : FitsIdentity → All IsAvp subs_kids × (total subs_kids ≤ 300)
  unfolding u32 avp
  subs_kids-IsAvp h = (
    (
      number_avp-IsAvp avp_subscription_id_type 1 0 (omega arith) (omega arith),
      (avp-IsAvp avp_subscription_id_data 0 imsi (omega arith) (omega arith) (omega arith), tt),
    ),
    omega arith,
  )

  pub length-session_id : FitsIdentity → length (session_id ip n) ≤ 300
  length-session_id h =
      omega (arith, length-append ip (literal ";" ++ decimal n), length-decimal n h.1)

  pub subscription_id-subs_avp : FitsIdentity → subscription_id imsi ≡ ok subs_avp
  unfolding subscription_id
  subscription_id-subs_avp h =
      (children-group avp_subscription_id 0 subs_kids (subs_kids-IsAvp h).0).0
