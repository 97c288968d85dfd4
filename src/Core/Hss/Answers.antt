-- ===== src/Core/Hss/Answers.antt =====
-- core/hss.py: the answers of the server, as they are read back.
use v_epc_cups.Prelude.{
  nat_beq, ◌&&◌, ℕ, zero, suc, ◌^◌, ◌<◌, ◌≤◌, ◌≡◌, refl, ap, ◌∙◌, true, false, Option, some, List,
  [], ◌∷◌, ◌++◌, length, take, map, All, arith,
}
use v_epc_cups.Prelude.Results.{ok, ◌>>=◌}
use v_epc_cups.Prelude.Classes.{bytes_eq}
use v_epc_cups.Prelude.Dict.{get, put}
use v_epc_cups.Bytes.{Bytes, u32}
use v_epc_cups.Diameter
use v_epc_cups.Diameter.{Avp, Message, avp, from_bytes, u32_of}
use v_epc_cups.Diameter.Codes.{
  s6a_app, cmd_auth_info, cmd_update_location, vendor_3gpp, avp_session_id, avp_origin_host,
  avp_origin_realm, avp_result_code, avp_auth_session_state, avp_authentication_info,
  avp_requested_eutran_auth_info, avp_number_of_requested_vectors, diameter_success,
  no_state_maintained,
}
use v_epc_cups.Diameter.Text.{literal}
use v_epc_cups.Diameter.Framing.{IsAvp}
use v_epc_cups.Diameter.RoundTrip.{IsMessage, reply_round_trip}
use v_epc_cups.Diameter.Values.{total, length-avps_bytes, avp-IsAvp, avp_u32-avp, number_avp}
use v_epc_cups.Core.Hss.{
  Hss, Subscriber, Vector, vector, range_from, subs_id, session_text, origin_host, origin_realm,
  base_avps, answer, wanted, counted, vectors_answer, ai_for, ul_for, with_id, dispatch, handle,
}
use v_epc_cups.Core.Hss.Parse.{parse_auth_info}
use v_epc_cups.Core.Hss.AuthInfo.{
  IsShort, Carries, first_vector, info_avp, children-info_avp, auth_info-info_avp, info_avp-IsAvp,
  parse_auth_info-info_avp,
}

-- What an answer repeats of its request fits.
abbrev pub IsEchoed : Message → Type 0
IsEchoed req =
    (req.hop_id < 2 ^ 32)
    × (req.end_id < 2 ^ 32)
    × (length (session_text (literal "hss;1") (Diameter.get req avp_session_id 0)) ≤ 2 ^ 16)

abbrev pub answer_message : Message → ℕ → ℕ → List Avp → Message
answer_message req cmd result added = record {
  cmd_code = cmd;
  app_id = s6a_app;
  avps = base_avps req ++ (avp avp_result_code (u32 result) 0 ∷ added);
  request = false;
  hop_id = req.hop_id;
  end_id = req.end_id;
}

pub answer_lem :
    (req : Message) (cmd result : ℕ) (added : List Avp)
    → result < 2 ^ 32
    → answer req cmd result added ≡ ok (answer_message req cmd result added)
unfolding answer
answer_lem req cmd result added h = rw (avp_u32-avp avp_result_code result 0 h) refl

base_avps-IsAvp :
    (req : Message) (avps : List Avp)
    → IsEchoed req
    → All IsAvp avps
    → All IsAvp (base_avps req ++ avps)
base_avps-IsAvp req avps h ha = (
  avp-IsAvp avp_session_id 0 _ (omega arith) (omega arith) (omega (arith, h.2)),
  (
    avp-IsAvp avp_origin_host 0 origin_host (omega arith) (omega arith) (omega arith),
    (
      avp-IsAvp avp_origin_realm 0 origin_realm (omega arith) (omega arith) (omega arith),
      (
        avp-IsAvp avp_auth_session_state 0 (no_state_maintained ∷ []) (omega arith) (omega arith)
            (omega arith),
        ha,
      ),
    ),
  ),
)

answer_message-IsMessage :
    (req : Message) (cmd result : ℕ) (added : List Avp)
    → IsEchoed req
    → cmd < 2 ^ 24
    → All IsAvp added
    → total added ≤ 2 ^ 23
    → IsMessage (answer_message req cmd result added)
unfolding u32 avp
answer_message-IsMessage req cmd result added h hc ha ht = (
  base_avps-IsAvp req (avp avp_result_code (u32 result) 0 ∷ added) h
      (avp-IsAvp avp_result_code 0 (u32 result) (omega arith) (omega arith) (omega arith), ha),
  hc,
  omega arith,
  h.0,
  h.1,
  omega (
    arith,
    length-avps_bytes (base_avps req ++ (avp avp_result_code (u32 result) 0 ∷ added)),
    h.2,
  ),
)

-- The answer is written, and read back.
pub answered :
    (req : Message) (cmd result : ℕ) (added : List Avp)
    → IsEchoed req
    → cmd < 2 ^ 24
    → All IsAvp added
    → total added ≤ 2 ^ 23
    → (reply : Bytes) × (Diameter.reply (answer_message req cmd result added) ≡ ok (some reply))
      × (from_bytes reply ≡ some (ok (answer_message req cmd result added)))
answered req cmd result added h hc ha ht =
    reply_round_trip (answer_message req cmd result added)
      (answer_message-IsMessage req cmd result added h hc ha ht)

pub length-take_le : {A : Type 0} (n : ℕ) (xs : List A) → length (take n xs) ≤ n
length-take_le zero xs = omega arith
length-take_le (suc n) [] = omega arith
length-take_le (suc n) (x ∷ xs) = omega (arith, length-take_le n xs)

module _ (sha256 : Bytes → Bytes) (imsi : Bytes) where
  vector-IsShort : (i : ℕ) → IsShort (vector sha256 imsi i)
  unfolding vector
  vector-IsShort i = (
    omega (arith, length-take_le 16 (sha256 _)),
    omega (arith, length-take_le 8 (sha256 _)),
    omega (arith, length-take_le 16 (sha256 _)),
    length-take_le 32 (sha256 _),
  )

  abbrev vectors : ℕ → ℕ → List Vector
  vectors i n = map (vector sha256 imsi) (range_from i n)

  vectors-IsShort : (i n : ℕ) → All IsShort (vectors i n)
  vectors-IsShort i zero = tt
  vectors-IsShort i (suc n) = (vector-IsShort i, vectors-IsShort (suc i) n)

  length-vectors : (i n : ℕ) → length (vectors i n) ≡ n
  length-vectors i zero = refl
  length-vectors i (suc n) = ap suc (length-vectors (suc i) n)

-- A request that the handler takes, of this identity.
abbrev pub IsRequest : Message → ℕ → Option Bytes → Type 0
IsRequest req cmd who = (req.cmd_code ≡ cmd) × (req.request ≡ true) × (subs_id req ≡ some (ok who))

-- The answer with the vectors, as it is read back.
module _ (sha256 : Bytes → Bytes) (req : Message) (imsi : Bytes) (n : ℕ) where
  abbrev info : Avp
  info = info_avp (suc n) (vectors sha256 imsi 0 (suc n))

  abbrev answer_read : Message
  answer_read = answer_message req cmd_auth_info diameter_success (info ∷ [])

  vectors_answer_lem :
      IsEchoed req
      → n < 2 ^ 15
      → (reply : Bytes) × (vectors_answer sha256 req imsi (some (suc n)) ≡ ok (some reply))
        × (from_bytes reply ≡ some (ok answer_read))
  unfolding vectors_answer
  vectors_answer_lem he hn =
      let vs = vectors sha256 imsi 0 (suc n) in
      let short = vectors-IsShort sha256 imsi 0 (suc n) in
      let fits =
        info_avp-IsAvp (suc n) vs short (omega (arith, length-vectors sha256 imsi 0 (suc n))) in
      let a =
        answered req cmd_auth_info diameter_success (info ∷ []) he (omega arith) (fits.0, tt)
          fits.1 in
      (
        a.0,
        ap (λ r. r >>= λ x. answer req cmd_auth_info diameter_success (x ∷ []) >>= Diameter.reply)
              (auth_info-info_avp (suc n) vs (omega arith) short)
            ∙ ap (λ r. r >>= Diameter.reply)
                (answer_lem req cmd_auth_info diameter_success (info ∷ []) (omega arith))
            ∙ a.1,
        a.2,
      )

-- Which of the two handlers takes a request.
module _ (sha256 : Bytes → Bytes) (hss : Hss) (req : Message) (who : Option Bytes) where
  pub dispatch-ai_for :
      IsRequest req cmd_auth_info who → dispatch sha256 hss req ≡ some (ai_for sha256 hss req who)
  unfolding dispatch
  dispatch-ai_for hq =
      let taken : nat_beq req.cmd_code cmd_auth_info && req.request ≡ true = rw (hq.0, hq.1) refl in
      rw (taken) (ap (λ r. with_id hss r (ai_for sha256 hss req)) hq.2)

  pub dispatch-ul_for :
      IsRequest req cmd_update_location who
      → dispatch sha256 hss req ≡ some (hss, ul_for hss req who)
  unfolding dispatch
  dispatch-ul_for hq =
      let passed : nat_beq req.cmd_code cmd_auth_info && req.request ≡ false = rw (hq.0) refl in
      let taken : nat_beq req.cmd_code cmd_update_location && req.request ≡ true =
        rw (hq.0, hq.1) refl in
      rw (passed) (rw (taken) (ap (λ r. with_id hss r (λ i. (hss, ul_for hss req i))) hq.2))

module _ (sha256 : Bytes → Bytes) (hss : Hss) (req : Message) (imsi : Bytes) where
  abbrev pub with_count : Hss
  with_count = record hss {
    vec_counter = put imsi (counted (get imsi hss.vec_counter)) hss.vec_counter;
  }

  ai_for_known :
      (sub : Subscriber) (want : Option ℕ)
      → get imsi hss.subscribers ≡ some sub
      → wanted (Diameter.get req avp_requested_eutran_auth_info vendor_3gpp) ≡ want
      → ai_for sha256 hss req (some imsi) ≡ (with_count, vectors_answer sha256 req imsi want)
  unfolding ai_for
  ai_for_known sub want hs hw = rw (ai_for, hs, hw) refl

module _ (sha256 : Bytes → Bytes) (hss : Hss) (bytes : Bytes) (req : Message) (imsi : Bytes) where
  -- A request of a known subscriber for at least one and at most 2 ^ 15 vectors, whose two identifiers are
  -- below 2 ^ 32 and whose Session-Id has at most 2 ^ 16 bytes, is answered with success. The answer
  -- has the number and, in their order, the vectors 0, 1, 2 and so on, as many as are wanted; the MME reads the
  -- number and vector 0. The counter of the IMSI grows by one.
  pub handle-auth_info :
      (sub : Subscriber) (n : ℕ)
      → from_bytes bytes ≡ some (ok req)
      → IsRequest req cmd_auth_info (some imsi)
      → IsEchoed req
      → get imsi hss.subscribers ≡ some sub
      → wanted (Diameter.get req avp_requested_eutran_auth_info vendor_3gpp) ≡ some (suc n)
      → n < 2 ^ 15
      → (reply : Bytes) × (ans : Message) × (info : Avp) × (handle sha256 hss bytes
          ≡ some (with_count sha256 hss req imsi, ok (some reply)))
        × (from_bytes reply ≡ some (ok ans))
        × (Diameter.get ans avp_result_code 0 ≡ some (avp avp_result_code (u32 diameter_success) 0))
        × (Diameter.get ans avp_authentication_info vendor_3gpp ≡ some info)
        × (parse_auth_info info ≡ some (ok (first_vector (suc n) (vector sha256 imsi 0))))
        × ((avps : List Avp) × (Diameter.children info
              ≡ some (ok (number_avp avp_number_of_requested_vectors (suc n) vendor_3gpp ∷ avps)))
            × Carries avps (map (vector sha256 imsi) (range_from 0 (suc n))))
  unfolding handle Diameter.get Diameter.find avp
  handle-auth_info sub n hr hq he hs hw hn =
      let a = vectors_answer_lem sha256 req imsi n he hn in
      (
        a.0,
        answer_read sha256 req imsi n,
        info sha256 req imsi n,
        rw (hr) (
            dispatch-ai_for sha256 hss req (some imsi) hq
            ∙ ap some (
                ai_for_known sha256 hss req imsi sub (some (suc n)) hs hw
                ∙ ap (λ r. (with_count sha256 hss req imsi, r)) a.1)),
        a.2,
        refl,
        refl,
        parse_auth_info-info_avp (suc n) (vector sha256 imsi 0) (vectors sha256 imsi 1 n)
            (omega arith) (vectors-IsShort sha256 imsi 0 (suc n)),
        children-info_avp (suc n) (vectors sha256 imsi 0 (suc n))
            (vectors-IsShort sha256 imsi 0 (suc n)),
      )
