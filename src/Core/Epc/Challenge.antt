-- ===== src/Core/Epc/Challenge.antt =====
-- core/ue.py, core/enb.py and core/mme.py: the answer of a UE to the authentication request, on its way
-- through the eNodeB to the verdict of the MME.
pub mod Uplink
use v_epc_cups.Prelude.{
  ℕ, ◌^◌, ◌<◌, ◌≡◌, ◌≢◌, ◌↔◌, refl, ap, ◌∙◌, inl, inr, Bool-cases, Option, some, [], ◌∷◌, arith,
  if◌then◌else◌,
}
use v_epc_cups.Prelude.Results.{ok}
use v_epc_cups.Prelude.Classes.{nat_eq, list_beq, list_beq_iff}
use v_epc_cups.Prelude.Dict.{get}
use v_epc_cups.Bytes.{Bytes, u32-be_value}
use v_epc_cups.Diameter.Framing.{packed_u32}
use v_epc_cups.Nas
use v_epc_cups.Nas.RoundTrip.{to_bytes-ies_bytes, from_bytes-ies_bytes}
use v_epc_cups.Nas.Values.{
  auth_request, auth_response, security_mode_command, attach_reject, ie_rand, ie_res,
}
use v_epc_cups.S1ap
use v_epc_cups.S1ap.RoundTrip.{s1ap_round_trip}
use v_epc_cups.S1ap.Values.{uplink_nas_transport, downlink_nas_transport, ie_nas_pdu, id_value}
use v_epc_cups.Core.Datagrams.{Address}
use v_epc_cups.Core.Ue.{Ue, res, on_nas}
use v_epc_cups.Core.Enb.{Enb, or_else, on_uu_nas}
use v_epc_cups.Core.Epc.Challenge.Uplink.{
  nas_transport, nas_transport-IsWire, response, response_bytes, length-response_bytes,
  on_nas-response, on_uu_nas-transport,
}
use v_epc_cups.Core.Mme.State.{Mme, Context, Outcome}
use v_epc_cups.Core.Mme.Downlink.{send, dl}
use v_epc_cups.Core.Mme.Handlers.{
  bare, nas_of, check_response, uplink, on_ul_nas, dispatch, received, on_s1ap,
}

-- The MME's part.
dl-bare :
    (mme : Mme) (addr : Address) (enb_id mme_id t : ℕ)
    → mme.enb_addr ≡ some addr
    → enb_id < 2 ^ 32
    → mme_id < 2 ^ 32
    → t < 2 ^ 8
    → (bytes : Bytes) × (dl mme enb_id mme_id (bare t) ≡ ok (record { payload = bytes; to = addr }))
      × (S1ap.from_bytes bytes ≡ ok (nas_transport downlink_nas_transport enb_id mme_id (t ∷ [])))
unfolding dl v_epc_cups.Core.Mme.Downlink.with_ids send id_value
dl-bare mme addr enb_id mme_id t ha he hm ht =
    let m = nas_transport downlink_nas_transport enb_id mme_id (t ∷ []) in
    let r = s1ap_round_trip m (nas_transport-IsWire _ _ _ (t ∷ []) (omega arith) (omega arith)) in
    (
      r.0,
      rw (to_bytes-ies_bytes (bare t) ht tt, packed_u32 enb_id he, packed_u32 mme_id hm, r.1, ha)
          refl,
      r.2,
    )

-- The message with the verdict on a response, against the one that is expected.
abbrev verdict : Bytes → Bytes → ℕ
verdict given expected = if list_beq given expected then security_mode_command else attach_reject

verdict_lem :
    (given expected : Bytes)
    → ((verdict given expected ≡ security_mode_command) ↔ (given ≡ expected))
      × ((verdict given expected ≡ attach_reject) ↔ (given ≢ expected))
verdict_lem given expected = elim (Bool-cases (list_beq given expected)) [
  | inl t ↦
      let same = (list_beq_iff given expected).0 t in
      rw t ((λ _. same, λ _. refl), (λ h. absurd (ground arith), λ h. absurd (h same)))
  | inr f ↦
      let other : given ≢ expected = λ e. ground (arith, list_beq_iff given expected) in
      rw f ((λ h. absurd (ground arith), λ e. absurd (other e)), (λ _. other, λ _. refl))
]

-- The MME after a response, with the one message that it sends.
abbrev pub judged : Mme → Address → Bytes → Outcome
judged mme addr bytes = record {
  mme = record mme { enb_addr = some addr };
  sent = record { payload = bytes; to = addr } ∷ [];
  ended = some (ok tt);
}

module _ (mme : Mme) (addr : Address) (n : ℕ) (c : Context) (given expected : Bytes)
    (hn : n < 2 ^ 32) (hc : c.mme_id < 2 ^ 32) (hx : c.xres ≡ some expected) where
  abbrev from_it : Mme
  from_it = record mme { enb_addr = some addr }

  check_response-judged :
      (bytes : Bytes) × (check_response from_it n c (some given) ≡ judged mme addr bytes)
      × (S1ap.from_bytes bytes
          ≡ ok (nas_transport downlink_nas_transport n c.mme_id (verdict given expected ∷ [])))
  unfolding check_response
  check_response-judged = elim (Bool-cases (list_beq given expected)) [
    | inl t ↦
        let r = dl-bare from_it addr n c.mme_id security_mode_command refl hn hc (omega arith) in
        (r.0, rw (hx, t, r.1) refl, rw t r.2)
    | inr f ↦
        let r = dl-bare from_it addr n c.mme_id attach_reject refl hn hc (omega arith) in
        (r.0, rw (hx, f, r.1) refl, rw f r.2)
  ]

on_s1ap-judged :
    (ask_hss ask_sgw : Bytes → Option Bytes) (mme : Mme) (addr : Address) (bytes pdu : Bytes)
    (n k : ℕ) (c : Context) (m : Nas.Message) (o : Outcome)
    → S1ap.from_bytes bytes ≡ ok (nas_transport uplink_nas_transport n k pdu)
    → n < 2 ^ 32
    → get n mme.ctx ≡ some c
    → Nas.from_bytes pdu ≡ ok m
    → m.msg_type ≡ auth_response
    → check_response (record mme { enb_addr = some addr }) n c (Nas.get m ie_res) ≡ o
    → on_s1ap ask_hss ask_sgw mme bytes addr ≡ o
unfolding on_s1ap dispatch on_ul_nas uplink S1ap.get v_epc_cups.Tlv.first_value Nas.get
on_s1ap-judged ask_hss ask_sgw mme addr bytes pdu n k c m o hb hn hc hm ht ho =
    let mme' : Mme = record mme { enb_addr = some addr } in
    ap (received ask_hss ask_sgw mme') hb ∙ rw (u32-be_value n hn, hc, hm, ht) ho

-- A UE gets an authentication request with a RAND, the eNodeB its answer, and the MME the datagram of
-- the eNodeB; the MME has a context under the eNodeB's number of the UE, with an expected response, and
-- the numbers of the UE at the eNodeB and at the MME are below 2 ^ 32. Then each of the three sends one
-- datagram: the UE to where the request came from, the eNodeB to the address of the MME and its S1AP
-- port, and the MME to where that datagram came from. Of the last one a NAS message is read. It is a
-- Security Mode Command just where what the UE computes of its IMSI and the RAND is the expected
-- response, and an Attach Reject just where it is not. The MME's contexts stay.
pub on_nas-judged :
    (sha256 : Bytes → Bytes) (ask_hss ask_sgw : Bytes → Option Bytes) (ue : Ue)
    (challenge rand : Bytes) (m : Nas.Message) (cell there addr : Address) (enb : Enb) (mme : Mme)
    (c : Context) (expected : Bytes)
    → Nas.from_bytes challenge ≡ ok m
    → m.msg_type ≡ auth_request
    → Nas.get m ie_rand ≡ some rand
    → or_else 7 enb.enb_ue_id < 2 ^ 32
    → or_else 0 enb.mme_ue_id < 2 ^ 32
    → get (or_else 7 enb.enb_ue_id) mme.ctx ≡ some c
    → c.mme_id < 2 ^ 32
    → c.xres ≡ some expected
    → (pdu : Bytes) × (up : Bytes) × (down : Bytes) × (s : S1ap.Message) × (v : Nas.Message)
      × (on_nas sha256 ue challenge cell
          ≡ (record ue { enb_addr = some cell }, ok (record { payload = pdu; to = cell } ∷ [])))
      × (on_uu_nas enb pdu there ≡ (
        record enb { ue_addr = some there },
        ok (record { payload = up; to = record { ip = enb.mme_ip; port = 36412 } } ∷ []),
      ))
      × (on_s1ap ask_hss ask_sgw mme up addr ≡ judged mme addr down)
      × (S1ap.from_bytes down ≡ ok s)
      × (s.msg_id ≡ downlink_nas_transport)
      × (nas_of (S1ap.get s ie_nas_pdu) ≡ ok v)
      × ((v.msg_type ≡ security_mode_command) ↔ (res sha256 ue.imsi rand ≡ expected))
      × ((v.msg_type ≡ attach_reject) ↔ (res sha256 ue.imsi rand ≢ expected))
unfolding S1ap.get v_epc_cups.Tlv.first_value Nas.from_bytes Nas.get
on_nas-judged sha256 ask_hss ask_sgw ue challenge rand m cell there addr enb mme c expected hm ht hr
      own peer hg hc hx =
    let given = res sha256 ue.imsi rand in
    let reply = response sha256 ue rand in
    let pdu = response_bytes sha256 ue rand in
    let n = or_else 7 enb.enb_ue_id in
    let read = from_bytes-ies_bytes reply in
    let e =
      on_uu_nas-transport enb own peer pdu reply there read refl
        (length-response_bytes sha256 ue rand) in
    let j = check_response-judged mme addr n c given expected own hc hx in
    let w = verdict_lem given expected in
    (
      pdu,
      e.0,
      j.0,
      nas_transport downlink_nas_transport n c.mme_id (verdict given expected ∷ []),
      bare (verdict given expected),
      on_nas-response sha256 ue rand challenge m cell hm ht hr,
      e.1,
      on_s1ap-judged ask_hss ask_sgw mme addr e.0 pdu n (or_else 0 enb.mme_ue_id) c reply
          (judged mme addr j.0) e.2 own hg read refl j.1,
      j.2,
      refl,
      refl,
      w.0,
      w.1,
    )
