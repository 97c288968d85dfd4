-- ===== src/Core/Epc/Challenge/Uplink.antt =====
-- core/ue.py and core/enb.py: the answer of a UE to an authentication request, and the eNodeB's datagram
-- with it.
use v_epc_cups.Prelude.{
  ℕ, ◌^◌, ◌<◌, ◌≤◌, ◌≡◌, refl, ap, ◌∙◌, some, [], ◌∷◌, ◌++◌, length, length-append, take, arith,
}
use v_epc_cups.Prelude.Results.{ok}
use v_epc_cups.Bytes.{Bytes, u16, u32}
use v_epc_cups.Diameter.Text.{literal}
use v_epc_cups.Diameter.Framing.{packed_u32}
use v_epc_cups.Nas
use v_epc_cups.Nas.RoundTrip.{ies_bytes, to_bytes-ies_bytes}
use v_epc_cups.Nas.Values.{auth_request, auth_response, ie_rand, ie_res}
use v_epc_cups.S1ap
use v_epc_cups.S1ap.RoundTrip.{IsWire, s1ap_round_trip}
use v_epc_cups.S1ap.Values.{
  uplink_nas_transport, ie_enb_ue_s1ap_id, ie_mme_ue_s1ap_id, ie_nas_pdu, id_value,
}
use v_epc_cups.Core.Datagrams.{Address}
use v_epc_cups.Core.Hss.Answers.{length-take_le}
use v_epc_cups.Core.Ue.{Ue, res, authenticate, receive, read_nas, send_nas, on_nas}
use v_epc_cups.Core.Enb.{Enb, or_else, ids, with_ids, carry, on_uu_nas}
use v_epc_cups.Core.Enb.Setup.{to_mme_lem}

-- An S1AP message with both numbers and a NAS message.
abbrev pub nas_transport : ℕ → ℕ → ℕ → Bytes → S1ap.Message
nas_transport t enb_id mme_id pdu = record {
  msg_id = t;
  ies = (ie_enb_ue_s1ap_id, u32 enb_id) ∷ (ie_mme_ue_s1ap_id, u32 mme_id) ∷ (ie_nas_pdu, pdu) ∷ [];
}

pub nas_transport-IsWire :
    (t enb_id mme_id : ℕ) (pdu : Bytes)
    → t < 2 ^ 8
    → length pdu < 1000
    → IsWire (nas_transport t enb_id mme_id pdu)
unfolding u32 u16
nas_transport-IsWire t enb_id mme_id pdu ht hp = record {
  msg_id_fits = ht;
  ies_fit =
      ((omega arith, omega arith), ((omega arith, omega arith), ((omega arith, omega arith), tt)));
  body_fits = omega (arith, length-append pdu []);
}

-- The UE's part.
module _ (sha256 : Bytes → Bytes) (ue : Ue) (rand : Bytes) where
  abbrev pub response : Nas.Message
  response = record { msg_type = auth_response; ies = (ie_res, res sha256 ue.imsi rand) ∷ [] }

  abbrev pub response_bytes : Bytes
  response_bytes = auth_response ∷ ies_bytes response.ies

  length-res : length (res sha256 ue.imsi rand) ≤ 8
  unfolding res
  length-res =
      let k = take 16 (sha256 (literal "K|" ++ ue.imsi)) in
      length-take_le 8 (sha256 (k ++ (rand ++ literal "XRES")))

  pub length-response_bytes : length response_bytes < 1000
  length-response_bytes = omega (arith, length-res, length-append (res sha256 ue.imsi rand) [])

  pub on_nas-response :
      (challenge : Bytes) (m : Nas.Message) (cell : Address)
      → Nas.from_bytes challenge ≡ ok m
      → m.msg_type ≡ auth_request
      → Nas.get m ie_rand ≡ some rand
      → on_nas sha256 ue challenge cell ≡ (
        record ue { enb_addr = some cell },
        ok (record { payload = response_bytes; to = cell } ∷ []),
      )
  unfolding on_nas receive authenticate send_nas Nas.get
  on_nas-response challenge m cell hm ht hr =
      let w =
        to_bytes-ies_bytes response (omega arith) ((omega arith, omega (arith, length-res)), tt) in
      ap (read_nas sha256 (record ue { enb_addr = some cell }) cell) hm ∙ rw (ht, hr, w) refl

-- The eNodeB's part, for a NAS message that is no Attach Request.
module _ (enb : Enb) (own : or_else 7 enb.enb_ue_id < 2 ^ 32)
    (peer : or_else 0 enb.mme_ue_id < 2 ^ 32) where
  abbrev pub transport : Bytes → S1ap.Message
  transport pdu =
      nas_transport uplink_nas_transport (or_else 7 enb.enb_ue_id) (or_else 0 enb.mme_ue_id) pdu

  pub on_uu_nas-transport :
      (pdu : Bytes) (m : Nas.Message) (addr : Address)
      → Nas.from_bytes pdu ≡ ok m
      → m.msg_type ≡ auth_response
      → length pdu < 1000
      → (bytes : Bytes) × (on_uu_nas enb pdu addr ≡ (
        record enb { ue_addr = some addr },
        ok (record { payload = bytes; to = record { ip = enb.mme_ip; port = 36412 } } ∷ []),
      ))
        × (S1ap.from_bytes bytes ≡ ok (transport pdu))
  unfolding on_uu_nas carry with_ids ids id_value
  on_uu_nas-transport pdu m addr hm ht hl =
      let enb' : Enb = record enb { ue_addr = some addr } in
      let r = s1ap_round_trip (transport pdu) (nas_transport-IsWire _ _ _ pdu (omega arith) hl) in
      let sent = to_mme_lem enb' (transport pdu) r.0 r.1 in
      (r.0, ap (carry enb' pdu) hm ∙ rw (ht, packed_u32 _ own, packed_u32 _ peer, sent) refl, r.2)
