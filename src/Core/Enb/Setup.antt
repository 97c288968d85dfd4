-- ===== src/Core/Enb/Setup.antt =====
-- core/enb.py: what the setup of a UE's context leaves behind and sends.
use v_epc_cups.Prelude.{ℕ, ◌^◌, ◌<◌, ◌≡◌, refl, ap, true, none, some, List, [], ◌∷◌, ◌++◌, arith}
use v_epc_cups.Prelude.Results.{ok}
use v_epc_cups.Prelude.Classes.{nat_eq}
use v_epc_cups.Prelude.Dict.{get, get-put_self}
use v_epc_cups.Bytes.{Bytes, u16, u32, u32-be_value}
use v_epc_cups.Diameter.Framing.{packed_u32}
use v_epc_cups.S1ap
use v_epc_cups.S1ap.{Erab}
use v_epc_cups.S1ap.RoundTrip.{FitsErab, IsWire, setup_lem, s1ap_round_trip}
use v_epc_cups.S1ap.Values.{
  initial_context_setup_response, ie_enb_ue_s1ap_id, ie_mme_ue_s1ap_id, ie_nas_pdu,
  ie_e_rab_setup_list, id_value,
}
use v_epc_cups.Core.Datagrams.{Datagram}
use v_epc_cups.Core.GtpuNode.{add_route}
use v_epc_cups.Core.Enb.{
  Enb, or_else, or_empty, ids, ue_address, set_up, setup_response, pass_on, finally_send,
  as_attached, on_setup, to_mme,
}

-- The E-RAB that an eNodeB announces: its own downlink tunnel.
abbrev pub own_erab : Enb → Erab
own_erab enb = record { ebi = enb.ebi; teid = enb.dl_teid; ip = enb.ip }

pub to_mme_lem :
    (enb : Enb) (m : S1ap.Message) (bytes : Bytes)
    → S1ap.to_bytes m ≡ ok bytes
    → to_mme enb m ≡ ok (record { payload = bytes; to = record { ip = enb.mme_ip; port = 36412 } })
unfolding to_mme
to_mme_lem enb m bytes h = rw (h) refl

-- The numbers that a response carries fit their fields.
abbrev pub IsReady : Enb → Type 0
IsReady enb =
    FitsErab (own_erab enb)
    × (or_else 7 enb.enb_ue_id < 2 ^ 32)
    × (or_else 0 enb.mme_ue_id < 2 ^ 32)

module _ (enb : Enb) (h : IsReady enb) where
  abbrev erab_bytes : Bytes
  erab_bytes = enb.ebi ∷ (u32 enb.dl_teid ++ u32 enb.ip)

  abbrev response : S1ap.Message
  response = record {
    msg_id = initial_context_setup_response;
    ies =
        (ie_enb_ue_s1ap_id, u32 (or_else 7 enb.enb_ue_id))
        ∷ (ie_mme_ue_s1ap_id, u32 (or_else 0 enb.mme_ue_id))
        ∷ (ie_e_rab_setup_list, erab_bytes)
        ∷ [];
  }

  response-IsWire : IsWire response
  unfolding u32 u16
  response-IsWire = record {
    msg_id_fits = omega arith;
    ies_fit = (
      (omega arith, omega arith),
      ((omega arith, omega arith), ((omega arith, omega arith), tt)),
    );
    body_fits = omega arith;
  }

  ids-values :
      ids enb
      ≡ ok (
          (ie_enb_ue_s1ap_id, u32 (or_else 7 enb.enb_ue_id))
          ∷ (ie_mme_ue_s1ap_id, u32 (or_else 0 enb.mme_ue_id))
          ∷ [])
  unfolding ids id_value
  ids-values =
      rw (packed_u32 (or_else 7 enb.enb_ue_id) h.1, packed_u32 (or_else 0 enb.mme_ue_id) h.2) refl

  erab_list-own : S1ap.erab_list (own_erab enb ∷ []) ≡ ok erab_bytes
  unfolding S1ap.erab_list u32
  erab_list-own = rw (setup_lem (own_erab enb) h.0) refl

  decode_erab_list-own : S1ap.decode_erab_list erab_bytes ≡ own_erab enb ∷ []
  unfolding S1ap.decode_erab_list u32
  decode_erab_list-own = rw (u32-be_value enb.dl_teid h.0.1, u32-be_value enb.ip h.0.2) refl

  setup_response-response :
      (bytes : Bytes) × (setup_response enb
        ≡ ok (record { payload = bytes; to = record { ip = enb.mme_ip; port = 36412 } }))
      × (S1ap.from_bytes bytes ≡ ok response)
  unfolding setup_response
  setup_response-response =
      let r = s1ap_round_trip response response-IsWire in
      (r.0, rw (ids-values, erab_list-own) (to_mme_lem enb response r.0 r.1), r.2)

-- The eNodeB with the bearer of its context, attached, and with a route from its downlink tunnel to the
-- UE.
abbrev pub served : Enb → Erab → Enb
served enb e = record enb {
  ebi = e.ebi;
  sgw_s1u_teid = some e.teid;
  attached = true;
  node = add_route enb.node enb.dl_teid enb.ue_ip 36423 none true;
}

abbrev pub to_the_ue : Enb → Bytes → Datagram
to_the_ue enb pdu = record { payload = pdu; to = ue_address enb enb.ue_addr }

-- A setup with a bearer and a NAS message, where the numbers of the response fit: the eNodeB is attached,
-- sends its uplink into the bearer's tunnel and has a route from its own tunnel to the UE; the UE gets
-- the NAS message first, and then a response goes to the address of the MME and its S1AP port, with the
-- UE's number, from which the bearer with the own tunnel is read.
pub on_setup-served :
    (enb : Enb) (msg : S1ap.Message) (e : Erab) (erabs : List Erab) (b : ℕ) (pdu : Bytes)
    → S1ap.decode_erab_list (or_empty (S1ap.get msg ie_e_rab_setup_list)) ≡ e ∷ erabs
    → S1ap.get msg ie_nas_pdu ≡ some (b ∷ pdu)
    → IsReady (served enb e)
    → (d : Datagram) × (m : S1ap.Message) × (v : Bytes) × (on_setup enb msg
        ≡ (served enb e, to_the_ue enb (b ∷ pdu) ∷ d ∷ [], ok tt))
      × (get enb.dl_teid (served enb e).node.routes
          ≡ some (record { egress = true; ip = enb.ue_ip; port = 36423; teid = none }))
      × (S1ap.from_bytes d.payload ≡ ok m)
      × (S1ap.get m ie_e_rab_setup_list ≡ some v)
      × (S1ap.decode_erab_list v ≡ own_erab (served enb e) ∷ [])
      × (m.msg_id ≡ initial_context_setup_response)
      × (S1ap.get m ie_enb_ue_s1ap_id ≡ some (u32 (or_else 7 enb.enb_ue_id)))
      × (d.to ≡ record { ip = enb.mme_ip; port = 36412 })
unfolding on_setup set_up pass_on add_route S1ap.get v_epc_cups.Tlv.first_value
on_setup-served enb msg e erabs b pdu he hp hr =
    let before : Enb = record (served enb e) { attached = enb.attached } in
    let r = setup_response-response before hr in
    (
      record { payload = r.0; to = record { ip = enb.mme_ip; port = 36412 } },
      response before hr,
      erab_bytes before hr,
      rw (he, hp) (ap (finally_send as_attached before (to_the_ue enb (b ∷ pdu) ∷ [])) r.1),
      get-put_self enb.dl_teid _ enb.node.routes,
      r.2,
      refl,
      decode_erab_list-own before hr,
      refl,
      refl,
      refl,
    )
