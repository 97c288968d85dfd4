-- ===== src/Core/Mme/Numbers.antt =====
-- core/mme.py: the numbers (MME-UE-S1AP-IDs) that the MME gives to its contexts.
pub mod Contexts
use v_epc_cups.Prelude.{
  ℕ, ◌≤◌, ◌≡◌, refl, sym, ap, ◌∙◌, ◌⊎◌, inl, inr, Option, none, some, List, [], ◌∷◌, nat_beq,
  nat_beq_iff, Bool-cases, if◌then◌else◌, arith,
}
use v_epc_cups.Prelude.Results.{Result, ok, err, ◌>>=◌}
use v_epc_cups.Prelude.Classes.{nat_eq}
use v_epc_cups.Prelude.Dict.{get, put, get-put, get-put_self}
use v_epc_cups.Bytes.{Bytes}
use v_epc_cups.Nas
use v_epc_cups.S1ap
use v_epc_cups.S1ap.{Erab}
use v_epc_cups.Core.Datagrams.{Address, Datagram}
use v_epc_cups.Core.Hss.Parse.{AuthVector}
use v_epc_cups.Core.Mme.State.{Bearer, Context, Mme, Outcome, quiet, then_send}
use v_epc_cups.Core.Mme.S11.{create_request, create_result, modify_request, delete_request}
use v_epc_cups.Core.Mme.Downlink.{dl, release_command}
use v_epc_cups.Core.Mme.Handlers.{
  after_air, after_create, new_context, context_with, air_bytes, asked, bare, to_address,
  sgwc_address, attach, attach_from, apn_of, initial, same_bytes, check_response, create_session,
  detach, uplink, uplink_of, uplink_in, on_ul_nas, modify, setup_in, on_ctx_setup_resp,
  on_initial_ue, nas_of, or_empty, enb_id_of, dispatch, received, on_s1ap,
}
use v_epc_cups.Nas.Values.{
  attach_request, auth_response, security_mode_complete, detach_request, ie_imsi, ie_apn, ie_res,
  decode_imsi, detach_accept,
}
use v_epc_cups.S1ap.Values.{
  initial_ue_message, uplink_nas_transport, initial_context_setup_response, ie_enb_ue_s1ap_id,
  ie_nas_pdu, ie_e_rab_setup_list,
}
use v_epc_cups.Core.Mme.Numbers.Contexts.{
  IsNumbered, put-IsNumbered, new_context-IsNumbered, sent-IsNumbered, after_air-IsNumbered,
  after_create-IsNumbered,
}

module _ (ask_hss ask_sgw : Bytes → Option Bytes) (mme : Mme) (h : IsNumbered mme) where
  attach-IsNumbered :
      (e : ℕ) (imsi apn : Bytes) → IsNumbered (attach ask_hss ask_sgw mme e imsi apn).mme
  unfolding attach new_context
  attach-IsNumbered e imsi apn =
      let fresh = new_context mme e imsi apn in
      let r = asked ask_hss ask_sgw (air_bytes fresh.0 imsi) in
      sent-IsNumbered _ (after_air fresh.0 e fresh.1 r) (
        after_air-IsNumbered fresh.0 e fresh.1 r (new_context-IsNumbered mme e imsi apn h)
          (get-put_self e fresh.1 mme.ctx))

  attach_from-IsNumbered :
      (e : ℕ) (nm : Nas.Message) (o : Option Bytes)
      → IsNumbered (attach_from ask_hss ask_sgw mme e nm o).mme
  attach_from-IsNumbered e nm none = h
  attach_from-IsNumbered e nm (some v) =
      attach-IsNumbered e (decode_imsi v) (apn_of (Nas.get nm ie_apn))

  initial-IsNumbered :
      (e : ℕ) (r : Result Nas.Message) → IsNumbered (initial ask_hss ask_sgw mme e r).mme
  initial-IsNumbered e (err x) = h
  initial-IsNumbered e (ok nm) = elim (Bool-cases (nat_beq nm.msg_type attach_request)) [
    | inl t ↦ rw (t) (attach_from-IsNumbered e nm (Nas.get nm ie_imsi))
    | inr t ↦ rw (t) h
  ]

  create_session-IsNumbered :
      (e : ℕ) (c : Context)
      → get e mme.ctx ≡ some c
      → IsNumbered (create_session ask_hss ask_sgw mme e c).mme
  unfolding create_session
  create_session-IsNumbered e c hc =
      let req = create_request mme c.imsi c.apn 5 in
      let r = req >>= λ bytes. create_result 5 (ask_sgw bytes) in
      sent-IsNumbered (to_address (sgwc_address mme) req) (after_create mme e c r)
        (after_create-IsNumbered mme e c r h hc)

  detach-IsNumbered : (e : ℕ) (c : Context) → IsNumbered (detach mme e c).mme
  unfolding detach
  detach-IsNumbered e c =
      let last = then_send (release_command mme e c.mme_id) (quiet mme) in
      let accept = dl mme e c.mme_id (bare detach_accept) in
      sent-IsNumbered (to_address (sgwc_address mme) (delete_request c.imsi))
        (then_send accept last)
        (sent-IsNumbered accept last
          (sent-IsNumbered (release_command mme e c.mme_id) (quiet mme) h))

  uplink-IsNumbered :
      (e : ℕ) (c : Context) (nm : Nas.Message)
      → get e mme.ctx ≡ some c
      → IsNumbered (uplink ask_hss ask_sgw mme e c nm).mme
  unfolding uplink check_response
  uplink-IsNumbered e c nm hc = elim (Bool-cases (nat_beq nm.msg_type auth_response)) [
    | inl t ↦ rw (t) elim (Bool-cases (same_bytes (Nas.get nm ie_res) c.xres)) [
      | inl s ↦ rw (s) (sent-IsNumbered _ (quiet mme) h)
      | inr s ↦ rw (s) (sent-IsNumbered _ (quiet mme) h)
    ]
    | inr t₁ ↦ elim (Bool-cases (nat_beq nm.msg_type security_mode_complete)) [
      | inl t ↦ rw (t₁, t) (create_session-IsNumbered e c hc)
      | inr t₂ ↦ elim (Bool-cases (nat_beq nm.msg_type detach_request)) [
        | inl t ↦ rw (t₁, t₂, t) (detach-IsNumbered e c)
        | inr t ↦ rw (t₁, t₂, t) h
      ]
    ]
  ]

  uplink_in-IsNumbered :
      (e : ℕ) (msg : S1ap.Message) (o : Option Context)
      → get e mme.ctx ≡ o
      → IsNumbered (uplink_in ask_hss ask_sgw mme e msg o).mme
  uplink_in-IsNumbered e msg none ho = h
  uplink_in-IsNumbered e msg (some c) ho = go (nas_of (S1ap.get msg ie_nas_pdu))
    where
      go : (r : Result Nas.Message) → IsNumbered (uplink_of ask_hss ask_sgw mme e c r).mme
      go (err x) = h
      go (ok nm) = uplink-IsNumbered e c nm ho

  modify-IsNumbered : (imsi : Bytes) (erabs : List Erab) → IsNumbered (modify mme imsi erabs).mme
  modify-IsNumbered [] erabs = h
  modify-IsNumbered (b ∷ imsi) [] = h
  modify-IsNumbered (b ∷ imsi) (e ∷ erabs) =
      sent-IsNumbered (to_address (sgwc_address mme) (modify_request (b ∷ imsi) e.teid)) (quiet mme)
        h

  setup_in-IsNumbered :
      (msg : S1ap.Message) (o : Option Context) → IsNumbered (setup_in mme msg o).mme
  setup_in-IsNumbered msg none = h
  setup_in-IsNumbered msg (some c) =
      modify-IsNumbered c.imsi (S1ap.decode_erab_list (or_empty (S1ap.get msg ie_e_rab_setup_list)))

  dispatch-IsNumbered : (msg : S1ap.Message) → IsNumbered (dispatch ask_hss ask_sgw mme msg).mme
  unfolding dispatch on_initial_ue on_ul_nas on_ctx_setup_resp
  dispatch-IsNumbered msg =
      let e = enb_id_of (S1ap.get msg ie_enb_ue_s1ap_id) in
      elim (Bool-cases (nat_beq msg.msg_id initial_ue_message)) [
        | inl t ↦ rw (t) (initial-IsNumbered e (nas_of (S1ap.get msg ie_nas_pdu)))
        | inr t₁ ↦ elim (Bool-cases (nat_beq msg.msg_id uplink_nas_transport)) [
          | inl t ↦ rw (t₁, t) (uplink_in-IsNumbered e msg (get e mme.ctx) refl)
          | inr t₂ ↦ elim (Bool-cases (nat_beq msg.msg_id initial_context_setup_response)) [
            | inl t ↦ rw (t₁, t₂, t) (setup_in-IsNumbered msg (get e mme.ctx))
            | inr t ↦ rw (t₁, t₂, t) h
          ]
        ]
      ]

  received-IsNumbered : (r : Result S1ap.Message) → IsNumbered (received ask_hss ask_sgw mme r).mme
  received-IsNumbered (err x) = h
  received-IsNumbered (ok msg) = dispatch-IsNumbered msg

-- Whatever datagram the MME receives, whatever the HSS and the SGW-C answer, and also where the
-- handler raises or never ends: the contexts keep different numbers, and the counter stays at or above
-- them.
pub on_s1ap-IsNumbered :
    (ask_hss ask_sgw : Bytes → Option Bytes) (mme : Mme) (bytes : Bytes) (addr : Address)
    → IsNumbered mme
    → IsNumbered (on_s1ap ask_hss ask_sgw mme bytes addr).mme
unfolding on_s1ap
on_s1ap-IsNumbered ask_hss ask_sgw mme bytes addr h =
    received-IsNumbered ask_hss ask_sgw (record mme { enb_addr = some addr }) h
      (S1ap.from_bytes bytes)
