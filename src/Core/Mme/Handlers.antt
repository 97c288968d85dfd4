-- ===== src/Core/Mme/Handlers.antt =====
-- core/mme.py: the handlers of the S1AP messages. `ask_hss` and `ask_sgw` are the answers that come in
-- time to the requests of `UDPClient.request`, `none` for none.
use v_epc_cups.Prelude.{
  ℕ, ◌+◌, Bool, true, false, Option, none, some, List, [], ◌∷◌, nat_beq, if◌then◌else◌,
}
use v_epc_cups.Prelude.Results.{Error, Result, ok, err, type_error, value_error, ◌>>=◌, need}
use v_epc_cups.Prelude.Runs.{Run}
use v_epc_cups.Prelude.Classes.{nat_eq, list_beq}
use v_epc_cups.Prelude.Dict.{get, put}
use v_epc_cups.Bytes.{Bytes, be_value}
use v_epc_cups.Diameter
use v_epc_cups.Diameter.Text.{literal}
use v_epc_cups.Nas
use v_epc_cups.Nas.Values.{
  attach_request, attach_reject, auth_request, auth_response, security_mode_command,
  security_mode_complete, detach_request, detach_accept, ie_imsi, ie_apn, ie_rand, ie_autn, ie_res,
  decode_imsi, decode_apn,
}
use v_epc_cups.S1ap
use v_epc_cups.S1ap.{Erab}
use v_epc_cups.S1ap.Values.{
  initial_ue_message, uplink_nas_transport, initial_context_setup_response, ie_enb_ue_s1ap_id,
  ie_nas_pdu, ie_e_rab_setup_list,
}
use v_epc_cups.Core.Datagrams.{Address, Datagram}
use v_epc_cups.Core.Hss.Parse.{AuthVector}
use v_epc_cups.Core.Mme.State.{Bearer, Context, Mme, Outcome, quiet, stuck, then_send}
use v_epc_cups.Core.Mme.S11.{create_request, create_result, modify_request, delete_request}
use v_epc_cups.Core.Mme.Downlink.{dl, setup_request, release_command}
use v_epc_cups.Core.Mme.Request.{air_message}
use v_epc_cups.Core.Mme.S6a.{air_result}

abbrev pub fails : Mme → Error → Outcome
fails mme e = record { mme = mme; sent = []; ended = some (err e) }

-- nas.Message.from_bytes of an IE that may be missing: None raises.
abbrev pub nas_of : Option Bytes → Result Nas.Message
nas_of none = err value_error
nas_of (some bytes) = Nas.from_bytes bytes

abbrev pub bare : ℕ → Nas.Message
bare t = record { msg_type = t; ies = [] }

-- nas.decode_apn(v) if v else "internet"
abbrev pub apn_of : Option Bytes → Bytes
apn_of none = literal "internet"
apn_of (some []) = literal "internet"
apn_of (some (b ∷ v)) = decode_apn (b ∷ v)

-- The authentication request of a vector; a part that is None raises.
unfoldable pub challenge : Mme → ℕ → ℕ → AuthVector → Result Datagram
unfolding dl
challenge mme enb_id mme_id vec = do
  rand ← need type_error vec.rand
  autn ← need type_error vec.autn
  dl mme enb_id mme_id
      (record { msg_type = auth_request; ies = (ie_rand, rand) ∷ (ie_autn, autn) ∷ [] })

abbrev pub context_with : Context → AuthVector → Context
context_with c vec = record c { rand = vec.rand; xres = vec.xres }

-- After `_air`, with the context of the UE. The reading of the HSS's answer may never end.
unfoldable pub after_air : Mme → ℕ → Context → Run (Option AuthVector) → Outcome
unfolding dl challenge put
after_air mme enb_id c none = stuck mme
after_air mme enb_id c (some (err e)) = fails mme e
after_air mme enb_id c (some (ok none)) =
    then_send (dl mme enb_id c.mme_id (bare attach_reject)) (quiet mme)
after_air mme enb_id c (some (ok (some vec))) =
    let mme' = record mme { ctx = put enb_id (context_with c vec) mme.ctx } in
    then_send (challenge mme' enb_id c.mme_id vec) (quiet mme')

abbrev pub hss_address : Mme → Address
hss_address mme = record { ip = mme.hss_ip; port = 3868 }

abbrev pub sgwc_address : Mme → Address
sgwc_address mme = record { ip = mme.sgwc_ip; port = 2123 }

abbrev pub to_address : Address → Result Bytes → Result Datagram
to_address addr r = r >>= λ bytes. ok (record { payload = bytes; to = addr })

-- The request that `_air` sends, with the counter as it stands after its increment.
unfoldable pub air_bytes : Mme → Bytes → Result Bytes
unfolding air_message Diameter.to_bytes
air_bytes mme imsi = air_message mme.ip_text mme.ccn imsi >>= Diameter.to_bytes

-- The state with a new context, and with the number of the request to the HSS.
unfoldable pub new_context : Mme → ℕ → Bytes → Bytes → Mme × Context
unfolding put
new_context mme enb_id imsi apn =
    let mme_id = mme.mme_ue + 1 in
    let c : Context = record {
      imsi = imsi;
      apn = apn;
      mme_id = mme_id;
      rand = none;
      xres = none;
      bearer = none;
    } in
    (record mme { mme_ue = mme_id; ctx = put enb_id c mme.ctx; ccn = mme.ccn + 1 }, c)

-- After `_s11_create`.
unfoldable pub after_create : Mme → ℕ → Context → Result (Option Bearer) → Outcome
unfolding dl setup_request put
after_create mme enb_id c (err e) = fails mme e
after_create mme enb_id c (ok none) =
    then_send (dl mme enb_id c.mme_id (bare attach_reject)) (quiet mme)
after_create mme enb_id c (ok (some s)) =
    let mme' = record mme { ctx = put enb_id (record c { bearer = some s }) mme.ctx } in
    then_send (setup_request mme' enb_id c.mme_id s) (quiet mme')

-- res == ctx.get("xres"); both may be None.
abbrev pub same_bytes : Option Bytes → Option Bytes → Bool
same_bytes none none = true
same_bytes none (some b) = false
same_bytes (some a) none = false
same_bytes (some a) (some b) = list_beq a b

unfoldable pub check_response : Mme → ℕ → Context → Option Bytes → Outcome
unfolding dl
check_response mme enb_id c res =
    if same_bytes res c.xres
    then then_send (dl mme enb_id c.mme_id (bare security_mode_command)) (quiet mme)
    else then_send (dl mme enb_id c.mme_id (bare attach_reject)) (quiet mme)

unfoldable pub detach : Mme → ℕ → Context → Outcome
unfolding delete_request dl release_command
detach mme enb_id c = then_send (to_address (sgwc_address mme) (delete_request c.imsi)) (
    then_send (dl mme enb_id c.mme_id (bare detach_accept))
      (then_send (release_command mme enb_id c.mme_id) (quiet mme)))

-- msg.get(...) or b""
abbrev pub or_empty : Option Bytes → Bytes
or_empty none = []
or_empty (some v) = v

-- if erabs and ctx.get("imsi"): an empty IMSI counts as none.
abbrev pub modify : Mme → Bytes → List Erab → Outcome
modify mme [] erabs = quiet mme
modify mme (b ∷ imsi) [] = quiet mme
modify mme (b ∷ imsi) (e ∷ erabs) =
    then_send (to_address (sgwc_address mme) (modify_request (b ∷ imsi) e.teid)) (quiet mme)

abbrev pub setup_in : Mme → S1ap.Message → Option Context → Outcome
setup_in mme msg none = quiet mme
setup_in mme msg (some c) =
    modify mme c.imsi (S1ap.decode_erab_list (or_empty (S1ap.get msg ie_e_rab_setup_list)))

unfoldable pub on_ctx_setup_resp : Mme → ℕ → S1ap.Message → Outcome
unfolding get modify_request S1ap.decode_erab_list
on_ctx_setup_resp mme enb_id msg = setup_in mme msg (get enb_id mme.ctx)

-- int.from_bytes(eid, "big") if eid else 0
abbrev pub enb_id_of : Option Bytes → ℕ
enb_id_of none = 0
enb_id_of (some eid) = be_value 0 eid

module _ (ask_hss ask_sgw : Bytes → Option Bytes) where
  abbrev pub asked : Result Bytes → Run (Option AuthVector)
  asked (err e) = some (err e)
  asked (ok bytes) = air_result (ask_hss bytes)

  unfoldable pub attach : Mme → ℕ → Bytes → Bytes → Outcome
  unfolding new_context air_bytes air_result after_air
  attach mme enb_id imsi apn =
      let fresh = new_context mme enb_id imsi apn in
      let req = air_bytes fresh.0 imsi in
      then_send (to_address (hss_address mme) req) (after_air fresh.0 enb_id fresh.1 (asked req))

  abbrev pub attach_from : Mme → ℕ → Nas.Message → Option Bytes → Outcome
  attach_from mme enb_id nm none = fails mme type_error
  attach_from mme enb_id nm (some v) =
      attach mme enb_id (decode_imsi v) (apn_of (Nas.get nm ie_apn))

  abbrev pub initial : Mme → ℕ → Result Nas.Message → Outcome
  initial mme enb_id (err e) = quiet mme
  initial mme enb_id (ok nm) =
      if nat_beq nm.msg_type attach_request
      then attach_from mme enb_id nm (Nas.get nm ie_imsi)
      else quiet mme

  unfoldable pub on_initial_ue : Mme → ℕ → S1ap.Message → Outcome
  unfolding attach
  on_initial_ue mme enb_id msg = initial mme enb_id (nas_of (S1ap.get msg ie_nas_pdu))

  unfoldable pub create_session : Mme → ℕ → Context → Outcome
  unfolding create_request create_result after_create
  create_session mme enb_id c =
      let req = create_request mme c.imsi c.apn 5 in
      then_send (to_address (sgwc_address mme) req)
        (after_create mme enb_id c (req >>= λ bytes. create_result 5 (ask_sgw bytes)))

  unfoldable pub uplink : Mme → ℕ → Context → Nas.Message → Outcome
  unfolding check_response create_session detach
  uplink mme enb_id c nm =
      if nat_beq nm.msg_type auth_response
      then check_response mme enb_id c (Nas.get nm ie_res)
      else if nat_beq nm.msg_type security_mode_complete
      then create_session mme enb_id c
      else if nat_beq nm.msg_type detach_request
      then detach mme enb_id c
      else quiet mme

  abbrev pub uplink_of : Mme → ℕ → Context → Result Nas.Message → Outcome
  uplink_of mme enb_id c (err e) = fails mme e
  uplink_of mme enb_id c (ok nm) = uplink mme enb_id c nm

  abbrev pub uplink_in : Mme → ℕ → S1ap.Message → Option Context → Outcome
  uplink_in mme enb_id msg none = quiet mme
  uplink_in mme enb_id msg (some c) = uplink_of mme enb_id c (nas_of (S1ap.get msg ie_nas_pdu))

  unfoldable pub on_ul_nas : Mme → ℕ → S1ap.Message → Outcome
  unfolding get uplink
  on_ul_nas mme enb_id msg = uplink_in mme enb_id msg (get enb_id mme.ctx)

  unfoldable pub dispatch : Mme → S1ap.Message → Outcome
  unfolding on_initial_ue on_ul_nas on_ctx_setup_resp be_value
  dispatch mme msg =
      let enb_id = enb_id_of (S1ap.get msg ie_enb_ue_s1ap_id) in
      if nat_beq msg.msg_id initial_ue_message
      then on_initial_ue mme enb_id msg
      else if nat_beq msg.msg_id uplink_nas_transport
      then on_ul_nas mme enb_id msg
      else if nat_beq msg.msg_id initial_context_setup_response
      then on_ctx_setup_resp mme enb_id msg
      else quiet mme

  abbrev pub received : Mme → Result S1ap.Message → Outcome
  received mme (err e) = quiet mme
  received mme (ok msg) = dispatch mme msg

  unfoldable pub on_s1ap : Mme → Bytes → Address → Outcome
  unfolding S1ap.from_bytes dispatch
  on_s1ap mme bytes addr = received (record mme { enb_addr = some addr }) (S1ap.from_bytes bytes)
