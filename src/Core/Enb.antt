-- ===== src/Core/Enb.antt =====
-- core/enb.py: the eNodeB, between the radio link of the UE, the MME and the SGW-U.
pub mod Setup
use v_epc_cups.Prelude.{
  ℕ, Bool, true, false, Option, none, some, List, [], ◌∷◌, ◌++◌, nat_beq, if◌then◌else◌,
}
use v_epc_cups.Prelude.Results.{Result, ok, err, type_error, ◌>>=◌, need}
use v_epc_cups.Bytes.{Bytes, Ip, be_value}
use v_epc_cups.Nas
use v_epc_cups.Nas.Values.{attach_request}
use v_epc_cups.S1ap
use v_epc_cups.S1ap.{Erab}
use v_epc_cups.S1ap.Values.{
  initial_ue_message, downlink_nas_transport, uplink_nas_transport, initial_context_setup_request,
  initial_context_setup_response, ue_context_release_command, ue_context_release_complete,
  ie_enb_ue_s1ap_id, ie_mme_ue_s1ap_id, ie_nas_pdu, ie_tai, ie_ecgi, ie_e_rab_setup_list, id_value,
  tai_value, ecgi_value,
}
use v_epc_cups.Core.Datagrams.{Address, Datagram}
use v_epc_cups.Core.GtpuNode.{GtpuNode, Send, add_route, send_gtpu}

-- `plmn` is a text; `node` is the GTP-U relay.
pub record Enb : Type 0 where
  pub ip : Ip
  pub mme_ip : Ip
  pub sgwu_ip : Ip
  pub ue_ip : Ip
  pub plmn : Bytes
  pub node : GtpuNode
  pub ue_addr : Option Address
  pub enb_ue_id : Option ℕ
  pub mme_ue_id : Option ℕ
  pub sgw_s1u_teid : Option ℕ
  pub dl_teid : ℕ
  pub ebi : ℕ
  pub attached : Bool

unfoldable pub new_enb : Ip → Ip → Ip → Ip → Bytes → Enb
new_enb ip mme_ip sgwu_ip ue_ip plmn = record {
  ip = ip;
  mme_ip = mme_ip;
  sgwu_ip = sgwu_ip;
  ue_ip = ue_ip;
  plmn = plmn;
  node = record { routes = []; stats = []; sgi_uplink = none; has_sgi = false };
  ue_addr = none;
  enb_ue_id = none;
  mme_ue_id = none;
  sgw_s1u_teid = none;
  dl_teid = 0xE0000001;
  ebi = 5;
  attached = false;
}

abbrev gtpu : ℕ
gtpu = 2152

-- self.enb_ue_id or 7, and self.mme_ue_id or 0
abbrev pub or_else : ℕ → Option ℕ → ℕ
or_else default none = default
or_else default (some n) = if nat_beq n 0 then default else n

unfoldable pub to_mme : Enb → S1ap.Message → Result Datagram
unfolding S1ap.to_bytes
to_mme enb msg = do
  bytes ← S1ap.to_bytes msg
  ok (record { payload = bytes; to = record { ip = enb.mme_ip; port = 36412 } })

-- self.ue_addr or (self.ue_ip, UU_NAS)
abbrev pub ue_address : Enb → Option Address → Address
ue_address enb none = record { ip = enb.ue_ip; port = 36422 }
ue_address enb (some addr) = addr

-- `_to_ue`; a PDU that is None makes the socket raise.
unfoldable pub to_ue : Enb → Option Bytes → Result Datagram
to_ue enb pdu = do
  bytes ← need type_error pdu
  ok (record { payload = bytes; to = ue_address enb enb.ue_addr })

-- The IEs of both ids.
unfoldable pub ids : Enb → Result (List (ℕ × Bytes))
unfolding id_value
ids enb = do
  own ← id_value (or_else 7 enb.enb_ue_id)
  mme ← id_value (or_else 0 enb.mme_ue_id)
  ok ((ie_enb_ue_s1ap_id, own) ∷ (ie_mme_ue_s1ap_id, mme) ∷ [])

unfoldable pub initial_message : Enb → Bytes → Result Datagram
unfolding id_value tai_value ecgi_value to_mme
initial_message enb bytes = do
  own ← id_value 7
  tai ← tai_value enb.plmn 1
  ecgi ← ecgi_value enb.plmn 1
  to_mme enb (record {
    msg_id = initial_ue_message;
    ies = (ie_enb_ue_s1ap_id, own) ∷ (ie_nas_pdu, bytes) ∷ (ie_tai, tai) ∷ (ie_ecgi, ecgi) ∷ [];
  })

-- A message of this type with both ids and these IEs.
unfoldable pub with_ids : Enb → ℕ → List (ℕ × Bytes) → Result Datagram
unfolding ids to_mme
with_ids enb t ies = do own ← ids enb; to_mme enb (record { msg_id = t; ies = own ++ ies })

abbrev sends : Result Datagram → Result (List Datagram)
sends r = r >>= λ d. ok (d ∷ [])

-- A NAS message of the UE that is read, as its bytes.
unfoldable pub carry : Enb → Bytes → Result Nas.Message → Enb × Result (List Datagram)
unfolding initial_message with_ids
carry enb bytes (err e) = (enb, ok [])
carry enb bytes (ok m) =
    if nat_beq m.msg_type attach_request
    then (record enb { enb_ue_id = some 7 }, sends (initial_message enb bytes))
    else (enb, sends (with_ids enb uplink_nas_transport ((ie_nas_pdu, bytes) ∷ [])))

unfoldable pub on_uu_nas : Enb → Bytes → Address → Enb × Result (List Datagram)
unfolding Nas.from_bytes carry
on_uu_nas enb bytes addr = carry (record enb { ue_addr = some addr }) bytes (Nas.from_bytes bytes)

unfoldable pub on_uu_data : Enb → Bytes → Result (Option Send)
unfolding send_gtpu
on_uu_data enb bytes = elim enb.sgw_s1u_teid [
  | none ↦ ok none
  | some teid ↦ (send_gtpu teid enb.sgwu_ip gtpu bytes >>= λ s. ok (some s))
]

-- if erabs: self.ebi, self.sgw_s1u_teid, _ = erabs[0]
abbrev pub with_bearer : Enb → List Erab → Enb
with_bearer enb [] = enb
with_bearer enb (e ∷ erabs) = record enb { ebi = e.ebi; sgw_s1u_teid = some e.teid }

-- msg.get(...) or b""
abbrev pub or_empty : Option Bytes → Bytes
or_empty none = []
or_empty (some v) = v

-- The bearer and the downlink route of a context that is set up.
unfoldable pub set_up : Enb → S1ap.Message → Enb
unfolding S1ap.get S1ap.decode_erab_list add_route
set_up enb msg =
    let enb' =
      with_bearer enb (S1ap.decode_erab_list (or_empty (S1ap.get msg ie_e_rab_setup_list))) in
    record enb' { node = add_route enb'.node enb'.dl_teid enb'.ue_ip 36423 none true }

unfoldable pub setup_response : Enb → Result Datagram
unfolding S1ap.erab_list ids to_mme
setup_response enb = do
  own ← ids enb
  erabs ← S1ap.erab_list (record { ebi = enb.ebi; teid = enb.dl_teid; ip = enb.ip } ∷ [])
  to_mme enb (record {
    msg_id = initial_context_setup_response;
    ies = own ++ (ie_e_rab_setup_list, erabs) ∷ [];
  })

-- The NAS message that comes with the request goes to the UE, before the response to the MME; None
-- and an empty one do not.
unfoldable pub pass_on : Enb → Option Bytes → List Datagram
unfolding to_ue
pass_on enb none = []
pass_on enb (some []) = []
pass_on enb (some (b ∷ pdu)) = record { payload = b ∷ pdu; to = ue_address enb enb.ue_addr } ∷ []

-- The eNodeB after a message, what it has sent, and how the handler ends.
abbrev pub Ending : Type 0
Ending = Enb × List Datagram × Result (Unit {0})

-- One datagram at the end, after which `change` is made.
abbrev pub finally_send : (Enb → Enb) → Enb → List Datagram → Result Datagram → Ending
finally_send change enb sent (err e) = (enb, sent, err e)
finally_send change enb sent (ok d) = (change enb, sent ++ d ∷ [], ok tt)

abbrev unchanged : Enb → Enb
unchanged enb = enb

abbrev pub as_attached : Enb → Enb
as_attached enb = record enb { attached = true }

-- `attached` is set when the response is sent.
unfoldable pub on_setup : Enb → S1ap.Message → Ending
unfolding set_up pass_on setup_response S1ap.get
on_setup enb msg =
    let enb' = set_up enb msg in
    finally_send as_attached enb' (pass_on enb' (S1ap.get msg ie_nas_pdu)) (setup_response enb')

unfoldable pub on_release : Enb → Ending
unfolding with_ids
on_release enb =
    let enb' : Enb = record enb { attached = false; sgw_s1u_teid = none } in
    finally_send unchanged enb' [] (with_ids enb' ue_context_release_complete [])

-- if mid: self.mme_ue_id = int.from_bytes(mid, "big")
abbrev with_mme_id : Enb → Option Bytes → Enb
with_mme_id enb none = enb
with_mme_id enb (some []) = enb
with_mme_id enb (some (b ∷ mid)) = record enb { mme_ue_id = some (be_value 0 (b ∷ mid)) }

unfoldable pub dispatch : Enb → S1ap.Message → Ending
unfolding to_ue on_setup on_release S1ap.get
dispatch enb msg =
    if nat_beq msg.msg_id downlink_nas_transport
    then finally_send unchanged enb [] (to_ue enb (S1ap.get msg ie_nas_pdu))
    else if nat_beq msg.msg_id initial_context_setup_request
    then on_setup enb msg
    else if nat_beq msg.msg_id ue_context_release_command
    then on_release enb
    else (enb, [], ok tt)

abbrev received : Enb → Result S1ap.Message → Ending
received enb (err e) = (enb, [], ok tt)
received enb (ok msg) = dispatch (with_mme_id enb (S1ap.get msg ie_mme_ue_s1ap_id)) msg

unfoldable pub on_s1ap : Enb → Bytes → Ending
unfolding S1ap.from_bytes S1ap.get dispatch be_value
on_s1ap enb bytes = received enb (S1ap.from_bytes bytes)
