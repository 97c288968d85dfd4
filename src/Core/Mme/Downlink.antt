-- ===== src/Core/Mme/Downlink.antt =====
-- core/mme.py: the messages to the eNodeB (`_send`, `_dl`, and what the handlers build).
use v_epc_cups.Prelude.{ℕ, ◌/◌, Option, none, some, List, [], ◌∷◌, nat_beq, if◌then◌else◌}
use v_epc_cups.Prelude.Results.{Result, ok, type_error, struct_error, ◌>>=◌, need}
use v_epc_cups.Bytes.{Bytes, inet_aton}
use v_epc_cups.Nas
use v_epc_cups.Nas.Values.{attach_accept, ie_ue_ip, ie_ebi, ie_ambr, byte_value, pair_value}
use v_epc_cups.S1ap
use v_epc_cups.S1ap.Values.{
  downlink_nas_transport, initial_context_setup_request, ue_context_release_command,
  ie_enb_ue_s1ap_id, ie_mme_ue_s1ap_id, ie_nas_pdu, ie_e_rab_setup_list, ie_cause, ie_ue_ambr,
  id_value,
}
use v_epc_cups.Core.Datagrams.{Address, Datagram}
use v_epc_cups.Core.Mme.State.{Bearer, Mme}
use v_epc_cups.Core.Mme.S11.{enb_ip}

abbrev pub s1mme : ℕ
s1mme = 36412

abbrev enb_address : Option Address → Address
enb_address none = record { ip = enb_ip; port = s1mme }
enb_address (some addr) = addr

unfoldable pub send : Mme → S1ap.Message → Result Datagram
unfolding S1ap.to_bytes
send mme msg = do
  bytes ← S1ap.to_bytes msg
  ok (record { payload = bytes; to = enb_address mme.enb_addr })

-- The message of this type with both ids, before these IEs.
unfoldable pub with_ids : Mme → ℕ → ℕ → ℕ → List (ℕ × Bytes) → Result Datagram
unfolding send id_value
with_ids mme t enb_id mme_id ies = do
  enb ← id_value enb_id
  own ← id_value mme_id
  send mme (record { msg_id = t; ies = (ie_enb_ue_s1ap_id, enb) ∷ (ie_mme_ue_s1ap_id, own) ∷ ies })

-- `_dl` of a NAS message
unfoldable pub dl : Mme → ℕ → ℕ → Nas.Message → Result Datagram
unfolding Nas.to_bytes with_ids
dl mme enb_id mme_id m = do
  pdu ← Nas.to_bytes m
  with_ids mme downlink_nas_transport enb_id mme_id ((ie_nas_pdu, pdu) ∷ [])

-- int(rate / 1000) if rate else default
abbrev kilo : ℕ → ℕ → ℕ
kilo default rate = if nat_beq rate 0 then default else rate / 1000

unfoldable pub accept_message : Bearer → Result Nas.Message
unfolding inet_aton byte_value pair_value
accept_message s = do
  ip ← need type_error s.ue_ip
  ebi ← byte_value s.ebi
  ambr ← pair_value (kilo 100 s.ambr.0) (kilo 200 s.ambr.1)
  ok (record {
    msg_type = attach_accept;
    ies = (ie_ue_ip, inet_aton ip) ∷ (ie_ebi, ebi) ∷ (ie_ambr, ambr) ∷ [];
  })

-- The InitialContextSetupRequest, with the Attach Accept.
unfoldable pub setup_request : Mme → ℕ → ℕ → Bearer → Result Datagram
unfolding accept_message Nas.to_bytes S1ap.erab_list pair_value with_ids
setup_request mme enb_id mme_id s = do
  accept ← accept_message s
  teid ← need struct_error s.sgw_s1u_teid
  erabs ← S1ap.erab_list (record { ebi = s.ebi; teid = teid; ip = s.sgw_s1u_ip } ∷ [])
  ambr ← pair_value (s.ambr.0 / 1000) (s.ambr.1 / 1000)
  pdu ← Nas.to_bytes accept
  with_ids mme initial_context_setup_request enb_id mme_id
      ((ie_e_rab_setup_list, erabs) ∷ (ie_ue_ambr, ambr) ∷ (ie_nas_pdu, pdu) ∷ [])

unfoldable pub release_command : Mme → ℕ → ℕ → Result Datagram
unfolding byte_value with_ids
release_command mme enb_id mme_id = do
  cause ← byte_value 18
  with_ids mme ue_context_release_command enb_id mme_id ((ie_cause, cause) ∷ [])
