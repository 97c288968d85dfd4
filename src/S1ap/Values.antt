-- ===== src/S1ap/Values.antt =====
-- protocols/s1ap.py: the message types, the IE numbers, and the values of the IEs.
use v_epc_cups.Prelude.{ℕ, ◌^◌, ◌++◌, ltb, if◌then◌else◌}
use v_epc_cups.Prelude.Results.{Result, ok, err, struct_error, ◌>>=◌}
use v_epc_cups.Bytes.{Bytes, u16}
use v_epc_cups.Diameter.{pack_u32}

abbrev pub initial_ue_message : ℕ
initial_ue_message = 12

abbrev pub downlink_nas_transport : ℕ
downlink_nas_transport = 13

abbrev pub uplink_nas_transport : ℕ
uplink_nas_transport = 11

abbrev pub initial_context_setup_request : ℕ
initial_context_setup_request = 9

abbrev pub initial_context_setup_response : ℕ
initial_context_setup_response = 10

abbrev pub ue_context_release_command : ℕ
ue_context_release_command = 23

abbrev pub ue_context_release_complete : ℕ
ue_context_release_complete = 24

abbrev pub ie_enb_ue_s1ap_id : ℕ
ie_enb_ue_s1ap_id = 1

abbrev pub ie_mme_ue_s1ap_id : ℕ
ie_mme_ue_s1ap_id = 2

abbrev pub ie_nas_pdu : ℕ
ie_nas_pdu = 3

abbrev pub ie_tai : ℕ
ie_tai = 4

abbrev pub ie_ecgi : ℕ
ie_ecgi = 5

abbrev pub ie_e_rab_setup_list : ℕ
ie_e_rab_setup_list = 8

abbrev pub ie_cause : ℕ
ie_cause = 10

abbrev pub ie_ue_ambr : ℕ
ie_ue_ambr = 11

-- struct.pack("!I", v) of ie_enb_id and ie_mme_id
unfoldable pub id_value : ℕ → Result Bytes
unfolding pack_u32
id_value v = pack_u32 v

-- plmn.encode() + struct.pack("!H", tac)
unfoldable pub tai_value : Bytes → ℕ → Result Bytes
tai_value plmn tac = if ltb tac (2 ^ 16) then ok (plmn ++ u16 tac) else err struct_error

-- plmn.encode() + struct.pack("!I", cid)
unfoldable pub ecgi_value : Bytes → ℕ → Result Bytes
unfolding pack_u32
ecgi_value plmn cid = pack_u32 cid >>= λ bytes. ok (plmn ++ bytes)
