-- ===== src/Pfcp/Types.antt =====
-- The numbers of protocols/pfcp.py: message types, IE types with their names, grouped IEs, causes.
pub mod Ie
use text.Mathlib.Text.{◌==◌ as str_eq}
use v_epc_cups.Prelude.{
  ℕ, ◌≡◌, refl, String, Bool, true, false, ◌||◌, List, [], ◌∷◌, nat_beq, if◌then◌else◌,
}

abbrev pub heartbeat_request : ℕ
heartbeat_request = 1

abbrev pub heartbeat_response : ℕ
heartbeat_response = 2

abbrev pub association_setup_request : ℕ
association_setup_request = 5

abbrev pub association_setup_response : ℕ
association_setup_response = 6

abbrev pub association_update_request : ℕ
association_update_request = 7

abbrev pub association_update_response : ℕ
association_update_response = 8

abbrev pub association_release_request : ℕ
association_release_request = 9

abbrev pub association_release_response : ℕ
association_release_response = 10

abbrev pub version_not_supported : ℕ
version_not_supported = 12

abbrev pub session_establishment_request : ℕ
session_establishment_request = 50

abbrev pub session_establishment_response : ℕ
session_establishment_response = 51

abbrev pub session_modification_request : ℕ
session_modification_request = 52

abbrev pub session_modification_response : ℕ
session_modification_response = 53

abbrev pub session_deletion_request : ℕ
session_deletion_request = 54

abbrev pub session_deletion_response : ℕ
session_deletion_response = 55

abbrev pub session_report_request : ℕ
session_report_request = 56

abbrev pub session_report_response : ℕ
session_report_response = 57

abbrev pub pfd_management_request : ℕ
pfd_management_request = 58

abbrev pub pfd_management_response : ℕ
pfd_management_response = 59

-- The items of the dictionary `IE`, in the order of the source.
abbrev pub ie_items : List (String × ℕ)
ie_items =
    ("Create PDR", Ie.create_pdr)
    ∷ ("PDI", Ie.pdi)
    ∷ ("Create FAR", Ie.create_far)
    ∷ ("Forwarding Parameters", Ie.forwarding_parameters)
    ∷ ("Duplicating Parameters", Ie.duplicating_parameters)
    ∷ ("Create URR", Ie.create_urr)
    ∷ ("Create QER", Ie.create_qer)
    ∷ ("Created PDR", Ie.created_pdr)
    ∷ ("Update PDR", Ie.update_pdr)
    ∷ ("Update FAR", Ie.update_far)
    ∷ ("Update URR", Ie.update_urr)
    ∷ ("Update QER", Ie.update_qer)
    ∷ ("Remove PDR", Ie.remove_pdr)
    ∷ ("Remove FAR", Ie.remove_far)
    ∷ ("Remove URR", Ie.remove_urr)
    ∷ ("Remove QER", Ie.remove_qer)
    ∷ ("Load Control Information", Ie.load_control_information)
    ∷ ("Overload Control Information", Ie.overload_control_information)
    ∷ ("Cause", Ie.cause)
    ∷ ("Source Interface", Ie.source_interface)
    ∷ ("F-TEID", Ie.f_teid)
    ∷ ("Network Instance", Ie.network_instance)
    ∷ ("Precedence", Ie.precedence)
    ∷ ("Destination Interface", Ie.destination_interface)
    ∷ ("Measurement Method", Ie.measurement_method)
    ∷ ("Usage Report Trigger", Ie.usage_report_trigger)
    ∷ ("Measurement Period", Ie.measurement_period)
    ∷ ("F-SEID", Ie.f_seid)
    ∷ ("Outer Header Creation", Ie.outer_header_creation)
    ∷ ("BAR ID", Ie.bar_id)
    ∷ ("URR ID", Ie.urr_id)
    ∷ ("PDR ID", Ie.pdr_id)
    ∷ ("FAR ID", Ie.far_id)
    ∷ ("QER ID", Ie.qer_id)
    ∷ ("Reporting Triggers", Ie.reporting_triggers)
    ∷ ("Report Type", Ie.report_type)
    ∷ ("Node ID", Ie.node_id)
    ∷ ("Recovery Time Stamp", Ie.recovery_time_stamp)
    ∷ ("Apply Action", Ie.apply_action)
    ∷ ("Volume Measurement", Ie.volume_measurement)
    ∷ ("Duration Measurement", Ie.duration_measurement)
    ∷ ("PFD", Ie.pfd)
    ∷ ("Application ID", Ie.application_id)
    ∷ ("UE IP Address", Ie.ue_ip_address)
    ∷ ("PFD Context", Ie.pfd_context)
    ∷ ("Reported PDR ID", Ie.reported_pdr_id)
    ∷ ("URR Sequence Number", Ie.urr_sequence_number)
    ∷ []

-- `{v: k for k, v in IE.items()}`: of two names for one number the later one stays.
unfoldable pub last_name : List (String × ℕ) → ℕ → String → String
last_name [] t found = found
last_name ((k, v) ∷ items) t found = last_name items t (if nat_beq v t then k else found)

-- _IE_NAME.get(t, "")
unfoldable pub ie_name : ℕ → String
unfolding last_name
ie_name t = last_name ie_items t ""

-- _IE_NAME.get(t) == name
unfoldable pub named : ℕ → String → Bool
unfolding ie_name
named t name = str_eq (ie_name t) name

-- t in GROUPED_IES
unfoldable pub grouped : ℕ → Bool
grouped t =
    nat_beq t Ie.pdi
    || nat_beq t Ie.create_pdr
    || nat_beq t Ie.create_far
    || nat_beq t Ie.forwarding_parameters
    || nat_beq t Ie.duplicating_parameters
    || nat_beq t Ie.create_urr
    || nat_beq t Ie.create_qer
    || nat_beq t Ie.update_pdr
    || nat_beq t Ie.update_far
    || nat_beq t Ie.update_urr
    || nat_beq t Ie.update_qer
    || nat_beq t Ie.created_pdr
    || nat_beq t Ie.pfd_context

abbrev pub cause_request_accepted : ℕ
cause_request_accepted = 1

abbrev pub cause_session_context_nf : ℕ
cause_session_context_nf = 3
