-- ===== src/Pfcp/Types/Ie.antt =====
-- `IE` of protocols/pfcp.py: the IE type numbers, under the names that the source gives them.
use v_epc_cups.Prelude.{ℕ}

abbrev pub create_pdr : ℕ
create_pdr = 1

abbrev pub pdi : ℕ
pdi = 2

abbrev pub create_far : ℕ
create_far = 3

abbrev pub forwarding_parameters : ℕ
forwarding_parameters = 4

abbrev pub duplicating_parameters : ℕ
duplicating_parameters = 5

abbrev pub create_urr : ℕ
create_urr = 6

abbrev pub create_qer : ℕ
create_qer = 7

abbrev pub created_pdr : ℕ
created_pdr = 8

abbrev pub update_pdr : ℕ
update_pdr = 9

abbrev pub update_far : ℕ
update_far = 10

abbrev pub update_urr : ℕ
update_urr = 11

abbrev pub update_qer : ℕ
update_qer = 12

abbrev pub remove_pdr : ℕ
remove_pdr = 13

abbrev pub remove_far : ℕ
remove_far = 14

abbrev pub remove_urr : ℕ
remove_urr = 15

abbrev pub remove_qer : ℕ
remove_qer = 16

abbrev pub load_control_information : ℕ
load_control_information = 51

abbrev pub overload_control_information : ℕ
overload_control_information = 54

abbrev pub cause : ℕ
cause = 19

abbrev pub source_interface : ℕ
source_interface = 20

abbrev pub f_teid : ℕ
f_teid = 21

abbrev pub network_instance : ℕ
network_instance = 22

abbrev pub precedence : ℕ
precedence = 29

abbrev pub destination_interface : ℕ
destination_interface = 42

abbrev pub measurement_method : ℕ
measurement_method = 62

abbrev pub usage_report_trigger : ℕ
usage_report_trigger = 63

abbrev pub measurement_period : ℕ
measurement_period = 64

abbrev pub f_seid : ℕ
f_seid = 57

abbrev pub outer_header_creation : ℕ
outer_header_creation = 84

abbrev pub bar_id : ℕ
bar_id = 88

abbrev pub urr_id : ℕ
urr_id = 58

abbrev pub pdr_id : ℕ
pdr_id = 56

abbrev pub far_id : ℕ
far_id = 108

abbrev pub qer_id : ℕ
qer_id = 109

abbrev pub reporting_triggers : ℕ
reporting_triggers = 37

abbrev pub report_type : ℕ
report_type = 39

abbrev pub node_id : ℕ
node_id = 60

abbrev pub recovery_time_stamp : ℕ
recovery_time_stamp = 96

abbrev pub apply_action : ℕ
apply_action = 44

abbrev pub volume_measurement : ℕ
volume_measurement = 42

abbrev pub duration_measurement : ℕ
duration_measurement = 43

abbrev pub pfd : ℕ
pfd = 260

abbrev pub application_id : ℕ
application_id = 24

abbrev pub ue_ip_address : ℕ
ue_ip_address = 93

abbrev pub pfd_context : ℕ
pfd_context = 261

abbrev pub reported_pdr_id : ℕ
reported_pdr_id = 120

abbrev pub urr_sequence_number : ℕ
urr_sequence_number = 104
