-- ===== src/Diameter/Codes.antt =====
-- protocols/diameter.py: the application, command and AVP codes, and the values of their fields.
use v_epc_cups.Prelude.{ℕ}

abbrev pub s6a_app : ℕ
s6a_app = 16777251

abbrev pub gx_app : ℕ
gx_app = 16777238

abbrev pub cmd_auth_info : ℕ
cmd_auth_info = 318

abbrev pub cmd_update_location : ℕ
cmd_update_location = 316

abbrev pub cmd_credit_control : ℕ
cmd_credit_control = 272

abbrev pub vendor_3gpp : ℕ
vendor_3gpp = 10415

abbrev pub avp_session_id : ℕ
avp_session_id = 263

abbrev pub avp_origin_host : ℕ
avp_origin_host = 264

abbrev pub avp_origin_realm : ℕ
avp_origin_realm = 296

abbrev pub avp_destination_realm : ℕ
avp_destination_realm = 283

abbrev pub avp_result_code : ℕ
avp_result_code = 268

abbrev pub avp_auth_session_state : ℕ
avp_auth_session_state = 277

abbrev pub avp_subscription_id : ℕ
avp_subscription_id = 443

abbrev pub avp_subscription_id_type : ℕ
avp_subscription_id_type = 450

abbrev pub avp_subscription_id_data : ℕ
avp_subscription_id_data = 444

abbrev pub avp_cc_request_type : ℕ
avp_cc_request_type = 416

abbrev pub avp_cc_request_number : ℕ
avp_cc_request_number = 415

abbrev pub avp_subscription_data : ℕ
avp_subscription_data = 1400

abbrev pub avp_authentication_info : ℕ
avp_authentication_info = 1413

abbrev pub avp_e_utran_vector : ℕ
avp_e_utran_vector = 1414

abbrev pub avp_number_of_requested_vectors : ℕ
avp_number_of_requested_vectors = 1410

abbrev pub avp_requested_eutran_auth_info : ℕ
avp_requested_eutran_auth_info = 1408

abbrev pub avp_rand : ℕ
avp_rand = 1447

abbrev pub avp_xres : ℕ
avp_xres = 1448

abbrev pub avp_autn : ℕ
avp_autn = 1449

abbrev pub avp_kasme : ℕ
avp_kasme = 1450

abbrev pub avp_apn_configuration_profile : ℕ
avp_apn_configuration_profile = 1429

abbrev pub avp_apn_configuration : ℕ
avp_apn_configuration = 1430

abbrev pub avp_service_selection : ℕ
avp_service_selection = 493

abbrev pub avp_eps_subscribed_qos_profile : ℕ
avp_eps_subscribed_qos_profile = 1431

abbrev pub avp_qos_class_identifier : ℕ
avp_qos_class_identifier = 1028

abbrev pub avp_allocation_retention_priority : ℕ
avp_allocation_retention_priority = 1034

abbrev pub avp_ambr : ℕ
avp_ambr = 1435

abbrev pub avp_max_req_bandwidth_ul : ℕ
avp_max_req_bandwidth_ul = 516

abbrev pub avp_max_req_bandwidth_dl : ℕ
avp_max_req_bandwidth_dl = 515

abbrev pub avp_pdn_type_3gpp : ℕ
avp_pdn_type_3gpp = 1456

abbrev pub avp_subscriber_status : ℕ
avp_subscriber_status = 1424

abbrev pub avp_qos_information : ℕ
avp_qos_information = 1010

abbrev pub diameter_success : ℕ
diameter_success = 2001

abbrev pub diameter_user_unknown : ℕ
diameter_user_unknown = 5001

abbrev pub no_state_maintained : ℕ
no_state_maintained = 1

abbrev pub cc_initial : ℕ
cc_initial = 1

abbrev pub cc_update : ℕ
cc_update = 2

abbrev pub cc_event : ℕ
cc_event = 4
