-- ===== src/Uds/Dispatch.antt =====
-- Dispatch to the handler of each service, and the services that keep no state
-- (engine/plugins/protocols/l7-application/uds/src/handler.rs).
pub mod Form
use diagnostic_vehicle_simul.Prelude.{
  ℕ, Bool, true, false, not, ◌&&◌, ◌||◌, List, [], ◌∷◌, if◌then◌else◌, ltb, ◌==◌, length, get_or,
}
use diagnostic_vehicle_simul.Uds.Contract.{EcuSnapshot}
use diagnostic_vehicle_simul.Uds.Handler.{
  Reply, response_only, negative, positive, contains, split_sub_function,
  sid_diagnostic_session_control, sid_ecu_reset, sid_read_dtc_information,
  sid_read_data_by_identifier, sid_security_access, sid_routine_control, sid_request_download,
  sid_request_upload, sid_transfer_data, sid_request_transfer_exit, sid_tester_present,
  nrc_service_not_supported, nrc_sub_function_not_supported, nrc_incorrect_message_length,
  handle_request_transfer, handle_transfer_data, handle_request_transfer_exit,
  handle_diagnostic_session_control, handle_ecu_reset, handle_read_data_by_identifier,
}
use diagnostic_vehicle_simul.Uds.Security.{handle_security_access}
use diagnostic_vehicle_simul.Uds.Dtcs.{handle_read_dtc_information}

unfoldable pub handle_routine_control : List ℕ → Reply
handle_routine_control request =
    let routine_control_type = get_or request 1 0 in
    if ltb (length request) 4
    then negative sid_routine_control nrc_incorrect_message_length
    else if not (
        (routine_control_type == 0x01)
        || (routine_control_type == 0x02)
        || (routine_control_type == 0x03))
    then negative sid_routine_control nrc_sub_function_not_supported
    else response_only (
        positive sid_routine_control
        ∷ routine_control_type
        ∷ get_or request 2 0
        ∷ get_or request 3 0
        ∷ [])

unfoldable pub handle_tester_present : List ℕ → Reply
handle_tester_present request =
    let suppress = (split_sub_function (get_or request 1 0)).0 in
    let sub_function = (split_sub_function (get_or request 1 0)).1 in
    if not (length request == 2)
    then negative sid_tester_present nrc_incorrect_message_length
    else if not (sub_function == 0x00)
    then negative sid_tester_present nrc_sub_function_not_supported
    else if suppress
    then response_only []
    else response_only (positive sid_tester_present ∷ 0x00 ∷ [])

-- The handler of a service.
unfoldable pub route : ℕ → List ℕ → EcuSnapshot → Reply
route sid request snapshot =
    if sid == sid_diagnostic_session_control
    then handle_diagnostic_session_control request snapshot
    else if sid == sid_ecu_reset
    then handle_ecu_reset request
    else if sid == sid_read_data_by_identifier
    then handle_read_data_by_identifier request snapshot
    else if sid == sid_security_access
    then handle_security_access request snapshot
    else if sid == sid_read_dtc_information
    then handle_read_dtc_information request snapshot
    else if sid == sid_routine_control
    then handle_routine_control request
    else if sid == sid_tester_present
    then handle_tester_present request
    else if (sid == sid_request_download) || (sid == sid_request_upload)
    then handle_request_transfer request
    else if sid == sid_transfer_data
    then handle_transfer_data request snapshot
    else if sid == sid_request_transfer_exit
    then handle_request_transfer_exit
    else negative sid nrc_service_not_supported

-- Top-level dispatch.
unfoldable pub handle_request : List ℕ → EcuSnapshot → Reply
handle_request [] snapshot = negative 0x00 nrc_incorrect_message_length
handle_request (sid ∷ rest) snapshot =
    if not (contains snapshot.supported_services sid) && not snapshot.is_permissive
    then negative sid nrc_service_not_supported
    else route sid (sid ∷ rest) snapshot
