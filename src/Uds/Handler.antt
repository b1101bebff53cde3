-- ===== src/Uds/Handler.antt =====
-- The request handler, one function per service
-- (engine/plugins/protocols/l7-application/uds/src/handler.rs). A request is a list of bytes;
-- indexing past its end does not occur, since each handler checks the length first.
use diagnostic_vehicle_simul.Prelude.{
  ℕ, ◌+◌, ◌*◌, ◌/◌, ◌%◌, Bool, false, not, ◌||◌, Option, none, some, List, [], ◌∷◌, if◌then◌else◌,
  ltb, ◌==◌, length, get_or,
}
use diagnostic_vehicle_simul.Uds.Contract.{
  DataIdentifier, EcuSnapshot, StateChange, set_session, set_active_seed_level, unlock_security,
  reset_to_default_session, set_block_sequence_counter, end_transfer,
}

abbrev pub sid_diagnostic_session_control : ℕ
sid_diagnostic_session_control = 0x10

abbrev pub sid_ecu_reset : ℕ
sid_ecu_reset = 0x11

abbrev pub sid_read_dtc_information : ℕ
sid_read_dtc_information = 0x19

abbrev pub sid_read_data_by_identifier : ℕ
sid_read_data_by_identifier = 0x22

abbrev pub sid_security_access : ℕ
sid_security_access = 0x27

abbrev pub sid_routine_control : ℕ
sid_routine_control = 0x31

abbrev pub sid_request_download : ℕ
sid_request_download = 0x34

abbrev pub sid_request_upload : ℕ
sid_request_upload = 0x35

abbrev pub sid_transfer_data : ℕ
sid_transfer_data = 0x36

abbrev pub sid_request_transfer_exit : ℕ
sid_request_transfer_exit = 0x37

abbrev pub sid_tester_present : ℕ
sid_tester_present = 0x3E

abbrev pub nrc_service_not_supported : ℕ
nrc_service_not_supported = 0x11

abbrev pub nrc_sub_function_not_supported : ℕ
nrc_sub_function_not_supported = 0x12

abbrev pub nrc_incorrect_message_length : ℕ
nrc_incorrect_message_length = 0x13

abbrev pub nrc_request_sequence_error : ℕ
nrc_request_sequence_error = 0x24

abbrev pub nrc_request_out_of_range : ℕ
nrc_request_out_of_range = 0x31

abbrev pub nrc_invalid_key : ℕ
nrc_invalid_key = 0x35

abbrev pub nrc_wrong_block_sequence_counter : ℕ
nrc_wrong_block_sequence_counter = 0x73

abbrev pub nrc_service_not_supported_in_active_session : ℕ
nrc_service_not_supported_in_active_session = 0x7F

-- `UdsReply`: the bytes to send, none when the positive response is suppressed, and the changes
-- for the engine to apply.
pub record Reply : Type 0 where
  pub response : List ℕ
  pub changes : List StateChange

unfoldable pub response_only : List ℕ → Reply
response_only bytes = record { response = bytes; changes = [] }

unfoldable pub negative : ℕ → ℕ → Reply
negative service_id nrc = response_only (0x7F ∷ service_id ∷ nrc ∷ [])

unfoldable pub make_state_change : ℕ → ℕ → StateChange
make_state_change kind value = record { kind = kind; value = value }

-- A positive response identifier: u8 addition, which every identifier of a service stays below.
abbrev pub positive : ℕ → ℕ
positive sid = sid + 0x40

-- `contains` on a list of bytes.
abbrev pub contains : List ℕ → ℕ → Bool
contains [] b = false
contains (x ∷ xs) b = (x == b) || contains xs b

-- `wrapping_add(1)` and `wrapping_sub(1)` on u8.
unfoldable pub next_block_sequence_counter : ℕ → ℕ
next_block_sequence_counter counter = (counter + 1) % 256

unfoldable pub previous_block_sequence_counter : ℕ → ℕ
previous_block_sequence_counter counter = (counter + 255) % 256

-- The suppress bit and the other seven.
unfoldable pub split_sub_function : ℕ → Bool × ℕ
split_sub_function b = (not (b / 128 % 2 == 0), b % 128)

unfoldable pub handle_request_transfer : List ℕ → Reply
handle_request_transfer request =
    if ltb (length request) 3
    then negative (get_or request 0 0) nrc_incorrect_message_length
    else record {
      response = positive (get_or request 0 0) ∷ 0x20 ∷ (0x0400 / 256) ∷ (0x0400 % 256) ∷ [];
      changes = make_state_change set_block_sequence_counter 0x01 ∷ [];
    }

unfoldable pub handle_transfer_data : List ℕ → EcuSnapshot → Reply
handle_transfer_data request snapshot =
    let expected = snapshot.expected_block_sequence_counter in
    let received = get_or request 1 0 in
    if ltb (length request) 2
    then negative sid_transfer_data nrc_incorrect_message_length
    else if not snapshot.is_transfer_in_progress
    then negative sid_transfer_data nrc_request_sequence_error
    else if received == previous_block_sequence_counter expected
    then response_only (positive sid_transfer_data ∷ received ∷ [])
    else if not (received == expected)
    then negative sid_transfer_data nrc_wrong_block_sequence_counter
    else record {
      response = positive sid_transfer_data ∷ received ∷ [];
      changes =
          make_state_change set_block_sequence_counter (next_block_sequence_counter received) ∷ [];
    }

unfoldable pub handle_request_transfer_exit : Reply
handle_request_transfer_exit = record {
  response = positive sid_request_transfer_exit ∷ [];
  changes = make_state_change end_transfer 0 ∷ [];
}

unfoldable pub handle_diagnostic_session_control : List ℕ → EcuSnapshot → Reply
handle_diagnostic_session_control request snapshot =
    let suppress = (split_sub_function (get_or request 1 0)).0 in
    let session = (split_sub_function (get_or request 1 0)).1 in
    if not (length request == 2)
    then negative sid_diagnostic_session_control nrc_incorrect_message_length
    else if not (contains snapshot.supported_sessions session)
    then negative sid_diagnostic_session_control nrc_sub_function_not_supported
    else record {
      response =
          if suppress
          then []
          else positive sid_diagnostic_session_control ∷ session ∷ 0x00 ∷ 0x32 ∷ 0x01 ∷ 0xF4 ∷ [];
      changes = make_state_change set_session session ∷ [];
    }

unfoldable pub handle_ecu_reset : List ℕ → Reply
handle_ecu_reset request =
    let suppress = (split_sub_function (get_or request 1 0)).0 in
    let reset_type = (split_sub_function (get_or request 1 0)).1 in
    if not (length request == 2)
    then negative sid_ecu_reset nrc_incorrect_message_length
    else record {
      response = if suppress then [] else positive sid_ecu_reset ∷ reset_type ∷ [];
      changes =
          make_state_change reset_to_default_session 0x00
          ∷ make_state_change unlock_security 0x00
          ∷ make_state_change set_active_seed_level 0x00
          ∷ [];
    }

unfoldable pub find_did : List DataIdentifier → ℕ → Option DataIdentifier
find_did [] did = none
find_did (d ∷ ds) did = if d.id == did then some d else find_did ds did

-- The reply about a data identifier that was looked up.
unfoldable pub report_did : List ℕ → Option DataIdentifier → Reply
report_did request none = negative sid_read_data_by_identifier nrc_request_out_of_range
report_did request (some did) =
    response_only
      (positive sid_read_data_by_identifier ∷ get_or request 1 0 ∷ get_or request 2 0 ∷ did.value)

unfoldable pub handle_read_data_by_identifier : List ℕ → EcuSnapshot → Reply
handle_read_data_by_identifier request snapshot =
    if not (length request == 3)
    then negative sid_read_data_by_identifier nrc_incorrect_message_length
    else report_did request (find_did snapshot.dids (get_or request 1 0 * 256 + get_or request 2 0))
