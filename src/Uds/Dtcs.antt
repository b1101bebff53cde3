-- ===== src/Uds/Dtcs.antt =====
-- ReadDTCInformation (engine/plugins/protocols/l7-application/uds/src/handler.rs).
pub mod Agree
use diagnostic_vehicle_simul.Prelude.{
  ℕ, zero, suc, ◌+◌, ◌*◌, ◌/◌, ◌%◌, Bool, true, false, not, List, [], ◌∷◌, ◌++◌, if◌then◌else◌, ltb,
  ◌==◌, length, get_or,
}
use diagnostic_vehicle_simul.Uds.Contract.{Dtc, EcuSnapshot}
use diagnostic_vehicle_simul.Uds.Handler.{
  Reply, response_only, negative, positive, sid_read_dtc_information,
  nrc_sub_function_not_supported, nrc_incorrect_message_length,
}

abbrev pub report_number_of_dtc_by_status_mask : ℕ
report_number_of_dtc_by_status_mask = 0x01

abbrev pub report_dtc_by_status_mask : ℕ
report_dtc_by_status_mask = 0x02

abbrev pub report_supported_dtc : ℕ
report_supported_dtc = 0x0A

abbrev pub status_availability_mask : ℕ
status_availability_mask = 0xFF

-- The lowest `bits` bits of `a & b`.
unfoldable pub and_bits : ℕ → ℕ → ℕ → ℕ
and_bits zero a b = 0
and_bits (suc bits) a b = a % 2 * (b % 2) + 2 * and_bits bits (a / 2) (b / 2)

-- Whether a status byte has a bit of the mask.
unfoldable pub intersects : ℕ → Dtc → Bool
intersects mask dtc = not (and_bits 8 dtc.status mask == 0)

-- One record: three bytes of code, then its status byte.
unfoldable pub append_dtc : List ℕ → Dtc → List ℕ
append_dtc bytes dtc =
    bytes
    ++ ((dtc.dtc_code / 65536 % 256)
        ∷ (dtc.dtc_code / 256 % 256)
        ∷ (dtc.dtc_code % 256)
        ∷ dtc.status
        ∷ [])

-- How many match the mask.
unfoldable pub count_matching : ℕ → List Dtc → ℕ
count_matching mask [] = 0
count_matching mask (d ∷ ds) =
    let rest = count_matching mask ds in if intersects mask d then suc rest else rest

unfoldable pub report_dtc_count : ℕ → List Dtc → Reply
report_dtc_count mask dtcs =
    let count = count_matching mask dtcs in
    response_only (
      positive sid_read_dtc_information
      ∷ report_number_of_dtc_by_status_mask
      ∷ status_availability_mask
      ∷ 0x00
      ∷ (count / 256 % 256)
      ∷ (count % 256)
      ∷ [])

-- The loop over the stored codes that match the mask.
unfoldable pub append_matching : ℕ → List Dtc → List ℕ → List ℕ
append_matching mask [] bytes = bytes
append_matching mask (d ∷ ds) bytes =
    append_matching mask ds (if intersects mask d then append_dtc bytes d else bytes)

unfoldable pub report_dtcs_by_status_mask : ℕ → List Dtc → Reply
report_dtcs_by_status_mask mask dtcs = response_only (
    append_matching mask dtcs (
      positive sid_read_dtc_information
      ∷ report_dtc_by_status_mask
      ∷ status_availability_mask
      ∷ []))

-- The loop over every stored code.
unfoldable pub append_all : List Dtc → List ℕ → List ℕ
append_all [] bytes = bytes
append_all (d ∷ ds) bytes = append_all ds (append_dtc bytes d)

unfoldable pub report_supported_dtcs : List Dtc → Reply
report_supported_dtcs dtcs = response_only (
    append_all dtcs
      (positive sid_read_dtc_information ∷ report_supported_dtc ∷ status_availability_mask ∷ []))

-- A reply to a request of the expected length, and the refusal of any other.
unfoldable pub expect_length : List ℕ → ℕ → Reply → Reply
expect_length request expected reply =
    if length request == expected
    then reply
    else negative sid_read_dtc_information nrc_incorrect_message_length

unfoldable pub handle_read_dtc_information : List ℕ → EcuSnapshot → Reply
handle_read_dtc_information request snapshot =
    let sub_function = get_or request 1 0 in
    let mask = get_or request 2 0 in
    if ltb (length request) 2
    then negative sid_read_dtc_information nrc_incorrect_message_length
    else if sub_function == report_number_of_dtc_by_status_mask
    then expect_length request 3 (report_dtc_count mask snapshot.dtcs)
    else if sub_function == report_dtc_by_status_mask
    then expect_length request 3 (report_dtcs_by_status_mask mask snapshot.dtcs)
    else if sub_function == report_supported_dtc
    then expect_length request 2 (report_supported_dtcs snapshot.dtcs)
    else negative sid_read_dtc_information nrc_sub_function_not_supported
