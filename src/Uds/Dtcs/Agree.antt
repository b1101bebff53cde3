-- ===== src/Uds/Dtcs/Agree.antt =====
-- The three reports of stored trouble codes against each other.
use diagnostic_vehicle_simul.Prelude.{
  ℕ, ◌+◌, ◌*◌, ◌≡◌, refl, true, List, [], ◌∷◌, arith, length, length-append, get_or, All, IsU16,
}
use diagnostic_vehicle_simul.Uds.Contract.{Dtc}
use diagnostic_vehicle_simul.Uds.Handler.{Reply, response_only}
use diagnostic_vehicle_simul.Uds.Dtcs.{
  intersects, append_dtc, count_matching, append_matching, append_all, report_dtc_count,
  report_dtcs_by_status_mask,
}

length-append_dtc : (bytes : List ℕ) (d : Dtc) → length (append_dtc bytes d) ≡ length bytes + 4
unfolding append_dtc
length-append_dtc bytes d = length-append bytes _

length-append_matching :
    (mask : ℕ) (dtcs : List Dtc) (bytes : List ℕ)
    → length (append_matching mask dtcs bytes) ≡ length bytes + 4 * count_matching mask dtcs
unfolding append_matching count_matching
length-append_matching mask [] bytes = ground arith
length-append_matching mask (d ∷ ds) bytes = ground (
  arith,
  length-append_dtc bytes d,
  length-append_matching mask ds bytes,
  length-append_matching mask ds (append_dtc bytes d),
)

-- The number of codes.
abbrev pub announced_count : Reply → ℕ
announced_count reply = get_or reply.response 4 0 * 256 + get_or reply.response 5 0

-- For any mask, the number of trouble codes that the first report announces is the number of
-- four-byte records that the second one lists, as long as it fits in the two bytes it has.
pub report_dtc_count-report_dtcs_by_status_mask :
    (mask : ℕ) (dtcs : List Dtc)
    → IsU16 (count_matching mask dtcs)
    → length (report_dtcs_by_status_mask mask dtcs).response
      ≡ 3 + 4 * announced_count (report_dtc_count mask dtcs)
unfolding report_dtcs_by_status_mask report_dtc_count response_only
report_dtc_count-report_dtcs_by_status_mask mask dtcs h =
    ground (arith, length-append_matching mask dtcs (0x59 ∷ 0x02 ∷ 0xFF ∷ []))

append_matching-append_all :
    (mask : ℕ) (dtcs : List Dtc) (bytes : List ℕ)
    → All (λ (d : Dtc). intersects mask d ≡ true) dtcs
    → append_matching mask dtcs bytes ≡ append_all dtcs bytes
unfolding append_matching append_all
append_matching-append_all mask [] bytes h = refl
append_matching-append_all mask (d ∷ ds) bytes h =
    ground (arith, append_matching-append_all mask ds (append_dtc bytes d) h.1)

-- With a mask that every stored code meets, the report by status mask lists what the report of all
-- supported codes lists.
pub report_dtcs_by_status_mask-report_supported_dtcs :
    (mask : ℕ) (dtcs : List Dtc)
    → All (λ (d : Dtc). intersects mask d ≡ true) dtcs
    → (report_dtcs_by_status_mask mask dtcs).response ≡ append_all dtcs (0x59 ∷ 0x02 ∷ 0xFF ∷ [])
unfolding report_dtcs_by_status_mask response_only
report_dtcs_by_status_mask-report_supported_dtcs mask dtcs h =
    append_matching-append_all mask dtcs (0x59 ∷ 0x02 ∷ 0xFF ∷ []) h
