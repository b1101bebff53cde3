-- ===== src/Tests/Uds.antt =====
-- A unit with one security level, in the extended session.
use diagnostic_vehicle_simul.Prelude.{
  ℕ, ◌+◌, ◌*◌, ◌≡◌, ◌≢◌, ◌<◌, ◌⊎◌, false, some, List, [], ◌∷◌, length, arith,
}
use diagnostic_vehicle_simul.Uds.Contract.{Dtc}
use diagnostic_vehicle_simul.Uds.Dtcs.{
  intersects, and_bits, count_matching, report_dtc_count, report_dtcs_by_status_mask,
}
use diagnostic_vehicle_simul.Uds.Dtcs.Agree.{
  announced_count, report_dtc_count-report_dtcs_by_status_mask,
}
use diagnostic_vehicle_simul.Uds.Dispatch.{handle_request}
use diagnostic_vehicle_simul.Uds.Dispatch.Form.{IsReplyTo, handle_request-IsReplyTo}
use diagnostic_vehicle_simul.Uds.Session.{
  Config, configured_compare, LiveState, build_snapshot, serve,
}
use diagnostic_vehicle_simul.Uds.Session.Guard.{IsGuarded, serve-IsGuarded}

abbrev stored : List Dtc
stored =
    record { dtc_code = 0x012345; status = 0x09 }
    ∷ record { dtc_code = 0x0ABCDE; status = 0x40 }
    ∷ []

abbrev config : Config
config = record {
  services = 0x10 ∷ 0x19 ∷ 0x27 ∷ 0x34 ∷ 0x36 ∷ [];
  sessions = 0x01 ∷ 0x03 ∷ [];
  configured_dids = [];
  configured_dtcs = stored;
  levels =
      record {
        level_sub_function = 0x01;
        level_seed = 0x12 ∷ 0x34 ∷ [];
        level_key = 0x56 ∷ 0x78 ∷ [];
        level_policy = configured_compare;
      }
      ∷ [];
  permissive = false;
}

abbrev seeded : LiveState
seeded = record {
  session = 0x03;
  unlocked_level = 0;
  seed_level = 0x01;
  expected_counter = some 0xFF;
}

abbrev send_key : List ℕ
send_key = 0x27 ∷ 0x02 ∷ 0x56 ∷ 0x78 ∷ []

abbrev to_default : List ℕ
to_default = 0x10 ∷ 0x01 ∷ []

seeded-IsGuarded : IsGuarded seeded
seeded-IsGuarded = ground arith

serve-IsGuarded_example :
    IsGuarded (serve config seeded send_key).0
    × (((serve config seeded send_key).0.unlocked_level ≡ 0)
        ⊎ ((serve config seeded send_key).0.unlocked_level ≡ 0)
        ⊎ ((0x01 ≡ (serve config seeded send_key).0.unlocked_level)
            × (seeded.session ≢ 0x01)
            × ((serve config seeded send_key).0.seed_level ≡ 0)))
serve-IsGuarded_example = serve-IsGuarded config seeded send_key seeded-IsGuarded

handle_request-IsReplyTo_example :
    IsReplyTo 0x27 (handle_request (0x27 ∷ 0x01 ∷ []) (build_snapshot config seeded))
handle_request-IsReplyTo_example =
    handle_request-IsReplyTo 0x27 (0x01 ∷ []) (build_snapshot config seeded)

stored_few : count_matching 0x08 stored < 65536
unfolding count_matching intersects and_bits
stored_few = ground arith

report_dtc_count-report_dtcs_by_status_mask_example :
    length (report_dtcs_by_status_mask 0x08 stored).response
    ≡ 3 + 4 * announced_count (report_dtc_count 0x08 stored)
report_dtc_count-report_dtcs_by_status_mask_example =
    report_dtc_count-report_dtcs_by_status_mask 0x08 stored stored_few
