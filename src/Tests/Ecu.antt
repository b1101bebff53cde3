-- ===== src/Tests/Ecu.antt =====
-- A unit with the default budgets that needs six seconds for an answer.
use diagnostic_vehicle_simul.Prelude.{
  ℕ, ◌+◌, ◌*◌, ◌≡◌, ◌≤◌, ◌↔◌, refl, false, some, List, [], ◌∷◌, ◌++◌, All, length, arith,
}
use diagnostic_vehicle_simul.Ecu.Timing.{EcuTiming}
use diagnostic_vehicle_simul.Ecu.Schedule.{
  required_response_pending_count, final_instant_ms, final_response, final_at_ms, ScheduledResponse,
  build_response_plan, collect_conformance_warnings,
}
use diagnostic_vehicle_simul.Ecu.Schedule.Count.{required_response_pending_count-least}
use diagnostic_vehicle_simul.Ecu.Schedule.Offsets.{
  IsAscending, IsPendingFor, times, build_response_plan-answered,
}
use diagnostic_vehicle_simul.Ecu.Schedule.Conformance.{
  IsConformant, collect_conformance_warnings-IsConformant,
}

abbrev slow : EcuTiming
slow = record {
  p2_server_max_ms = 50;
  p2_star_server_max_ms = 5000;
  p4_server_max_ms = 30000;
  response_delay_ms = 6000;
  force_response_pending = false;
  forced_response_pending_count = 1;
  drop_final_response = false;
  iso_tp_block_size = 1;
  iso_tp_separation_time_min = 0;
}

abbrev answer : List ℕ
answer = 0x62 ∷ 0xF1 ∷ 0x90 ∷ 0x31 ∷ []

required_response_pending_count-least_example :
    (required_response_pending_count slow ≤ 2) ↔ (6000 ≤ 50 + 2 * 5000)
required_response_pending_count-least_example =
    required_response_pending_count-least slow 2 (ground arith)

build_response_plan-answered_example :
    (pending : List ScheduledResponse) × ((build_response_plan slow 0x22 answer 2).steps
      ≡ pending
        ++ (record { at_ms = final_instant_ms slow 2; bytes = answer; is_response_pending = false }
            ∷ []))
    × (length pending ≡ 2)
    × All (IsPendingFor 0x22) pending
    × IsAscending (times (build_response_plan slow 0x22 answer 2).steps)
    × (final_response (build_response_plan slow 0x22 answer 2) ≡ answer)
    × (final_at_ms (build_response_plan slow 0x22 answer 2) ≡ some (final_instant_ms slow 2))
    × (6000 ≤ final_instant_ms slow 2)
build_response_plan-answered_example = build_response_plan-answered slow 0x22 answer 2 refl refl

collect_conformance_warnings-IsConformant_example :
    (collect_conformance_warnings slow (50 ∷ 3025 ∷ []) 6000 false ≡ [])
    ↔ ((false ≡ false) × IsConformant slow (50 ∷ 3025 ∷ []) 6000 × (6000 ≤ 30000))
collect_conformance_warnings-IsConformant_example =
    collect_conformance_warnings-IsConformant slow (50 ∷ 3025 ∷ []) 6000 false (ground arith)
