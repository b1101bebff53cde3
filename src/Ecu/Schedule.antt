-- ===== src/Ecu/Schedule.antt =====
-- Turning one request into the messages that answer it and the times at which they go out
-- (engine/crates/ecu/src/schedule.rs). A conformance warning keeps its numbers and not its text;
-- a loop that breaks at the first breach is a list of at most one warning.
pub mod Offsets
pub mod Count
pub mod Conformance
pub mod Final
use diagnostic_vehicle_simul.Prelude.{
  ℕ, zero, suc, ◌+◌, ◌-◌, ◌*◌, ◌/◌, ◌%◌, min, max, Bool, true, false, not, ◌&&◌, Option, none, some,
  List, [], ◌∷◌, ◌++◌, map, if◌then◌else◌, ltb, leb, ◌==◌, is_empty, head_or,
}
use diagnostic_vehicle_simul.Ecu.Timing.{EcuTiming}

abbrev pub negative_response_sid : ℕ
negative_response_sid = 0x7F

abbrev pub nrc_response_pending : ℕ
nrc_response_pending = 0x78

abbrev pub min_pending_step_ms : ℕ
min_pending_step_ms = 10

pub record ScheduledResponse : Type 0 where
  pub at_ms : ℕ
  pub bytes : List ℕ
  pub is_response_pending : Bool

pub data Warning : Type 0 where
  missing_final_response : Warning
  late_without_pending : (final_at_ms p2_ms : ℕ) → Warning
  too_close : (gap_ms floor_ms : ℕ) → Warning
  gap_too_long : (gap_ms p2_star_ms : ℕ) → Warning
  first_pending_late : (at_ms p2_ms : ℕ) → Warning
  beyond_p4 : (final_at_ms p4_ms : ℕ) → Warning

pub record ResponsePlan : Type 0 where
  pub steps : List ScheduledResponse
  pub is_final_response_dropped : Bool
  pub is_iso_conformant : Bool
  pub conformance_warnings : List Warning
  pub response_pending_count : ℕ  -- u8
  pub is_overridden : Bool

-- The first step that is not a ResponsePending.
unfoldable pub find_final : List ScheduledResponse → Option ScheduledResponse
find_final [] = none
find_final (s ∷ ss) = if not s.is_response_pending then some s else find_final ss

unfoldable pub final_at_ms : ResponsePlan → Option ℕ
final_at_ms plan = elim (find_final plan.steps) [ none ↦ none | some s ↦ some s.at_ms ]

unfoldable pub final_response : ResponsePlan → List ℕ
final_response plan = elim (find_final plan.steps) [ none ↦ [] | some s ↦ s.bytes ]

-- `u32::div_ceil`.
abbrev pub div_ceil : ℕ → ℕ → ℕ
div_ceil a b = a / b + (if ltb 0 (a % b) then 1 else 0)

unfoldable pub required_response_pending_count : EcuTiming → ℕ
required_response_pending_count t =
    if leb t.response_delay_ms t.p2_server_max_ms
    then 0
    else if t.p2_star_server_max_ms == 0
    then 0
    else div_ceil (t.response_delay_ms - t.p2_server_max_ms) t.p2_star_server_max_ms

unfoldable pub resolve_response_pending_count : EcuTiming → ℕ
resolve_response_pending_count t =
    min
      (max (required_response_pending_count t)
        (if t.force_response_pending then t.forced_response_pending_count else 0))
      255

-- When the final response starts.
unfoldable pub final_instant_ms : EcuTiming → ℕ → ℕ
final_instant_ms t pending_count =
    if pending_count == 0
    then t.response_delay_ms
    else max t.response_delay_ms ((pending_count + 1) * min_pending_step_ms)

-- `count` offsets, from the one with this index.
unfoldable pub offsets : (first_at_ms step_ms index count : ℕ) → List ℕ
offsets first_at_ms step_ms index zero = []
offsets first_at_ms step_ms index (suc count) =
    (first_at_ms + index * step_ms) ∷ offsets first_at_ms step_ms (suc index) count

-- Where the ResponsePending messages fall.
unfoldable pub pending_offsets_ms : EcuTiming → ℕ → ℕ → List ℕ
pending_offsets_ms t pending_count final =
    let first_at_ms = min t.p2_server_max_ms (final / (pending_count + 1)) in
    if pending_count == 0
    then []
    else offsets first_at_ms ((final - first_at_ms) / pending_count) 0 pending_count

-- Consecutive ResponsePending messages that are closer than the floor.
unfoldable pub check_flood : (floor_ms previous_ms : ℕ) → List ℕ → List Warning
check_flood floor_ms previous_ms [] = []
check_flood floor_ms previous_ms (at_ms ∷ rest) =
    let later = check_flood floor_ms at_ms rest in
    if ltb (at_ms - previous_ms) floor_ms
    then too_close (at_ms - previous_ms) floor_ms ∷ []
    else later

-- A gap after a ResponsePending that is longer than the enhanced budget.
unfoldable pub check_budget : (p2_star_ms previous_ms : ℕ) → List ℕ → List Warning
check_budget p2_star_ms previous_ms [] = []
check_budget p2_star_ms previous_ms (at_ms ∷ rest) =
    let later = check_budget p2_star_ms at_ms rest in
    if ltb p2_star_ms (at_ms - previous_ms)
    then gap_too_long (at_ms - previous_ms) p2_star_ms ∷ []
    else later

unfoldable pub check_pending_gaps : EcuTiming → ℕ → List ℕ → ℕ → List Warning
check_pending_gaps t first_at_ms rest final =
    check_flood (t.p2_star_server_max_ms * 3 % 4294967296 / 10) first_at_ms rest
    ++ (check_budget t.p2_star_server_max_ms first_at_ms (rest ++ (final ∷ []))
        ++ (if ltb t.p2_server_max_ms first_at_ms
            then first_pending_late first_at_ms t.p2_server_max_ms ∷ []
            else []))

unfoldable pub check_schedule : EcuTiming → List ℕ → ℕ → List Warning
check_schedule t [] final =
    if ltb t.p2_server_max_ms final then late_without_pending final t.p2_server_max_ms ∷ [] else []
check_schedule t (first_at_ms ∷ rest) final = check_pending_gaps t first_at_ms rest final

unfoldable pub collect_conformance_warnings : EcuTiming → List ℕ → ℕ → Bool → List Warning
collect_conformance_warnings t pending final is_missing_final =
    (if is_missing_final then missing_final_response ∷ [] else [])
    ++ (check_schedule t pending final
        ++ (if not is_missing_final && ltb t.p4_server_max_ms final
            then beyond_p4 final t.p4_server_max_ms ∷ []
            else []))

unfoldable pub pending_step : ℕ → ℕ → ScheduledResponse
pending_step request_sid at = record {
  at_ms = at;
  bytes = negative_response_sid ∷ request_sid ∷ nrc_response_pending ∷ [];
  is_response_pending = true;
}

-- Build the plan for one request.
unfoldable pub build_response_plan : EcuTiming → ℕ → List ℕ → ℕ → ResponsePlan
build_response_plan t request_sid response pending_count =
    let final = final_instant_ms t pending_count in
    let pending = pending_offsets_ms t pending_count final in
    let has_final = not (is_empty response) && not t.drop_final_response in
    let warnings =
      collect_conformance_warnings t pending final (not (is_empty pending) && not has_final) in
    record {
      steps =
          map (pending_step request_sid) pending
          ++ (if has_final
              then record { at_ms = final; bytes = response; is_response_pending = false } ∷ []
              else []);
      is_final_response_dropped = t.drop_final_response && not (is_empty response);
      is_iso_conformant = is_empty warnings;
      conformance_warnings = warnings;
      response_pending_count = pending_count;
      is_overridden = false;
    }
