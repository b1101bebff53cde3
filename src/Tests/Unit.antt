-- ===== src/Tests/Unit.antt =====
-- A unit with two overrides, in the extended session, with a transfer in progress.
use diagnostic_vehicle_simul.Prelude.{
  ok, ℕ, ◌≡◌, ◌≢◌, refl, true, false, none, some, List, [], ◌∷◌, arith, length, is_empty, take,
  drop, get_or,
}
use diagnostic_vehicle_simul.Can.Confinement
use diagnostic_vehicle_simul.Uds.Handler.{response_only, split_sub_function, handle_ecu_reset}
use diagnostic_vehicle_simul.Uds.Dispatch.{handle_request, route, handle_tester_present}
use diagnostic_vehicle_simul.Uds.Dtcs.{and_bits}
use diagnostic_vehicle_simul.Uds.Session.{build_snapshot}
use diagnostic_vehicle_simul.Uds.Session.Guard.{IsGuarded}
use diagnostic_vehicle_simul.Ecu.Timing.{
  EcuTiming, default_timing, validate, validate_separation_time, validate_forced_response_pending,
}
use diagnostic_vehicle_simul.Ecu.Schedule.{
  final_response, ResponsePlan, find_final, pending_step, pending_offsets_ms, offsets,
  final_instant_ms, build_response_plan, resolve_response_pending_count,
  required_response_pending_count,
}
use diagnostic_vehicle_simul.Ecu.Overrides.{
  substitute, ResponseOverride, matches, bytes_match, build_response, find_matching_override,
  choose, prefer, specificity, precedes, count_fixed, apply_echo_spans, apply_echo_span, built,
  panicked,
}
use diagnostic_vehicle_simul.Ecu.Overrides.Choice.{IsBest, find_matching_override-IsBest}
use diagnostic_vehicle_simul.Ecu.Overrides.Validation.{
  validate_override, validate_action, validate_response_sid, validate_negative_response,
  validate_echo_spans, validate_echo_span, is_request_service_id, is_all_wildcards,
}
use diagnostic_vehicle_simul.Ecu.Overrides.Answers.{
  IsAnswerTo, build_response-IsAnswerTo, build_response-echoed_service,
}
use diagnostic_vehicle_simul.Ecu.Unit.{
  VirtualEcu, answer, ask, process_request_with_timing, apply_session_timing_record, is_refusal,
  is_service_allowed_in_session, resolve_pending_count_for, clear_suppress_bit_if_pending,
  refuse_if_session_forbids, refused_or, apply_reply, note_state, apply_response_override,
  override_bytes, conclude,
}
use diagnostic_vehicle_simul.Ecu.Unit.Promise.{process_request_with_timing-promise}
use diagnostic_vehicle_simul.Ecu.Unit.Coherence.{
  IsUnmoved, process_request_with_timing-IsGuarded, process_request_with_timing-IsUnmoved,
}
use diagnostic_vehicle_simul.Ecu.Unit.Record.{advertised, apply_session_timing_record-advertised}
use diagnostic_vehicle_simul.Ecu.Unit.Rollback.{answer-reset_refused}

-- Reads any identifier with a high byte of F1, echoing it.
abbrev family : ResponseOverride
family = record {
  request_pattern = 0x22 ∷ 0xF1 ∷ 0x00 ∷ [];
  request_mask = 0xFF ∷ 0xFF ∷ 0x00 ∷ [];
  match_trailing_bytes = false;
  action =
      substitute (0x62 ∷ 0x00 ∷ 0x00 ∷ 0x00 ∷ 0x2A ∷ [])
        (record { request_offset = 2; span_length = 1; response_offset = 3 } ∷ []);
  is_rule_enabled = true;
  respond_even_if_suppressed = false;
}

-- Another family of the same specificity.
abbrev other_family : ResponseOverride
other_family = record family {
  request_pattern = 0x22 ∷ 0x00 ∷ 0x90 ∷ [];
  request_mask = 0xFF ∷ 0x00 ∷ 0xFF ∷ [];
}

abbrev overwriting : ResponseOverride
overwriting = record family {
  action =
      substitute (0x62 ∷ 0x00 ∷ 0x00 ∷ [])
        (record { request_offset = 0; span_length = 3; response_offset = 0 } ∷ []);
}

abbrev reset_refusal : ResponseOverride
reset_refusal = record family {
  request_pattern = 0x11 ∷ 0x01 ∷ [];
  request_mask = 0xFF ∷ 0xFF ∷ [];
  action = substitute (0x7F ∷ 0x11 ∷ 0x22 ∷ []) [];
}

abbrev slow : EcuTiming
slow = record default_timing { response_delay_ms = 200 }

abbrev unit : VirtualEcu
unit = record {
  name = "Engine_ECU";
  config = record {
    services = 0x10 ∷ 0x11 ∷ 0x3E ∷ [];
    sessions = 0x01 ∷ 0x03 ∷ [];
    configured_dids = [];
    configured_dtcs = [];
    levels = [];
    permissive = false;
  };
  timing = slow;
  session_services = (0x03, 0x11 ∷ 0x3E ∷ []) ∷ [];
  overrides = family ∷ reset_refusal ∷ [];
  network_id = none;
  gateway_for = [];
  is_enabled = true;
  live = record { session = 0x03; unlocked_level = 1; seed_level = 0; expected_counter = some 7 };
  session_before_request = 0x03;
  security_level_before_request = 0;
  seed_level_before_request = 0;
  fault_confinement = Confinement.fresh;
}

abbrev read_vin : List ℕ
read_vin = 0x22 ∷ 0xF1 ∷ 0x90 ∷ []

find_matching_override-IsBest_example :
    IsBest
      (family ∷ other_family ∷ [])
      read_vin
      (find_matching_override (family ∷ other_family ∷ []) read_vin)
find_matching_override-IsBest_example =
    find_matching_override-IsBest (family ∷ other_family ∷ []) read_vin

build_response-IsAnswerTo_example :
    (response : List ℕ) × (build_response family.action read_vin ≡ built response)
    × (length response ≡ 5)
    × IsAnswerTo 0x22 response
unfolding validate_override validate_action validate_response_sid validate_negative_response
    validate_echo_spans validate_echo_span is_request_service_id is_all_wildcards matches
    bytes_match and_bits
build_response-IsAnswerTo_example =
    build_response-IsAnswerTo family read_vin refl refl refl (omega arith) (omega arith)
      (omega arith, tt) ((omega arith, omega arith), tt)

build_response-echoed_service_example :
    (response : List ℕ) × (build_response overwriting.action read_vin ≡ built response)
    × (get_or response 0 0 ≡ 0x22)
    × ¬ IsAnswerTo 0x22 response
unfolding validate_override validate_action validate_response_sid validate_negative_response
    validate_echo_spans validate_echo_span is_request_service_id is_all_wildcards matches
    bytes_match and_bits
build_response-echoed_service_example =
    build_response-echoed_service overwriting read_vin
      (record { request_offset = 0; span_length = 3; response_offset = 0 }) refl refl refl
      (omega arith) (omega arith) refl refl (omega arith) (omega arith)

-- A span whose end wraps to zero passes validation, and panics when it is applied.
abbrev wrapping : ResponseOverride
wrapping = record family {
  action =
      substitute (0x62 ∷ 0x00 ∷ 0x00 ∷ 0x00 ∷ []) (
        record { request_offset = 1; span_length = 18446744073709551615; response_offset = 3 }
        ∷ []);
}

wraps : (validate_override wrapping ≡ ok tt) × (build_response wrapping.action read_vin ≡ panicked)
unfolding validate_override validate_action validate_response_sid validate_negative_response
    validate_echo_spans validate_echo_span is_request_service_id is_all_wildcards build_response
    apply_echo_spans apply_echo_span
wraps = (refl, refl)

-- The process of a request, evaluated: a keep-alive that asks for silence and takes 200 ms, and a
-- reset that an override refuses.
abbrev keep_alive_plan : ResponsePlan
keep_alive_plan = build_response_plan slow 0x3E (0x7E ∷ 0x00 ∷ []) 1

abbrev reset_plan : ResponsePlan
reset_plan = record (build_response_plan slow 0x11 (0x7F ∷ 0x11 ∷ 0x22 ∷ []) 1) {
  is_overridden = true;
}

outcomes :
    ((process_request_with_timing handle_request unit (0x3E ∷ 0x80 ∷ [])).1 ≡ some keep_alive_plan)
    × ((process_request_with_timing handle_request unit (0x11 ∷ 0x01 ∷ [])).1 ≡ some reset_plan)
    × (is_empty (ask handle_request unit 0x11 (0x11 ∷ 0x01 ∷ [])).response ≡ false)
    × (is_refusal (final_response reset_plan) ≡ true)
unfolding process_request_with_timing refuse_if_session_forbids is_service_allowed_in_session
    refused_or answer ask clear_suppress_bit_if_pending resolve_pending_count_for
    resolve_response_pending_count required_response_pending_count handle_request route
    handle_tester_present handle_ecu_reset response_only split_sub_function build_snapshot
    apply_reply note_state apply_session_timing_record apply_response_override override_bytes
    find_matching_override choose prefer matches bytes_match and_bits specificity precedes
    count_fixed build_response apply_echo_spans conclude build_response_plan final_response
    find_final pending_step pending_offsets_ms offsets final_instant_ms default_timing
outcomes = (refl, refl, refl, refl)

process_request_with_timing-promise_example : final_response keep_alive_plan ≢ []
unfolding default_timing build_response_plan
process_request_with_timing-promise_example =
    process_request_with_timing-promise unit (0x3E ∷ 0x80 ∷ []) refl outcomes.0 (omega arith) refl

process_request_with_timing-IsGuarded_example :
    IsGuarded (process_request_with_timing handle_request unit (0x11 ∷ 0x01 ∷ [])).0.live
process_request_with_timing-IsGuarded_example =
    process_request_with_timing-IsGuarded unit (0x11 ∷ 0x01 ∷ []) (ground arith)

process_request_with_timing-IsUnmoved_example :
    IsUnmoved unit.live (process_request_with_timing handle_request unit (0x11 ∷ 0x01 ∷ [])).0.live
process_request_with_timing-IsUnmoved_example =
    process_request_with_timing-IsUnmoved unit 0x11 (0x01 ∷ []) refl outcomes.2 outcomes.1
      outcomes.3

answer-reset_refused_example :
    (answer handle_request unit 0x11 (0x11 ∷ 0x01 ∷ [])).0.live
    ≡ record { session = 0x03; unlocked_level = 1; seed_level = 0; expected_counter = none }
unfolding find_matching_override choose prefer matches bytes_match and_bits specificity precedes
    count_fixed
answer-reset_refused_example = answer-reset_refused unit 0x01 0x22 refl (omega arith) refl refl

apply_session_timing_record-advertised_example :
    (advertised (apply_session_timing_record slow (0x50 ∷ 0x03 ∷ 0 ∷ 0 ∷ 0 ∷ 0 ∷ [])) ≡ (50, 5000))
    × (take 2 (apply_session_timing_record slow (0x50 ∷ 0x03 ∷ 0 ∷ 0 ∷ 0 ∷ 0 ∷ []))
        ≡ 0x50 ∷ 0x03 ∷ [])
    × (drop 6 (apply_session_timing_record slow (0x50 ∷ 0x03 ∷ 0 ∷ 0 ∷ 0 ∷ 0 ∷ [])) ≡ [])
unfolding validate validate_separation_time validate_forced_response_pending default_timing
apply_session_timing_record-advertised_example =
    apply_session_timing_record-advertised slow (0x50 ∷ 0x03 ∷ 0 ∷ 0 ∷ 0 ∷ 0 ∷ []) refl refl
      (omega arith)
