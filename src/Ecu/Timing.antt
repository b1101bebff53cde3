-- ===== src/Ecu/Timing.antt =====
-- The diagnostic timing parameters of a control unit and the check that they can be advertised
-- (engine/crates/core-domain/src/model.rs). Durations are in milliseconds; the messages of the
-- errors are left out, their numbers kept.
use diagnostic_vehicle_simul.Prelude.{
  ℕ, ◌+◌, ◌*◌, ◌/◌, ◌%◌, Bool, false, not, ◌&&◌, ◌||◌, if◌then◌else◌, ltb, leb, ◌==◌, Result, ok,
  err,
}

abbrev pub p2_server_max_limit_ms : ℕ
p2_server_max_limit_ms = 65535

abbrev pub p2_star_server_max_limit_ms : ℕ
p2_star_server_max_limit_ms = 655350

abbrev pub p2_star_resolution_ms : ℕ
p2_star_resolution_ms = 10

abbrev pub max_response_delay_ms : ℕ
max_response_delay_ms = 60000

abbrev pub max_p4_server_max_ms : ℕ
max_p4_server_max_ms = 600000

abbrev pub max_forced_response_pending_count : ℕ
max_forced_response_pending_count = 10

pub record EcuTiming : Type 0 where
  pub p2_server_max_ms : ℕ
  pub p2_star_server_max_ms : ℕ
  pub p4_server_max_ms : ℕ
  pub response_delay_ms : ℕ
  pub force_response_pending : Bool
  pub forced_response_pending_count : ℕ  -- u8
  pub drop_final_response : Bool
  pub iso_tp_block_size : ℕ  -- u8
  pub iso_tp_separation_time_min : ℕ  -- u8

unfoldable pub default_timing : EcuTiming
default_timing = record {
  p2_server_max_ms = 50;
  p2_star_server_max_ms = 5000;
  p4_server_max_ms = 30000;
  response_delay_ms = 0;
  force_response_pending = false;
  forced_response_pending_count = 1;
  drop_final_response = false;
  iso_tp_block_size = 1;
  iso_tp_separation_time_min = 0;
}

pub data TimingValidationError : Type 0 where
  p2_server_max_too_large : (value_ms limit_ms : ℕ) → TimingValidationError
  p2_star_server_max_too_large : (value_ms limit_ms : ℕ) → TimingValidationError
  p2_star_server_max_not_a_multiple : (value_ms lower_ms upper_ms : ℕ) → TimingValidationError
  p4_server_max_below_p2 : (p4_ms p2_ms : ℕ) → TimingValidationError
  p4_server_max_too_large : (value_ms limit_ms : ℕ) → TimingValidationError
  response_delay_too_large : (value_ms limit_ms : ℕ) → TimingValidationError
  response_delay_beyond_p4 : (delay_ms p4_ms : ℕ) → TimingValidationError
  forced_response_pending_count_is_zero : TimingValidationError
  forced_response_pending_count_too_large : (value limit : ℕ) → TimingValidationError
  forced_response_pending_without_p2_star : TimingValidationError
  forced_response_pending_with_p4_equal_to_p2 : (p2_ms : ℕ) → TimingValidationError
  separation_time_reserved : (value : ℕ) → TimingValidationError

-- `Result<(), TimingValidationError>`.
abbrev pub Verdict : Type 0
Verdict = Result TimingValidationError (Unit {0})

unfoldable pub validate_separation_time : EcuTiming → Verdict
validate_separation_time t =
    let value = t.iso_tp_separation_time_min in
    if leb value 0x7F || (leb 0xF1 value && leb value 0xF9)
    then ok tt
    else err (separation_time_reserved value)

unfoldable pub validate_forced_response_pending : EcuTiming → Verdict
validate_forced_response_pending t =
    if not t.force_response_pending
    then ok tt
    else if t.forced_response_pending_count == 0
    then err forced_response_pending_count_is_zero
    else if ltb max_forced_response_pending_count t.forced_response_pending_count
    then err (
        forced_response_pending_count_too_large t.forced_response_pending_count
          max_forced_response_pending_count)
    else if t.p2_star_server_max_ms == 0
    then err forced_response_pending_without_p2_star
    else if t.p4_server_max_ms == t.p2_server_max_ms
    then err (forced_response_pending_with_p4_equal_to_p2 t.p2_server_max_ms)
    else ok tt

-- The `?` operator between two checks.
abbrev pub and_then : Verdict → Verdict → Verdict
and_then (ok u) next = next
and_then (err e) next = err e

unfoldable pub validate : EcuTiming → Verdict
validate t =
    let lower = t.p2_star_server_max_ms / p2_star_resolution_ms * p2_star_resolution_ms in
    if ltb p2_server_max_limit_ms t.p2_server_max_ms
    then err (p2_server_max_too_large t.p2_server_max_ms p2_server_max_limit_ms)
    else if ltb p2_star_server_max_limit_ms t.p2_star_server_max_ms
    then err (p2_star_server_max_too_large t.p2_star_server_max_ms p2_star_server_max_limit_ms)
    else if not (t.p2_star_server_max_ms % p2_star_resolution_ms == 0)
    then err (
        p2_star_server_max_not_a_multiple t.p2_star_server_max_ms lower
          (lower + p2_star_resolution_ms))
    else if ltb t.p4_server_max_ms t.p2_server_max_ms
    then err (p4_server_max_below_p2 t.p4_server_max_ms t.p2_server_max_ms)
    else if ltb max_p4_server_max_ms t.p4_server_max_ms
    then err (p4_server_max_too_large t.p4_server_max_ms max_p4_server_max_ms)
    else if ltb max_response_delay_ms t.response_delay_ms
    then err (response_delay_too_large t.response_delay_ms max_response_delay_ms)
    else if ltb t.p4_server_max_ms t.response_delay_ms
    then err (response_delay_beyond_p4 t.response_delay_ms t.p4_server_max_ms)
    else and_then (validate_separation_time t) (validate_forced_response_pending t)
