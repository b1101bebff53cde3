-- ===== src/Ecu/Schedule/Count.antt =====
-- How many ResponsePending messages a delay needs.
use diagnostic_vehicle_simul.Prelude.{ℕ, suc, ◌+◌, ◌-◌, ◌*◌, ◌/◌, ◌≤◌, ◌<◌, ◌≢◌, ◌↔◌, arith}
use native.Mathlib.Nat.{le-div_iff_mul-le, div-add-mod}
use diagnostic_vehicle_simul.Ecu.Timing.{EcuTiming}
use diagnostic_vehicle_simul.Ecu.Schedule.{div_ceil, required_response_pending_count}

div_ceil-le : (d q n : ℕ) → 0 < q → (div_ceil d q ≤ n) ↔ (d ≤ n * q)
div_ceil-le d q n h = ground (
  arith,
  le-div_iff_mul-le {k = q} {x = n} {y = d} h,
  le-div_iff_mul-le {k = q} {x = suc n} {y = d} h,
  le-div_iff_mul-le {k = q} {x = d / q} {y = d} h,
  div-add-mod d q,
)

-- Where there is an enhanced budget, the count that a delay requires is the smallest number of
-- ResponsePending messages with which the first response can start within P2 and every later one
-- within P2* of the one before.
pub required_response_pending_count-least :
    (t : EcuTiming) (n : ℕ)
    → t.p2_star_server_max_ms ≢ 0
    → (required_response_pending_count t ≤ n)
      ↔ (t.response_delay_ms ≤ t.p2_server_max_ms + n * t.p2_star_server_max_ms)
unfolding required_response_pending_count
required_response_pending_count-least t n h =
    ground (arith, div_ceil-le (t.response_delay_ms - t.p2_server_max_ms) t.p2_star_server_max_ms n)
