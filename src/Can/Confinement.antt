-- ===== src/Can/Confinement.antt =====
-- Fault confinement (engine/crates/can/src/confinement.rs): a node's error counters and the bus
-- state that they put it in. The counters are u16, and `saturating_add` stops at 65535.
pub mod Inv
use diagnostic_vehicle_simul.Prelude.{
  ℕ, ◌+◌, ◌-◌, min, Bool, true, false, ◌||◌, List, [], ◌∷◌, if◌then◌else◌, ltb,
}

abbrev pub error_passive_threshold : ℕ
error_passive_threshold = 127

abbrev pub bus_off_threshold : ℕ
bus_off_threshold = 255

abbrev pub transmit_error_penalty : ℕ
transmit_error_penalty = 8

abbrev pub receive_error_penalty : ℕ
receive_error_penalty = 1

abbrev pub transmit_success_credit : ℕ
transmit_success_credit = 1

pub data BusState : Type 0 where
  error_active error_passive bus_off : BusState

unfoldable pub can_transmit : BusState → Bool
can_transmit bus_off = false
can_transmit _ = true

-- `FaultConfinement`.
pub record FaultConfinement : Type 0 where
  pub transmit_error_count : ℕ
  pub receive_error_count : ℕ
  pub is_bus_off : Bool

abbrev pub fresh : FaultConfinement
fresh = record { transmit_error_count = 0; receive_error_count = 0; is_bus_off = false }

-- u16 `saturating_add`.
abbrev pub saturating_add : ℕ → ℕ → ℕ
saturating_add a b = min (a + b) 65535

unfoldable pub state : FaultConfinement → BusState
state c =
    if c.is_bus_off
    then bus_off
    else if ltb error_passive_threshold c.transmit_error_count
        || ltb error_passive_threshold c.receive_error_count
    then error_passive
    else error_active

-- The second half of `OnTransmitError`.
check_bus_off : FaultConfinement → FaultConfinement
check_bus_off c =
    if ltb bus_off_threshold c.transmit_error_count then record c { is_bus_off = true } else c

unfoldable pub on_transmit_error : FaultConfinement → FaultConfinement
unfolding check_bus_off
on_transmit_error c =
    if c.is_bus_off
    then c
    else check_bus_off (record c {
      transmit_error_count = saturating_add c.transmit_error_count transmit_error_penalty;
    })

unfoldable pub on_receive_error : FaultConfinement → FaultConfinement
on_receive_error c = if c.is_bus_off then c else record c {
  receive_error_count =
      min (saturating_add c.receive_error_count receive_error_penalty) bus_off_threshold;
}

unfoldable pub on_transmit_success : FaultConfinement → FaultConfinement
on_transmit_success c =
    if c.is_bus_off
    then c
    else record c { transmit_error_count = c.transmit_error_count - transmit_success_credit }

unfoldable pub on_receive_success : FaultConfinement → FaultConfinement
on_receive_success c =
    if c.is_bus_off then c else record c { receive_error_count = c.receive_error_count - 1 }

unfoldable pub recover : FaultConfinement → FaultConfinement
recover c = record c { transmit_error_count = 0; receive_error_count = 0; is_bus_off = false }

unfoldable pub force_state : FaultConfinement → BusState → FaultConfinement
unfolding recover
force_state c error_active = recover c
force_state c error_passive = record c {
  is_bus_off = false;
  transmit_error_count = error_passive_threshold + 1;
  receive_error_count = 0;
}
force_state c bus_off = record c { is_bus_off = true; transmit_error_count = bus_off_threshold + 1 }
