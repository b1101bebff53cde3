-- ===== src/Doip/Connection.antt =====
-- The TCP data connection state machine (engine/crates/doip/src/connection.rs), with the two
-- inactivity deadlines of engine/crates/doip/src/timing.rs. A method that takes `&mut self`
-- returns the new connection.
pub mod Rules
pub mod Deadline
use diagnostic_vehicle_simul.Prelude.{
  ℕ, ◌+◌, min, Bool, true, false, not, ◌||◌, Option, none, some, if◌then◌else◌, leb, ◌==◌,
}
use diagnostic_vehicle_simul.Doip.Messages.{
  RoutingActivationRequest, RoutingActivationOutcome, activated, denied_unknown_source_address,
  denied_all_sockets_registered, denied_source_address_mismatch, denied_source_address_in_use,
  denied_missing_authentication, denied_unsupported_activation_type,
}

-- Milliseconds.
abbrev pub general_inactivity : ℕ
general_inactivity = 300000

abbrev pub initial_inactivity : ℕ
initial_inactivity = 2000

pub data ConnectionState : Type 0 where
  initialized pending_authentication routing_active finalized : ConnectionState

pub record Connection : Type 0 where
  pub state : ConnectionState
  pub source_address : Option ℕ  -- u16
  pub idle_ms : ℕ  -- u64

unfoldable pub new : Connection
new = record { state = initialized; source_address = none; idle_ms = 0 }

unfoldable pub is_routing_active : ConnectionState → Bool
is_routing_active routing_active = true
is_routing_active _ = false

-- Note that something was sent or received: an initialized connection keeps its timer.
unfoldable pub note_activity : Connection → Connection
note_activity c = elim c.state [ initialized ↦ c | _ ↦ record c { idle_ms = 0 } ]

-- `saturating_add` on u64.
abbrev pub saturating_add_u64 : ℕ → ℕ → ℕ
saturating_add_u64 a b = min (a + b) 18446744073709551615

unfoldable pub deadline_ms : ConnectionState → ℕ
deadline_ms initialized = initial_inactivity
deadline_ms _ = general_inactivity

-- The clock of a connection that is not finalized.
unfoldable pub advance : Connection → ℕ → Connection × Bool
advance c elapsed_ms =
    let idle = saturating_add_u64 c.idle_ms elapsed_ms in
    if leb (deadline_ms c.state) idle
    then (record c { state = finalized; idle_ms = idle }, true)
    else (record c { idle_ms = idle }, false)

-- Advance the clock, and say whether this connection has now timed out.
unfoldable pub tick : Connection → ℕ → Connection × Bool
tick c elapsed_ms = elim c.state [ finalized ↦ (c, true) | _ ↦ advance c elapsed_ms ]

unfoldable pub is_supported_activation_type : ℕ → Bool
is_supported_activation_type t = (t == 0x00) || (t == 0x01)

-- The part of the decision that depends on the address registered on this socket.
unfoldable pub decide_registered : Option ℕ → ℕ → Bool → Bool → RoutingActivationOutcome
decide_registered (some registered) requested is_active_elsewhere has_free_socket =
    if registered == requested then activated else denied_source_address_mismatch
decide_registered none requested is_active_elsewhere has_free_socket =
    if is_active_elsewhere
    then denied_source_address_in_use
    else if not has_free_socket
    then denied_all_sockets_registered
    else activated

-- Decide a routing activation request against this connection and the others.
unfoldable pub decide_routing_activation :
    Connection → RoutingActivationRequest → Bool → Bool → Bool → RoutingActivationOutcome
decide_routing_activation c request is_acceptable is_active_elsewhere has_free_socket =
    if not (is_supported_activation_type request.activation_type)
    then denied_unsupported_activation_type
    else if not is_acceptable
    then denied_unknown_source_address
    else decide_registered c.source_address request.source_address is_active_elsewhere
        has_free_socket

-- The state and the address after an outcome.
unfoldable pub settle : Connection → ℕ → RoutingActivationOutcome → Connection
settle c address activated = record c { source_address = some address; state = routing_active }
settle c address denied_missing_authentication = record c {
  source_address = some address;
  state = pending_authentication;
}
settle c address _ = record c { state = finalized }

-- Apply a decided outcome to this connection.
unfoldable pub apply_routing_activation :
    Connection → RoutingActivationRequest → RoutingActivationOutcome → Connection
apply_routing_activation c request outcome = record (settle c request.source_address outcome) {
  idle_ms = 0;
}

unfoldable pub finalize : Connection → Connection
finalize c = record c { state = finalized }
