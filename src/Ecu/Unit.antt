-- ===== src/Ecu/Unit.antt =====
-- A running virtual control unit: its configuration, its live state, and the timed answer to one
-- request (engine/crates/ecu/src/lib.rs). The protocol plugin is the parameter `Protocol`. The
-- diagnostic state and its changes are those of Uds/Session.antt; logging is left out.
pub mod Returns
pub mod Outcome
pub mod Promise
pub mod Coherence
pub mod Rollback
pub mod Record
use Prim.Native.String.{String}
use diagnostic_vehicle_simul.Prelude.{
  ℕ, ◌+◌, ◌/◌, ◌%◌, Bool, true, false, not, ◌&&◌, ◌||◌, Option, none, some, List, [], ◌∷◌, ◌++◌,
  if◌then◌else◌, ltb, leb, ◌==◌, is_some, is_empty, length, take, drop, head_or, get_or,
}
use diagnostic_vehicle_simul.Can.Confinement
use diagnostic_vehicle_simul.Can.Confinement.{FaultConfinement}
use diagnostic_vehicle_simul.Uds.Contract.{EcuSnapshot}
use diagnostic_vehicle_simul.Uds.Handler.{Reply, contains, split_sub_function}
use diagnostic_vehicle_simul.Uds.Session.{
  Config, ConfiguredLevel, LiveState, fresh, build_snapshot, apply_changes,
}
use diagnostic_vehicle_simul.Ecu.Timing.{EcuTiming, p2_star_resolution_ms}
use diagnostic_vehicle_simul.Ecu.Schedule.{
  ResponsePlan, build_response_plan, final_response, resolve_response_pending_count,
}
use diagnostic_vehicle_simul.Ecu.Overrides.{
  ResponseOverride, BuiltResponse, suppressed, panicked, built, find_matching_override,
  build_response,
}

-- The bytes of the session layer.
abbrev pub session_control_positive_response : ℕ
session_control_positive_response = 0x50

abbrev pub session_control_response_length : ℕ
session_control_response_length = 6

abbrev pub negative_sid : ℕ
negative_sid = 0x7F

abbrev pub nrc_not_in_active_session : ℕ
nrc_not_in_active_session = 0x7F

abbrev pub state_changing_services : List ℕ
state_changing_services = 0x10 ∷ 0x11 ∷ 0x27 ∷ []

abbrev pub implemented_services : List ℕ
implemented_services = 0x10 ∷ 0x11 ∷ 0x19 ∷ 0x22 ∷ 0x27 ∷ 0x31 ∷ 0x3E ∷ []

abbrev pub suppress_capable_services : List ℕ
suppress_capable_services = 0x10 ∷ 0x11 ∷ 0x28 ∷ 0x31 ∷ 0x3E ∷ 0x83 ∷ 0x85 ∷ 0x86 ∷ 0x87 ∷ []

-- The part of `Ecu` that a running unit reads or sets, and the permissive flag inside `config`.
-- `session_services` is a map, as an association list.
pub record VirtualEcu : Type 0 where
  pub name : String
  pub config : Config
  pub timing : EcuTiming
  pub session_services : List (ℕ × List ℕ)
  pub overrides : List ResponseOverride
  pub network_id : Option String
  pub gateway_for : List String
  pub is_enabled : Bool
  pub live : LiveState
  pub session_before_request : ℕ
  pub security_level_before_request : ℕ
  pub seed_level_before_request : ℕ
  pub fault_confinement : FaultConfinement

-- The protocol plugin: an answer from a request and a snapshot.
abbrev pub Protocol : Type 0
Protocol = List ℕ → EcuSnapshot → Reply

-- `VirtualEcu::New`: the configured unit in its first state.
unfoldable pub new_unit : VirtualEcu → VirtualEcu
new_unit u = record u {
  config = record u.config { permissive = false };
  live = fresh;
  session_before_request = 0x01;
  security_level_before_request = 0;
  seed_level_before_request = 0;
  fault_confinement = Confinement.fresh;
}

unfoldable pub is_security_unlocked : VirtualEcu → Bool
is_security_unlocked u = not (u.live.unlocked_level == 0)

unfoldable pub set_fault_confinement : VirtualEcu → FaultConfinement → VirtualEcu
set_fault_confinement u confinement = record u { fault_confinement = confinement }

unfoldable pub set_permissive : VirtualEcu → Bool → VirtualEcu
set_permissive u is_permissive = record u {
  config = record u.config { permissive = is_permissive };
}

unfoldable pub set_name : VirtualEcu → String → VirtualEcu
set_name u new_name = record u { name = new_name }

unfoldable pub set_enabled : VirtualEcu → Bool → VirtualEcu
set_enabled u enabled = record u { is_enabled = enabled }

unfoldable pub set_placement : VirtualEcu → Option String → List String → VirtualEcu
set_placement u network gateways = record u { network_id = network; gateway_for = gateways }

unfoldable pub set_response_overrides : VirtualEcu → List ResponseOverride → VirtualEcu
set_response_overrides u rules = record u { overrides = rules }

unfoldable pub set_security_levels : VirtualEcu → List ConfiguredLevel → VirtualEcu
set_security_levels u new_levels = record u { config = record u.config { levels = new_levels } }

unfoldable pub set_timing : VirtualEcu → EcuTiming → VirtualEcu
set_timing u new_timing = record u { timing = new_timing }

-- A session that the map does not mention allows every service.
unfoldable pub is_service_allowed_in_session : List (ℕ × List ℕ) → (sid session : ℕ) → Bool
is_service_allowed_in_session [] sid session = true
is_service_allowed_in_session ((key, allowed) ∷ rest) sid session =
    if key == session then contains allowed sid else is_service_allowed_in_session rest sid session

unfoldable pub refuse_if_session_forbids : VirtualEcu → ℕ → List ℕ → Option ResponsePlan
refuse_if_session_forbids u sid request =
    if is_service_allowed_in_session u.session_services sid u.live.session
    then none
    else if u.config.permissive
    then none
    else if is_some (find_matching_override u.overrides request)
    then none
    else some
        (build_response_plan u.timing sid (negative_sid ∷ sid ∷ nrc_not_in_active_session ∷ []) 0)

unfoldable pub resolve_pending_count_for : VirtualEcu → ℕ → ℕ
resolve_pending_count_for u sid =
    if not (contains u.config.services sid && contains implemented_services sid)
      || not (ltb u.timing.p2_server_max_ms u.timing.p4_server_max_ms)
    then 0
    else resolve_response_pending_count u.timing

-- `b & !0x80` on a byte.
abbrev pub clear_suppress_bit : ℕ → ℕ
clear_suppress_bit b = b % 128

unfoldable pub clear_suppress_bit_if_pending : List ℕ → ℕ → List ℕ
clear_suppress_bit_if_pending [] pending_count = []
clear_suppress_bit_if_pending (sid ∷ []) pending_count = sid ∷ []
clear_suppress_bit_if_pending (sid ∷ sub ∷ rest) pending_count =
    if pending_count == 0
    then sid ∷ sub ∷ rest
    else if not (contains suppress_capable_services sid) || not (split_sub_function sub).0
    then sid ∷ sub ∷ rest
    else sid ∷ clear_suppress_bit sub ∷ rest

-- The sessionParameterRecord, each byte an `as u8` cast.
unfoldable pub session_parameter_record : EcuTiming → List ℕ
session_parameter_record t =
    let p2_star_units = t.p2_star_server_max_ms / p2_star_resolution_ms in
    (t.p2_server_max_ms / 256 % 256)
    ∷ (t.p2_server_max_ms % 256)
    ∷ (p2_star_units / 256 % 256)
    ∷ (p2_star_units % 256)
    ∷ []

unfoldable pub apply_session_timing_record : EcuTiming → List ℕ → List ℕ
apply_session_timing_record t response =
    if not (head_or response 0 == session_control_positive_response)
    then response
    else if leb session_control_response_length (length response)
    then take 2 response ++ (session_parameter_record t ++ drop 6 response)
    else response

-- What a matching rule does to the protocol's answer: nothing, or it puts bytes in its place, `[]`
-- for silence, or it panics.
pub data Overridden : Type 0 where
  kept aborted : Overridden
  replaced : (bytes : List ℕ) → Overridden

unfoldable pub override_bytes : Option ResponseOverride → List ℕ → Bool → Overridden
override_bytes none request was_suppressed = kept
override_bytes (some rule) request was_suppressed =
    if was_suppressed && not rule.respond_even_if_suppressed
    then kept
    else elim (build_response rule.action request) [
      | suppressed ↦ replaced []
      | built bytes ↦ replaced bytes
      | panicked ↦ aborted
    ]

unfoldable pub apply_response_override : VirtualEcu → List ℕ → Bool → Overridden
apply_response_override u request was_suppressed =
    override_bytes (find_matching_override u.overrides request) request was_suppressed

-- Whether a response is there and is no refusal, and whether it is there and is one.
abbrev pub is_positive_response : List ℕ → Bool
is_positive_response [] = false
is_positive_response (b ∷ bs) = not (b == negative_sid)

abbrev pub is_refusal : List ℕ → Bool
is_refusal [] = false
is_refusal (b ∷ bs) = b == negative_sid

unfoldable pub discard_state_changes_on_refusal :
    VirtualEcu → (sid : ℕ) (protocol_response overridden : List ℕ) → VirtualEcu
discard_state_changes_on_refusal u sid protocol_response overridden =
    if not (contains state_changing_services sid)
    then u
    else if not (is_positive_response protocol_response) || not (is_refusal overridden)
    then u
    else record u {
      live = record u.live {
        session = u.session_before_request;
        unlocked_level = u.security_level_before_request;
        seed_level = u.seed_level_before_request;
      };
    }

-- The end of a request: the override's answer if there is one, and the plan; after a panic there is
-- no plan, and the unit is left as the panic found it.
unfoldable pub conclude :
    VirtualEcu
    → (sid pending_count : ℕ) (response : List ℕ) → Overridden
    → VirtualEcu × Option ResponsePlan
conclude u sid pending_count response kept =
    (u, some (build_response_plan u.timing sid response pending_count))
conclude u sid pending_count response aborted = (u, none)
conclude u sid pending_count response (replaced bytes) = (
  discard_state_changes_on_refusal u sid response bytes,
  some (record (build_response_plan u.timing sid bytes pending_count) { is_overridden = true }),
)

-- The unit with the state before the request noted.
unfoldable pub note_state : VirtualEcu → VirtualEcu
note_state u = record u {
  session_before_request = u.live.session;
  security_level_before_request = u.live.unlocked_level;
  seed_level_before_request = u.live.seed_level;
}

-- The protocol's reply to the effective request, from the snapshot of the unit.
unfoldable pub ask : Protocol → VirtualEcu → (sid : ℕ) → List ℕ → Reply
ask protocol u sid request =
    protocol (clear_suppress_bit_if_pending request (resolve_pending_count_for u sid))
      (build_snapshot u.config u.live)

unfoldable pub apply_reply : VirtualEcu → Reply → VirtualEcu
apply_reply u reply = record u { live = apply_changes u.live reply.changes }

-- The part after the session check.
unfoldable pub answer :
    Protocol → VirtualEcu → (sid : ℕ) → List ℕ → VirtualEcu × Option ResponsePlan
answer protocol u sid request =
    let reply = ask protocol u sid request in
    let changed = apply_reply (note_state u) reply in
    let response = apply_session_timing_record u.timing reply.response in
    conclude changed sid (resolve_pending_count_for u sid) response
      (apply_response_override changed request (is_empty response))

-- The session check's refusal, or else the answer.
unfoldable pub refused_or :
    Option ResponsePlan
    → VirtualEcu
    → VirtualEcu × Option ResponsePlan
    → VirtualEcu × Option ResponsePlan
refused_or none u answered = answered
refused_or (some plan) u answered = (u, some plan)

unfoldable pub process_request_with_timing :
    Protocol → VirtualEcu → List ℕ → VirtualEcu × Option ResponsePlan
process_request_with_timing protocol u [] = (u, some (build_response_plan u.timing 0x00 [] 0))
process_request_with_timing protocol u (sid ∷ rest) =
    refused_or (refuse_if_session_forbids u sid (sid ∷ rest)) u (answer protocol u sid (sid ∷ rest))

-- The final response alone, without its schedule.
unfoldable pub process_request : Protocol → VirtualEcu → List ℕ → VirtualEcu × Option (List ℕ)
process_request protocol u request =
    let (after, plan) = process_request_with_timing protocol u request in
    (after, elim plan [ none ↦ none | some p ↦ some (final_response p) ])
