-- ===== src/Uds/Session.antt =====
-- The diagnostic state of a virtual control unit between requests, the snapshot that the plugin is
-- given and the changes that are applied after it has answered (engine/crates/ecu/src/lib.rs).
-- Logging is left out. The session check, the overrides and the timing are those of Ecu/Unit.antt.
pub mod Guard
pub mod Blocks
use diagnostic_vehicle_simul.Prelude.{
  ℕ, Bool, true, false, ◌&&◌, Option, none, some, List, [], ◌∷◌, map, if◌then◌else◌, ◌==◌, is_some,
}
use diagnostic_vehicle_simul.Uds.Contract.{
  DataIdentifier, Dtc, KeyPolicy, compare_with_expected_key, accept_any_key, refuse_with,
  SecurityLevel, EcuSnapshot, StateChange, set_session, set_active_seed_level, unlock_security,
  reset_to_default_session, set_block_sequence_counter, end_transfer,
}
use diagnostic_vehicle_simul.Uds.Handler.{Reply}
use diagnostic_vehicle_simul.Uds.Security.{session_default}
use diagnostic_vehicle_simul.Uds.Dispatch.{handle_request}

-- `SecurityKeyPolicy` of the configuration.
pub data SecurityKeyPolicy : Type 0 where
  configured_compare configured_accept_any : SecurityKeyPolicy
  configured_refuse : ℕ → SecurityKeyPolicy

pub record ConfiguredLevel : Type 0 where
  pub level_sub_function : ℕ
  pub level_seed : List ℕ
  pub level_key : List ℕ
  pub level_policy : SecurityKeyPolicy

-- The configuration that a snapshot shows, its sessions as sub-function bytes, and the permissive
-- flag of the vehicle.
pub record Config : Type 0 where
  pub services : List ℕ
  pub sessions : List ℕ
  pub configured_dids : List DataIdentifier
  pub configured_dtcs : List Dtc
  pub levels : List ConfiguredLevel
  pub permissive : Bool

-- The live diagnostic state.
pub record LiveState : Type 0 where
  pub session : ℕ
  pub unlocked_level : ℕ
  pub seed_level : ℕ
  pub expected_counter : Option ℕ

unfoldable pub fresh : LiveState
fresh = record {
  session = session_default;
  unlocked_level = 0;
  seed_level = 0;
  expected_counter = none;
}

unfoldable pub flatten_policy : SecurityKeyPolicy → KeyPolicy × ℕ
flatten_policy configured_compare = (compare_with_expected_key, 0)
flatten_policy configured_accept_any = (accept_any_key, 0)
flatten_policy (configured_refuse nrc) = (refuse_with, nrc)

unfoldable pub flatten_level : ConfiguredLevel → SecurityLevel
flatten_level level = record {
  request_seed_sub_function = level.level_sub_function;
  seed = level.level_seed;
  expected_key = level.level_key;
  key_policy = (flatten_policy level.level_policy).0;
  refusal_nrc = (flatten_policy level.level_policy).1;
}

-- `unwrap_or(0)`.
abbrev pub or_zero : Option ℕ → ℕ
or_zero none = 0
or_zero (some n) = n

unfoldable pub build_snapshot : Config → LiveState → EcuSnapshot
build_snapshot config s = record {
  current_session = s.session;
  security_unlocked_level = s.unlocked_level;
  active_seed_level = s.seed_level;
  supported_services = config.services;
  supported_sessions = config.sessions;
  dids = config.configured_dids;
  dtcs = config.configured_dtcs;
  security_levels = map flatten_level config.levels;
  expected_block_sequence_counter = or_zero s.expected_counter;
  is_transfer_in_progress = is_some s.expected_counter;
  is_permissive = config.permissive;
}

-- Return security to locked and drop any outstanding seed.
unfoldable pub lock_security : LiveState → LiveState
lock_security s =
    if (s.unlocked_level == 0) && (s.seed_level == 0)
    then s
    else record s { unlocked_level = 0; seed_level = 0 }

unfoldable pub abandon_transfer : LiveState → LiveState
abandon_transfer s = record s { expected_counter = none }

unfoldable pub enter_session : LiveState → ℕ → LiveState
enter_session s new_session =
    let entered = record s { session = new_session } in
    if new_session == session_default then lock_security entered else entered

-- An unknown kind of change is ignored.
unfoldable pub apply_state_change : LiveState → StateChange → LiveState
apply_state_change s change =
    if change.kind == set_session
    then enter_session s change.value
    else if change.kind == reset_to_default_session
    then abandon_transfer (lock_security (record s { session = session_default }))
    else if change.kind == set_active_seed_level
    then record s { seed_level = change.value }
    else if change.kind == set_block_sequence_counter
    then record s { expected_counter = some change.value }
    else if change.kind == end_transfer
    then record s { expected_counter = none }
    else if change.kind == unlock_security
    then record s { unlocked_level = change.value }
    else s

unfoldable pub apply_changes : LiveState → List StateChange → LiveState
apply_changes s [] = s
apply_changes s (change ∷ changes) = apply_changes (apply_state_change s change) changes

-- One request served: the plugin's answer, and the state after its changes.
unfoldable pub serve : Config → LiveState → List ℕ → LiveState × List ℕ
serve config s request =
    let reply = handle_request request (build_snapshot config s) in
    (apply_changes s reply.changes, reply.response)
