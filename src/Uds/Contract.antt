-- ===== src/Uds/Contract.antt =====
-- What passes between the engine and a protocol plugin
-- (engine/crates/plugin-contract/src/protocol.rs). Bytes are numbers below 256.
use diagnostic_vehicle_simul.Prelude.{ℕ, Bool, List}

pub record DataIdentifier : Type 0 where
  pub id : ℕ  -- u16
  pub value : List ℕ

pub record Dtc : Type 0 where
  pub dtc_code : ℕ  -- u32
  pub status : ℕ

pub data KeyPolicy : Type 0 where
  compare_with_expected_key accept_any_key refuse_with : KeyPolicy

pub record SecurityLevel : Type 0 where
  pub request_seed_sub_function : ℕ
  pub seed : List ℕ
  pub expected_key : List ℕ
  pub key_policy : KeyPolicy
  pub refusal_nrc : ℕ

pub record EcuSnapshot : Type 0 where
  pub current_session : ℕ
  pub security_unlocked_level : ℕ
  pub active_seed_level : ℕ
  pub supported_services : List ℕ
  pub supported_sessions : List ℕ
  pub dids : List DataIdentifier
  pub dtcs : List Dtc
  pub security_levels : List SecurityLevel
  pub expected_block_sequence_counter : ℕ
  pub is_transfer_in_progress : Bool
  pub is_permissive : Bool

abbrev pub set_session : ℕ
set_session = 1

abbrev pub set_active_seed_level : ℕ
set_active_seed_level = 2

abbrev pub unlock_security : ℕ
unlock_security = 3

abbrev pub reset_to_default_session : ℕ
reset_to_default_session = 4

abbrev pub set_block_sequence_counter : ℕ
set_block_sequence_counter = 5

abbrev pub end_transfer : ℕ
end_transfer = 6

pub record StateChange : Type 0 where
  pub kind : ℕ
  pub value : ℕ
