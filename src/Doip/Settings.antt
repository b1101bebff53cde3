-- ===== src/Doip/Settings.antt =====
-- How an entity behaves and what it calls itself: the settings of
-- engine/crates/doip-server/src/settings.rs and `VehicleIdentity` of
-- engine/crates/core-domain/src/model.rs.
use diagnostic_vehicle_simul.Prelude.{
  ℕ, ◌-◌, Bool, false, ◌||◌, Option, none, some, List, ◌++◌, is_some, length, take, replicate,
}

-- Settings and fault injection.
pub record DoIpSettings : Type 0 where
  pub power_mode : ℕ
  pub node_type : ℕ
  pub max_sockets : ℕ
  pub max_data_size : ℕ
  pub suppress_identification_response : Bool
  pub forced_routing_activation_code : Option ℕ
  pub forced_diagnostic_nack : Option ℕ
  pub forced_header_nack : Option ℕ

abbrev pub default_max_connections : ℕ
default_max_connections = 4

abbrev pub default_max_data_size : ℕ
default_max_data_size = 4096

unfoldable pub default_settings : DoIpSettings
default_settings = record {
  power_mode = 0x01;
  node_type = 0x00;
  max_sockets = default_max_connections;
  max_data_size = default_max_data_size;
  suppress_identification_response = false;
  forced_routing_activation_code = none;
  forced_diagnostic_nack = none;
  forced_header_nack = none;
}

unfoldable pub is_injecting_faults : DoIpSettings → Bool
is_injecting_faults s =
    s.suppress_identification_response
    || (is_some s.forced_routing_activation_code
        || (is_some s.forced_diagnostic_nack || is_some s.forced_header_nack))

-- `VehicleIdentity`.
pub record VehicleIdentity : Type 0 where
  pub programmed_vin : Option (List ℕ)
  pub programmed_eid : Option (List ℕ)
  pub programmed_gid : Option (List ℕ)
  pub further_action : ℕ
  pub vin_gid_sync_status : ℕ

-- Seventeen bytes: the first of those that are programmed, and zeros after them.
unfoldable pub vin_bytes : VehicleIdentity → List ℕ
vin_bytes identity = elim identity.programmed_vin [
  | none ↦ replicate 17 0x00
  | some vin ↦ take 17 vin ++ replicate (17 - length vin) 0x00
]

-- `unwrap_or([0x00; 6])`.
abbrev pub six_bytes : Option (List ℕ) → List ℕ
six_bytes none = replicate 6 0x00
six_bytes (some bytes) = bytes

unfoldable pub eid_bytes : VehicleIdentity → List ℕ
eid_bytes identity = six_bytes identity.programmed_eid

unfoldable pub gid_bytes : VehicleIdentity → List ℕ
gid_bytes identity = six_bytes identity.programmed_gid
