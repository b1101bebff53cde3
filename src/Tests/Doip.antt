-- ===== src/Tests/Doip.antt =====
-- A tester at 0x0E80 that talks to an entity at 0x1000.
use diagnostic_vehicle_simul.Prelude.{
  ℕ, ◌+◌, ◌≡◌, ◌↔◌, ◌⊎◌, refl, true, false, none, some, List, [], ◌∷◌, ◌++◌, take, leb,
  if◌then◌else◌, ok, arith,
}
use diagnostic_vehicle_simul.Doip.Payload.{
  routing_activation_request, diagnostic_message, code, from_code, accepts_payload_length,
}
use diagnostic_vehicle_simul.Doip.Payload.Codes.{from_code_iff}
use diagnostic_vehicle_simul.Doip.Header.{
  HeaderLimits, read_header, check_payload, is_known_protocol_version, write_message,
}
use diagnostic_vehicle_simul.Doip.Header.RoundTrip.{header_of, read_header-write_message}
use diagnostic_vehicle_simul.Doip.Header.Accepted.{IsAccepted, header_bytes, read_header-ok}
use diagnostic_vehicle_simul.Doip.Messages.{
  VehicleAnnouncement, RoutingActivationRequest, activated, DiagnosticMessage, message_from_bytes,
  message_to_bytes, EntityStatus,
}
use diagnostic_vehicle_simul.Doip.Messages.RoundTrip.{message_from_bytes-message_to_bytes}
use diagnostic_vehicle_simul.Doip.Connection.{
  Connection, deadline_ms, initialized, routing_active, finalized, is_supported_activation_type,
  decide_routing_activation,
}
use diagnostic_vehicle_simul.Doip.Connection.Rules.{
  Situation, activity, elapsed, activation, apply, apply_all, IsSettled,
  decide_routing_activation-activated, apply_all-IsSettled,
}
use diagnostic_vehicle_simul.Doip.Connection.Deadline.{
  talk, wait, events, total, silences, initial_deadline, general_deadline,
}

abbrev limits : HeaderLimits
limits = record { max_data_size = 4096; available_memory = 4096 }

abbrev read_vin : DiagnosticMessage
read_vin = record {
  source_address = 0x0E80;
  target_address = 0x1000;
  user_data = 0x22 ∷ 0xF1 ∷ 0x90 ∷ [];
}

abbrev read_vin_payload : List ℕ
read_vin_payload = 0x0E ∷ 0x80 ∷ 0x10 ∷ 0x00 ∷ 0x22 ∷ 0xF1 ∷ 0x90 ∷ []

abbrev activation_header : List ℕ
activation_header = 0x02 ∷ 0xFD ∷ 0x00 ∷ 0x05 ∷ 0x00 ∷ 0x00 ∷ 0x00 ∷ 0x07 ∷ []

abbrev request : RoutingActivationRequest
request = record {
  source_address = 0x0E80;
  activation_type = 0x00;
  reserved_iso = 0;
  reserved_oem = none;
}

abbrev alone : Situation
alone = record { is_acceptable = true; is_active_elsewhere = false; has_free_socket = true }

abbrev waiting : Connection
waiting = record { state = initialized; source_address = none; idle_ms = 500 }

abbrev active : Connection
active = record { state = routing_active; source_address = some 0x0E80; idle_ms = 0 }

version_2012_known : is_known_protocol_version 0x02 ≡ true
unfolding is_known_protocol_version
version_2012_known = ground arith

read_vin_accepted : accepts_payload_length diagnostic_message 7 ≡ true
unfolding accepts_payload_length
read_vin_accepted = ground arith

read_header-write_message_example :
    read_header (write_message 0x02 diagnostic_message read_vin_payload ++ (0xFF ∷ [])) limits
    ≡ ok (header_of 0x02 diagnostic_message 7)
read_header-write_message_example =
    read_header-write_message limits 0x02 diagnostic_message read_vin_payload (0xFF ∷ [])
      version_2012_known read_vin_accepted (ground arith) (ground arith) (ground arith)

activation_header_ok :
    read_header activation_header limits ≡ ok (header_of 0x02 routing_activation_request 7)
unfolding read_header is_known_protocol_version check_payload from_code accepts_payload_length
activation_header_ok = ground arith

read_header-ok_example :
    IsAccepted limits (header_of 0x02 routing_activation_request 7)
    × (take 8 activation_header ≡ header_bytes (header_of 0x02 routing_activation_request 7))
read_header-ok_example =
    read_header-ok limits (header_of 0x02 routing_activation_request 7) activation_header
      (ground arith) activation_header_ok

from_code_iff_example :
    (from_code 0x8001 ≡ some diagnostic_message) ↔ (code diagnostic_message ≡ 0x8001)
from_code_iff_example = from_code_iff 0x8001 diagnostic_message

message_from_bytes-message_to_bytes_example :
    message_from_bytes (message_to_bytes read_vin) ≡ some read_vin
message_from_bytes-message_to_bytes_example =
    message_from_bytes-message_to_bytes read_vin (ground arith) (ground arith)

read_vin_payload_read : message_from_bytes read_vin_payload ≡ some read_vin
unfolding message_from_bytes
read_vin_payload_read = refl

abbrev announcement : VehicleAnnouncement
announcement = record {
  vin =
      0x31 ∷ 0x48 ∷ 0x47 ∷ 0x43 ∷ 0x4D ∷ 0x38 ∷ 0x32 ∷ 0x36 ∷ 0x33 ∷ 0x33 ∷ 0x41 ∷ 0x30 ∷ 0x30
      ∷ 0x34 ∷ 0x33 ∷ 0x35 ∷ 0x32 ∷ [];
  logical_address = 0x1000;
  eid = 1 ∷ 2 ∷ 3 ∷ 4 ∷ 5 ∷ 6 ∷ [];
  gid = 1 ∷ 2 ∷ 3 ∷ 4 ∷ 5 ∷ 6 ∷ [];
  further_action_required = 0;
  sync_status = some 0;
}

abbrev status : EntityStatus
status = record { node_type = 0; max_sockets = 4; open_sockets = 1; max_data_size = none }

decide_routing_activation-activated_example :
    (decide_routing_activation waiting request true false true ≡ activated) ↔ (
      (is_supported_activation_type 0x00 ≡ true)
      × (true ≡ true)
      × ((waiting.source_address ≡ some 0x0E80)
          ⊎ ((waiting.source_address ≡ none) × (false ≡ false) × (true ≡ true))))
decide_routing_activation-activated_example =
    decide_routing_activation-activated waiting request alone

waiting-IsSettled : IsSettled waiting
unfolding deadline_ms
waiting-IsSettled = ground arith

apply_all-IsSettled_example :
    IsSettled (apply_all (activity ∷ activation request alone ∷ elapsed 5000 ∷ []) waiting)
apply_all-IsSettled_example =
    apply_all-IsSettled (activity ∷ activation request alone ∷ elapsed 5000 ∷ []) waiting
      waiting-IsSettled

initial_deadline_example :
    (apply_all (events (wait 1000 ∷ talk ∷ wait 400 ∷ talk ∷ wait 200 ∷ [])) waiting).state ≡ (
      if leb 2000 (500 + total (wait 1000 ∷ talk ∷ wait 400 ∷ talk ∷ wait 200 ∷ []))
      then finalized
      else initialized)
initial_deadline_example =
    initial_deadline (wait 1000 ∷ talk ∷ wait 400 ∷ talk ∷ wait 200 ∷ []) waiting refl
      (ground arith)

general_deadline_example :
    ((apply_all (silences (100000 ∷ 299999 ∷ [])) active).state ≡ routing_active)
    × ((apply (elapsed 300000) (apply_all (silences (100000 ∷ 299999 ∷ [])) active)).state
        ≡ (if leb 300000 300000 then finalized else routing_active))
general_deadline_example =
    general_deadline (100000 ∷ 299999 ∷ []) 300000 active refl refl
      (ground arith, (ground arith, tt))
