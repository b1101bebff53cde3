-- ===== src/Doip/Payload.antt =====
-- Payload types and their permitted lengths (engine/crates/doip/src/payload.rs).
pub mod Codes
use diagnostic_vehicle_simul.Prelude.{
  ℕ, Bool, true, false, ◌||◌, Option, none, some, if◌then◌else◌, leb, ◌==◌,
}

pub data PayloadType : Type 0 where
  generic_header_nack : PayloadType
  vehicle_identification_request : PayloadType
  vehicle_identification_request_by_eid : PayloadType
  vehicle_identification_request_by_vin : PayloadType
  vehicle_announcement : PayloadType
  routing_activation_request : PayloadType
  routing_activation_response : PayloadType
  alive_check_request : PayloadType
  alive_check_response : PayloadType
  entity_status_request : PayloadType
  entity_status_response : PayloadType
  power_mode_request : PayloadType
  power_mode_response : PayloadType
  diagnostic_message : PayloadType
  diagnostic_message_ack : PayloadType
  diagnostic_message_nack : PayloadType

-- The wire value.
unfoldable pub code : PayloadType → ℕ
code generic_header_nack = 0x0000
code vehicle_identification_request = 0x0001
code vehicle_identification_request_by_eid = 0x0002
code vehicle_identification_request_by_vin = 0x0003
code vehicle_announcement = 0x0004
code routing_activation_request = 0x0005
code routing_activation_response = 0x0006
code alive_check_request = 0x0007
code alive_check_response = 0x0008
code entity_status_request = 0x4001
code entity_status_response = 0x4002
code power_mode_request = 0x4003
code power_mode_response = 0x4004
code diagnostic_message = 0x8001
code diagnostic_message_ack = 0x8002
code diagnostic_message_nack = 0x8003

unfoldable pub from_code : ℕ → Option PayloadType
from_code n =
    if n == 0x0000
    then some generic_header_nack
    else if n == 0x0001
    then some vehicle_identification_request
    else if n == 0x0002
    then some vehicle_identification_request_by_eid
    else if n == 0x0003
    then some vehicle_identification_request_by_vin
    else if n == 0x0004
    then some vehicle_announcement
    else if n == 0x0005
    then some routing_activation_request
    else if n == 0x0006
    then some routing_activation_response
    else if n == 0x0007
    then some alive_check_request
    else if n == 0x0008
    then some alive_check_response
    else if n == 0x4001
    then some entity_status_request
    else if n == 0x4002
    then some entity_status_response
    else if n == 0x4003
    then some power_mode_request
    else if n == 0x4004
    then some power_mode_response
    else if n == 0x8001
    then some diagnostic_message
    else if n == 0x8002
    then some diagnostic_message_ack
    else if n == 0x8003
    then some diagnostic_message_nack
    else none

-- Whether a payload of this length is one the type can carry.
unfoldable pub accepts_payload_length : PayloadType → ℕ → Bool
accepts_payload_length generic_header_nack n = n == 1
accepts_payload_length vehicle_identification_request n = n == 0
accepts_payload_length vehicle_identification_request_by_eid n = n == 6
accepts_payload_length vehicle_identification_request_by_vin n = n == 17
accepts_payload_length vehicle_announcement n = (n == 32) || (n == 33)
accepts_payload_length routing_activation_request n = (n == 7) || (n == 11)
accepts_payload_length routing_activation_response n = (n == 9) || (n == 13)
accepts_payload_length alive_check_request n = n == 0
accepts_payload_length alive_check_response n = n == 2
accepts_payload_length entity_status_request n = n == 0
accepts_payload_length entity_status_response n = (n == 3) || (n == 7)
accepts_payload_length power_mode_request n = n == 0
accepts_payload_length power_mode_response n = n == 1
accepts_payload_length diagnostic_message n = leb 5 n
accepts_payload_length diagnostic_message_ack n = leb 5 n
accepts_payload_length diagnostic_message_nack n = leb 5 n

-- Whether the type is one that an entity sends rather than receives.
unfoldable pub is_sent_by_an_entity : PayloadType → Bool
is_sent_by_an_entity generic_header_nack = true
is_sent_by_an_entity vehicle_announcement = true
is_sent_by_an_entity routing_activation_response = true
is_sent_by_an_entity entity_status_response = true
is_sent_by_an_entity power_mode_response = true
is_sent_by_an_entity diagnostic_message_ack = true
is_sent_by_an_entity diagnostic_message_nack = true
is_sent_by_an_entity _ = false

unfoldable pub is_udp_discovery : PayloadType → Bool
is_udp_discovery vehicle_identification_request = true
is_udp_discovery vehicle_identification_request_by_eid = true
is_udp_discovery vehicle_identification_request_by_vin = true
is_udp_discovery entity_status_request = true
is_udp_discovery power_mode_request = true
is_udp_discovery _ = false

-- Whether the message is a vehicle identification request in one of its three forms.
unfoldable pub is_vehicle_identification_request : PayloadType → Bool
is_vehicle_identification_request vehicle_identification_request = true
is_vehicle_identification_request vehicle_identification_request_by_eid = true
is_vehicle_identification_request vehicle_identification_request_by_vin = true
is_vehicle_identification_request _ = false
