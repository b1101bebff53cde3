-- ===== src/Doip/Server/Udp.antt =====
-- One message on the UDP discovery port (engine/crates/doip-server/src/entity.rs, `HandleUdp`).
use diagnostic_vehicle_simul.Prelude.{
  ℕ, ◌%◌, Bool, true, false, not, ◌&&◌, none, some, List, [], ◌∷◌, if◌then◌else◌, ◌==◌, min, length,
  drop, ok, err,
}
use diagnostic_vehicle_simul.Doip.Payload.{
  PayloadType, vehicle_identification_request, vehicle_identification_request_by_eid,
  vehicle_identification_request_by_vin, entity_status_request, entity_status_response,
  power_mode_request, power_mode_response, code, is_sent_by_an_entity,
}
use diagnostic_vehicle_simul.Doip.Header.{
  unknown_payload_type, header_length, read_header, reply_version_for, write_message,
}
use diagnostic_vehicle_simul.Doip.Messages.{status_to_bytes}
use diagnostic_vehicle_simul.Doip.Settings.{DoIpSettings, VehicleIdentity, vin_bytes, eid_bytes}
use diagnostic_vehicle_simul.Doip.Server.{
  Reaction, silence, reply_with, DoIpEntity, Connections, limits_of, forced_header_nack_reaction,
  nack_reaction, announcement_reaction,
}

-- Equality of byte lists.
unfoldable pub same_bytes : List ℕ → List ℕ → Bool
same_bytes [] [] = true
same_bytes [] (b ∷ bs) = false
same_bytes (a ∷ as_) [] = false
same_bytes (a ∷ as_) (b ∷ bs) = (a == b) && same_bytes as_ bs

-- The types that this port does not answer itself.
unfoldable pub refuse_or_ignore : ℕ → PayloadType → Reaction
refuse_or_ignore version payload_type =
    if is_sent_by_an_entity payload_type
    then silence
    else nack_reaction version (unknown_payload_type (code payload_type))

-- `self.m_mapConnections.len() as u8` sockets are open.
unfoldable pub status_reaction : DoIpSettings → Connections → (version : ℕ) → Reaction
status_reaction settings connections version = reply_with (
    write_message version entity_status_response (
      status_to_bytes (record {
        node_type = settings.node_type;
        max_sockets = settings.max_sockets;
        open_sockets = length connections % 256;
        max_data_size = some settings.max_data_size;
      })))

-- The three identification requests are answered unless that is suppressed, two of them only by the
-- vehicle that they name.
unfoldable pub identify_if : Bool → ℕ → VehicleIdentity → (wait_ms version : ℕ) → Reaction
identify_if is_asked address identity wait_ms version =
    if is_asked then announcement_reaction address identity wait_ms version else silence

unfoldable pub dispatch_udp :
    DoIpSettings
    → ℕ
    → Connections
    → VehicleIdentity
    → (wait_ms version : ℕ) → PayloadType
    → List ℕ
    → Reaction
dispatch_udp settings address connections identity wait_ms version vehicle_identification_request
      payload =
    identify_if (not settings.suppress_identification_response) address identity wait_ms version
dispatch_udp settings address connections identity wait_ms version
      vehicle_identification_request_by_eid payload =
    identify_if
      (same_bytes payload (eid_bytes identity) && not settings.suppress_identification_response)
      address identity wait_ms version
dispatch_udp settings address connections identity wait_ms version
      vehicle_identification_request_by_vin payload =
    identify_if
      (same_bytes payload (vin_bytes identity) && not settings.suppress_identification_response)
      address identity wait_ms version
dispatch_udp settings address connections identity wait_ms version power_mode_request payload =
    reply_with (write_message version power_mode_response (settings.power_mode ∷ []))
dispatch_udp settings address connections identity wait_ms version entity_status_request payload =
    status_reaction settings connections version
dispatch_udp settings address connections identity wait_ms version other payload =
    refuse_or_ignore version other

module _ {Simulation : Type 0} (identity_of : Simulation → VehicleIdentity) where
  unfoldable pub handle_udp :
      DoIpSettings → DoIpEntity Simulation → (wait_ms : ℕ) → List ℕ → Reaction
  handle_udp settings e wait_ms datagram = elim settings.forced_header_nack [
    | some forced ↦ forced_header_nack_reaction 0x03 forced
    | none ↦ elim (read_header datagram (limits_of settings)) [
      | err nack ↦ nack_reaction 0x03 nack
      | ok header ↦
          dispatch_udp settings e.entity_address e.connections (identity_of e.simulation) wait_ms
            (reply_version_for header.protocol_version) header.payload_type
            (drop (min header_length (length datagram)) datagram)
    ]
  ]
