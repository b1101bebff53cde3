-- ===== src/Doip/Server/Permitted/Udp.antt =====
-- The messages that the discovery port sends back.
use diagnostic_vehicle_simul.Prelude.{
  ℕ, ◌%◌, refl, not, ◌&&◌, Option, none, some, List, [], ◌∷◌, drop, min, length, Result, ok, err,
  arith,
}
use diagnostic_vehicle_simul.Doip.Payload.{
  PayloadType, vehicle_identification_request, vehicle_identification_request_by_eid,
  vehicle_identification_request_by_vin, entity_status_request, entity_status_response,
  power_mode_request, power_mode_response, code, accepts_payload_length,
}
use diagnostic_vehicle_simul.Doip.Header.{
  HeaderNack, GenericHeader, read_header, header_length, reply_version_for,
}
use diagnostic_vehicle_simul.Doip.Messages.{status_to_bytes}
use diagnostic_vehicle_simul.Doip.Settings.{DoIpSettings, VehicleIdentity, vin_bytes, eid_bytes}
use diagnostic_vehicle_simul.Doip.Server.{
  Reaction, Connections, DoIpEntity, limits_of, forced_header_nack_reaction, nack_reaction,
}
use diagnostic_vehicle_simul.Doip.Server.Udp.{same_bytes, status_reaction, dispatch_udp, handle_udp}
use diagnostic_vehicle_simul.Doip.Server.Permitted.{
  ArePermitted, IsSixBytes, reply_with-ArePermitted, forced_header_nack_reaction-ArePermitted,
  nack_reaction-ArePermitted, refuse_or_ignore-ArePermitted, identify_if-ArePermitted,
}

dispatch_udp-ArePermitted :
    (settings : DoIpSettings) (address : ℕ) (cs : Connections) (identity : VehicleIdentity)
    (wait_ms version : ℕ) (t : PayloadType) (payload : List ℕ)
    → IsSixBytes identity.programmed_eid
    → IsSixBytes identity.programmed_gid
    → ArePermitted (dispatch_udp settings address cs identity wait_ms version t payload)
unfolding dispatch_udp status_reaction status_to_bytes accepts_payload_length
dispatch_udp-ArePermitted settings address cs identity wait_ms version
      vehicle_identification_request payload e g =
    identify_if-ArePermitted (not settings.suppress_identification_response) address identity
      wait_ms version e g
dispatch_udp-ArePermitted settings address cs identity wait_ms version
      vehicle_identification_request_by_eid payload e g =
    identify_if-ArePermitted
      (same_bytes payload (eid_bytes identity) && not settings.suppress_identification_response)
      address identity wait_ms version e g
dispatch_udp-ArePermitted settings address cs identity wait_ms version
      vehicle_identification_request_by_vin payload e g =
    identify_if-ArePermitted
      (same_bytes payload (vin_bytes identity) && not settings.suppress_identification_response)
      address identity wait_ms version e g
dispatch_udp-ArePermitted settings address cs identity wait_ms version power_mode_request payload e
      g =
    reply_with-ArePermitted version power_mode_response (settings.power_mode ∷ []) refl
dispatch_udp-ArePermitted settings address cs identity wait_ms version entity_status_request payload
      e g =
    reply_with-ArePermitted version entity_status_response
      (status_to_bytes (record {
        node_type = settings.node_type;
        max_sockets = settings.max_sockets;
        open_sockets = length cs % 256;
        max_data_size = some settings.max_data_size;
      }))
      (ground arith)
dispatch_udp-ArePermitted settings address cs identity wait_ms version other payload e g =
    refuse_or_ignore-ArePermitted version other

module _ {Simulation : Type 0} (identity_of : Simulation → VehicleIdentity)
    (settings : DoIpSettings) (e : DoIpEntity Simulation) (wait_ms : ℕ) (datagram : List ℕ)
    (eid : IsSixBytes (identity_of e.simulation).programmed_eid)
    (gid : IsSixBytes (identity_of e.simulation).programmed_gid) where
  read_udp-ArePermitted :
      (read : Result HeaderNack GenericHeader)
      → ArePermitted (elim read [
        | err nack ↦ nack_reaction 0x03 nack
        | ok header ↦
            dispatch_udp settings e.entity_address e.connections
              (identity_of e.simulation)
              wait_ms
              (reply_version_for header.protocol_version)
              header.payload_type
              (drop (min header_length (length datagram)) datagram)
      ])
  read_udp-ArePermitted (err nack) = nack_reaction-ArePermitted 3 nack
  read_udp-ArePermitted (ok header) =
      dispatch_udp-ArePermitted settings e.entity_address e.connections (identity_of e.simulation)
        wait_ms (reply_version_for header.protocol_version) header.payload_type
        (drop (min header_length (length datagram)) datagram) eid gid

  pick_udp-ArePermitted :
      (forced : Option ℕ) (reaction : Reaction)
      → ArePermitted reaction
      → ArePermitted
          (elim forced [ some code ↦ forced_header_nack_reaction 0x03 code | none ↦ reaction ])
  pick_udp-ArePermitted none reaction h = h
  pick_udp-ArePermitted (some code) reaction h = forced_header_nack_reaction-ArePermitted 3 code

  pub handle_udp-ArePermitted : ArePermitted (handle_udp identity_of settings e wait_ms datagram)
  unfolding handle_udp
  handle_udp-ArePermitted =
      pick_udp-ArePermitted settings.forced_header_nack
        (elim (read_header datagram (limits_of settings)) [
          | err nack ↦ nack_reaction 0x03 nack
          | ok header ↦
              dispatch_udp settings e.entity_address e.connections (identity_of e.simulation)
                wait_ms (reply_version_for header.protocol_version) header.payload_type
                (drop (min header_length (length datagram)) datagram)
        ])
        (read_udp-ArePermitted (read_header datagram (limits_of settings)))
