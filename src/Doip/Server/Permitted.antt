-- ===== src/Doip/Server/Permitted.antt =====
-- Every message that the server sends has a payload of a length that the table of payload types
-- permits.
mod Outcome
mod Udp
mod Tcp
pub mod Handlers
use diagnostic_vehicle_simul.Prelude.{
  ℕ, zero, suc, ◌+◌, ◌-◌, ◌%◌, ◌/◌, ◌≡◌, ◌≤◌, refl, Bool, true, false, not, ◌&&◌, ◌||◌, Option,
  none, some, List, [], ◌∷◌, ◌++◌, ◌==◌, if◌then◌else◌, All, map, take, drop, min, replicate,
  length, length-append, length-take, length-replicate, is_empty, Option-cases, Bool-cases, inl,
  inr, ◌⊎◌, Result, ok, err, arith,
}
use diagnostic_vehicle_simul.Doip.Payload.{
  PayloadType, generic_header_nack, vehicle_identification_request,
  vehicle_identification_request_by_eid, vehicle_identification_request_by_vin,
  entity_status_request, entity_status_response, power_mode_request, power_mode_response,
  vehicle_announcement, routing_activation_request, routing_activation_response,
  alive_check_request, alive_check_response, diagnostic_message, diagnostic_message_ack,
  diagnostic_message_nack, code, is_sent_by_an_entity, accepts_payload_length,
}
use diagnostic_vehicle_simul.Doip.Header.{
  HeaderNack, GenericHeader, nack_code, closes_socket, read_header, header_length,
  reply_version_for, write_message, build_header_nack, unknown_payload_type, invalid_payload_length,
}
use diagnostic_vehicle_simul.Doip.Messages.{
  DiagnosticMessage, DiagnosticNack, message_to_bytes, message_from_bytes, request_from_bytes,
  RoutingActivationRequest, build_diagnostic_ack, status_to_bytes, build_alive_check_response,
  build_routing_activation_response, announcement_to_bytes, VehicleAnnouncement,
  ack_routing_confirmation, outcome_closes_socket, diagnostic_nack_closes_socket,
  diagnostic_nack_code, invalid_source_address, unknown_target_address, message_too_large,
  target_unreachable,
}
use diagnostic_vehicle_simul.Doip.Messages.RoundTrip.{length-announcement_to_bytes}
use diagnostic_vehicle_simul.Doip.Connection.{Connection, apply_routing_activation}
use diagnostic_vehicle_simul.Ecu.Schedule.{ScheduledResponse}
use diagnostic_vehicle_simul.Doip.Settings.{
  DoIpSettings, VehicleIdentity, vin_bytes, eid_bytes, gid_bytes, six_bytes,
}
use diagnostic_vehicle_simul.Doip.Server.{
  TimedReply, now, Reaction, silence, reply_with, reply_and_close, reply_closing, RoutedResponse,
  RoutingOutcome, stopped, no_target, silenced, handled, too_large_for_subnetwork, Connections,
  find_connection, DoIpEntity, limits_of, forced_header_nack_reaction, nack_reaction,
  diagnostic_nack_reaction, build_announcement, announcement_reaction,
}
use diagnostic_vehicle_simul.Doip.Server.Udp.{
  same_bytes, refuse_or_ignore, status_reaction, identify_if, dispatch_udp, handle_udp,
}
use diagnostic_vehicle_simul.Doip.Server.Tcp.{
  step_reply, response_replies, all_replies, build_ack, package_outcome, routed_address,
  forced_nack, decide_activation, activate_on, handle_routing_activation, route_message,
  handle_registered, handle_diagnostic_message, answer_alive_check, dispatch_tcp, note_message,
  dispatch_header, dispatch_message, handle_tcp,
}

-- A message with a payload of a length that its type may have.
abbrev pub IsPermitted : TimedReply → Type 0
IsPermitted reply =
    (version : ℕ) × (t : PayloadType) × (payload : List ℕ) × (reply.reply_bytes
      ≡ write_message version t payload)
    × (accepts_payload_length t (length payload) ≡ true)

abbrev pub ArePermitted : Reaction → Type 0
ArePermitted reaction = All IsPermitted reaction.replies

pub reply_with-ArePermitted :
    (version : ℕ) (t : PayloadType) (payload : List ℕ)
    → accepts_payload_length t (length payload) ≡ true
    → ArePermitted (reply_with (write_message version t payload))
unfolding reply_with now
reply_with-ArePermitted version t payload h = ((version, t, payload, refl, h), tt)

pub reply_closing-ArePermitted :
    (closes : Bool) (version : ℕ) (t : PayloadType) (payload : List ℕ)
    → accepts_payload_length t (length payload) ≡ true
    → ArePermitted (reply_closing closes (write_message version t payload))
unfolding reply_with reply_and_close now
reply_closing-ArePermitted true version t payload h = ((version, t, payload, refl, h), tt)
reply_closing-ArePermitted false version t payload h = ((version, t, payload, refl, h), tt)

pub forced_header_nack_reaction-ArePermitted :
    (version forced : ℕ) → ArePermitted (forced_header_nack_reaction version forced)
unfolding forced_header_nack_reaction accepts_payload_length
forced_header_nack_reaction-ArePermitted version forced =
    reply_closing-ArePermitted ((forced == 0x00) || (forced == 0x04)) version generic_header_nack
      (forced ∷ []) refl

pub nack_reaction-ArePermitted :
    (version : ℕ) (nack : HeaderNack) → ArePermitted (nack_reaction version nack)
unfolding nack_reaction build_header_nack accepts_payload_length
nack_reaction-ArePermitted version nack =
    reply_closing-ArePermitted (closes_socket nack) (reply_version_for version) generic_header_nack
      (nack_code nack ∷ []) refl

pub diagnostic_nack_reaction-ArePermitted :
    (version : ℕ) (m : DiagnosticMessage) (nack : DiagnosticNack)
    → ArePermitted (diagnostic_nack_reaction version m nack)
unfolding diagnostic_nack_reaction build_diagnostic_ack accepts_payload_length
diagnostic_nack_reaction-ArePermitted version m nack =
    reply_closing-ArePermitted (diagnostic_nack_closes_socket nack) version diagnostic_message_nack
      (build_diagnostic_ack m (diagnostic_nack_code nack)) (ground arith)

pub refuse_or_ignore-ArePermitted :
    (version : ℕ) (t : PayloadType) → ArePermitted (refuse_or_ignore version t)
unfolding refuse_or_ignore silence
refuse_or_ignore-ArePermitted version t = elim (Bool-cases (is_sent_by_an_entity t)) [
  | inl h ↦ rw (h, refuse_or_ignore) tt
  | inr h ↦
      rw (h, refuse_or_ignore) (nack_reaction-ArePermitted version (unknown_payload_type (code t)))
]

-- A programmed entity or group identifier has six bytes.
abbrev pub IsSixBytes : Option (List ℕ) → Type 0
IsSixBytes o = length (six_bytes o) ≡ 6

length-vin_bytes : (identity : VehicleIdentity) → length (vin_bytes identity) ≡ 17
unfolding vin_bytes
length-vin_bytes identity = elim (Option-cases identity.programmed_vin) [
  | inl e ↦ rw (e, vin_bytes) (length-replicate {A = ℕ} 17 0)
  | inr (vin, e) ↦
      rw (e, vin_bytes)
        (ground (
          arith,
          length-append (take 17 vin) (replicate (17 - length vin) 0),
          length-take 17 vin,
          length-replicate {A = ℕ} (17 - length vin) 0,
        ))
]

announcement_reaction-ArePermitted :
    (address : ℕ) (identity : VehicleIdentity) (wait_ms version : ℕ)
    → IsSixBytes identity.programmed_eid
    → IsSixBytes identity.programmed_gid
    → ArePermitted (announcement_reaction address identity wait_ms version)
unfolding announcement_reaction build_announcement eid_bytes gid_bytes accepts_payload_length
announcement_reaction-ArePermitted address identity wait_ms version e g =
    let a : VehicleAnnouncement = record {
      vin = vin_bytes identity;
      logical_address = address;
      eid = eid_bytes identity;
      gid = gid_bytes identity;
      further_action_required = identity.further_action;
      sync_status = some identity.vin_gid_sync_status;
    } in
    (
      (
        version,
        vehicle_announcement,
        announcement_to_bytes a,
        refl,
        ground (arith, length-announcement_to_bytes a (length-vin_bytes identity, e, g)),
      ),
      tt,
    )

pub identify_if-ArePermitted :
    (is_asked : Bool) (address : ℕ) (identity : VehicleIdentity) (wait_ms version : ℕ)
    → IsSixBytes identity.programmed_eid
    → IsSixBytes identity.programmed_gid
    → ArePermitted (identify_if is_asked address identity wait_ms version)
unfolding identify_if silence
identify_if-ArePermitted true address identity wait_ms version e g =
    announcement_reaction-ArePermitted address identity wait_ms version e g
identify_if-ArePermitted false address identity wait_ms version e g = tt
