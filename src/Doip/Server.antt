-- ===== src/Doip/Server.antt =====
-- The DoIP entity: the decision half of the server (engine/crates/doip-server/src/entity.rs). The simulation behind it is the parameter `Simulation`, with how it answers at a
-- logical address and what its vehicle says about itself. The random announcement delay is an
-- argument, and so are the settings, which the entity shares with its operator. Logging is left
-- out.
pub mod Udp
pub mod Tcp
pub mod Table
pub mod Permitted
use diagnostic_vehicle_simul.Prelude.{
  ℕ, zero, suc, ◌+◌, ◌-◌, min, Bool, true, false, not, ◌&&◌, ◌||◌, Option, none, some, List, [],
  ◌∷◌, ◌++◌, if◌then◌else◌, is_some, ltb, leb, ◌==◌, length, take, replicate,
}
use diagnostic_vehicle_simul.Doip.Settings.{
  DoIpSettings, default_max_connections, default_max_data_size, default_settings,
  is_injecting_faults, VehicleIdentity, vin_bytes, six_bytes, eid_bytes, gid_bytes,
}
use diagnostic_vehicle_simul.Doip.Payload.{
  PayloadType, generic_header_nack, vehicle_announcement, routing_activation_response,
  diagnostic_message_nack,
}
use diagnostic_vehicle_simul.Doip.Header.{
  HeaderLimits, HeaderNack, closes_socket, write_message, build_header_nack,
}
use diagnostic_vehicle_simul.Doip.Messages.{
  VehicleAnnouncement, announcement_to_bytes, RoutingActivationOutcome, activated,
  denied_unknown_source_address, denied_all_sockets_registered, denied_source_address_mismatch,
  denied_source_address_in_use, denied_missing_authentication, denied_unsupported_activation_type,
  DiagnosticMessage, DiagnosticNack, invalid_source_address, unknown_target_address,
  message_too_large, out_of_memory, target_unreachable, diagnostic_nack_code,
  diagnostic_nack_closes_socket, build_diagnostic_ack,
}
use diagnostic_vehicle_simul.Doip.Connection.{Connection, new, tick}
use diagnostic_vehicle_simul.Ecu.Schedule.{ScheduledResponse}

pub record TimedReply : Type 0 where
  pub due_ms : ℕ
  pub reply_bytes : List ℕ

unfoldable pub now : List ℕ → TimedReply
now bytes = record { due_ms = 0; reply_bytes = bytes }

pub record Reaction : Type 0 where
  pub replies : List TimedReply
  pub close_socket : Bool

unfoldable pub silence : Reaction
silence = record { replies = []; close_socket = false }

unfoldable pub reply_with : List ℕ → Reaction
reply_with message = record { replies = now message ∷ []; close_socket = false }

unfoldable pub reply_and_close : List ℕ → Reaction
reply_and_close message = record { replies = now message ∷ []; close_socket = true }

-- A reply, after which the socket is closed or not.
abbrev pub reply_closing : Bool → List ℕ → Reaction
reply_closing closes message = if closes then reply_and_close message else reply_with message

-- One control unit's answer, as far as the server reads it.
pub record RoutedResponse : Type 0 where
  pub answer_address : Option ℕ
  pub final_bytes : List ℕ
  pub plan_steps : List ScheduledResponse

pub data RoutingOutcome : Type 0 where
  stopped no_target silenced : RoutingOutcome
  handled : List RoutedResponse → RoutingOutcome
  too_large_for_subnetwork : (request_bytes max_bytes : ℕ) → RoutingOutcome

-- The connection table, in ascending order of sockets.
abbrev pub Connections : Type 0
Connections = List (ℕ × Connection)

unfoldable pub find_connection : Connections → ℕ → Option Connection
find_connection [] socket = none
find_connection ((s, c) ∷ rest) socket = if s == socket then some c else find_connection rest socket

unfoldable pub insert_connection : ℕ → Connection → Connections → Connections
insert_connection socket c [] = (socket, c) ∷ []
insert_connection socket c ((s, d) ∷ rest) =
    let later = insert_connection socket c rest in
    if ltb socket s
    then (socket, c) ∷ (s, d) ∷ rest
    else if s == socket
    then (socket, c) ∷ rest
    else (s, d) ∷ later

unfoldable pub remove_connection : ℕ → Connections → Connections
remove_connection socket [] = []
remove_connection socket ((s, c) ∷ rest) =
    let later = remove_connection socket rest in if s == socket then later else (s, c) ∷ later

pub record DoIpEntity (Simulation : Type 0) : Type 0 where
  pub simulation : Simulation
  pub entity_address : ℕ
  pub connections : Connections

module _ {Simulation : Type 0} where
  unfoldable pub open_connection : DoIpEntity Simulation → ℕ → DoIpEntity Simulation
  open_connection e socket = record e { connections = insert_connection socket new e.connections }

  unfoldable pub close_connection : DoIpEntity Simulation → ℕ → DoIpEntity Simulation
  close_connection e socket = record e { connections = remove_connection socket e.connections }

-- Every connection's clock, and the sockets that timed out, which are dropped.
unfoldable pub tick_connections : Connections → ℕ → Connections × List ℕ
tick_connections [] elapsed_ms = ([], [])
tick_connections ((s, c) ∷ rest) elapsed_ms =
    let (ticked, is_expired) = tick c elapsed_ms in
    let (kept, expired) = tick_connections rest elapsed_ms in
    if is_expired then (kept, s ∷ expired) else ((s, ticked) ∷ kept, expired)

unfoldable pub tick_entity :
    {Simulation : Type 0} → DoIpEntity Simulation → ℕ → DoIpEntity Simulation × List ℕ
tick_entity e elapsed_ms =
    let (kept, expired) = tick_connections e.connections elapsed_ms in
    (record e { connections = kept }, expired)

unfoldable pub limits_of : DoIpSettings → HeaderLimits
limits_of settings = record {
  max_data_size = settings.max_data_size;
  available_memory = settings.max_data_size;
}

unfoldable pub forced_header_nack_reaction : ℕ → ℕ → Reaction
forced_header_nack_reaction version forced =
    reply_closing ((forced == 0x00) || (forced == 0x04))
      (write_message version generic_header_nack (forced ∷ []))

unfoldable pub nack_reaction : ℕ → HeaderNack → Reaction
nack_reaction version nack = reply_closing (closes_socket nack) (build_header_nack version nack)

unfoldable pub diagnostic_nack_reaction : ℕ → DiagnosticMessage → DiagnosticNack → Reaction
diagnostic_nack_reaction version request nack = reply_closing (diagnostic_nack_closes_socket nack) (
    write_message version diagnostic_message_nack
      (build_diagnostic_ack request (diagnostic_nack_code nack)))

unfoldable pub build_announcement : ℕ → VehicleIdentity → (version : ℕ) → List ℕ
build_announcement entity_address identity version = write_message version vehicle_announcement (
    announcement_to_bytes (record {
      vin = vin_bytes identity;
      logical_address = entity_address;
      eid = eid_bytes identity;
      gid = gid_bytes identity;
      further_action_required = identity.further_action;
      sync_status = some identity.vin_gid_sync_status;
    }))

unfoldable pub announcement_reaction : ℕ → VehicleIdentity → (wait_ms version : ℕ) → Reaction
announcement_reaction entity_address identity wait_ms version = record {
  replies =
      record { due_ms = wait_ms; reply_bytes = build_announcement entity_address identity version }
      ∷ [];
  close_socket = false;
}

unfoldable pub forced_routing_outcome : ℕ → Option RoutingActivationOutcome
forced_routing_outcome forced =
    if forced == 0x00
    then some denied_unknown_source_address
    else if forced == 0x01
    then some denied_all_sockets_registered
    else if forced == 0x02
    then some denied_source_address_mismatch
    else if forced == 0x03
    then some denied_source_address_in_use
    else if forced == 0x04
    then some denied_missing_authentication
    else if forced == 0x06
    then some denied_unsupported_activation_type
    else if forced == 0x10
    then some activated
    else none

unfoldable pub find_forced_nack : ℕ → Option DiagnosticNack
find_forced_nack forced =
    if forced == 0x02
    then some invalid_source_address
    else if forced == 0x03
    then some unknown_target_address
    else if forced == 0x04
    then some message_too_large
    else if forced == 0x05
    then some out_of_memory
    else if forced == 0x06
    then some target_unreachable
    else none

-- `(0x0E00..=0x0FFF).contains`.
unfoldable pub is_acceptable_tester_address : ℕ → Bool
is_acceptable_tester_address address = leb 0x0E00 address && leb address 0x0FFF
