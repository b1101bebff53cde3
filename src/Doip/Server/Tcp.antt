-- ===== src/Doip/Server/Tcp.antt =====
-- One message on a TCP data socket (engine/crates/doip-server/src/entity.rs, `HandleTcp`).
pub mod Registered
pub mod Routed
pub mod Runs
use diagnostic_vehicle_simul.Prelude.{
  ℕ, suc, Bool, true, false, not, ◌&&◌, Option, none, some, List, [], ◌∷◌, ◌++◌, map, if◌then◌else◌,
  ltb, ◌==◌, is_some, is_empty, min, length, drop, Result, ok, err,
}
use diagnostic_vehicle_simul.Doip.Payload.{
  PayloadType, routing_activation_request, routing_activation_response, alive_check_request,
  alive_check_response, diagnostic_message, diagnostic_message_ack, code,
}
use diagnostic_vehicle_simul.Doip.Header.{
  HeaderNack, GenericHeader, invalid_payload_length, header_length, read_header, reply_version_for,
  write_message,
}
use diagnostic_vehicle_simul.Doip.Messages.{
  RoutingActivationRequest, request_from_bytes, RoutingActivationOutcome, outcome_closes_socket,
  build_routing_activation_response, DiagnosticMessage, message_from_bytes, message_to_bytes,
  DiagnosticNack, invalid_source_address, unknown_target_address, message_too_large,
  target_unreachable, build_diagnostic_ack, ack_routing_confirmation, build_alive_check_response,
}
use diagnostic_vehicle_simul.Doip.Connection.{
  Connection, note_activity, is_routing_active, decide_routing_activation, apply_routing_activation,
}
use diagnostic_vehicle_simul.Ecu.Schedule.{ScheduledResponse}
use diagnostic_vehicle_simul.Doip.Settings.{DoIpSettings}
use diagnostic_vehicle_simul.Doip.Server.{
  TimedReply, now, Reaction, silence, reply_with, reply_closing, RoutedResponse, RoutingOutcome,
  stopped, no_target, silenced, handled, too_large_for_subnetwork, Connections, find_connection,
  DoIpEntity, limits_of, forced_header_nack_reaction, nack_reaction, diagnostic_nack_reaction,
  forced_routing_outcome, find_forced_nack, is_acceptable_tester_address,
}
use diagnostic_vehicle_simul.Doip.Server.Udp.{refuse_or_ignore}

-- A change of the connection of one socket, where there is one.
unfoldable pub update_connection : (Connection → Connection) → ℕ → Connections → Connections
update_connection f socket [] = []
update_connection f socket ((s, c) ∷ rest) =
    (s, if s == socket then f c else c) ∷ update_connection f socket rest

-- Whether a registered address is this one.
abbrev pub is_address : Option ℕ → ℕ → Bool
is_address none address = false
is_address (some a) address = a == address

-- Whether another socket has this address registered.
unfoldable pub is_active_elsewhere : Connections → ℕ → ℕ → Bool
is_active_elsewhere [] socket address = false
is_active_elsewhere ((s, c) ∷ rest) socket address =
    if not (s == socket) && is_address c.source_address address
    then true
    else is_active_elsewhere rest socket address

-- How many other sockets have an address registered.
unfoldable pub registered_elsewhere : Connections → ℕ → ℕ
registered_elsewhere [] socket = 0
registered_elsewhere ((s, c) ∷ rest) socket =
    let count = registered_elsewhere rest socket in
    if not (s == socket) && is_some c.source_address then suc count else count

-- `and_then(ForcedRoutingOutcome)`.
abbrev pub forced_outcome : Option ℕ → Option RoutingActivationOutcome
forced_outcome none = none
forced_outcome (some forced) = forced_routing_outcome forced

-- The decision about a request on a connection, forced or not.
unfoldable pub decide_activation :
    DoIpSettings
    → Connections
    → ℕ
    → Connection
    → RoutingActivationRequest
    → RoutingActivationOutcome
decide_activation settings connections socket c request =
    elim (forced_outcome settings.forced_routing_activation_code) [
      | some forced ↦ forced
      | none ↦
          decide_routing_activation c request (is_acceptable_tester_address request.source_address)
            (is_active_elsewhere connections socket request.source_address)
            (ltb (registered_elsewhere connections socket) settings.max_sockets)
    ]

-- A diagnostic message of its own for each step of a plan.
unfoldable pub step_reply : (version from to_tester : ℕ) → ScheduledResponse → TimedReply
step_reply version from to_tester step = record {
  due_ms = step.at_ms;
  reply_bytes = write_message version diagnostic_message (
      message_to_bytes
        (record { source_address = from; target_address = to_tester; user_data = step.bytes }));
}

-- The replies of one unit: none if its response was suppressed, or if it has no address.
unfoldable pub response_replies : (version to_tester : ℕ) → RoutedResponse → List TimedReply
response_replies version to_tester response =
    if is_empty response.final_bytes then [] else elim response.answer_address [
      | none ↦ []
      | some from ↦ map (step_reply version from to_tester) response.plan_steps
    ]

unfoldable pub all_replies : (version to_tester : ℕ) → List RoutedResponse → List TimedReply
all_replies version to_tester [] = []
all_replies version to_tester (r ∷ rs) =
    response_replies version to_tester r ++ all_replies version to_tester rs

unfoldable pub build_ack : (version : ℕ) → DiagnosticMessage → List ℕ
build_ack version request =
    write_message version diagnostic_message_ack
      (build_diagnostic_ack request ack_routing_confirmation)

-- What the tester is told about a message that was handed to the simulation.
unfoldable pub package_outcome : (version : ℕ) → DiagnosticMessage → RoutingOutcome → Reaction
package_outcome version request no_target =
    diagnostic_nack_reaction version request unknown_target_address
package_outcome version request stopped =
    diagnostic_nack_reaction version request target_unreachable
package_outcome version request (too_large_for_subnetwork request_bytes max_bytes) =
    diagnostic_nack_reaction version request message_too_large
package_outcome version request silenced = reply_with (build_ack version request)
package_outcome version request (handled responses) = record {
  replies = now (build_ack version request) ∷ all_replies version request.source_address responses;
  close_socket = false;
}

-- The address for which a socket routes.
abbrev pub routed_address : Option Connection → Option ℕ
routed_address none = none
routed_address (some c) = if is_routing_active c.state then c.source_address else none

-- The forced negative acknowledgement, where one is set that means something.
abbrev pub forced_nack : Option ℕ → Option DiagnosticNack
forced_nack none = none
forced_nack (some forced) = find_forced_nack forced

module _ {Simulation : Type 0} (process : Simulation → ℕ → List ℕ → Simulation × RoutingOutcome)
    (settings : DoIpSettings) where
  unfoldable pub activate_on :
      DoIpEntity Simulation
      → (socket version : ℕ) → RoutingActivationRequest
      → Option Connection
      → DoIpEntity Simulation × Reaction
  activate_on e socket version request none = (e, silence)
  activate_on e socket version request (some c) =
      let outcome = decide_activation settings e.connections socket c request in
      (
        record e {
          connections =
              update_connection (λ d. apply_routing_activation d request outcome) socket
                e.connections;
        },
        reply_closing (outcome_closes_socket outcome) (
            write_message version routing_activation_response
              (build_routing_activation_response request.source_address e.entity_address outcome)),
      )

  unfoldable pub handle_routing_activation :
      DoIpEntity Simulation → (socket version : ℕ) → List ℕ → DoIpEntity Simulation × Reaction
  handle_routing_activation e socket version payload = elim (request_from_bytes payload) [
    | none ↦ (
      e,
      nack_reaction version
          (invalid_payload_length (code routing_activation_request) (length payload)),
    )
    | some request ↦ activate_on e socket version request (find_connection e.connections socket)
  ]

  -- The message handed to the simulation.
  unfoldable pub route_message :
      DoIpEntity Simulation → (version : ℕ) → DiagnosticMessage → DoIpEntity Simulation × Reaction
  route_message e version request =
      let (after, outcome) = process e.simulation request.target_address request.user_data in
      (record e { simulation = after }, package_outcome version request outcome)

  unfoldable pub handle_registered :
      DoIpEntity Simulation
      → (version : ℕ) → DiagnosticMessage
      → Option ℕ
      → DoIpEntity Simulation × Reaction
  handle_registered e version request none = (e, silence)
  handle_registered e version request (some registered) =
      elim (forced_nack settings.forced_diagnostic_nack) [
        | some nack ↦ (e, diagnostic_nack_reaction version request nack)
        | none ↦
            if not (request.source_address == registered)
            then (e, diagnostic_nack_reaction version request invalid_source_address)
            else route_message e version request
      ]

  unfoldable pub handle_diagnostic_message :
      DoIpEntity Simulation → (socket version : ℕ) → List ℕ → DoIpEntity Simulation × Reaction
  handle_diagnostic_message e socket version payload = elim (message_from_bytes payload) [
    | none ↦ (e, silence)
    | some request ↦
        handle_registered e version request (routed_address (find_connection e.connections socket))
  ]

  -- The answer to an alive check: the registered address, if there is one.
  unfoldable pub answer_alive_check : (version : ℕ) → Option Connection → Reaction
  answer_alive_check version none = silence
  answer_alive_check version (some c) = elim c.source_address [
    | none ↦ silence
    | some address ↦
        reply_with (write_message version alive_check_response (build_alive_check_response address))
  ]

  unfoldable pub dispatch_tcp :
      DoIpEntity Simulation
      → (socket version : ℕ) → PayloadType
      → List ℕ
      → DoIpEntity Simulation × Reaction
  dispatch_tcp e socket version routing_activation_request payload =
      handle_routing_activation e socket version payload
  dispatch_tcp e socket version diagnostic_message payload =
      handle_diagnostic_message e socket version payload
  dispatch_tcp e socket version alive_check_response payload = (e, silence)
  dispatch_tcp e socket version alive_check_request payload =
      (e, answer_alive_check version (find_connection e.connections socket))
  dispatch_tcp e socket version other payload = (e, refuse_or_ignore version other)

  -- Activity is noted before the header is read.
  unfoldable pub note_message : DoIpEntity Simulation → ℕ → DoIpEntity Simulation
  note_message e socket = record e {
    connections = update_connection note_activity socket e.connections;
  }

  -- A message whose header was read, or refused.
  unfoldable pub dispatch_header :
      DoIpEntity Simulation
      → ℕ
      → List ℕ
      → Result HeaderNack GenericHeader
      → DoIpEntity Simulation × Reaction
  dispatch_header e socket message (err nack) = (e, nack_reaction 0x03 nack)
  dispatch_header e socket message (ok header) =
      dispatch_tcp e socket (reply_version_for header.protocol_version) header.payload_type
        (drop (min header_length (length message)) message)

  unfoldable pub dispatch_message :
      DoIpEntity Simulation → Option ℕ → ℕ → List ℕ → DoIpEntity Simulation × Reaction
  dispatch_message e (some forced) socket message = (e, forced_header_nack_reaction 0x03 forced)
  dispatch_message e none socket message =
      dispatch_header e socket message (read_header message (limits_of settings))

  unfoldable pub handle_tcp : DoIpEntity Simulation → ℕ → List ℕ → DoIpEntity Simulation × Reaction
  handle_tcp e socket message =
      dispatch_message (note_message e socket) settings.forced_header_nack socket message
