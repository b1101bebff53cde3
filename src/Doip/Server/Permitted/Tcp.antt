-- ===== src/Doip/Server/Permitted/Tcp.antt =====
-- The messages that a TCP socket sends back.
use diagnostic_vehicle_simul.Prelude.{
  ℕ, Option, none, some, List, ◌==◌, drop, min, length, Option-cases, Bool-cases, inl, inr, Result,
  ok, err, arith,
}
use diagnostic_vehicle_simul.Doip.Payload.{
  PayloadType, routing_activation_request, routing_activation_response, alive_check_request,
  alive_check_response, diagnostic_message, code, accepts_payload_length,
}
use diagnostic_vehicle_simul.Doip.Header.{
  HeaderNack, GenericHeader, read_header, header_length, reply_version_for, invalid_payload_length,
}
use diagnostic_vehicle_simul.Doip.Messages.{
  DiagnosticMessage, message_from_bytes, request_from_bytes, RoutingActivationRequest,
  build_alive_check_response, build_routing_activation_response, outcome_closes_socket,
  invalid_source_address,
}
use diagnostic_vehicle_simul.Doip.Connection.{Connection}
use diagnostic_vehicle_simul.Doip.Settings.{DoIpSettings}
use diagnostic_vehicle_simul.Doip.Server.{
  silence, RoutingOutcome, find_connection, DoIpEntity, limits_of,
}
use diagnostic_vehicle_simul.Doip.Server.Tcp.{
  routed_address, forced_nack, decide_activation, activate_on, handle_routing_activation,
  route_message, handle_registered, handle_diagnostic_message, answer_alive_check, dispatch_tcp,
  note_message, dispatch_header, dispatch_message, handle_tcp,
}
use diagnostic_vehicle_simul.Doip.Server.Permitted.{
  ArePermitted, reply_with-ArePermitted, reply_closing-ArePermitted,
  forced_header_nack_reaction-ArePermitted, nack_reaction-ArePermitted,
  diagnostic_nack_reaction-ArePermitted, refuse_or_ignore-ArePermitted,
}
use diagnostic_vehicle_simul.Doip.Server.Permitted.Outcome.{AreSpoken, package_outcome-ArePermitted}

module _ {Simulation : Type 0} (process : Simulation → ℕ → List ℕ → Simulation × RoutingOutcome)
    (settings : DoIpSettings)
    (spoken : (s : Simulation) (address : ℕ) (user_data : List ℕ)
      → AreSpoken (process s address user_data).1) where
  handle_registered-ArePermitted :
      (e : DoIpEntity Simulation) (version : ℕ) (m : DiagnosticMessage) (o : Option ℕ)
      → ArePermitted (handle_registered process settings e version m o).1
  unfolding handle_registered route_message silence
  handle_registered-ArePermitted e version m none = tt
  handle_registered-ArePermitted e version m (some registered) =
      elim (Option-cases (forced_nack settings.forced_diagnostic_nack)) [
        | inl f ↦ elim (Bool-cases (m.source_address == registered)) [
          | inl h ↦
              rw (f, h, handle_registered)
                (package_outcome-ArePermitted version m
                  (process e.simulation m.target_address m.user_data).1
                  (spoken e.simulation m.target_address m.user_data))
          | inr h ↦
              rw (f, h, handle_registered)
                (diagnostic_nack_reaction-ArePermitted version m invalid_source_address)
        ]
        | inr (nack, f) ↦
            rw (f, handle_registered) (diagnostic_nack_reaction-ArePermitted version m nack)
      ]

  handle_diagnostic_message-ArePermitted :
      (e : DoIpEntity Simulation) (socket version : ℕ) (payload : List ℕ)
      → ArePermitted (handle_diagnostic_message process settings e socket version payload).1
  unfolding handle_diagnostic_message silence
  handle_diagnostic_message-ArePermitted e socket version payload =
      elim (Option-cases (message_from_bytes payload)) [
        | inl m ↦ rw (m, handle_diagnostic_message) tt
        | inr (m, f) ↦
            rw (f, handle_diagnostic_message)
              (handle_registered-ArePermitted e version m
                (routed_address (find_connection e.connections socket)))
      ]

  activate_on-ArePermitted :
      (e : DoIpEntity Simulation) (socket version : ℕ) (request : RoutingActivationRequest)
      (o : Option Connection)
      → ArePermitted (activate_on process settings e socket version request o).1
  unfolding activate_on silence build_routing_activation_response accepts_payload_length
  activate_on-ArePermitted e socket version request none = tt
  activate_on-ArePermitted e socket version request (some c) =
      let outcome = decide_activation settings e.connections socket c request in
      reply_closing-ArePermitted (outcome_closes_socket outcome) version routing_activation_response
        (build_routing_activation_response request.source_address e.entity_address outcome)
        (ground arith)

  handle_routing_activation-ArePermitted :
      (e : DoIpEntity Simulation) (socket version : ℕ) (payload : List ℕ)
      → ArePermitted (handle_routing_activation process settings e socket version payload).1
  unfolding handle_routing_activation
  handle_routing_activation-ArePermitted e socket version payload =
      elim (Option-cases (request_from_bytes payload)) [
        | inl f ↦
            rw (f, handle_routing_activation)
              (nack_reaction-ArePermitted version
                (invalid_payload_length (code routing_activation_request) (length payload)))
        | inr (request, f) ↦
            rw (f, handle_routing_activation)
              (activate_on-ArePermitted e socket version request
                (find_connection e.connections socket))
      ]

  answer_alive_check-ArePermitted :
      (version : ℕ) (o : Option Connection)
      → ArePermitted (answer_alive_check process settings version o)
  unfolding answer_alive_check silence build_alive_check_response accepts_payload_length
  answer_alive_check-ArePermitted version none = tt
  answer_alive_check-ArePermitted version (some c) = elim (Option-cases c.source_address) [
    | inl f ↦ rw (f, answer_alive_check) tt
    | inr (address, f) ↦
        rw (f, answer_alive_check)
          (reply_with-ArePermitted version alive_check_response (build_alive_check_response address)
            (ground arith))
  ]

  dispatch_tcp-ArePermitted :
      (e : DoIpEntity Simulation) (socket version : ℕ) (t : PayloadType) (payload : List ℕ)
      → ArePermitted (dispatch_tcp process settings e socket version t payload).1
  unfolding dispatch_tcp silence
  dispatch_tcp-ArePermitted e socket version routing_activation_request payload =
      handle_routing_activation-ArePermitted e socket version payload
  dispatch_tcp-ArePermitted e socket version diagnostic_message payload =
      handle_diagnostic_message-ArePermitted e socket version payload
  dispatch_tcp-ArePermitted e socket version alive_check_response payload = tt
  dispatch_tcp-ArePermitted e socket version alive_check_request payload =
      answer_alive_check-ArePermitted version (find_connection e.connections socket)
  dispatch_tcp-ArePermitted e socket version other payload =
      refuse_or_ignore-ArePermitted version other

  dispatch_header-ArePermitted :
      (e : DoIpEntity Simulation) (socket : ℕ) (message : List ℕ)
      (read : Result HeaderNack GenericHeader)
      → ArePermitted (dispatch_header process settings e socket message read).1
  unfolding dispatch_header
  dispatch_header-ArePermitted e socket message (err nack) = nack_reaction-ArePermitted 3 nack
  dispatch_header-ArePermitted e socket message (ok header) =
      dispatch_tcp-ArePermitted e socket (reply_version_for header.protocol_version)
        header.payload_type (drop (min header_length (length message)) message)

  dispatch_message-ArePermitted :
      (e : DoIpEntity Simulation) (forced : Option ℕ) (socket : ℕ) (message : List ℕ)
      → ArePermitted (dispatch_message process settings e forced socket message).1
  unfolding dispatch_message
  dispatch_message-ArePermitted e (some forced) socket message =
      forced_header_nack_reaction-ArePermitted 3 forced
  dispatch_message-ArePermitted e none socket message =
      dispatch_header-ArePermitted e socket message (read_header message (limits_of settings))

  pub handle_tcp-ArePermitted :
      (e : DoIpEntity Simulation) (socket : ℕ) (message : List ℕ)
      → ArePermitted (handle_tcp process settings e socket message).1
  unfolding handle_tcp
  handle_tcp-ArePermitted e socket message =
      dispatch_message-ArePermitted (note_message process settings e socket)
        settings.forced_header_nack socket message
