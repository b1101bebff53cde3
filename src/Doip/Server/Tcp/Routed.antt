-- ===== src/Doip/Server/Tcp/Routed.antt =====
-- When a message reaches the simulation.
use diagnostic_vehicle_simul.Prelude.{
  ℕ, ◌≡◌, ◌⊎◌, inl, inr, refl, Option, none, some, List, [], ◌∷◌, ◌==◌, min, length, drop, Result,
  ok, err, Option-cases, Bool-cases, arith,
}
use diagnostic_vehicle_simul.Doip.Payload.{
  PayloadType, routing_activation_request, diagnostic_message,
}
use diagnostic_vehicle_simul.Doip.Header.{
  HeaderNack, GenericHeader, read_header, header_length, reply_version_for,
}
use diagnostic_vehicle_simul.Doip.Messages.{DiagnosticMessage, message_from_bytes}
use diagnostic_vehicle_simul.Doip.Connection.{
  Connection, routing_active, note_activity, is_routing_active,
}
use diagnostic_vehicle_simul.Doip.Settings.{DoIpSettings}
use diagnostic_vehicle_simul.Doip.Server.{
  RoutingOutcome, Connections, find_connection, DoIpEntity, limits_of,
}
use diagnostic_vehicle_simul.Doip.Server.Tcp.{
  update_connection, routed_address, forced_nack, activate_on, handle_routing_activation,
  route_message, handle_registered, handle_diagnostic_message, dispatch_tcp, note_message,
  dispatch_header, dispatch_message, handle_tcp,
}

-- A connection routes for an address.
abbrev pub RoutesFor : Option Connection → ℕ → Type 0
RoutesFor o address =
    (c : Connection) × (o ≡ some c) × (c.state ≡ routing_active) × (c.source_address ≡ some address)

routed_address-RoutesFor :
    (o : Option Connection) (address : ℕ) → routed_address o ≡ some address → RoutesFor o address
unfolding is_routing_active
routed_address-RoutesFor none address e = absurd (cc)
routed_address-RoutesFor (some c) address e = (c, refl, ground arith, ground arith)

-- Noting activity changes neither what a connection routes nor for whom.
find_connection-note_activity :
    (cs : Connections) (socket address : ℕ)
    → RoutesFor (find_connection (update_connection note_activity socket cs) socket) address
    → RoutesFor (find_connection cs socket) address
unfolding find_connection update_connection note_activity
find_connection-note_activity [] socket address r = r
find_connection-note_activity ((s, c) ∷ rest) socket address (d, e, st, a) =
    elim (Bool-cases (s == socket)) [
      | inl h ↦ (c, rw h refl, ground arith, ground arith)
      | inr h ↦ rw h (find_connection-note_activity rest socket address (d, ground arith, st, a))
    ]

module _ {Simulation : Type 0} (process : Simulation → ℕ → List ℕ → Simulation × RoutingOutcome)
    (settings : DoIpSettings) where
  -- The payload is a diagnostic message from the tester for which the socket routes, and the
  -- simulation has processed it.
  abbrev pub IsProcessed : DoIpEntity Simulation → ℕ → List ℕ → Simulation → Type 0
  IsProcessed e socket payload after =
      (request : DiagnosticMessage) × (message_from_bytes payload ≡ some request)
      × RoutesFor (find_connection e.connections socket) request.source_address
      × (after ≡ (process e.simulation request.target_address request.user_data).0)

  -- The message has a header that is accepted and says diagnostic message, and its payload is
  -- processed.
  abbrev pub IsRouted : DoIpEntity Simulation → ℕ → List ℕ → Simulation → Type 0
  IsRouted e socket message after =
      (settings.forced_header_nack ≡ none)
      × ((header : GenericHeader) × (read_header message (limits_of settings) ≡ ok header)
          × (header.payload_type ≡ diagnostic_message))
      × IsProcessed e socket (drop (min header_length (length message)) message) after

  handle_registered-routed :
      (e : DoIpEntity Simulation) (version : ℕ) (request : DiagnosticMessage) (o : Option ℕ)
      → ((handle_registered process settings e version request o).0.simulation ≡ e.simulation)
        ⊎ ((o ≡ some request.source_address)
            × ((handle_registered process settings e version request o).0.simulation
                ≡ (process e.simulation request.target_address request.user_data).0))
  unfolding handle_registered route_message
  handle_registered-routed e version request none = inl refl
  handle_registered-routed e version request (some registered) =
      elim (Option-cases (forced_nack settings.forced_diagnostic_nack)) [
        | inl f ↦ elim (Bool-cases (request.source_address == registered)) [
          | inl h ↦ inr (ground arith, rw (f, h, handle_registered) refl)
          | inr h ↦ inl (rw (f, h, handle_registered) refl)
        ]
        | inr (nack, f) ↦ inl (rw (f, handle_registered) refl)
      ]

  handle_diagnostic_message-IsProcessed :
      (e : DoIpEntity Simulation) (socket version : ℕ) (payload : List ℕ)
      → ((handle_diagnostic_message process settings e socket version payload).0.simulation
          ≡ e.simulation)
        ⊎ IsProcessed e socket payload
            (handle_diagnostic_message process settings e socket version payload).0.simulation
  unfolding handle_diagnostic_message
  handle_diagnostic_message-IsProcessed e socket version payload =
      elim (Option-cases (message_from_bytes payload)) [
        | inl m ↦ inl (rw (m, handle_diagnostic_message) refl)
        | inr (request, m) ↦
            rw (m, handle_diagnostic_message)
              (elim (handle_registered-routed e version request
                (routed_address (find_connection e.connections socket))) [
                  | inl h ↦ inl h
                  | inr (o, h) ↦ inr (
                    request,
                    refl,
                    routed_address-RoutesFor (find_connection e.connections socket)
                        request.source_address o,
                    h,
                  )
                ])
      ]

  handle_routing_activation-simulation :
      (e : DoIpEntity Simulation) (socket version : ℕ) (payload : List ℕ)
      → (handle_routing_activation process settings e socket version payload).0.simulation
        ≡ e.simulation
  unfolding handle_routing_activation activate_on
  handle_routing_activation-simulation e socket version payload = ground arith

  dispatch_tcp-IsProcessed :
      (e : DoIpEntity Simulation) (socket version : ℕ) (t : PayloadType) (payload : List ℕ)
      → ((dispatch_tcp process settings e socket version t payload).0.simulation ≡ e.simulation)
        ⊎ ((t ≡ diagnostic_message)
            × IsProcessed e socket payload
                (dispatch_tcp process settings e socket version t payload).0.simulation)
  unfolding dispatch_tcp
  dispatch_tcp-IsProcessed e socket version routing_activation_request payload =
      inl (handle_routing_activation-simulation e socket version payload)
  dispatch_tcp-IsProcessed e socket version diagnostic_message payload =
      elim (handle_diagnostic_message-IsProcessed e socket version payload) [
        | inl h ↦ inl h
        | inr h ↦ inr (refl, h)
      ]
  dispatch_tcp-IsProcessed e socket version _ payload = inl refl

  dispatch_header-IsProcessed :
      (e : DoIpEntity Simulation) (socket : ℕ) (message : List ℕ)
      (read : Result HeaderNack GenericHeader)
      → ((dispatch_header process settings e socket message read).0.simulation ≡ e.simulation)
        ⊎ (((header : GenericHeader) × (read ≡ ok header)
              × (header.payload_type ≡ diagnostic_message))
            × IsProcessed e socket
                (drop (min header_length (length message)) message)
                (dispatch_header process settings e socket message read).0.simulation)
  unfolding dispatch_header
  dispatch_header-IsProcessed e socket message (err nack) = inl refl
  dispatch_header-IsProcessed e socket message (ok header) =
      elim (dispatch_tcp-IsProcessed e socket (reply_version_for header.protocol_version)
        header.payload_type (drop (min header_length (length message)) message)) [
          | inl h ↦ inl h
          | inr (t, h) ↦ inr ((header, refl, t), h)
        ]

  dispatch_message-IsProcessed :
      (e : DoIpEntity Simulation) (forced : Option ℕ) (socket : ℕ) (message : List ℕ)
      → ((dispatch_message process settings e forced socket message).0.simulation ≡ e.simulation)
        ⊎ ((forced ≡ none)
            × ((header : GenericHeader) × (read_header message (limits_of settings) ≡ ok header)
                × (header.payload_type ≡ diagnostic_message))
            × IsProcessed e socket
                (drop (min header_length (length message)) message)
                (dispatch_message process settings e forced socket message).0.simulation)
  unfolding dispatch_message
  dispatch_message-IsProcessed e (some code) socket message = inl refl
  dispatch_message-IsProcessed e none socket message =
      elim (dispatch_header-IsProcessed e socket message
        (read_header message (limits_of settings))) [
          | inl h ↦ inl h
          | inr (header, p) ↦ inr (refl, header, p)
        ]

  -- A message on a socket changes the simulation only if no header refusal is forced, its header is
  -- accepted and has the payload type of a diagnostic message, and its payload is a diagnostic
  -- message from the tester that is registered on this very socket, with routing active there; then
  -- the simulation has processed its user data for its target address, once.
  pub handle_tcp-IsRouted :
      (e : DoIpEntity Simulation) (socket : ℕ) (message : List ℕ)
      → ((handle_tcp process settings e socket message).0.simulation ≡ e.simulation)
        ⊎ IsRouted e socket message (handle_tcp process settings e socket message).0.simulation
  unfolding handle_tcp note_message
  handle_tcp-IsRouted e socket message =
      elim (dispatch_message-IsProcessed (note_message process settings e socket)
        settings.forced_header_nack socket message) [
          | inl h ↦ inl h
          | inr (unforced, header, (request, m, routes, h)) ↦ inr (
            unforced,
            header,
            (
              request,
              m,
              find_connection-note_activity e.connections socket request.source_address routes,
              h,
            ),
          )
        ]
