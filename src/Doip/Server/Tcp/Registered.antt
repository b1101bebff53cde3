-- ===== src/Doip/Server/Tcp/Registered.antt =====
-- No tester is registered on two sockets at once.
use diagnostic_vehicle_simul.Prelude.{
  ℕ, ◌≡◌, ◌⊎◌, inl, inr, refl, false, Option, none, some, List, [], ◌∷◌, All, ◌==◌, min, length,
  drop, Result, ok, err, Option-cases, Bool-cases, arith,
}
use diagnostic_vehicle_simul.Doip.Payload.{
  PayloadType, routing_activation_request, diagnostic_message,
}
use diagnostic_vehicle_simul.Doip.Header.{
  HeaderNack, GenericHeader, read_header, reply_version_for, header_length,
}
use diagnostic_vehicle_simul.Doip.Messages.{
  RoutingActivationRequest, request_from_bytes, RoutingActivationOutcome, activated,
  denied_missing_authentication,
}
use diagnostic_vehicle_simul.Doip.Connection.{
  Connection, note_activity, decide_registered, decide_routing_activation, settle,
  apply_routing_activation,
}
use diagnostic_vehicle_simul.Doip.Settings.{DoIpSettings}
use diagnostic_vehicle_simul.Doip.Server.{
  RoutingOutcome, Connections, find_connection, DoIpEntity, limits_of,
}
use diagnostic_vehicle_simul.Doip.Server.Tcp.{
  is_active_elsewhere, decide_activation, activate_on, handle_routing_activation, route_message,
  handle_registered, handle_diagnostic_message, dispatch_tcp, note_message, dispatch_header,
  dispatch_message, handle_tcp,
}
use diagnostic_vehicle_simul.Doip.Server.Table.{
  Apart, IsExclusive, is_taken, update_connection-IsExclusive,
}

find_connection-Apart :
    (p : ℕ × Connection) (cs : Connections) (s : ℕ) (c : Connection)
    → All (Apart p) cs
    → find_connection cs s ≡ some c
    → Apart p (s, c)
unfolding find_connection
find_connection-Apart p [] s c a f = absurd (ground arith)
find_connection-Apart (u, x) ((t, d) ∷ rest) s c (a, as_) f =
    ground (arith, find_connection-Apart (u, x) rest s c as_)

-- The entries after one with a tester are of other testers.
is_active_elsewhere-Apart :
    (cs : Connections) (s address : ℕ) (c : Connection)
    → c.source_address ≡ some address
    → All (Apart (s, c)) cs
    → is_active_elsewhere cs s address ≡ false
unfolding is_active_elsewhere
is_active_elsewhere-Apart [] s address c e a = refl
is_active_elsewhere-Apart ((t, d) ∷ rest) s address c e (a, as_) =
    ground (arith, is_active_elsewhere-Apart rest s address c e as_)

-- In an exclusive table a socket's tester is on no other socket.
pub find_connection-is_active_elsewhere :
    (cs : Connections) (s address : ℕ) (c : Connection)
    → IsExclusive cs
    → find_connection cs s ≡ some c
    → c.source_address ≡ some address
    → is_active_elsewhere cs s address ≡ false
unfolding find_connection is_active_elsewhere
find_connection-is_active_elsewhere [] s address c x f e = refl
find_connection-is_active_elsewhere ((t, d) ∷ rest) s address c (a, x) f e =
    elim (Bool-cases (t == s)) [
      | inl h ↦
          let own : d.source_address ≡ some address = ground arith in
          ground (arith, is_active_elsewhere-Apart rest t address d own a)
      | inr h ↦ ground (
        arith,
        find_connection-Apart (t, d) rest s c a,
        find_connection-is_active_elsewhere rest s address c x,
      )
    ]

-- The address that an outcome registers.
registers : RoutingActivationOutcome → ℕ → Option ℕ
registers activated address = some address
registers denied_missing_authentication address = some address
registers _ address = none

apply_routing_activation-source_address :
    (request : RoutingActivationRequest) (outcome : RoutingActivationOutcome) (d : Connection)
    → ((apply_routing_activation d request outcome).source_address ≡ d.source_address)
      ⊎ ((apply_routing_activation d request outcome).source_address
          ≡ registers outcome request.source_address)
unfolding apply_routing_activation settle registers
apply_routing_activation-source_address request activated d = inr refl
apply_routing_activation-source_address request denied_missing_authentication d = inr refl
apply_routing_activation-source_address request _ d = inl refl

decide_activation-is_taken :
    (settings : DoIpSettings) (cs : Connections) (socket : ℕ) (c : Connection)
    (request : RoutingActivationRequest)
    → settings.forced_routing_activation_code ≡ none
    → IsExclusive cs
    → find_connection cs socket ≡ some c
    → is_taken cs socket
        (registers (decide_activation settings cs socket c request) request.source_address)
      ≡ false
unfolding decide_activation decide_routing_activation decide_registered registers
decide_activation-is_taken settings cs socket c request unforced x f =
    ground (arith, find_connection-is_active_elsewhere cs socket request.source_address c x f)

note_activity-source_address :
    (d : Connection)
    → ((note_activity d).source_address ≡ d.source_address)
      ⊎ ((note_activity d).source_address ≡ none)
unfolding note_activity
note_activity-source_address d = ground arith

module _ {Simulation : Type 0} (process : Simulation → ℕ → List ℕ → Simulation × RoutingOutcome)
    (settings : DoIpSettings) (unforced : settings.forced_routing_activation_code ≡ none) where
  activate_on-IsExclusive :
      (e : DoIpEntity Simulation) (socket version : ℕ) (request : RoutingActivationRequest)
      (o : Option Connection)
      → find_connection e.connections socket ≡ o
      → IsExclusive e.connections
      → IsExclusive (activate_on process settings e socket version request o).0.connections
  unfolding activate_on
  activate_on-IsExclusive e socket version request none f x = x
  activate_on-IsExclusive e socket version request (some c) f x =
      let outcome = decide_activation settings e.connections socket c request in
      update_connection-IsExclusive (λ d. apply_routing_activation d request outcome) socket
        (registers outcome request.source_address)
        (apply_routing_activation-source_address request outcome) e.connections
        (decide_activation-is_taken settings e.connections socket c request unforced x f) x

  handle_routing_activation-IsExclusive :
      (e : DoIpEntity Simulation) (socket version : ℕ) (payload : List ℕ)
      → IsExclusive e.connections
      → IsExclusive
          (handle_routing_activation process settings e socket version payload).0.connections
  unfolding handle_routing_activation
  handle_routing_activation-IsExclusive e socket version payload x =
      elim (Option-cases (request_from_bytes payload)) [
        | inl r ↦ rw (r, handle_routing_activation) x
        | inr (request, r) ↦
            rw (r, handle_routing_activation)
              (activate_on-IsExclusive e socket version request
                (find_connection e.connections socket) refl x)
      ]

  handle_diagnostic_message-connections :
      (e : DoIpEntity Simulation) (socket version : ℕ) (payload : List ℕ)
      → (handle_diagnostic_message process settings e socket version payload).0.connections
        ≡ e.connections
  unfolding handle_diagnostic_message handle_registered route_message
  handle_diagnostic_message-connections e socket version payload = ground arith

  dispatch_tcp-IsExclusive :
      (e : DoIpEntity Simulation) (socket version : ℕ) (t : PayloadType) (payload : List ℕ)
      → IsExclusive e.connections
      → IsExclusive (dispatch_tcp process settings e socket version t payload).0.connections
  unfolding dispatch_tcp
  dispatch_tcp-IsExclusive e socket version routing_activation_request payload x =
      handle_routing_activation-IsExclusive e socket version payload x
  dispatch_tcp-IsExclusive e socket version diagnostic_message payload x =
      rw (handle_diagnostic_message-connections e socket version payload) x
  dispatch_tcp-IsExclusive e socket version _ payload x = x

  dispatch_header-IsExclusive :
      (e : DoIpEntity Simulation) (socket : ℕ) (message : List ℕ)
      (read : Result HeaderNack GenericHeader)
      → IsExclusive e.connections
      → IsExclusive (dispatch_header process settings e socket message read).0.connections
  unfolding dispatch_header
  dispatch_header-IsExclusive e socket message (err nack) x = x
  dispatch_header-IsExclusive e socket message (ok header) x =
      dispatch_tcp-IsExclusive e socket (reply_version_for header.protocol_version)
        header.payload_type (drop (min header_length (length message)) message) x

  dispatch_message-IsExclusive :
      (e : DoIpEntity Simulation) (forced : Option ℕ) (socket : ℕ) (message : List ℕ)
      → IsExclusive e.connections
      → IsExclusive (dispatch_message process settings e forced socket message).0.connections
  unfolding dispatch_message
  dispatch_message-IsExclusive e (some code) socket message x = x
  dispatch_message-IsExclusive e none socket message x =
      dispatch_header-IsExclusive e socket message (read_header message (limits_of settings)) x

  pub handle_tcp-IsExclusive :
      (e : DoIpEntity Simulation) (socket : ℕ) (message : List ℕ)
      → IsExclusive e.connections
      → IsExclusive (handle_tcp process settings e socket message).0.connections
  unfolding handle_tcp note_message
  handle_tcp-IsExclusive e socket message x =
      dispatch_message-IsExclusive (note_message process settings e socket)
        settings.forced_header_nack socket message
        (update_connection-IsExclusive note_activity socket none note_activity-source_address
          e.connections refl x)
