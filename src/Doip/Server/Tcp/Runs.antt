-- ===== src/Doip/Server/Tcp/Runs.antt =====
-- Whatever happens to the server, no tester is registered on two sockets.
use diagnostic_vehicle_simul.Prelude.{ℕ, ◌≡◌, false, none, some, List, [], ◌∷◌, arith}
use diagnostic_vehicle_simul.Doip.Connection.{Connection}
use diagnostic_vehicle_simul.Doip.Settings.{DoIpSettings}
use diagnostic_vehicle_simul.Doip.Server.{
  RoutingOutcome, Connections, find_connection, DoIpEntity, open_connection, close_connection,
  tick_entity,
}
use diagnostic_vehicle_simul.Doip.Server.Tcp.{is_active_elsewhere, handle_tcp}
use diagnostic_vehicle_simul.Doip.Server.Table.{IsExclusive}
use diagnostic_vehicle_simul.Doip.Server.Table.Sockets.{
  tick_connections-IsExclusive, remove_connection-IsExclusive, insert_connection-IsExclusive,
}
use diagnostic_vehicle_simul.Doip.Server.Tcp.Registered.{
  handle_tcp-IsExclusive, find_connection-is_active_elsewhere,
}

-- What reaches the entity.
pub data ServerEvent : Type 0 where
  opened closed : (socket : ℕ) → ServerEvent
  elapsed : (ms : ℕ) → ServerEvent
  received : (socket : ℕ) (message : List ℕ) → ServerEvent

module _ {Simulation : Type 0} (process : Simulation → ℕ → List ℕ → Simulation × RoutingOutcome)
    (settings : DoIpSettings) where
  unfoldable pub serve_event : DoIpEntity Simulation → ServerEvent → DoIpEntity Simulation
  serve_event e (opened socket) = open_connection e socket
  serve_event e (closed socket) = close_connection e socket
  serve_event e (elapsed ms) = (tick_entity e ms).0
  serve_event e (received socket message) = (handle_tcp process settings e socket message).0

  unfoldable pub serve_events : DoIpEntity Simulation → List ServerEvent → DoIpEntity Simulation
  serve_events e [] = e
  serve_events e (event ∷ events) = serve_events (serve_event e event) events

  serve_event-IsExclusive :
      settings.forced_routing_activation_code ≡ none
      → (e : DoIpEntity Simulation) (event : ServerEvent) → IsExclusive e.connections
      → IsExclusive (serve_event e event).connections
  unfolding serve_event open_connection close_connection tick_entity
  serve_event-IsExclusive unforced e (opened socket) x =
      insert_connection-IsExclusive socket e.connections x
  serve_event-IsExclusive unforced e (closed socket) x =
      remove_connection-IsExclusive socket e.connections x
  serve_event-IsExclusive unforced e (elapsed ms) x =
      tick_connections-IsExclusive e.connections ms x
  serve_event-IsExclusive unforced e (received socket message) x =
      handle_tcp-IsExclusive process settings unforced e socket message x

  serve_events-IsExclusive :
      settings.forced_routing_activation_code ≡ none
      → (events : List ServerEvent) (e : DoIpEntity Simulation) → IsExclusive e.connections
      → IsExclusive (serve_events e events).connections
  unfolding serve_events
  serve_events-IsExclusive unforced [] e x = x
  serve_events-IsExclusive unforced (event ∷ events) e x =
      serve_events-IsExclusive unforced events (serve_event e event)
        (serve_event-IsExclusive unforced e event x)

  -- Two sockets with the same tester are the same socket.
  is_active_elsewhere-socket :
      (cs : Connections) (s t address : ℕ) (d : Connection)
      → is_active_elsewhere cs s address ≡ false
      → find_connection cs t ≡ some d
      → d.source_address ≡ some address
      → s ≡ t
  unfolding is_active_elsewhere find_connection
  is_active_elsewhere-socket [] s t address d h f e = absurd (ground arith)
  is_active_elsewhere-socket ((u, c) ∷ rest) s t address d h f e =
      ground (arith, is_active_elsewhere-socket rest s t address d)

  -- Starting with no connections, however sockets are opened and closed, time passes and messages
  -- arrive, a tester is registered on at most one socket at a time, as long as no routing activation
  -- code is forced.
  pub serve_events-exclusive :
      settings.forced_routing_activation_code ≡ none
      → (e : DoIpEntity Simulation) (events : List ServerEvent) (s t address : ℕ) (c d : Connection)
      → e.connections ≡ []
      → find_connection (serve_events e events).connections s ≡ some c
      → find_connection (serve_events e events).connections t ≡ some d
      → c.source_address ≡ some address
      → d.source_address ≡ some address
      → s ≡ t
  serve_events-exclusive unforced e events s t address c d empty fs ft cs ds =
      let x = serve_events-IsExclusive unforced events e (rw empty tt) in
      let cs' = (serve_events e events).connections in
      is_active_elsewhere-socket cs' s t address d
        (find_connection-is_active_elsewhere cs' s address c x fs cs) ft ds
