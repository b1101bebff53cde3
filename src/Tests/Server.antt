-- ===== src/Tests/Server.antt =====
-- An entity at 0x1000 with a tester at 0x0E80, and a simulation that counts the messages it gets.
use diagnostic_vehicle_simul.Prelude.{ℕ, suc, ◌≡◌, ◌⊎◌, refl, none, some, List, [], ◌∷◌}
use diagnostic_vehicle_simul.Doip.Connection.{
  Connection, routing_active, deadline_ms, new, advance, tick, note_activity,
  is_supported_activation_type, decide_registered, decide_routing_activation, settle,
  apply_routing_activation,
}
use diagnostic_vehicle_simul.Doip.Settings.{VehicleIdentity, default_settings}
use diagnostic_vehicle_simul.Doip.Server.{
  RoutingOutcome, silenced, find_connection, insert_connection, remove_connection, DoIpEntity,
  open_connection, close_connection, tick_connections, tick_entity, limits_of,
  is_acceptable_tester_address,
}
use diagnostic_vehicle_simul.Doip.Header.{
  read_header, check_payload, is_known_protocol_version, reply_version_for,
}
use diagnostic_vehicle_simul.Doip.Payload.{from_code, code, accepts_payload_length}
use diagnostic_vehicle_simul.Doip.Messages.{request_from_bytes, outcome_closes_socket}
use diagnostic_vehicle_simul.Doip.Server.Udp.{handle_udp}
use diagnostic_vehicle_simul.Doip.Server.Permitted.{ArePermitted}
use diagnostic_vehicle_simul.Doip.Server.Permitted.Handlers.{replies-ArePermitted}
use diagnostic_vehicle_simul.Doip.Server.Tcp.{
  update_connection, is_active_elsewhere, registered_elsewhere, decide_activation, activate_on,
  handle_routing_activation, dispatch_tcp, note_message, dispatch_header, dispatch_message,
  handle_tcp,
}
use diagnostic_vehicle_simul.Doip.Server.Tcp.Routed.{IsRouted, handle_tcp-IsRouted}
use diagnostic_vehicle_simul.Doip.Server.Tcp.Runs.{
  ServerEvent, opened, closed, elapsed, received, serve_event, serve_events, serve_events-exclusive,
}

abbrev count_message : ℕ → ℕ → List ℕ → ℕ × RoutingOutcome
count_message n target bytes = (suc n, silenced)

abbrev server : DoIpEntity ℕ
server = record { simulation = 0; entity_address = 0x1000; connections = [] }

abbrev activation_message : List ℕ
activation_message =
    0x02 ∷ 0xFD ∷ 0x00 ∷ 0x05 ∷ 0x00 ∷ 0x00 ∷ 0x00 ∷ 0x07 ∷ 0x0E ∷ 0x80 ∷ 0x00 ∷ 0x00 ∷ 0x00 ∷ 0x00
    ∷ 0x00 ∷ []

abbrev traffic : List ServerEvent
traffic =
    opened 1
    ∷ opened 2
    ∷ elapsed 500
    ∷ received 1 activation_message
    ∷ received 2 activation_message
    ∷ closed 3
    ∷ elapsed 100
    ∷ []

abbrev end : DoIpEntity ℕ
end = serve_events count_message default_settings server traffic

abbrev registered : Connection
registered = record { state = routing_active; source_address = some 0x0E80; idle_ms = 100 }

abbrev first_socket : ℕ
first_socket = 1

end_registered : find_connection end.connections 1 ≡ some registered
unfolding find_connection serve_events serve_event open_connection close_connection tick_entity
    tick_connections insert_connection remove_connection tick advance deadline_ms new handle_tcp
    note_message note_activity update_connection dispatch_message dispatch_header dispatch_tcp
    read_header check_payload from_code code limits_of default_settings reply_version_for
    handle_routing_activation request_from_bytes activate_on decide_activation
    decide_routing_activation is_active_elsewhere registered_elsewhere apply_routing_activation
    settle is_acceptable_tester_address is_supported_activation_type accepts_payload_length
    is_known_protocol_version outcome_closes_socket decide_registered
end_registered = refl

serve_events-exclusive_example : first_socket ≡ 1
unfolding default_settings
serve_events-exclusive_example =
    serve_events-exclusive count_message default_settings refl server traffic first_socket 1 0x0E80
      registered registered refl end_registered end_registered refl refl

abbrev busy : DoIpEntity ℕ
busy = record server { connections = (1, record registered { idle_ms = 400 }) ∷ [] }

abbrev read_vin_message : List ℕ
read_vin_message =
    0x02 ∷ 0xFD ∷ 0x80 ∷ 0x01 ∷ 0x00 ∷ 0x00 ∷ 0x00 ∷ 0x07 ∷ 0x0E ∷ 0x80 ∷ 0x10 ∷ 0x00 ∷ 0x22 ∷ 0xF1
    ∷ 0x90 ∷ []

handle_tcp-IsRouted_example :
    ((handle_tcp count_message default_settings busy 1 read_vin_message).0.simulation ≡ 0)
    ⊎ IsRouted count_message default_settings busy 1 read_vin_message
        (handle_tcp count_message default_settings busy 1 read_vin_message).0.simulation
handle_tcp-IsRouted_example =
    handle_tcp-IsRouted count_message default_settings busy 1 read_vin_message

abbrev identity : VehicleIdentity
identity = record {
  programmed_vin = none;
  programmed_eid = some (0x02 ∷ 0x00 ∷ 0x00 ∷ 0x00 ∷ 0x00 ∷ 0x01 ∷ []);
  programmed_gid = none;
  further_action = 0x00;
  vin_gid_sync_status = 0x00;
}

replies-ArePermitted_example :
    ArePermitted (handle_udp (λ n. identity) default_settings busy 20 read_vin_message)
    × ArePermitted (handle_tcp count_message default_settings busy 1 read_vin_message).1
replies-ArePermitted_example =
    replies-ArePermitted count_message (λ n. identity) default_settings busy 1 20 read_vin_message
      refl refl (λ n target bytes. tt)
