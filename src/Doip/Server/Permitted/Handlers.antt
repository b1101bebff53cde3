-- ===== src/Doip/Server/Permitted/Handlers.antt =====
-- Whatever arrives, the handlers answer with messages of permitted lengths.
use diagnostic_vehicle_simul.Prelude.{ℕ, List}
use diagnostic_vehicle_simul.Doip.Settings.{DoIpSettings, VehicleIdentity}
use diagnostic_vehicle_simul.Doip.Server.{RoutingOutcome, DoIpEntity}
use diagnostic_vehicle_simul.Doip.Server.Udp.{handle_udp}
use diagnostic_vehicle_simul.Doip.Server.Tcp.{handle_tcp}
use diagnostic_vehicle_simul.Doip.Server.Permitted.{ArePermitted, IsSixBytes}
use diagnostic_vehicle_simul.Doip.Server.Permitted.Outcome.{AreSpoken}
use diagnostic_vehicle_simul.Doip.Server.Permitted.Udp.{handle_udp-ArePermitted}
use diagnostic_vehicle_simul.Doip.Server.Permitted.Tcp.{handle_tcp-ArePermitted}

-- Whatever arrives on the discovery port or on a TCP socket, and whatever is forced, every message
-- that is sent back has a payload of a length that the table permits for its type, provided that the
-- entity and group identifiers that the vehicle has programmed are six bytes long, and that the
-- steps of the simulation's plans are not empty.
pub replies-ArePermitted :
    {Simulation : Type 0} (process : Simulation → ℕ → List ℕ → Simulation × RoutingOutcome)
    (identity_of : Simulation → VehicleIdentity) (settings : DoIpSettings)
    (e : DoIpEntity Simulation) (socket wait_ms : ℕ) (message : List ℕ)
    → IsSixBytes (identity_of e.simulation).programmed_eid
    → IsSixBytes (identity_of e.simulation).programmed_gid
    → ((s : Simulation) (address : ℕ) (user_data : List ℕ)
        → AreSpoken (process s address user_data).1)
    → ArePermitted (handle_udp identity_of settings e wait_ms message)
      × ArePermitted (handle_tcp process settings e socket message).1
replies-ArePermitted process identity_of settings e socket wait_ms message eid gid spoken = (
  handle_udp-ArePermitted identity_of settings e wait_ms message eid gid,
  handle_tcp-ArePermitted process settings spoken e socket message,
)
