-- ===== src/Lib.antt =====
-- Models and proofs for the diagnostic core of a vehicle simulator: what its virtual control units
-- say on a CAN bus and over IP, translated from the Rust crates under engine/.
--
-- The program's parts, and the files that model them:
--
--   * Can/Frame: CAN frames and their lengths (engine/crates/can/src/lib.rs, `CanFrame`).
--     Can/Confinement: the error counters that take a node off the bus
--     (engine/crates/can/src/confinement.rs, `FaultConfinement`); Can/Confinement/Inv runs them
--     through lists of events.
--   * Isotp: segmentation of long messages on CAN. Isotp/Params is
--     engine/crates/isotp/src/params.rs; Isotp/Transmit is the sending state machine (tx.rs,
--     `IsoTpTransmitter`), Isotp/Receive the receiving one (rx.rs, `IsoTpReceiver`), and
--     Isotp/Reassemble the offline loop over a recording (lib.rs, `ReassembleStream`).
--     Isotp/Segments says independently which frame carries which bytes, and Isotp/Link joins a
--     transmitter to a receiver the way the loops of engine/crates/bridge/src/lib.rs do.
--   * Doip: diagnostics over IP (engine/crates/doip/src). Doip/Payload, Doip/Header and
--     Doip/Messages are the codec (payload.rs, header.rs, messages.rs), Doip/Connection the state
--     machine of one TCP connection (connection.rs, with the deadlines of timing.rs). Doip/Server is
--     the entity that serves the tester (engine/crates/doip-server/src/entity.rs, `DoIpEntity`):
--     Doip/Server/Udp is `HandleUdp`, Doip/Server/Tcp `HandleTcp`, and Doip/Server/Tcp/Runs serves
--     lists of events. Doip/Settings is its settings (settings.rs) and its identity (model.rs).
--   * Ecu: Ecu/Timing is the timing record and its validation
--     (engine/crates/core-domain/src/model.rs, `EcuTiming`), Ecu/Schedule the plan of messages that
--     answers one request (engine/crates/ecu/src/schedule.rs). Ecu/Overrides is the user-defined
--     answers of a unit, with the choice between them and their validation (model.rs,
--     `ResponseOverride`), and Ecu/Unit the running unit that puts these together for one request
--     (engine/crates/ecu/src/lib.rs, `VirtualEcu::ProcessRequestWithTiming`).
--   * Uds: Uds/Contract is what passes between the engine and a protocol plugin
--     (engine/crates/plugin-contract/src/protocol.rs). Uds/Handler, Uds/Security, Uds/Dtcs and
--     Uds/Dispatch are the request handler
--     (engine/plugins/protocols/l7-application/uds/src/handler.rs), and Uds/Session the diagnostic
--     state that a unit keeps between requests (engine/crates/ecu/src/lib.rs, `BuildSnapshot` and
--     `ApplyStateChange`).
--   * Topology: the wiring of a vehicle (model.rs, `ValidateTopology`, `NormalizeEntryPoints` and
--     `DiagnosticPathTo`), in which a gateway unit forwards from its own network to others;
--     Topology/Depths is the breadth-first search of `NetworkDepths`.
--   * Slcan: the text protocol of USB-CAN adapters. Slcan/Commands and Slcan/Encode are
--     engine/crates/slcan/src/lib.rs, Slcan/Decode the streaming decoder (decoder.rs); Slcan/Hex
--     has the hexadecimal numbers of the standard library that both use.
--
-- How they interact: a request arrives as CAN frames through ISO-TP or as a DoIP diagnostic message.
-- The unit refuses what its session forbids, hands the plugin a snapshot of its state, applies the
-- changes of the reply in order, lets an override replace the answer, schedules the response, and
-- the transport sends it. The DoIP entity has the simulation as a parameter: a function from its
-- state, a target address and the user data to the new state and what came of it. The theorems on a
-- unit that name `handle_request` are about the bundled plugin; in the others the plugin is any
-- function.
--
-- Names are the source's, without the prefixes that give a variable's type: `m_u32P2ServerMaxMs` is
-- `p2_server_max_ms` and `OnFlowControl` is `on_flow_control`. A method that takes `&mut self`
-- returns the new state beside its result. Numbers are native natural numbers, with the wrap-around
-- of machine integers written out wherever the source can reach it (sums are those of a release
-- build, which wrap). Where a request to a unit panics, there is no plan, and the unit is left as the
-- panic found it. A byte list is a `List` of numbers, with `IsByte` where a theorem needs it.
--
-- Bounds and fuel: `transfer` takes two steps for each byte of the PDU, enough for a flow control
-- after every frame; `drain` and `sent_frames` take one for each byte, more than one for each frame
-- of seven; a hexadecimal number is written with eight digits of fuel, all that a u32 has; the
-- walk up the gateways of a vehicle takes one step more than there are units, more than it can take
-- without meeting a network twice; the search for a path has the hop limit of the source; the search
-- for depths takes one step for each network and each entry of the gateways' lists; every other loop
-- is structural. The padding loop counts down from eight, the length to which a frame is padded.
--
-- Not modelled: the simulation service, which chooses the units that a request reaches; packet
-- captures; sockets, serial ports, asynchronous tasks and locks; logging and the texts of errors;
-- floating-point bus load; simulation files, log reconstruction, the web interface and the user
-- interface.
pub mod Prelude
pub mod Can
pub mod Isotp
pub mod Doip
pub mod Ecu
pub mod Uds
pub mod Slcan
pub mod Topology
mod Tests
