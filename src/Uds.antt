-- ===== src/Uds.antt =====
-- The UDS protocol plugin, which answers one request from a snapshot of the control unit, and the
-- diagnostic state that the engine keeps between requests.
pub mod Contract
pub mod Handler
pub mod Security
pub mod Dtcs
pub mod Dispatch
pub mod Session
