-- ===== src/Doip.antt =====
-- The DoIP message codec and its connection state machine (engine/crates/doip).
pub mod Payload
pub mod Header
pub mod Messages
pub mod Connection
pub mod Settings
pub mod Server
