-- ===== src/Isotp.antt =====
-- ISO-TP, ISO 15765-2 (engine/crates/isotp): segmentation, live reception and offline
-- reassembly.
pub mod Params
pub mod Transmit
pub mod Receive
pub mod Reassemble
pub mod Segments
pub mod Link
