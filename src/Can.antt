-- ===== src/Can.antt =====
-- CAN, the data-link building block (engine/crates/can): frames, and fault confinement.
pub mod Frame
pub mod Confinement
