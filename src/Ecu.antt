-- ===== src/Ecu.antt =====
-- Timing parameters of a simulated control unit and the schedule of its responses.
pub mod Timing
pub mod Schedule
pub mod Overrides
pub mod Unit
