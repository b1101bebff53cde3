-- ===== src/Tests.antt =====
-- Concrete runs of the models, on which the theorems with hypotheses apply.
mod Isotp
mod Can
mod Doip
mod Ecu
mod Uds
mod Unit
mod Slcan
mod Topology
mod Server
