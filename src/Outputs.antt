-- ===== src/Outputs.antt =====
-- The sinks of a dataflow: src/outputs.rs.
pub mod Defs
pub mod Epoch
pub mod Safety
