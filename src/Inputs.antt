-- ===== src/Inputs.antt =====
-- The sources of a dataflow: src/inputs.rs.
pub mod Defs
pub mod Trace
pub mod Startup
pub mod Activate
pub mod Bounds
pub mod Init
