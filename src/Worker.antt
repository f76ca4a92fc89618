-- ===== src/Worker.antt =====
-- A worker: how it compiles a dataflow, and how it runs (src/worker.rs and src/dataflow.rs).
pub mod Flow
pub mod Graph
pub mod Compile
pub mod Order
pub mod Wiring
pub mod Compiled
pub mod Valid
pub mod Collected
pub mod Run
