-- ===== src/Window/Logic.antt =====
-- `WindowStatefulLogic` of src/window/mod.rs: one logic for each open window of a key.
pub mod Interface
pub mod Defs
pub mod Fold
pub mod Laws
pub mod Awake
