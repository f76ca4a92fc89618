-- ===== src/Recovery.antt =====
-- The recovery store: src/recovery.rs.
pub mod Tables
pub mod Change
pub mod Resume
pub mod Extremes
pub mod Rows
pub mod Progress
pub mod Safety
pub mod Commit
pub mod Load
pub mod Paging
pub mod Store
pub mod Latest
pub mod Snaps
pub mod Frontier
pub mod Bundle
pub mod Cache
pub mod Calc
pub mod Fresh
pub mod Created
