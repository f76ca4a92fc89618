-- ===== src/Prelude/Order.antt =====
-- Totally ordered keys, as `BTreeMap` and `BTreeSet` ask for by `Ord`.
pub mod Ord
pub mod Map
pub mod Entries
pub mod Set
pub mod Keys
