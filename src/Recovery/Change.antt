-- ===== src/Recovery/Change.antt =====
-- `StateChange` (src/recovery.rs), over the snapshots of a component.
pub data StateChange (S : Type 0) : Type 0 where
  upsert : S → StateChange S
  discard : StateChange S
