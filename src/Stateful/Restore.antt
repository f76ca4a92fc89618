-- ===== src/Stateful/Restore.antt =====
-- Snapshots and loads: src/operators/stateful_unary.rs.
use bytewax.Prelude.{◌≡◌, refl, none, some, if◌then◌else◌, Bool-cases, Option-cases, inl, inr}
use bytewax.Prelude.Order.Ord.{Ord}
use bytewax.Prelude.Order.Map.{lookup, lookup-insert, lookup-remove}
use bytewax.Stateful.Defs.{StatefulLogic, State, snapshot_one, load_one}
use bytewax.Stateful.Isolation.{view, lookup-set_awake}

module _ {K V R L S : Type 0} ⦃o : Ord K⦄ (logic : StatefulLogic V R L S) where
  -- Where the builder restores a logic from its snapshot, loading the change that one state gives for
  -- a key into another gives that key the logic and the next awakening it had, if it has no awakening
  -- without a logic, and leaves the other keys as they were. A key whose logic was discarded is
  -- discarded by the load too.
  pub load_one-snapshot_one :
      (s t : State K L) (k j : K)
      → ((l : L) → logic.builder (some (logic.snapshot l)) ≡ l)
      → (lookup k s.current_logic ≡ none → lookup k s.current_next_awake ≡ none)
      → view logic j (load_one logic t k (snapshot_one logic s k).1)
        ≡ (if o.eq k j then view logic k s else view logic j t)
  unfolding load_one snapshot_one
  load_one-snapshot_one s t k j restores idle = elim (Option-cases (lookup k s.current_logic)) [
    | inl missing ↦
        rw
          (
            snapshot_one,
            missing,
            idle missing,
            load_one,
            lookup-remove k j t.current_logic,
            lookup-remove k j t.current_next_awake,
          )
          (elim (Bool-cases (o.eq k j)) [ inl same ↦ rw same refl | inr other ↦ rw other refl ])
    | inr (l, found) ↦
        rw
          (
            snapshot_one,
            found,
            load_one,
            restores l,
            lookup-insert k j l t.current_logic,
            lookup-set_awake logic k j (lookup k s.current_next_awake) t.current_next_awake,
          )
          (elim (Bool-cases (o.eq k j)) [ inl same ↦ rw same refl | inr other ↦ rw other refl ])
  ]
