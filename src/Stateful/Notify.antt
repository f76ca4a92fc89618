-- ===== src/Stateful/Notify.antt =====
-- The notifications of the `unary` operator over an epoch (src/operators/mod.rs).
use bytewax.Prelude.{
  ℕ, ◌≡◌, refl, sym, Option, none, some, List, [], ◌∷◌, ◌++◌, All, Bool-cases, inl, inr, ap, ◌∙◌,
}
use bytewax.Prelude.Order.Ord.{Ord, ℕ_ord}
use bytewax.Prelude.Order.Map.{lookup, lookup-insert}
use bytewax.Window.Types.{DateTime}
use bytewax.Recovery.Change.{StateChange}
use bytewax.Stateful.Defs.{is_closed, is_eof}
use bytewax.Stateful.Waits.{unroute_total}
use bytewax.Stateful.Unary.{
  UnaryLogic, UnaryState, notify_keys, set_sched, notify_of, item_all, eof_logics, reschedule,
  finish_epoch, run_epoch,
}
use bytewax.Stateful.Scheduled.{IsScheduled}
use bytewax.Stateful.Callbacks.{
  item_all-IsScheduled, notify_all-IsScheduled, notify_keys-Due, eof_logics-IsScheduled,
  reschedule-Scheduled, load_keys-IsScheduled,
}

module _ {K V R L S : Type 0} ⦃o : Ord K⦄ (logic : UnaryLogic V R L S) (now : DateTime) where
  -- The `unwrap` in the notifications never fails: where each key with a scheduled notification has a
  -- logic, the schedule is a map, and the items and loads are those of this worker, an epoch of
  -- `unary` does not panic, and afterwards each key with a scheduled notification has a logic again.
  pub run_epoch-IsScheduled :
      (this_worker : ℕ) (frontier : Option ℕ) (epoch : ℕ) (items : List (ℕ × (K × V)))
      (loads : List (ℕ × (K × StateChange S))) (s : UnaryState K L)
      → All (λ d. d.0 ≡ this_worker) items
      → All (λ d. d.0 ≡ this_worker) loads
      → IsScheduled s
      → (out : UnaryState K L × List (K × R) × List (K × StateChange S)) × (run_epoch logic now
            this_worker frontier epoch items loads s
          ≡ some out)
        × IsScheduled out.0
  unfolding run_epoch finish_epoch
  run_epoch-IsScheduled this_worker frontier epoch items loads s our_items our_loads h =
      let (ours, e) = unroute_total this_worker items our_items in
      let (loading, f) = unroute_total this_worker loads our_loads in
      let first = item_all logic now ours s in
      let h₁ = item_all-IsScheduled logic now ours s h in
      let (second, runs, h₂) =
        notify_all-IsScheduled logic now (notify_keys now first.0.sched_cache) first.0 h₁
          (notify_keys-Due logic now first.0.logics first.0.sched_cache h₁) in
      let third = eof_logics logic now (is_eof frontier) second.0 in
      let h₃ = eof_logics-IsScheduled logic now (is_eof frontier) second.0 h₂ in
      let s₄ : UnaryState K L = record third.0 {
        sched_cache =
            reschedule logic now third.0.awoken_keys_buffer third.0.logics third.0.sched_cache;
      } in
      let h₄ =
        reschedule-Scheduled logic now third.0.awoken_keys_buffer third.0.logics third.0.sched_cache
          h₃ in
      let output = first.1 ++ second.1 ++ third.1 in
      elim (Bool-cases (is_closed frontier epoch)) [
        | inl closed ↦
            let last = finish_epoch logic now loading s₄ in
            (
              (last.0, output, last.1),
              rw (e, runs, closed, f) refl,
              load_keys-IsScheduled logic now loading (record s₄ { awoken_keys_buffer = [] }) h₄,
            )
        | inr going ↦ ((s₄, output, []), rw (e, runs, going) refl, h₄)
      ]

  -- A notification that was scheduled stays scheduled where the key's logic asks for none.
  pub reschedule-keeps :
      (k : K) (awoken : List K) (logics : List (K × L)) (sched : List (K × DateTime))
      → notify_of logic (lookup k logics) ≡ none
      → lookup k (reschedule logic now awoken logics sched) ≡ lookup k sched
  unfolding reschedule
  reschedule-keeps k [] logics sched silent = refl
  reschedule-keeps k (key ∷ awoken) logics sched silent =
      reschedule-keeps k awoken logics (set_sched key (notify_of logic (lookup key logics)) sched)
        silent
      ∙ kept key (notify_of logic (lookup key logics)) refl
    where
      kept :
          (key : K) (t : Option DateTime)
          → notify_of logic (lookup key logics) ≡ t
          → lookup k (set_sched key t sched) ≡ lookup k sched
      kept key none e = refl
      kept key (some t) e = elim (Bool-cases (o.eq key k)) [
        | inl same ↦
            cc (
              sym e
              ∙ ap (λ j. notify_of logic (lookup j logics)) ((o.eq_iff key k).0 same)
              ∙ silent)
        | inr other ↦ rw (lookup-insert key k t sched, other) refl
      ]
