-- ===== src/Stateful/Ordering.antt =====
-- The epochs that an activation of `stateful_unary` works on (src/operators/stateful_unary.rs).
use bytewax.Prelude.{
  ap, ◌∙◌, ℕ, ◌≤◌, ◌≡◌, refl, sym, subst, ==_iff, ltb, leb, true, Option, none, some, List, [], ◌∷◌,
  map, if◌then◌else◌, arith, All, All-map, Bool-cases, inl, inr,
}
use bytewax.Prelude.Order.Ord.{Ord, ℕ_ord}
use bytewax.Prelude.Order.Map.{lookup, lookup-All, All-remove, All-insert}
use bytewax.Prelude.Order.Map
use bytewax.Prelude.Order.Set
use bytewax.Prelude.Order.Set.{contains}
use bytewax.Stateful.Epochs.{is_due, contains-closed_epochs-is_due}
use bytewax.Window.Types.{DateTime, Duration}
use bytewax.Timely.Buffer.{InBuffer, or_empty}
use bytewax.Timely.Buffer
use bytewax.Stateful.Defs.{
  StatefulLogic, StateChange, State, is_closed, is_eof, or_else, process_epoch, awake_list,
  awake_all, close_epoch,
}
use bytewax.Stateful.Waits.{
  Waits, or_empty-Waits, extend_all-Waits, keys-Waits, unroute_total, closed_epochs-Ascends,
  closed_epochs-All,
}
use bytewax.Stateful.Activation.{
  Operator, Sent, closed_epochs, work_epoch, work_epochs, activate, activate_after,
}

module _ {K V R L S : Type 0} ⦃o : Ord K⦄ (logic : StatefulLogic V R L S) (this_worker : ℕ) where
  -- The capabilities are at one epoch, from `low` on, and what waits is for this worker.
  record Ready (low : ℕ) (s : Operator K V L S) : Type 0 where
    same : s.output_cap ≡ s.change_cap
    from : low ≤ s.output_cap
    items : All (Waits this_worker low) s.inbuf
    loads : All (Waits this_worker low) s.loads_inbuf

  process_epoch_total :
      (low : ℕ) (frontier : Option ℕ) (now : DateTime) (epoch : ℕ) (state : State K L)
      (inbuf : InBuffer (ℕ × (K × V))) (loads_inbuf : InBuffer (ℕ × (K × StateChange S)))
      → All (Waits this_worker low) inbuf
      → All (Waits this_worker low) loads_inbuf
      → (out : (State K L × InBuffer (ℕ × (K × V)) × InBuffer (ℕ × (K × StateChange S)))
          × List (K × R)
          × List (K × StateChange S))
        × (process_epoch logic this_worker frontier now epoch state inbuf loads_inbuf ≡ some out)
        × All (Waits this_worker low) out.0.1
        × All (Waits this_worker low) out.0.2
  unfolding process_epoch Buffer.remove
  process_epoch_total low frontier now epoch state inbuf loads_inbuf h g =
      let (items, e) =
        unroute_total this_worker (or_empty (lookup epoch inbuf))
          (or_empty-Waits this_worker low epoch inbuf h) in
      let (loads, f) =
        unroute_total this_worker (or_empty (lookup epoch loads_inbuf))
          (or_empty-Waits this_worker low epoch loads_inbuf g) in
      let (s₁, awakes) = awake_list logic (is_eof frontier) now state items in
      let (s₂, outputs) = awake_all logic s₁ awakes in
      let (s₃, changes) = close_epoch logic s₂ loads in
      let h' = All-remove (Waits this_worker low) epoch inbuf h in
      elim (Bool-cases (is_closed frontier epoch)) [
        | inl closed ↦ (
          ((s₃, Map.remove epoch inbuf, Map.remove epoch loads_inbuf), outputs, changes),
          rw (e, closed, f) refl,
          h',
          All-remove (Waits this_worker low) epoch loads_inbuf g,
        )
        | inr going ↦
            (((s₂, Map.remove epoch inbuf, loads_inbuf), outputs, []), rw (e, going) refl, h', g)
      ]

  work_epoch-Ready :
      (low : ℕ) (frontier : Option ℕ) (now : DateTime) (epoch : ℕ) (s : Operator K V L S)
      → Ready low s
      → s.output_cap ≤ epoch
      → (out : Operator K V L S × Sent K R S) × (work_epoch logic this_worker frontier now epoch s
          ≡ some out)
        × Ready low out.0
        × (out.0.output_cap ≡ epoch)
        × (out.1.epoch ≡ epoch)
  unfolding work_epoch
  work_epoch-Ready low frontier now epoch s r le =
      let (out, e, h, g) =
        process_epoch_total low frontier now epoch s.state s.inbuf s.loads_inbuf r.items r.loads in
      let first : leb s.output_cap epoch ≡ true = ground (arith, le) in
      let second : leb s.change_cap epoch ≡ true = ground (arith, le, r.same) in
      (
        (
          record {
            output_cap = epoch;
            change_cap = epoch;
            state = out.0.0;
            inbuf = out.0.1;
            loads_inbuf = out.0.2;
          },
          record { epoch = epoch; outputs = out.1; changes = out.2 },
        ),
        rw (first, second, e) refl,
        record { same = refl; from = omega (arith, le, r.from); items = h; loads = g },
        refl,
        refl,
      )

  work_epochs-Ready :
      (low : ℕ) (frontier : Option ℕ) (now : DateTime) (epochs : List ℕ) (s : Operator K V L S)
      → Ready low s
      → All (λ e. s.output_cap ≤ e) epochs
      → Set.Ascends epochs
      → (out : Operator K V L S × List (Sent K R S)) × (work_epochs logic this_worker frontier now
            epochs s
          ≡ some out)
        × Ready low out.0
        × (map (λ (x : Sent K R S). x.epoch) out.1 ≡ epochs)
  unfolding work_epochs
  work_epochs-Ready low frontier now [] s r from up = ((s, []), refl, r, refl)
  work_epochs-Ready low frontier now (epoch ∷ epochs) s r from up =
      let (first, e, r', at, sent) = work_epoch-Ready low frontier now epoch s r from.0 in
      let (rest, f, r'', same) =
        work_epochs-Ready low frontier now epochs first.0 r'
          (All-map (λ j. ltb epoch j ≡ true) (λ j lt. ground (arith, lt, at)) epochs up.0) up.1 in
      ((rest.0, first.1 ∷ rest.1), rw (e, f) refl, r'', λ i. sent i ∷ same i)

module _ {K V R L S : Type 0} ⦃o : Ord K⦄ (logic : StatefulLogic V R L S) (this_worker : ℕ) where
  -- Where the capabilities stand at one epoch, the frontier is not before it, and what has arrived and
  -- what waits is for this worker and not before it, no assertion or downgrade panics. It works on just
  -- the frontier, from the resume epoch on, and the closed epochs that are the epoch of the
  -- capabilities or have items or loads, one after the other, which rise and start at the epoch of
  -- the capabilities or later.
  pub activate-closed_epochs :
      (resume_epoch : ℕ) (frontier : Option ℕ) (now : DateTime)
      (items : List (ℕ × List (ℕ × (K × V)))) (loads : List (ℕ × List (ℕ × (K × StateChange S))))
      (s : Operator K V L S)
      → s.output_cap ≡ s.change_cap
      → s.output_cap ≤ or_else s.output_cap frontier
      → All (Waits this_worker s.output_cap) items
      → All (Waits this_worker s.output_cap) loads
      → All (Waits this_worker s.output_cap) s.inbuf
      → All (Waits this_worker s.output_cap) s.loads_inbuf
      → (out : Option (Operator K V L S) × List (Sent K R S) × Option Duration) × (activate logic
            this_worker resume_epoch frontier now items loads s
          ≡ some out)
        × ((j : ℕ)
            → contains j (map (λ (x : Sent K R S). x.epoch) out.1)
              ≡ is_due frontier resume_epoch s.output_cap
                  (Buffer.epochs (Buffer.extend_all items s.inbuf))
                  (Buffer.epochs (Buffer.extend_all loads s.loads_inbuf))
                  j)
        × Set.Ascends (map (λ (x : Sent K R S). x.epoch) out.1)
        × All (λ e. s.output_cap ≤ e) (map (λ (x : Sent K R S). x.epoch) out.1)
  unfolding activate
  activate-closed_epochs resume_epoch frontier now items loads s same le hi hl gi gl =
      let inbuf = Buffer.extend_all items s.inbuf in
      let loads_inbuf = Buffer.extend_all loads s.loads_inbuf in
      let waits = extend_all-Waits this_worker s.output_cap items s.inbuf hi gi in
      let loading = extend_all-Waits this_worker s.output_cap loads s.loads_inbuf hl gl in
      let epochs =
        closed_epochs frontier resume_epoch s.output_cap (Buffer.epochs inbuf)
          (Buffer.epochs loads_inbuf) in
      let up =
        closed_epochs-Ascends frontier resume_epoch s.output_cap (Buffer.epochs inbuf)
          (Buffer.epochs loads_inbuf) in
      let from =
        closed_epochs-All frontier resume_epoch s.output_cap (Buffer.epochs inbuf)
          (Buffer.epochs loads_inbuf) le (keys-Waits this_worker s.output_cap inbuf waits)
          (keys-Waits this_worker s.output_cap loads_inbuf loading) in
      let (out, runs, r, sent) =
        work_epochs-Ready logic this_worker s.output_cap frontier now epochs
          (record s { inbuf = inbuf; loads_inbuf = loads_inbuf })
          (record { same = same; from = omega arith; items = waits; loads = loading }) from up in
      (
        (
          (if is_eof frontier then none else some out.0),
          out.1,
          activate_after now out.0.state.current_next_awake,
        ),
        rw ((==_iff s.output_cap s.change_cap).1 same, runs) refl,
        λ j.
            ap (contains j) sent
            ∙ contains-closed_epochs-is_due frontier resume_epoch s.output_cap (Buffer.epochs inbuf)
                (Buffer.epochs loads_inbuf) j,
        subst Set.Ascends (sym sent) up,
        subst (All (λ e. s.output_cap ≤ e)) (sym sent) from,
      )
