-- ===== src/Stateful/UnaryLoop.antt =====
-- An activation of the `unary` operator (src/operators/mod.rs): the loop over the epochs, with the
-- capabilities and the buffers, and a row of activations. A value `none` is a panic.
use bytewax.Prelude.{
  ℕ, ◌==◌, leb, Option, none, some, List, [], ◌∷◌, ◌++◌, ◌>>=◌, ◌>>◌, assert, if◌then◌else◌,
}
use bytewax.Prelude.Order.Ord.{Ord, ℕ_ord}
use bytewax.Prelude.Order.Map.{lookup, remove}
use bytewax.Window.Types.{DateTime, Duration}
use bytewax.Timely.Buffer.{InBuffer, or_empty}
use bytewax.Timely.Buffer
use bytewax.Recovery.Change.{StateChange}
use bytewax.Stateful.Defs.{is_closed, is_eof}
use bytewax.Stateful.Activation.{activate_after}
use bytewax.Stateful.Unary.{UnaryLogic, UnaryState, run_epoch, process_epochs}

-- What the operator's closure keeps, with the times of the two capabilities.
pub record UnaryOperator (K V L S : Type 0) : Type 0 where
  pub kv_downstream_cap : ℕ
  pub snap_cap : ℕ
  pub state : UnaryState K L
  pub inbuf : InBuffer (ℕ × (K × V))
  pub loads_inbuf : InBuffer (ℕ × (K × StateChange S))

-- What an activation sees: the frontier of both inputs, the system time, and what has arrived.
pub record Arrival (K V S : Type 0) : Type 0 where
  pub frontier : Option ℕ
  pub now : DateTime
  pub items : List (ℕ × List (ℕ × (K × V)))
  pub loads : List (ℕ × List (ℕ × (K × StateChange S)))

-- What an epoch sends.
pub record SentEpoch (K R S : Type 0) : Type 0 where
  pub epoch : ℕ
  pub outputs : List (K × R)
  pub changes : List (K × StateChange S)

module _ {K V R L S : Type 0} ⦃o : Ord K⦄ (logic : UnaryLogic V R L S) (this_worker : ℕ) where
  -- The body of the loop, with the downgrades, which panic at a capability beyond the epoch.
  unfoldable pub work_unary :
      Option ℕ
      → DateTime
      → ℕ
      → UnaryOperator K V L S
      → Option (UnaryOperator K V L S × SentEpoch K R S)
  unfolding Buffer.remove
  work_unary frontier now epoch s = do
    assert (leb s.kv_downstream_cap epoch)
    assert (leb s.snap_cap epoch)
    let (inbuf, items) = Buffer.remove epoch s.inbuf
    (state, outputs, changes) ←
        run_epoch logic now this_worker frontier epoch (or_empty items)
          (or_empty (lookup epoch s.loads_inbuf)) s.state
    some (
      record {
        kv_downstream_cap = epoch;
        snap_cap = epoch;
        state = state;
        inbuf = inbuf;
        loads_inbuf =
            if is_closed frontier epoch then remove epoch s.loads_inbuf else s.loads_inbuf;
      },
      record { epoch = epoch; outputs = outputs; changes = changes },
    )

  unfoldable pub work_all :
      Option ℕ
      → DateTime
      → List ℕ
      → UnaryOperator K V L S
      → Option (UnaryOperator K V L S × List (SentEpoch K R S))
  unfolding work_unary
  work_all frontier now [] s = some (s, [])
  work_all frontier now (epoch ∷ epochs) s = do
    (s₁, sent) ← work_unary frontier now epoch s
    (s₂, later) ← work_all frontier now epochs s₁
    some (s₂, sent ∷ later)

  -- Without capabilities, which it drops at the end of all input, the operator does nothing.
  unfoldable pub unary :
      ℕ
      → Arrival K V S
      → Option (UnaryOperator K V L S)
      → Option (Option (UnaryOperator K V L S) × List (SentEpoch K R S) × Option Duration)
  unfolding work_all activate_after
  unary resume_epoch a none = some (none, [], none)
  unary resume_epoch a (some s) = do
    assert (s.kv_downstream_cap == s.snap_cap)
    let inbuf = Buffer.extend_all a.items s.inbuf
    let loads_inbuf = Buffer.extend_all a.loads s.loads_inbuf
    let epochs =
        process_epochs a.frontier resume_epoch s.kv_downstream_cap (Buffer.epochs inbuf)
          (Buffer.epochs loads_inbuf)
    (s', sent) ←
        work_all a.frontier a.now epochs (record s { inbuf = inbuf; loads_inbuf = loads_inbuf })
    some (
      (if is_eof a.frontier then none else some s'),
      sent,
      activate_after a.now s'.state.sched_cache,
    )

  -- The activations, one after the other.
  unfoldable pub unary_all :
      ℕ
      → List (Arrival K V S)
      → Option (UnaryOperator K V L S)
      → Option (Option (UnaryOperator K V L S) × List (SentEpoch K R S))
  unary_all resume_epoch [] s = some (s, [])
  unary_all resume_epoch (a ∷ arrivals) s = do
    (s₁, sent, delay) ← unary resume_epoch a s
    (s₂, later) ← unary_all resume_epoch arrivals s₁
    some (s₂, sent ++ later)
