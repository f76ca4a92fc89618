-- ===== src/Stateful/Activation.antt =====
-- An activation of `stateful_unary` (src/operators/stateful_unary.rs): the epochs that it works on, in
-- their order, and when it runs next. A value `none` is a panic.
use bytewax.Prelude.{
  ℕ, ◌==◌, leb, Option, none, some, List, [], ◌∷◌, filter, ◌>>=◌, ◌>>◌, assert, if◌then◌else◌, pos,
  ◌-ℤ◌, ltb_ℤ, min_ℤ,
}
use bytewax.Prelude.Order.Ord.{Ord, ℕ_ord}
use bytewax.Prelude.Order.Set
use bytewax.Window.Types.{DateTime, Duration}
use bytewax.Timely.Buffer.{InBuffer}
use bytewax.Timely.Buffer
use bytewax.Stateful.Defs.{
  StatefulLogic, StateChange, State, is_closed, is_eof, or_else, process_epoch,
}

-- What the operator keeps between activations: the capability of each output, the state, and what
-- has arrived and waits.
pub record Operator (K V L S : Type 0) : Type 0 where
  pub output_cap : ℕ
  pub change_cap : ℕ
  pub state : State K L
  pub inbuf : InBuffer (ℕ × (K × V))
  pub loads_inbuf : InBuffer (ℕ × (K × StateChange S))

-- What an epoch sends.
pub record Sent (K R S : Type 0) : Type 0 where
  pub epoch : ℕ
  pub outputs : List (K × R)
  pub changes : List (K × StateChange S)

-- `tmp_closed_epochs`, as it is filled: the last epoch, the epochs of the buffers that are closed, and
-- the frontier.
unfoldable pub closed_epochs : Option ℕ → ℕ → ℕ → List ℕ → List ℕ → List ℕ
closed_epochs frontier resume_epoch last_output_epoch input_epochs load_epochs =
    let frontier_epoch = or_else last_output_epoch frontier in
    let from_last = if is_closed frontier last_output_epoch then last_output_epoch ∷ [] else [] in
    let closed =
      Set.extend (Set.extend from_last (filter (is_closed frontier) input_epochs))
        (filter (is_closed frontier) load_epochs) in
    if leb resume_epoch frontier_epoch then Set.insert frontier_epoch closed else closed

-- The delay of the next activation, if some key waits for one.
unfoldable pub soonest : {K : Type 0} → DateTime → List (K × DateTime) → Option Duration
soonest now [] = none
soonest now ((key, next_awake) ∷ awakes) =
    let here = next_awake -ℤ now in
    elim (soonest now awakes) [ none ↦ some here | some d ↦ some (min_ℤ here d) ]

unfoldable pub activate_after : {K : Type 0} → DateTime → List (K × DateTime) → Option Duration
unfolding soonest
activate_after now awakes = elim (soonest now awakes) [
  | none ↦ none
  | some d ↦ some (if ltb_ℤ d (pos 0) then pos 0 else d)
]

module _ {K V R L S : Type 0} ⦃o : Ord K⦄ (logic : StatefulLogic V R L S) (this_worker : ℕ) where
  -- The capabilities are downgraded to the epoch, which panics if they are beyond it.
  unfoldable pub work_epoch :
      Option ℕ → DateTime → ℕ → Operator K V L S → Option (Operator K V L S × Sent K R S)
  unfolding process_epoch
  work_epoch frontier now epoch s = do
    assert (leb s.output_cap epoch)
    assert (leb s.change_cap epoch)
    ((state, inbuf, loads_inbuf), outputs, changes) ←
        process_epoch logic this_worker frontier now epoch s.state s.inbuf s.loads_inbuf
    some (
      record {
        output_cap = epoch;
        change_cap = epoch;
        state = state;
        inbuf = inbuf;
        loads_inbuf = loads_inbuf;
      },
      record { epoch = epoch; outputs = outputs; changes = changes },
    )

  unfoldable pub work_epochs :
      Option ℕ
      → DateTime
      → List ℕ
      → Operator K V L S
      → Option (Operator K V L S × List (Sent K R S))
  unfolding work_epoch
  work_epochs frontier now [] s = some (s, [])
  work_epochs frontier now (epoch ∷ epochs) s = do
    (s₁, sent) ← work_epoch frontier now epoch s
    (s₂, later) ← work_epochs frontier now epochs s₁
    some (s₂, sent ∷ later)

  -- An activation, on what has arrived. At the end of all input the operator is dropped.
  unfoldable pub activate :
      ℕ
      → Option ℕ
      → DateTime
      → List (ℕ × List (ℕ × (K × V)))
      → List (ℕ × List (ℕ × (K × StateChange S)))
      → Operator K V L S
      → Option (Option (Operator K V L S) × List (Sent K R S) × Option Duration)
  unfolding work_epochs closed_epochs activate_after
  activate resume_epoch frontier now items loads s = do
    assert (s.output_cap == s.change_cap)
    let inbuf = Buffer.extend_all items s.inbuf
    let loads_inbuf = Buffer.extend_all loads s.loads_inbuf
    let epochs =
        closed_epochs frontier resume_epoch s.output_cap (Buffer.epochs inbuf)
          (Buffer.epochs loads_inbuf)
    (s', sent) ←
        work_epochs frontier now epochs (record s { inbuf = inbuf; loads_inbuf = loads_inbuf })
    some (
      (if is_eof frontier then none else some s'),
      sent,
      activate_after now s'.state.current_next_awake,
    )
