-- ===== src/Examples/Activation.antt =====
-- An activation with items of a closed epoch and of the frontier (src/operators/stateful_unary.rs).
use bytewax.Prelude.{ℕ, ◌≤◌, ◌≡◌, refl, pos, Option, none, some, List, [], ◌∷◌, map, arith, All}
use bytewax.Prelude.Order.Ord.{ℕ_ord}
use bytewax.Prelude.Order.Set
use bytewax.Window.Types.{Duration}
use bytewax.Timely.Buffer
use bytewax.Stateful.Defs.{StateChange, upsert}
use bytewax.Stateful.Activation.{Operator, Sent, activate}
use bytewax.Prelude.Order.Set.{contains}
use bytewax.Stateful.Epochs.{is_due}
use bytewax.Stateful.Ordering.{activate-closed_epochs}
use bytewax.Examples.Stateful.{sum, start}

abbrev pub operator : Operator ℕ ℕ ℕ ℕ
operator = record {
  output_cap = 2;
  change_cap = 2;
  state = start;
  inbuf = (4, (0, (1, 6)) ∷ []) ∷ [];
  loads_inbuf = [];
}

abbrev pub items : List (ℕ × List (ℕ × (ℕ × ℕ)))
items = (3, (0, (2, 7)) ∷ []) ∷ (4, (0, (2, 1)) ∷ []) ∷ []

abbrev pub loads : List (ℕ × List (ℕ × (ℕ × StateChange ℕ)))
loads = (2, (0, (2, upsert 9 none)) ∷ []) ∷ []

activate-closed_epochs_example :
    (out : Option (Operator ℕ ℕ ℕ ℕ) × List (Sent ℕ ℕ ℕ) × Option Duration) × (activate sum 0 2
        (some 4)
        (pos 3)
        items
        loads
        operator
      ≡ some out)
    × ((j : ℕ)
        → contains j (map (λ (x : Sent ℕ ℕ ℕ). x.epoch) out.1)
          ≡ is_due
              (some 4)
              2
              2
              (Buffer.epochs (Buffer.extend_all items operator.inbuf))
              (Buffer.epochs (Buffer.extend_all loads operator.loads_inbuf))
              j)
    × Set.Ascends (map (λ (x : Sent ℕ ℕ ℕ). x.epoch) out.1)
    × All (λ e. 2 ≤ e) (map (λ (x : Sent ℕ ℕ ℕ). x.epoch) out.1)
activate-closed_epochs_example =
    activate-closed_epochs sum 0 2 (some 4) (pos 3) items loads operator refl (omega arith)
      ((omega arith, (refl, tt)), ((omega arith, (refl, tt)), tt)) ((omega arith, (refl, tt)), tt)
      ((omega arith, (refl, tt)), tt) tt
