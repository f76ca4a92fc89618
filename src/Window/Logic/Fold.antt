-- ===== src/Window/Logic/Fold.antt =====
-- `FoldWindowLogic` (src/operators/fold_window.rs). The builder and the folder, Python functions, are
-- arguments.
use bytewax.Prelude.{Option, none, some, List, [], ◌∷◌}
use bytewax.Window.Types.{DateTime}
use bytewax.Window.Logic.Interface.{WindowLogic}

module _ {V A : Type 0} (builder : A) (folder : A → V → A) where
  abbrev pub or_built : Option A → A
  or_built none = builder
  or_built (some acc) = acc

  unfoldable pub with_next : Option A → Option (V × DateTime) → Option A × Option A
  with_next acc (some (value, item_time)) = (some (folder (or_built acc) value), none)
  with_next acc none = (none, acc)

  abbrev pub items : Option A → List A
  items none = []
  items (some a) = a ∷ []

  -- The output is iterated over; a logic without a snapshot begins with no accumulator.
  abbrev pub fold_window : WindowLogic V A (Option A)
  fold_window = record {
    new = none;
    with_next = λ acc next_value. let (acc', out) = with_next acc next_value in (acc', items out);
  }
