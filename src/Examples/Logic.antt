-- ===== src/Examples/Logic.antt =====
-- A fold over sliding windows, with a clock that reads the items.
use bytewax.Prelude.{◌≡◌, refl, pos, ◌+ℤ◌, ◌*ℤ◌, Option, some, List, [], arith}
use bytewax.Window.Types.{Poll}
use bytewax.Window.Logic.Interface.{Clock}
use bytewax.Window.Logic.Defs.{WindowStatefulLogic, Output, on_awake}
use bytewax.Window.Logic.Fold.{fold_window}
use bytewax.Window.Logic.Awake.{IsReady, on_awake-total}
use bytewax.Window.Sliding.Defs.{SlidingWindower, get_metadata}
use bytewax.Window.Sliding.Rounding.{rounding}
use bytewax.Window.Sliding.Laws.{sliding, sliding_laws}
use bytewax.Window.Sliding.Whole.{IsWhole}
use bytewax.Prelude.Order.Map.{lookup}
use Prim.Native.Nat.{ℕ, ◌+◌, ◌*◌}

-- The items are milliseconds, and the watermark stays at 7 ms.
abbrev pub reader : Clock ℕ (Unit {0})
reader = record { watermark = λ c y. (c, pos 7000000); time_for = λ c n. (c, pos (1000000 * n)) }

abbrev pub empty : SlidingWindower
empty = record { length = pos 10000000; offset = pos 5000000; align_to = pos 0; close_times = [] }

abbrev pub start : WindowStatefulLogic (Unit {0}) SlidingWindower (Option ℕ)
start = record { clock = tt; windower = empty; current_state = [] }

pub start-IsReady :
    IsReady reader (sliding rounding) (fold_window 0 ◌+◌) (sliding_laws rounding) start
unfolding sliding_laws get_metadata lookup
start-IsReady = record {
  valid = record { entries = tt; ascends = tt };
  has_logic = λ k at. ground (arith, at.1);
}

pub empty-IsWhole : IsWhole empty (pos 12000000)
unfolding ◌+ℤ◌ ◌*ℤ◌
empty-IsWhole = record {
  o = 5;
  l = 10;
  t = pos 12;
  positive = omega arith;
  offset_ms = refl;
  length_ms = refl;
  time_ms = refl;
  before_end = omega arith;
  after_start = omega arith;
}

on_awake-total_example :
    (s' : WindowStatefulLogic (Unit {0}) SlidingWindower (Option ℕ)) × (out : List (Output ℕ ℕ))
    × (on_awake reader (sliding rounding) (fold_window 0 ◌+◌) start (Poll.item 12) ≡ some (s', out))
    × IsReady reader (sliding rounding) (fold_window 0 ◌+◌) (sliding_laws rounding) s'
unfolding sliding_laws
on_awake-total_example =
    on_awake-total reader (sliding rounding) (fold_window 0 ◌+◌) (sliding_laws rounding) start
      (Poll.item 12) start-IsReady empty-IsWhole
