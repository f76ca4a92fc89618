-- ===== src/Window/Logic/Interface.antt =====
-- The traits `Clock`, `Windower` and `WindowLogic`, as records of operations. A windower may panic.
use bytewax.Prelude.{Bool, Option, List}
use bytewax.Window.Types.{DateTime, WindowKey, WindowMetadata, InsertResult, Poll}

pub record Clock (V C : Type 0) : Type 0 where
  pub watermark : C → Poll V → C × DateTime
  pub time_for : C → V → C × DateTime

pub record Windower (W : Type 0) : Type 0 where
  pub insert : W → DateTime → DateTime → Option (W × List InsertResult)
  pub drain_closed : W → DateTime → W × List (WindowKey × WindowMetadata)
  pub is_empty : W → Bool
  pub get_metadata : W → WindowKey → Option WindowMetadata
  pub next_close : W → Option DateTime

-- `with_next`, with a value and its time or, when the window closes, without.
pub record WindowLogic (V R L : Type 0) : Type 0 where
  pub new : L
  pub with_next : L → Option (V × DateTime) → L × List R
