-- ===== src/Window/Logic/Defs.antt =====
-- `WindowStatefulLogic::{on_awake, fate, next_awake}`. A value `none` is a panic.
use bytewax.Prelude.{Option, none, some, List, [], ◌∷◌, ◌++◌, map, ◌>>=◌, if◌then◌else◌}
use bytewax.Prelude.Order.Ord.{ℤ_ord}
use bytewax.Prelude.Order.Map.{lookup, insert, remove}
use bytewax.Window.Types.{
  DateTime, WindowKey, WindowMetadata, InsertResult, ok, late, Poll, pending, item, eof,
}
use bytewax.Window.Logic.Interface.{Clock, Windower, WindowLogic}

pub record WindowStatefulLogic (C W L : Type 0) : Type 0 where
  pub clock : C
  pub windower : W
  pub current_state : List (WindowKey × L)

-- `Result<(WindowMetadata, R), WindowError<V>>`, with `WindowError::Late`.
pub data Output (V R : Type 0) : Type 0 where
  emit : WindowMetadata → R → Output V R
  late_item : V → Output V R

-- `src/operators/stateful_unary.rs`: whether the logic of a key is kept.
pub data LogicFate : Type 0 where
  retain discard : LogicFate

module _ {V R C W L : Type 0} (clock : Clock V C) (windower : Windower W)
    (logic : WindowLogic V R L) where
  -- `entry(window_key).or_insert_with(builder)`.
  abbrev pub or_new : Option L → L
  or_new none = logic.new
  or_new (some l) = l

  -- The body of the loop over the results of `insert`; `w` is the windower after it.
  unfoldable pub route :
      W
      → V
      → DateTime
      → InsertResult
      → List (WindowKey × L)
      → Option (List (WindowKey × L) × List (Output V R))
  route w value item_time (late key) state = some (state, late_item value ∷ [])
  route w value item_time (ok key) state = do
    metadata ← windower.get_metadata w key
    let (l, out) = logic.with_next (or_new (lookup key state)) (some (value, item_time))
    some (insert key l state, map (emit metadata) out)

  unfoldable pub route_all :
      W
      → V
      → DateTime
      → List InsertResult
      → List (WindowKey × L)
      → Option (List (WindowKey × L) × List (Output V R))
  unfolding route
  route_all w value item_time [] state = some (state, [])
  route_all w value item_time (r ∷ rs) state = do
    (state₁, out) ← route w value item_time r state
    (state₂, rest) ← route_all w value item_time rs state₁
    some (state₂, out ++ rest)

  -- The loop over the windows that closed.
  unfoldable pub close_all :
      List (WindowKey × WindowMetadata)
      → List (WindowKey × L)
      → Option (List (WindowKey × L) × List (Output V R))
  close_all [] state = some (state, [])
  close_all ((key, metadata) ∷ closed) state = do
    l ← lookup key state
    let (_, out) = logic.with_next l none
    (state', rest) ← close_all closed (remove key state)
    some (state', map (emit metadata) out ++ rest)

  -- The arm of `on_awake` for a value.
  unfoldable pub take_value :
      WindowStatefulLogic C W L
      → DateTime
      → Poll V
      → Option (WindowStatefulLogic C W L × List (Output V R))
  unfolding route_all
  take_value s watermark (item value) = do
    let (c, item_time) = clock.time_for s.clock value
    (w, results) ← windower.insert s.windower watermark item_time
    (state, out) ← route_all w value item_time results s.current_state
    some (record { clock = c; windower = w; current_state = state }, out)
  take_value s watermark pending = some (s, [])
  take_value s watermark eof = some (s, [])

  unfoldable pub on_awake :
      WindowStatefulLogic C W L → Poll V → Option (WindowStatefulLogic C W L × List (Output V R))
  on_awake s next_value = do
    let (c, watermark) = clock.watermark s.clock next_value
    (s₁, out) ← take_value (record s { clock = c }) watermark next_value
    let (w, closed) = windower.drain_closed s₁.windower watermark
    (state, rest) ← close_all closed s₁.current_state
    some (record s₁ { windower = w; current_state = state }, out ++ rest)

  unfoldable pub fate : WindowStatefulLogic C W L → LogicFate
  fate s = if windower.is_empty s.windower then discard else retain

  unfoldable pub next_awake : WindowStatefulLogic C W L → Option DateTime
  next_awake s = windower.next_close s.windower
