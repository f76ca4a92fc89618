-- ===== src/Window/Sliding/Defs.antt =====
-- `SlidingWindower`, one function for each method. A value `none` is a panic.
use bytewax.Prelude.{
  ℕ, zero, suc, ℤ, pos, pos_part, ◌+ℤ◌, ◌-ℤ◌, ◌*ℤ◌, ltb_ℤ, eqb_ℤ, min_ℤ, Bool, true, false, ◌&&◌,
  Option, none, some, List, [], ◌∷◌, ◌>>=◌, if◌then◌else◌,
}
use bytewax.Prelude.Order.Ord.{ℤ_ord}
use bytewax.Prelude.Order.Map.{lookup, insert}
use bytewax.Prelude.Words.{wrap_i32}
use bytewax.Window.Types.{
  DateTime, Duration, WindowKey, WindowMetadata, InsertResult, ok, late, Arithmetic,
}

pub record SlidingWindower : Type 0 where
  pub length : Duration
  pub offset : Duration
  pub align_to : DateTime
  pub close_times : List (WindowKey × (DateTime × DateTime))

-- `SlidingWindower::builder`, over the snapshot, if any.
unfoldable pub build :
    Duration
    → Duration
    → DateTime
    → Option (List (WindowKey × (DateTime × DateTime)))
    → SlidingWindower
build length offset align_to none = record {
  length = length;
  offset = offset;
  align_to = align_to;
  close_times = [];
}
build length offset align_to (some m) = record {
  length = length;
  offset = offset;
  align_to = align_to;
  close_times = m;
}

-- `TumblingWindow::build`.
unfoldable pub build_tumbling :
    Duration → DateTime → Option (List (WindowKey × (DateTime × DateTime))) → SlidingWindower
unfolding build
build_tumbling length align_to snapshot = build length length align_to snapshot

module _ (w : SlidingWindower) (time : DateTime) where
  -- The closure of `intersects`, for the windows `first_window_idx + i` up to a count.
  unfoldable pub candidates : ℤ → ℤ → ℕ → List (WindowKey × DateTime × DateTime)
  candidates first_window_idx i zero = []
  candidates first_window_idx i (suc n) =
      let rest = candidates first_window_idx (i +ℤ pos 1) n in
      let window_idx = first_window_idx +ℤ i in
      let open_time = w.align_to +ℤ w.offset *ℤ wrap_i32 window_idx in
      if ltb_ℤ time open_time then rest else (window_idx, open_time, open_time +ℤ w.length) ∷ rest

-- A division by zero panics.
unfoldable pub intersects :
    Arithmetic → SlidingWindower → DateTime → Option (List (WindowKey × DateTime × DateTime))
unfolding candidates
intersects ar w time =
    if eqb_ℤ offset_ms (pos 0)
    then none
    else some (candidates w time first_window_idx (pos 0) (pos_part num_windows))
  where
    offset_ms : ℤ
    offset_ms = ar.num_milliseconds w.offset

    since_close_of_first_window : ℤ
    since_close_of_first_window = time -ℤ (w.align_to +ℤ w.length)

    first_window_idx : ℤ
    first_window_idx =
        ar.div_floor (ar.num_milliseconds since_close_of_first_window) offset_ms +ℤ pos 1

    num_windows : ℤ
    num_windows = ar.div_ceil (ar.num_milliseconds w.length) offset_ms

-- The `and_modify` arm of `insert_window`: the boundaries on record must be the same.
abbrev pub consistent : Option (DateTime × DateTime) → DateTime → DateTime → Bool
consistent none open_time close_time = true
consistent (some (o, c)) open_time close_time = eqb_ℤ close_time c && eqb_ℤ o open_time

unfoldable pub insert_window :
    SlidingWindower → WindowKey → DateTime → DateTime → Option SlidingWindower
insert_window w key open_time close_time =
    if consistent (lookup key w.close_times) open_time close_time
    then some (record w { close_times = insert key (open_time, close_time) w.close_times })
    else none

-- The closure of `insert`, mapped over the windows of the item.
unfoldable pub insert_all :
    DateTime
    → List (WindowKey × DateTime × DateTime)
    → SlidingWindower
    → Option (SlidingWindower × List InsertResult)
unfolding insert_window
insert_all watermark [] w = some (w, [])
insert_all watermark ((key, open_time, close_time) ∷ es) w = elim (ltb_ℤ close_time watermark) [
  | true ↦ do (w', rs) ← insert_all watermark es w; some (w', late key ∷ rs)
  | false ↦ do
    w₁ ← insert_window w key open_time close_time
    (w', rs) ← insert_all watermark es w₁
    some (w', ok key ∷ rs)
]

-- `Windower::insert`.
unfoldable pub insert_item :
    Arithmetic
    → SlidingWindower
    → DateTime
    → DateTime
    → Option (SlidingWindower × List InsertResult)
unfolding intersects insert_all
insert_item ar w watermark item_time = do es ← intersects ar w item_time; insert_all watermark es w

abbrev pub metadata_of : Option (DateTime × DateTime) → Option WindowMetadata
metadata_of none = none
metadata_of (some (o, c)) = some (record { open_time = o; close_time = c })

unfoldable pub get_metadata : SlidingWindower → WindowKey → Option WindowMetadata
get_metadata w key = metadata_of (lookup key w.close_times)

-- The two collections that the loop of `drain_closed` fills: what stays open, and what closed.
unfoldable pub split_closed :
    DateTime
    → List (WindowKey × (DateTime × DateTime))
    → List (WindowKey × (DateTime × DateTime)) × List (WindowKey × WindowMetadata)
split_closed watermark [] = ([], [])
split_closed watermark ((key, (o, c)) ∷ m) =
    let (future, closed) = split_closed watermark m in
    if ltb_ℤ c watermark
    then (future, (key, record { open_time = o; close_time = c }) ∷ closed)
    else ((key, (o, c)) ∷ future, closed)

unfoldable pub drain_closed :
    SlidingWindower → DateTime → SlidingWindower × List (WindowKey × WindowMetadata)
unfolding split_closed
drain_closed w watermark =
    let (future, closed) = split_closed watermark w.close_times in
    (record w { close_times = future }, closed)

unfoldable pub is_empty : SlidingWindower → Bool
is_empty w = elim w.close_times [ [] ↦ true | e ∷ m ↦ false ]

unfoldable pub earliest : DateTime → List (WindowKey × (DateTime × DateTime)) → DateTime
earliest t [] = t
earliest t ((key, (o, c)) ∷ m) = earliest (min_ℤ t c) m

unfoldable pub next_close : SlidingWindower → Option DateTime
next_close w = elim w.close_times [ [] ↦ none | (key, (o, c)) ∷ m ↦ some (earliest c m) ]
