-- ===== src/Examples/Sliding.antt =====
-- Windows of 10 ms that slide by 5 ms, and tumbling windows of 10 ms.
use bytewax.Prelude.{
  ◌≡◌, refl, ◌↔◌, pos, ◌+ℤ◌, ◌-ℤ◌, ◌*ℤ◌, some, List, [], ◌∷◌, map, filter, not, arith, Any,
}
use bytewax.Window.Types.{DateTime, WindowKey, WindowMetadata}
use bytewax.Window.Sliding.Defs.{SlidingWindower, intersects, drain_closed}
use bytewax.Window.Sliding.Rounding.{rounding}
use bytewax.Window.Sliding.Intersects.{open_at, IsWindowAt}
use bytewax.Window.Sliding.Whole.{IsWhole}
use bytewax.Window.Sliding.Exact.{intersects-exact}
use bytewax.Window.Sliding.Opened.{IsConsistent}
use bytewax.Window.Sliding.State.{Inserted, insert_item-Inserted}
use bytewax.Window.Sliding.Closing.{is_closed, closed_entry, drain_closed-splits}
use bytewax.Window.Sliding.Truncation.{IsLastInstant, intersects_misses_last_instant}

-- The windows 0 and 1 are open.
abbrev pub two_open : SlidingWindower
two_open = record {
  length = pos 10000000;
  offset = pos 5000000;
  align_to = pos 0;
  close_times = (pos 0, (pos 0, pos 10000000)) ∷ (pos 1, (pos 5000000, pos 15000000)) ∷ [];
}

abbrev pub time : DateTime
time = pos 12000000

pub two_open-IsWhole : IsWhole two_open time
unfolding ◌+ℤ◌ ◌*ℤ◌
two_open-IsWhole = record {
  o = 5;
  l = 10;
  t = pos 12;
  positive = omega arith;
  offset_ms = refl;
  length_ms = refl;
  time_ms = refl;
  before_end = omega arith;
  after_start = omega arith;
}

pub two_open-IsConsistent : IsConsistent two_open
unfolding ◌+ℤ◌ ◌*ℤ◌
two_open-IsConsistent = record {
  entries = ((refl, refl), ((refl, refl), tt));
  ascends = ((refl, tt), (tt, tt));
}

intersects-exact_example :
    (es : List (WindowKey × DateTime × DateTime)) × (intersects rounding two_open time ≡ some es)
    × ((e : WindowKey × DateTime × DateTime) → Any (λ x. x ≡ e) es ↔ IsWindowAt two_open time e)
intersects-exact_example = intersects-exact rounding two_open time two_open-IsWhole

insert_item-Inserted_example : Inserted rounding two_open (pos 11000000) time
insert_item-Inserted_example =
    insert_item-Inserted rounding two_open (pos 11000000) time two_open-IsWhole
      two_open-IsConsistent

drain_closed-splits_example :
    ((drain_closed two_open (pos 11000000)).1
      ≡ map closed_entry (filter (is_closed (pos 11000000)) two_open.close_times))
    × ((drain_closed two_open (pos 11000000)).0.close_times
        ≡ filter (λ e. not (is_closed (pos 11000000) e)) two_open.close_times)
    × IsConsistent (drain_closed two_open (pos 11000000)).0
drain_closed-splits_example = drain_closed-splits two_open (pos 11000000) two_open-IsConsistent

abbrev pub tumbling : SlidingWindower
tumbling = record {
  length = pos 10000000;
  offset = pos 10000000;
  align_to = pos 0;
  close_times = [];
}

-- The last instant of the window 0.
unfoldable pub tumbling-IsLastInstant : IsLastInstant tumbling (pos 9999999)
unfolding ◌+ℤ◌ ◌-ℤ◌
tumbling-IsLastInstant = record {
  o = 10;
  j = 0;
  r = 1;
  positive = omega arith;
  j_small = omega arith;
  r_positive = omega arith;
  r_small = omega arith;
  offset_ms = refl;
  length_ms = refl;
  time_eq = refl;
}

intersects_misses_last_instant_example :
    (intersects rounding tumbling (pos 9999999) ≡ some [])
    × IsWindowAt tumbling (pos 9999999) (
      pos 0 -ℤ pos 0,
      open_at tumbling (pos 0 -ℤ pos 0),
      open_at tumbling (pos 0 -ℤ pos 0) +ℤ pos 10000000,
    )
unfolding tumbling-IsLastInstant
intersects_misses_last_instant_example =
    intersects_misses_last_instant rounding tumbling (pos 9999999) tumbling-IsLastInstant

abbrev pub first : WindowMetadata
first = record { open_time = pos 0; close_time = pos 10 }

abbrev pub second : WindowMetadata
second = record { open_time = pos 5; close_time = pos 10 }
