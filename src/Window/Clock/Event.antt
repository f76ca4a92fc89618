-- ===== src/Window/Clock/Event.antt =====
-- `EventClock` (src/window/clock/event_time_clock.rs). The system time at a call is an argument, and
-- so are the ends of time and the getter, a Python function.
use bytewax.Prelude.{◌+ℤ◌, ◌-ℤ◌, ltb_ℤ, eqb_ℤ, Option, none, some, if◌then◌else◌}
use bytewax.Window.Types.{DateTime, Duration, Poll}

pub record EventClock : Type 0 where
  pub wait_for_system_duration : Duration
  -- The event time that made the largest watermark, and the system time when it was seen.
  pub max_event_time_system_time : Option (DateTime × DateTime)

-- `EventClockConfig::build`, over the snapshot, if any.
unfoldable pub build : Duration → Option (Option (DateTime × DateTime)) → EventClock
build wait none = record { wait_for_system_duration = wait; max_event_time_system_time = none }
build wait (some snapshot) = record {
  wait_for_system_duration = wait;
  max_event_time_system_time = snapshot;
}

unfoldable pub snapshot : EventClock → Option (DateTime × DateTime)
snapshot c = c.max_event_time_system_time

module _ {ℓ} {V : Type ℓ} (min_utc max_utc : DateTime) (dt_getter : V → DateTime) where
  unfoldable pub time_for : V → DateTime
  time_for event = dt_getter event

  unfoldable pub next_event_time_system_time : DateTime → Poll V → Option (DateTime × DateTime)
  unfolding time_for
  next_event_time_system_time now (Poll.item event) = some (time_for event, now)
  next_event_time_system_time now Poll.eof = some (max_utc, now)
  next_event_time_system_time now Poll.pending = none

  -- The closure that `watermark` maps over the two candidates.
  unfoldable pub watermark_of : DateTime → Duration → DateTime × DateTime → DateTime
  watermark_of now wait (event_time, event_system_time) =
      if eqb_ℤ event_time max_utc then max_utc else event_time -ℤ wait +ℤ (now -ℤ event_system_time)

  -- `max_by_key` over the candidates that are there: of two that are equal, the last.
  unfoldable pub best :
      (DateTime × DateTime → DateTime)
      → Option (DateTime × DateTime)
      → Option (DateTime × DateTime)
      → Option (DateTime × DateTime)
  best key none b = b
  best key (some a) none = some a
  best key (some a) (some b) = if ltb_ℤ (key b) (key a) then some a else some b

  abbrev pub or_min : (DateTime × DateTime → DateTime) → Option (DateTime × DateTime) → DateTime
  or_min key none = min_utc
  or_min key (some a) = key a

  unfoldable pub watermark : DateTime → EventClock → Poll V → EventClock × DateTime
  unfolding best next_event_time_system_time watermark_of
  watermark now c next_value =
      let key = watermark_of now c.wait_for_system_duration in
      let res =
        best key c.max_event_time_system_time (next_event_time_system_time now next_value) in
      (record c { max_event_time_system_time = res }, or_min key res)
