-- ===== src/Window/Clock/System.antt =====
-- `SystemClock` (src/window/clock/system_clock.rs). The system time at each call of `Utc::now` is an
-- argument.
use bytewax.Prelude.{Bool, true, false, if◌then◌else◌}
use bytewax.Window.Types.{DateTime, Poll}

pub record SystemClock : Type 0 where
  pub eof : Bool

-- `SystemClockConfig::build`: the snapshot is not read.
unfoldable pub build : SystemClock
build = record { eof = false }

abbrev see {ℓ} : {V : Type ℓ} → SystemClock → Poll V → SystemClock
see c Poll.pending = c
see c (Poll.item v) = c
see c Poll.eof = record { eof = true }

-- `max_utc` is `DateTime::<Utc>::MAX_UTC`.
unfoldable pub watermark {ℓ} :
    {V : Type ℓ} → DateTime → DateTime → SystemClock → Poll V → SystemClock × DateTime
watermark max_utc now c next_value =
    let c' = see c next_value in (c', if c'.eof then max_utc else now)

unfoldable pub time_for : DateTime → DateTime
time_for now = now
