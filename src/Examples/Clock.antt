-- ===== src/Examples/Clock.antt =====
-- An event clock with a wait of 5 ns over three calls.
use bytewax.Prelude.{pos, ◌-ℤ◌, ◌≤ℤ◌, none, List, [], ◌∷◌, arith, -ℤ_parts, All, Pairs}
use bytewax.Window.Types.{DateTime, Poll}
use bytewax.Window.Clock.Event.{EventClock}
use bytewax.Window.Clock.Watermark.{InRange, watermarks, watermarks-Pairs, watermarks-eof}
use Prim.Native.Nat.{ℕ}

abbrev pub clock : EventClock
clock = record { wait_for_system_duration = pos 5; max_event_time_system_time = none }

abbrev pub max_utc : DateTime
max_utc = pos 1000000

abbrev pub getter : ℕ → DateTime
getter n = pos n

abbrev pub calls : List (DateTime × Poll ℕ)
calls = (pos 100, Poll.item 90) ∷ (pos 110, Poll.item 80) ∷ (pos 120, Poll.pending) ∷ []

pub clock-InRange : InRange (pos 0 -ℤ pos 5) max_utc getter (pos 5)
clock-InRange = record { ends = omega (arith, -ℤ_parts); events = λ v. omega (arith, -ℤ_parts) }

watermarks-Pairs_example : Pairs ◌≤ℤ◌ (watermarks (pos 0 -ℤ pos 5) max_utc getter clock calls)
watermarks-Pairs_example =
    watermarks-Pairs (pos 0 -ℤ pos 5) max_utc getter clock calls clock-InRange
      (omega arith, (omega arith, (tt, tt)))

watermarks-eof_example :
    All
      (λ m. max_utc ≤ℤ m)
      (watermarks (pos 0 -ℤ pos 5) max_utc getter clock ((pos 90, Poll.eof) ∷ calls))
watermarks-eof_example =
    watermarks-eof (pos 0 -ℤ pos 5) max_utc getter clock (pos 90) calls clock-InRange (omega arith)
      (omega arith, (omega arith, (tt, tt)))
