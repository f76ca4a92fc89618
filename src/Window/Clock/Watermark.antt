-- ===== src/Window/Clock/Watermark.antt =====
-- What the watermarks of an `EventClock` do over its calls.
use bytewax.Prelude.{
  ◌≡◌, ◌⊎◌, ◌-ℤ◌, ◌≤ℤ◌, eqb_ℤ_iff, +ℤ_parts, -ℤ_parts, Option, none, some, List, [], ◌∷◌, arith,
  All, Pairs, inl, inr,
}
use bytewax.Window.Types.{DateTime, Duration, Poll}
use bytewax.Window.Clock.Event
use bytewax.Window.Clock.Event.{EventClock}

module _ {ℓ} {V : Type ℓ} (min_utc max_utc : DateTime) (dt_getter : V → DateTime) where
  -- The watermarks of a row of calls, each with its system time.
  unfoldable pub watermarks : EventClock → List (DateTime × Poll V) → List DateTime
  watermarks c [] = []
  watermarks c ((now, next_value) ∷ calls) =
      let (c', t) = Event.watermark min_utc max_utc dt_getter now c next_value in
      t ∷ watermarks c' calls

  -- What `chrono` ensures by a panic: the getter's times, less the wait, are instants.
  pub record InRange (wait : Duration) : Type ℓ where
    pub ends : min_utc ≤ℤ max_utc
    pub events : (v : V) → min_utc ≤ℤ dt_getter v -ℤ wait

  abbrev key : DateTime → Duration → DateTime × DateTime → DateTime
  key = Event.watermark_of min_utc max_utc dt_getter

  -- The watermark that a clock has reached, at a system time.
  abbrev current : DateTime → EventClock → DateTime
  current now c =
      Event.or_min min_utc max_utc dt_getter (key now c.wait_for_system_duration)
        c.max_event_time_system_time

  key-mono :
      (now later : DateTime) (wait : Duration) (a : DateTime × DateTime)
      → now ≤ℤ later
      → key now wait a ≤ℤ key later wait a
  unfolding Event.watermark_of
  key-mono now later wait (e, s) h = ground (
    arith,
    +ℤ_parts (e -ℤ wait) (now -ℤ s),
    +ℤ_parts (e -ℤ wait) (later -ℤ s),
    -ℤ_parts now s,
    -ℤ_parts later s,
  )

  abbrev Above : DateTime → (DateTime × DateTime → DateTime) → Option (DateTime × DateTime) → Type 0
  Above t f o = t ≤ℤ Event.or_min min_utc max_utc dt_getter f o

  best-above_left :
      (t : DateTime) (f : DateTime × DateTime → DateTime) (a : DateTime × DateTime)
      (b : Option (DateTime × DateTime))
      → t ≤ℤ f a
      → Above t f (Event.best min_utc max_utc dt_getter f (some a) b)
  unfolding Event.best
  best-above_left t f a none h = h
  best-above_left t f a (some b) h = ground arith

  best-above_right :
      (t : DateTime) (f : DateTime × DateTime → DateTime) (a : Option (DateTime × DateTime))
      (b : DateTime × DateTime)
      → t ≤ℤ f b
      → Above t f (Event.best min_utc max_utc dt_getter f a (some b))
  unfolding Event.best
  best-above_right t f none b h = h
  best-above_right t f (some a) b h = ground arith

  -- An event is seen at its own system time.
  key_now :
      (now : DateTime) (wait : Duration) (e : DateTime)
      → (key now wait (e, now) ≡ max_utc)
        ⊎ ((key now wait (e, now) ≤ℤ e -ℤ wait) × (e -ℤ wait ≤ℤ key now wait (e, now)))
  unfolding Event.watermark_of
  key_now now wait e = ground (arith, -ℤ_parts now now, +ℤ_parts (e -ℤ wait) (now -ℤ now))

  key-max : (now : DateTime) (wait : Duration) (s : DateTime) → max_utc ≤ℤ key now wait (max_utc, s)
  unfolding Event.watermark_of
  key-max now wait s = ground (arith, eqb_ℤ_iff max_utc max_utc)

  next-above :
      (t now : DateTime) (wait : Duration) (y : Poll V)
      → InRange wait
      → t ≤ℤ min_utc
      → Above t (key now wait) (Event.next_event_time_system_time min_utc max_utc dt_getter now y)
  unfolding Event.next_event_time_system_time
  next-above t now wait Poll.pending r h = h
  next-above t now wait (Poll.item v) r h = elim (key_now now wait (dt_getter v)) [
    | inl e ↦ rw e (omega (arith, r.ends))
    | inr (le, ge) ↦ omega (arith, r.events v)
  ]
  next-above t now wait Poll.eof r h = omega (arith, key-max now wait now, r.ends)

  -- Whatever is called next, the watermark does not fall.
  step-mono :
      (t now later : DateTime) (c : EventClock) (y : Poll V)
      → InRange c.wait_for_system_duration
      → now ≤ℤ later
      → t ≤ℤ current now c
      → t ≤ℤ (Event.watermark min_utc max_utc dt_getter later c y).1
  unfolding Event.watermark
  step-mono t now later c y r h le = go c.max_event_time_system_time le
    where
      f : DateTime × DateTime → DateTime
      f = key later c.wait_for_system_duration

      go :
          (o : Option (DateTime × DateTime))
          → Above t (key now c.wait_for_system_duration) o
          → Above t f (
              Event.best min_utc max_utc dt_getter f o
                (Event.next_event_time_system_time min_utc max_utc dt_getter later y))
      go none le = next-above t later c.wait_for_system_duration y r le
      go (some a) le =
          best-above_left t f a _ (omega (arith, key-mono now later c.wait_for_system_duration a h))

  watermarks-above :
      (t now : DateTime) (c : EventClock) (calls : List (DateTime × Poll V))
      → InRange c.wait_for_system_duration
      → All (λ call. now ≤ℤ call.0) calls
      → Pairs (λ x y. x.0 ≤ℤ y.0) calls
      → t ≤ℤ current now c
      → All (λ m. t ≤ℤ m) (watermarks c calls)
  unfolding watermarks Event.watermark
  watermarks-above t now c [] r after rising h = tt
  watermarks-above t now c ((later, y) ∷ calls) r after rising h =
      let reached = step-mono t now later c y r after.0 h in
      (
        reached,
        watermarks-above t later (Event.watermark min_utc max_utc dt_getter later c y).0 calls r
            rising.0 rising.1 reached,
      )

  -- Over calls in the order of the system time the watermarks never go back, where the times of the
  -- items less the wait are instants.
  pub watermarks-Pairs :
      (c : EventClock) (calls : List (DateTime × Poll V))
      → InRange c.wait_for_system_duration
      → Pairs (λ x y. x.0 ≤ℤ y.0) calls
      → Pairs ◌≤ℤ◌ (watermarks c calls)
  unfolding watermarks Event.watermark
  watermarks-Pairs c [] r rising = tt
  watermarks-Pairs c ((now, y) ∷ calls) r rising =
      let (c', t) = Event.watermark min_utc max_utc dt_getter now c y in
      (
        watermarks-above t now c' calls r rising.0 rising.1 (omega arith),
        watermarks-Pairs c' calls r rising.1,
      )

  -- At the end of the input the watermark is the end of time or later, and stays so over the calls
  -- that follow in the order of the system time, where the times of the items less the wait are
  -- instants.
  pub watermarks-eof :
      (c : EventClock) (now : DateTime) (calls : List (DateTime × Poll V))
      → InRange c.wait_for_system_duration
      → All (λ call. now ≤ℤ call.0) calls
      → Pairs (λ x y. x.0 ≤ℤ y.0) calls
      → All (λ m. max_utc ≤ℤ m) (watermarks c ((now, Poll.eof) ∷ calls))
  unfolding watermarks Event.watermark Event.next_event_time_system_time
  watermarks-eof c now calls r after rising =
      let (c', t) = Event.watermark min_utc max_utc dt_getter now c Poll.eof in
      let reached =
        best-above_right max_utc (key now c.wait_for_system_duration) c.max_event_time_system_time
          (max_utc, now) (key-max now c.wait_for_system_duration now) in
      (reached, watermarks-above max_utc now c' calls r after rising reached)
