-- ===== src/Examples/Session.antt =====
-- Sessions with a gap of 10 ns.
use bytewax.Prelude.{
  ◌≡◌, refl, ◌⊎◌, pos, pos_part, ◌+ℤ◌, ◌≤ℤ◌, ◌<ℤ◌, none, some, [], ◌∷◌, arith, ap, All, Any,
}
use bytewax.Window.Types.{WindowKey, ok, late}
use bytewax.Window.Session.Defs.{
  Session, SessionWindower, session_metadata, find, insert_item, drain_closed,
}
use bytewax.Window.Session.Merge.{Covers}
use bytewax.Window.Session.Insert.{IsValid, insert_item-takes}
use bytewax.Window.Session.Closing.{drain_closed-parts}
use bytewax.Window.Session.Orphan.{insert_item-orphans}
use bytewax.Examples.Sort.{by_start}

abbrev pub early : Session
early = record { key = pos 1; start = pos 100; latest_event_time = pos 105 }

abbrev pub late_one : Session
late_one = record { key = pos 2; start = pos 200; latest_event_time = pos 200 }

abbrev pub one_session : SessionWindower
one_session = record { gap = pos 10; sessions = early ∷ []; max_key = pos 1 }

abbrev pub two_sessions : SessionWindower
two_sessions = record { gap = pos 10; sessions = early ∷ late_one ∷ []; max_key = pos 2 }

pub one_session-IsValid : IsValid one_session
one_session-IsValid = record {
  positive = omega arith;
  merged = record { spans = (omega arith, tt); separated = (tt, tt); different = (tt, tt) };
  issued = (omega arith, tt);
}

pub two_sessions-IsValid : IsValid two_sessions
unfolding ◌+ℤ◌
two_sessions-IsValid = record {
  positive = omega arith;
  merged = record {
    spans = omega arith;
    separated = (omega arith, (tt, tt));
    different = (((λ e. omega (arith, ap pos_part e)), tt), (tt, tt));
  };
  issued = omega arith;
}

insert_item-takes_example :
    ((pos 110 <ℤ pos 90)
      × (insert_item by_start two_sessions (pos 90) (pos 110)
          ≡ some (two_sessions, late (pos 2) ∷ [])))
    ⊎ ((pos 90 ≤ℤ pos 110)
        × (w' : SessionWindower) × (k : WindowKey) × (insert_item by_start two_sessions
              (pos 90)
              (pos 110)
            ≡ some (w', ok k ∷ []))
        × IsValid w'
        × Any (λ s. (s.key ≡ k) × Covers (pos 110) (pos 110) s) w'.sessions
        × All (λ s. Any (Covers s.start s.latest_event_time) w'.sessions) two_sessions.sessions)
unfolding ◌+ℤ◌
insert_item-takes_example =
    insert_item-takes by_start two_sessions (pos 90) (pos 110) two_sessions-IsValid
      (omega arith, omega arith)

drain_closed-parts_example :
    All
      (λ s.
        ((s.latest_event_time +ℤ pos 10 ≤ℤ pos 150)
          × Any (λ e. e ≡ (s.key, session_metadata s)) (drain_closed two_sessions (pos 150)).1)
        ⊎ ((pos 150 <ℤ s.latest_event_time +ℤ pos 10)
            × Any (λ r. r ≡ s) (drain_closed two_sessions (pos 150)).0.sessions))
      two_sessions.sessions
    × IsValid (drain_closed two_sessions (pos 150)).0
    × All
        (λ r. (pos 150 <ℤ r.latest_event_time +ℤ pos 10) × Any (λ s. s ≡ r) two_sessions.sessions)
        (drain_closed two_sessions (pos 150)).0.sessions
    × All
        (λ e.
          Any
            (λ s. (s.latest_event_time +ℤ pos 10 ≤ℤ pos 150) × (e ≡ (s.key, session_metadata s)))
            two_sessions.sessions)
        (drain_closed two_sessions (pos 150)).1
drain_closed-parts_example = drain_closed-parts two_sessions (pos 150) two_sessions-IsValid

insert_item-orphans_example :
    (w' : SessionWindower) × (insert_item by_start one_session (pos 90) (pos 95)
      ≡ some (w', ok (pos 1 +ℤ pos 1) ∷ []))
    × (w'.sessions
        ≡ record { key = pos 1 +ℤ pos 1; start = pos 95; latest_event_time = pos 105 } ∷ [])
    × (find (pos 1) w'.sessions ≡ none)
unfolding ◌+ℤ◌
insert_item-orphans_example =
    insert_item-orphans by_start one_session (pos 90) (pos 95) early one_session-IsValid refl
      (omega arith, omega arith) (omega arith) (omega arith) (omega arith)
