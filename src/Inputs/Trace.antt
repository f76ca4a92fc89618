-- ===== src/Inputs/Trace.antt =====
-- The order in which a partition sends its items and its snapshots (src/inputs.rs).
use bytewax.Prelude.{
  ℕ, suc, ◌+◌, ==_iff, ◌≤◌, ◌<◌, ◌≡◌, ◌⊎◌, refl, sym, ap, subst, ◌∙◌, Bool, true, false, not, ◌&&◌,
  ◌||◌, Option, none, some, List, [], ◌∷◌, ◌++◌, length, ◌>>=◌, arith, All, All-map, Pairs,
  Bool-cases, inl, inr, ltb_ℤ, ◌-ℤ◌,
}
use mathlib.Core.List.{append-nil}
use bytewax.Prelude.Words.{wrap_u64}
use bytewax.Window.Types.{DateTime, Duration}
use bytewax.Inputs.Defs.{
  Source, PartState, Event, items, snap, Step, BatchResult, batch, eof, abort, downgrade,
  default_next_awake, take_result, take_batch, close_epoch, end_epoch, step_part, awake_due,
}

module _ {S I : Type 0} where
  -- The epoch of an event.
  abbrev pub epoch_of : Event S I → ℕ
  epoch_of (items e xs) = e
  epoch_of (snap e s) = e

  -- From one event to a later one the epochs do not fall, and after a snapshot they rise.
  abbrev pub Follows : Event S I → Event S I → Type 0
  Follows (items e xs) b = e ≤ epoch_of b
  Follows (snap e s) b = e < epoch_of b

  -- The events of a run: none is of an earlier epoch than the partition's, in order.
  abbrev pub Ordered : ℕ → List (Event S I) → Type 0
  Ordered e ev = All (λ x. e ≤ epoch_of x) ev × Pairs Follows ev

-- No method of the source raises.
pub record Returns {St S I : Type 0} (source : Source St S I) : Type 0 where
  pub built :
      (now : DateTime) (state : Option S) → (st : St) × (source.build_part now state ≡ some st)
  pub batched :
      (st : St) (sched : Option DateTime)
      → (out : St × BatchResult I) × (source.next_batch st sched ≡ some out)
  pub awoken : (st : St) → (t : Option DateTime) × (source.next_awake st ≡ some t)
  pub snapped : (st : St) → (x : S) × (source.snapshot st ≡ some x)

module _ {St S I : Type 0} where
  module _ (source : Source St S I) (epoch_interval : Duration) (behind : DateTime → ℕ → Bool) where
    -- A row of activations of one partition, up to its end.
    unfoldable pub run : PartState St → List DateTime → Option (List (Event S I))
    run p [] = some []
    run p (now ∷ times) = do
      s ← step_part source epoch_interval (behind now) now p
      elim s.is_eof [
        | true ↦ some s.events
        | false ↦ do later ← run s.after times; some (s.events ++ later)
      ]

    -- What an activation sends: at most a batch, and a snapshot if it ends the epoch.
    abbrev batches : ℕ → Option (List I) → List (Event S I)
    batches e none = []
    batches e (some xs) = items e xs ∷ []

    abbrev Stays : PartState St → Step St S I → Type 0
    Stays p s =
        (s.after.downstream_cap ≡ p.downstream_cap)
        × (b : Option (List I)) × (s.events ≡ batches p.downstream_cap b)

    abbrev Ends : PartState St → Step St S I → Type 0
    Ends p s =
        (s.after.downstream_cap ≡ p.downstream_cap + 1)
        × (b : Option (List I)) × (x : S) × (s.events
            ≡ batches p.downstream_cap b ++ snap p.downstream_cap x ∷ [])

    abbrev Taken : PartState St → Option (Step St S I) → Type 0
    Taken p s? = (s : Step St S I) × (s? ≡ some s) × Stays p s × (s.after.snap_cap ≡ p.snap_cap)

    take_result_lem :
        (now : DateTime) (p : PartState St) (st : St) (res : BatchResult I)
        → Returns source
        → Taken p (take_result source epoch_interval now p st res)
    unfolding take_result
    take_result_lem now p st (batch xs) r =
        let (t, e) = r.awoken st in
        (
          record {
            after = record p { part = st; next_awake = default_next_awake t (length xs) now };
            is_eof = false;
            aborts = false;
            events = items p.downstream_cap xs ∷ [];
          },
          rw e refl,
          (refl, some xs, refl),
          refl,
        )
    take_result_lem now p st eof r = (
      record { after = record p { part = st }; is_eof = true; aborts = false; events = [] },
      refl,
      (refl, none, refl),
      refl,
    )
    take_result_lem now p st abort r = (
      record { after = record p { part = st }; is_eof = false; aborts = true; events = [] },
      refl,
      (refl, none, refl),
      refl,
    )

    abbrev Goes : PartState St → Option (Step St S I) → Type 0
    Goes p t? =
        (t : Step St S I) × (t? ≡ some t)
        × (t.after.downstream_cap ≡ t.after.snap_cap)
        × (Stays p t ⊎ Ends p t)

    downgrade_next :
        (cap : ℕ) → cap < 18446744073709551615 → downgrade cap (wrap_u64 (cap + 1)) ≡ some (cap + 1)
    unfolding downgrade
    downgrade_next cap room = ground arith

    abbrev closed : DateTime → ℕ → S → Step St S I → Step St S I
    closed now epoch x s = record s {
      after = record s.after {
        downstream_cap = epoch + 1;
        snap_cap = epoch + 1;
        epoch_started = now;
      };
      events = s.events ++ snap epoch x ∷ [];
    }

    close_epoch_lem :
        (now : DateTime) (p : PartState St) (s : Step St S I)
        → p.downstream_cap ≡ p.snap_cap
        → p.downstream_cap < 18446744073709551615
        → Returns source
        → Stays p s × (s.after.snap_cap ≡ p.snap_cap)
        → Goes p (close_epoch source epoch_interval now p.downstream_cap s)
    unfolding close_epoch
    close_epoch_lem now p s same room r ((c, b, sent), d) =
        let (x, e) = r.snapped s.after.part in
        (
          closed now p.downstream_cap x s,
          rw (e, c, d, sym same, downgrade_next p.downstream_cap room) refl,
          refl,
          inr (refl, b, x, ap (λ ev. ev ++ snap p.downstream_cap x ∷ []) sent),
        )

    end_epoch_lem :
        (now : DateTime) (p : PartState St) (s : Step St S I)
        → p.downstream_cap ≡ p.snap_cap
        → p.downstream_cap < 18446744073709551615
        → Returns source
        → Stays p s × (s.after.snap_cap ≡ p.snap_cap)
        → Goes p (end_epoch source epoch_interval now p.downstream_cap s)
    unfolding end_epoch
    end_epoch_lem now p s same room r h =
        elim (Bool-cases (not (ltb_ℤ (now -ℤ s.after.epoch_started) epoch_interval) || s.is_eof)) [
          | inl e ↦ rw e (close_epoch_lem now p s same room r h)
          | inr e ↦ rw e (s, refl, h.0.0 ∙ same ∙ sym h.1, inl h.0)
        ]

    step_part-Goes :
        (p : PartState St) (now : DateTime)
        → p.downstream_cap ≡ p.snap_cap
        → p.downstream_cap < 18446744073709551615
        → Returns source
        → Goes p (step_part source epoch_interval (behind now) now p)
    unfolding step_part take_batch
    step_part-Goes p now same room r =
        rw ((==_iff p.downstream_cap p.snap_cap).1 same)
          (elim (Bool-cases (not (behind now p.downstream_cap) && awake_due p.next_awake now)) [
            | inl e ↦
                let ((st, res), f) = r.batched p.part p.next_awake in
                let (s, g, stays, d) = take_result_lem now p st res r in
                rw (e, f, g) (end_epoch_lem now p s same room r (stays, d))
            | inr e ↦ rw e (
              record { after = p; is_eof = false; aborts = false; events = [] },
              refl,
              same,
              inl (refl, none, refl),
            )
          ])

    lower :
        (d e : ℕ) (ev : List (Event S I))
        → d ≤ e
        → All (λ x. e ≤ epoch_of x) ev
        → All (λ x. d ≤ epoch_of x) ev
    lower d e ev h = All-map (λ x. e ≤ epoch_of x) (λ x k. omega arith) ev

    reach :
        (p : PartState St) (s : Step St S I)
        → Stays p s ⊎ Ends p s
        → (n : ℕ) → p.downstream_cap + suc n ≤ 18446744073709551615
        → s.after.downstream_cap + n ≤ 18446744073709551615
    reach p s (inl (c, b, e)) n room = omega arith
    reach p s (inr (c, b, x, e)) n room = omega arith

    append-Ordered :
        (p : PartState St) (s : Step St S I) (later : List (Event S I))
        → Stays p s ⊎ Ends p s
        → Ordered s.after.downstream_cap later
        → Ordered p.downstream_cap (s.events ++ later)
    append-Ordered p s later (inl (c, none, sent)) h = rw (sent, sym c) h
    append-Ordered p s later (inl (c, some xs, sent)) h =
        let low = lower p.downstream_cap s.after.downstream_cap later (omega arith) h.0 in
        rw sent ((omega arith, low), (low, h.1))
    append-Ordered p s later (inr (c, none, x, sent)) h =
        let low = lower (suc p.downstream_cap) s.after.downstream_cap later (omega arith) h.0 in
        rw sent (
          (omega arith, lower p.downstream_cap (suc p.downstream_cap) later (omega arith) low),
          (low, h.1),
        )
    append-Ordered p s later (inr (c, some xs, x, sent)) h =
        let low = lower (suc p.downstream_cap) s.after.downstream_cap later (omega arith) h.0 in
        let weak = lower p.downstream_cap (suc p.downstream_cap) later (omega arith) low in
        rw sent ((omega arith, (omega arith, weak)), ((omega arith, weak), (low, h.1)))

    abbrev Runs : PartState St → List DateTime → Type 0
    Runs p times = (ev : List (Event S I)) × (run p times ≡ some ev) × Ordered p.downstream_cap ev

    run-cons :
        (p : PartState St) (s : Step St S I) (now : DateTime) (times : List DateTime)
        (later : List (Event S I))
        → step_part source epoch_interval (behind now) now p ≡ some s
        → run s.after times ≡ some later
        → Stays p s ⊎ Ends p s
        → Ordered s.after.downstream_cap later
        → Runs p (now ∷ times)
    unfolding run
    run-cons p s now times later steps runs goes ordered = elim (Bool-cases s.is_eof) [
      | inl e ↦ (
        s.events,
        rw (steps, e) refl,
        subst (Ordered p.downstream_cap) (append-nil s.events)
            (append-Ordered p s [] goes (tt, tt)),
      )
      | inr e ↦ (s.events ++ later, rw (steps, e, runs) refl, append-Ordered p s later goes ordered)
    ]

    -- However often a partition is activated, it sends its items and its snapshots in the order of
    -- the epochs, and after the snapshot of an epoch nothing more of that epoch, if its two
    -- capabilities stand at the same epoch, the epochs stay below 2 ^ 64, and the methods of the source
    -- do not raise. No panic takes place.
    pub run-Ordered :
        (p : PartState St) (times : List DateTime)
        → p.downstream_cap ≡ p.snap_cap
        → p.downstream_cap + length times ≤ 18446744073709551615
        → Returns source
        → (ev : List (Event S I)) × (run p times ≡ some ev) × Ordered p.downstream_cap ev
    unfolding run
    run-Ordered p [] same room r = ([], refl, (tt, tt))
    run-Ordered p (now ∷ times) same room r =
        let (s, steps, same', goes) = step_part-Goes p now same (omega arith) r in
        let (later, runs, ordered) =
          run-Ordered s.after times same' (reach p s goes (length times) room) r in
        run-cons p s now times later steps runs goes ordered

    -- How far an activation takes a partition, and the epoch of what it sends.
    pub step_part_bounds :
        (p : PartState St) (now : DateTime)
        → p.downstream_cap ≡ p.snap_cap
        → p.downstream_cap < 18446744073709551615
        → Returns source
        → (s : Step St S I) × (step_part source epoch_interval (behind now) now p ≡ some s)
          × (s.after.downstream_cap ≡ s.after.snap_cap)
          × (p.downstream_cap ≤ s.after.downstream_cap)
          × (s.after.downstream_cap ≤ p.downstream_cap + 1)
          × All (λ x. epoch_of x ≡ p.downstream_cap) s.events
    step_part_bounds p now same room r =
        let (s, steps, same', goes) = step_part-Goes p now same room r in
        let (low, high, at) = bounds p s goes in (s, steps, same', low, high, at)
      where
        bounds :
            (p : PartState St) (s : Step St S I)
            → Stays p s ⊎ Ends p s
            → (p.downstream_cap ≤ s.after.downstream_cap)
              × (s.after.downstream_cap ≤ p.downstream_cap + 1)
              × All (λ x. epoch_of x ≡ p.downstream_cap) s.events
        bounds p s (inl (c, none, sent)) = (omega arith, omega arith, rw sent tt)
        bounds p s (inl (c, some xs, sent)) = (omega arith, omega arith, rw sent (refl, tt))
        bounds p s (inr (c, none, x, sent)) = (omega arith, omega arith, rw sent (refl, tt))
        bounds p s (inr (c, some xs, x, sent)) =
            (omega arith, omega arith, rw sent (refl, (refl, tt)))
