-- ===== src/Timely/Rounds.antt =====
-- What `EagerNotificator::for_each` (src/timely.rs) runs, where the logics do not panic.
use bytewax.Prelude.{
  ℕ, ltb, leb, true, not, Option, none, some, List, [], ◌∷◌, ◌≡◌, ◌≤◌, refl, arith, All, All-map,
  All-filter, filter-passes, filter, if◌then◌else◌, Bool-cases, inl, inr,
}
use bytewax.Prelude.Order.Ord.{ℕ_ord}
use bytewax.Prelude.Order.Set
use bytewax.Prelude.Order.Set.{Ascends, Ascends-filter}
use bytewax.Timely.Notificator.{
  Running, split_off, downgrade_all, close_epochs, at_frontier, for_each,
}

module _ {D E : Type 0} (eager close : ℕ → D × E → D × E) where
  -- Both logics, epoch by epoch.
  unfoldable pub work : List ℕ → D × E → D × E
  work [] dx = dx
  work (epoch ∷ es) dx = work es (close epoch (eager epoch dx))

  -- The eager logic, at a frontier that has been notified.
  unfoldable pub work_at : ℕ → List ℕ → D × E → D × E
  work_at f queue dx = if Set.contains f queue then eager f dx else dx

  abbrev eager_logic : ℕ → D × E → Option (D × E)
  eager_logic epoch dx = some (eager epoch dx)

  abbrev close_logic : ℕ → D × E → Option (D × E)
  close_logic epoch dx = some (close epoch dx)

  close_epochs-work :
      (es : List ℕ) (r : Running D) (x : E)
      → Ascends es
      → All (λ e. r.cap ≤ e) es
      → (c : ℕ) × (close_epochs eager_logic close_logic es r x
          ≡ some (record { cap = c; state = (work es (r.state, x)).0 }, (work es (r.state, x)).1))
        × ((b : ℕ) → r.cap ≤ b → All (λ e. e ≤ b) es → c ≤ b)
  unfolding close_epochs work
  close_epochs-work [] r x up from = (r.cap, refl, λ b le h. le)
  close_epochs-work (e ∷ es) r x up from =
      let dx = close e (eager e (r.state, x)) in
      let (c, runs, le) =
        close_epochs-work es (record { cap = e; state = dx.0 }) dx.1 up.1
          (All-map (λ j. ltb e j ≡ true) (λ j lt. ground (arith, lt)) es up.0) in
      (c, rw (from_here) runs, λ b at h. le b h.0 h.1)
    where
      from_here : leb r.cap e ≡ true
      from_here = ground (arith, from)

  -- From a queue in ascending order, at or after the capability, and to a frontier at or after it:
  -- both logics run once for each epoch of the queue before the frontier, in order, and then, where
  -- the frontier itself is in the queue, the eager logic runs for it. There is no panic; the epochs
  -- from the frontier on stay in the queue, and the capability stands at the frontier.
  pub for_each-work :
      (f : ℕ) (queue : List ℕ) (r : Running D) (x : E)
      → Ascends queue
      → All (λ e. r.cap ≤ e) queue
      → r.cap ≤ f
      → let closed = filter (λ e. ltb e f) queue in
        let rest = filter (λ e. not (ltb e f)) queue in
        let done = work_at f rest (work closed (r.state, x)) in
        for_each eager_logic close_logic (some f) (record { caps_state = some r; queue = queue }) x
        ≡ some (
          record { caps_state = some (record { cap = f; state = done.0 }); queue = rest },
          done.1,
        )
  unfolding for_each at_frontier downgrade_all split_off work_at
  for_each-work f queue r x up from le =
      let closed = filter (λ e. ltb e f) queue in
      let (c, runs, last) =
        close_epochs-work closed r x (Ascends-filter (λ e. ltb e f) queue up)
          (All-filter (λ e. ltb e f) (λ e. r.cap ≤ e) queue from) in
      let rest = filter (λ e. not (ltb e f)) queue in
      let passes = filter-passes (λ e. ltb e f) queue in
      let before =
        last f le (All-map (λ e. ltb e f ≡ true) (λ e lt. ground (arith, lt)) closed passes) in
      let reaches : leb c f ≡ true = ground (arith, before) in
      rw (runs, at_frontier, reaches)
        (elim (Bool-cases (Set.contains f rest)) [
          | inl there ↦ rw there refl
          | inr absent ↦ rw absent refl
        ])

  -- At the end of the input both logics run once for each epoch of the queue, in order, and the
  -- state is dropped.
  pub for_each-eof :
      (queue : List ℕ) (r : Running D) (x : E)
      → Ascends queue
      → All (λ e. r.cap ≤ e) queue
      → for_each eager_logic close_logic none (record { caps_state = some r; queue = queue }) x
        ≡ some (record { caps_state = none; queue = [] }, (work queue (r.state, x)).1)
  unfolding for_each at_frontier split_off
  for_each-eof queue r x up from =
      let (c, runs, last) = close_epochs-work queue r x up from in rw runs refl
