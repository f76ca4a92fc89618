-- ===== src/Stateful/Steady.antt =====
-- The `unary` operator (src/operators/mod.rs) over any row of activations.
use mathlib.Core.List.{map-append}
use bytewax.Prelude.{
  ℕ, ◌≤◌, ◌≡◌, refl, sym, subst, ==_iff, Option, none, some, List, [], ◌∷◌, ◌++◌, map,
  if◌then◌else◌, arith, All, All-map,
}
use bytewax.Prelude.Order.Ord.{Ord, ℕ_ord}
use bytewax.Window.Types.{Duration}
use bytewax.Timely.Buffer.{InBuffer, or_empty}
use bytewax.Timely.Buffer
use bytewax.Stateful.Defs.{is_eof, or_else}
use bytewax.Stateful.Activation.{activate_after, closed_epochs}
use bytewax.Stateful.Unary.{UnaryLogic}
use bytewax.Stateful.Scheduled.{IsScheduled}
use bytewax.Stateful.Waits.{
  Waits, extend_all-Waits, keys-Waits, closed_epochs-Ascends, closed_epochs-All,
}
use bytewax.Stateful.Pending.{
  Pending-Waits, Waits-Pending, contains-closed_epochs, Below, closed_epochs-Below,
}
use bytewax.Stateful.Epochs.{process_epochs-closed_epochs}
use bytewax.Stateful.Working.{Climbs, Climbs-append, Ready, work_all-Ready}
use bytewax.Stateful.UnaryLoop.{UnaryOperator, Arrival, SentEpoch, unary, unary_all}

Below-start :
    (frontier : Option ℕ) (floor from : ℕ)
    → from ≤ floor
    → floor ≤ or_else floor frontier
    → (from ≤ or_else from frontier) × Below frontier from
Below-start none floor from h g = (omega arith, tt)
Below-start (some f) floor from h g = (omega (arith, h, g), omega (arith, h, g))

-- The frontier after the activations.
abbrev pub last_frontier : {K V S : Type 0} → ℕ → List (Arrival K V S) → ℕ
last_frontier floor [] = floor
last_frontier floor (a ∷ arrivals) = last_frontier (or_else floor a.frontier) arrivals

module _ {K V S : Type 0} (this_worker : ℕ) where
  -- The frontier does not go back, and what arrives is for this worker and not before it.
  abbrev pub Promised : ℕ → List (Arrival K V S) → Type 0
  Promised floor [] = Unit
  Promised floor (a ∷ arrivals) =
      (floor ≤ or_else floor a.frontier)
      × All (Waits this_worker floor) a.items
      × All (Waits this_worker floor) a.loads
      × Promised (or_else floor a.frontier) arrivals

module _ {K V L S : Type 0} ⦃o : Ord K⦄ (this_worker : ℕ) where
  -- Between the activations, at a frontier: the capabilities are at one epoch and not after it, what
  -- waits is for this worker and not before it, and each key with a notification has a logic.
  pub record Settled (floor : ℕ) (s : UnaryOperator K V L S) : Type 0 where
    pub same : s.kv_downstream_cap ≡ s.snap_cap
    pub below : s.kv_downstream_cap ≤ floor
    pub items : All (Waits this_worker floor) s.inbuf
    pub loads : All (Waits this_worker floor) s.loads_inbuf
    pub scheduled : IsScheduled s.state

  abbrev pub Steady : ℕ → ℕ → Option (UnaryOperator K V L S) → Type 0
  Steady floor cap none = Unit
  Steady floor cap (some s) = Settled floor s × (s.kv_downstream_cap ≡ cap)

  settle-Steady :
      (frontier : Option ℕ) (floor : ℕ) (s : UnaryOperator K V L S)
      → Ready this_worker frontier floor [] s
      → Below frontier s.kv_downstream_cap
      → Steady
          (or_else floor frontier)
          s.kv_downstream_cap
          (if is_eof frontier then none else some s)
  settle-Steady none floor s r below = tt
  settle-Steady (some f) floor s r below = (
    record {
      same = r.same;
      below = below;
      items = Pending-Waits this_worker (some f) floor s.inbuf r.items_from r.items;
      loads = Pending-Waits this_worker (some f) floor s.loads_inbuf r.loads_from r.loads;
      scheduled = r.scheduled;
    },
    refl,
  )

module _ {K V R L S : Type 0} ⦃o : Ord K⦄ (logic : UnaryLogic V R L S) (this_worker : ℕ) where
  unary-Steady :
      (resume_epoch floor : ℕ) (a : Arrival K V S) (s : UnaryOperator K V L S)
      → floor ≤ or_else floor a.frontier
      → All (Waits this_worker floor) a.items
      → All (Waits this_worker floor) a.loads
      → Settled this_worker floor s
      → (out : Option (UnaryOperator K V L S) × List (SentEpoch K R S) × Option Duration) × (unary
            logic this_worker resume_epoch a
            (some s)
          ≡ some out)
        × (to : ℕ) × Steady this_worker (or_else floor a.frontier) to out.0
        × Climbs s.kv_downstream_cap (map (λ (x : SentEpoch K R S). x.epoch) out.1) to
  unfolding unary
  unary-Steady resume_epoch floor a s goes items loads h =
      let inbuf = Buffer.extend_all a.items s.inbuf in
      let loads_inbuf = Buffer.extend_all a.loads s.loads_inbuf in
      let waits = extend_all-Waits this_worker floor a.items s.inbuf items h.items in
      let loading = extend_all-Waits this_worker floor a.loads s.loads_inbuf loads h.loads in
      let from = s.kv_downstream_cap in
      let epochs =
        closed_epochs a.frontier resume_epoch from (Buffer.epochs inbuf)
          (Buffer.epochs loads_inbuf) in
      let into =
        contains-closed_epochs a.frontier resume_epoch from (Buffer.epochs inbuf)
          (Buffer.epochs loads_inbuf) in
      let (start, below) = Below-start a.frontier floor from h.below goes in
      let late : (es : List ℕ) → All (λ e. floor ≤ e) es → All (λ e. from ≤ e) es =
        All-map (λ e. floor ≤ e) (λ e le. omega (arith, le, h.below)) in
      let (out, runs, r, sent, climbs, last) =
        work_all-Ready logic this_worker a.frontier floor a.now epochs
          (record s { inbuf = inbuf; loads_inbuf = loads_inbuf })
          (record {
            same = h.same;
            items =
                Waits-Pending this_worker a.frontier floor epochs inbuf
                  (λ e closed there. into e closed (ground (arith, there))) waits;
            loads =
                Waits-Pending this_worker a.frontier floor epochs loads_inbuf
                  (λ e closed there. into e closed (ground (arith, there))) loading;
            items_from = All-map (Waits this_worker floor) (λ e w. w.0) inbuf waits;
            loads_from = All-map (Waits this_worker floor) (λ e w. w.0) loads_inbuf loading;
            scheduled = h.scheduled;
          })
          (closed_epochs-All a.frontier resume_epoch from (Buffer.epochs inbuf)
            (Buffer.epochs loads_inbuf) start
            (late (Buffer.epochs inbuf) (keys-Waits this_worker floor inbuf waits))
            (late (Buffer.epochs loads_inbuf) (keys-Waits this_worker floor loads_inbuf loading)))
          below
          (closed_epochs-Below a.frontier resume_epoch from (Buffer.epochs inbuf)
            (Buffer.epochs loads_inbuf))
          (closed_epochs-Ascends a.frontier resume_epoch from (Buffer.epochs inbuf)
            (Buffer.epochs loads_inbuf)) in
      (
        (
          (if is_eof a.frontier then none else some out.0),
          out.1,
          activate_after a.now out.0.state.sched_cache,
        ),
        rw
            (
              (==_iff s.kv_downstream_cap s.snap_cap).1 h.same,
              process_epochs-closed_epochs a.frontier resume_epoch from (Buffer.epochs inbuf)
                  (Buffer.epochs loads_inbuf),
              runs,
            )
            refl,
        out.0.kv_downstream_cap,
        settle-Steady this_worker a.frontier floor out.0 r last,
        subst (λ es. Climbs from es out.0.kv_downstream_cap) (sym sent) climbs,
      )

  ended :
      (resume_epoch : ℕ) (arrivals : List (Arrival K V S))
      → unary_all logic this_worker resume_epoch arrivals none ≡ some (none, [])
  unfolding unary_all unary
  ended resume_epoch [] = refl
  ended resume_epoch (a ∷ arrivals) = rw (ended resume_epoch arrivals) refl

  activations-Steady :
      (resume_epoch floor from : ℕ) (arrivals : List (Arrival K V S))
      (s : Option (UnaryOperator K V L S))
      → Promised this_worker floor arrivals
      → Steady this_worker floor from s
      → (out : Option (UnaryOperator K V L S) × List (SentEpoch K R S)) × (unary_all logic
            this_worker resume_epoch arrivals s
          ≡ some out)
        × (to : ℕ) × Steady this_worker (last_frontier floor arrivals) to out.0
        × Climbs from (map (λ (x : SentEpoch K R S). x.epoch) out.1) to
  unfolding unary_all
  activations-Steady resume_epoch floor from [] s promised h = ((s, []), refl, from, h, omega arith)
  activations-Steady resume_epoch floor from (a ∷ arrivals) none promised h =
      ((none, []), ended resume_epoch (a ∷ arrivals), from, tt, omega arith)
  activations-Steady resume_epoch floor from (a ∷ arrivals) (some s) (goes, items, loads, later)
        (h, at) =
      let (out, runs, middle, steady, climbs) =
        unary-Steady resume_epoch floor a s goes items loads h in
      let (last, rest, to, steady', climbs') =
        activations-Steady resume_epoch (or_else floor a.frontier) middle arrivals out.0 later
          steady in
      (
        (last.0, out.1 ++ last.1),
        rw (runs, rest) refl,
        to,
        steady',
        subst (λ es. Climbs from es to)
            (sym (map-append (λ (x : SentEpoch K R S). x.epoch) out.1 last.1))
            (Climbs-append from middle to (map (λ (x : SentEpoch K R S). x.epoch) out.1)
              (map (λ (x : SentEpoch K R S). x.epoch) last.1)
              (subst (λ c. Climbs c (map (λ (x : SentEpoch K R S). x.epoch) out.1) middle) at
                climbs)
              climbs'),
      )

  -- Over any activations of `unary` in which the frontier does not go back and what arrives is for this
  -- worker and not before the frontier, no assertion, downgrade or `unwrap` panics; the epochs that it
  -- sends at never go back; and unless it has dropped its capabilities, they are together at the last
  -- of those epochs and not after the frontier, what waits is for this worker and not before the
  -- frontier, and each key with a notification has a logic.
  pub unary_all-Steady :
      (resume_epoch floor : ℕ) (arrivals : List (Arrival K V S)) (s : UnaryOperator K V L S)
      → Promised this_worker floor arrivals
      → Settled this_worker floor s
      → (out : Option (UnaryOperator K V L S) × List (SentEpoch K R S)) × (unary_all logic
            this_worker resume_epoch arrivals
            (some s)
          ≡ some out)
        × (to : ℕ) × Steady this_worker (last_frontier floor arrivals) to out.0
        × Climbs s.kv_downstream_cap (map (λ (x : SentEpoch K R S). x.epoch) out.1) to
  unary_all-Steady resume_epoch floor arrivals s promised h =
      activations-Steady resume_epoch floor s.kv_downstream_cap arrivals (some s) promised (h, refl)
