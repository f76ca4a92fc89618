-- ===== src/Stateful/Working.antt =====
-- The `unary` operator (src/operators/mod.rs) over the epochs of an activation.
use bytewax.Prelude.{
  ℕ, ◌≤◌, ◌≡◌, refl, sym, subst, ltb, leb, true, Option, some, List, [], ◌∷◌, ◌++◌, map,
  if◌then◌else◌, arith, All, All-map,
}
use bytewax.Prelude.Order.Ord.{Ord, ℕ_ord}
use bytewax.Prelude.Order.Map.{lookup, remove, All-remove}
use bytewax.Prelude.Order.Set
use bytewax.Window.Types.{DateTime}
use bytewax.Timely.Buffer.{InBuffer, or_empty}
use bytewax.Timely.Buffer
use bytewax.Stateful.Defs.{is_closed}
use bytewax.Stateful.Unary.{UnaryLogic}
use bytewax.Stateful.Scheduled.{IsScheduled}
use bytewax.Stateful.Notify.{run_epoch-IsScheduled}
use bytewax.Stateful.Pending.{Pending, or_empty-Pending, remove-Pending, after-Pending, Below}
use bytewax.Stateful.UnaryLoop.{UnaryOperator, SentEpoch, work_unary, work_all}

-- The epochs rise from the first capability to the last, or stay.
abbrev pub Climbs : ℕ → List ℕ → ℕ → Type 0
Climbs from [] to = from ≤ to
Climbs from (e ∷ es) to = (from ≤ e) × Climbs e es to

pub Climbs-append :
    (from middle to : ℕ) (xs ys : List ℕ)
    → Climbs from xs middle
    → Climbs middle ys to
    → Climbs from (xs ++ ys) to
Climbs-append from middle to [] [] h g = omega (arith, h, g)
Climbs-append from middle to [] (y ∷ ys) h g = (omega (arith, h, g.0), g.1)
Climbs-append from middle to (x ∷ xs) ys h g = (h.0, Climbs-append x middle to xs ys h.1 g)

module _ {K V L S : Type 0} ⦃o : Ord K⦄ (this_worker : ℕ) where
  -- The operator with the epochs still to work on.
  pub record Ready (frontier : Option ℕ) (floor : ℕ) (epochs : List ℕ) (s : UnaryOperator K V L S)
      : Type 0 where
    pub same : s.kv_downstream_cap ≡ s.snap_cap
    pub items : All (Pending this_worker frontier epochs) s.inbuf
    pub loads : All (Pending this_worker frontier epochs) s.loads_inbuf
    pub items_from : All (λ (e : ℕ × List (ℕ × (K × V))). floor ≤ e.0) s.inbuf
    pub loads_from : All (λ e. floor ≤ e.0) s.loads_inbuf
    pub scheduled : IsScheduled s.state

module _ {K V R L S : Type 0} ⦃o : Ord K⦄ (logic : UnaryLogic V R L S) (this_worker : ℕ) where
  work_unary-Ready :
      (frontier : Option ℕ) (floor : ℕ) (now : DateTime) (epoch : ℕ) (epochs : List ℕ)
      (s : UnaryOperator K V L S)
      → Ready this_worker frontier floor (epoch ∷ epochs) s
      → s.kv_downstream_cap ≤ epoch
      → (out : UnaryOperator K V L S × SentEpoch K R S) × (work_unary logic this_worker frontier now
            epoch s
          ≡ some out)
        × Ready this_worker frontier floor epochs out.0
        × (out.0.kv_downstream_cap ≡ epoch)
        × (out.1.epoch ≡ epoch)
  unfolding work_unary Buffer.remove
  work_unary-Ready frontier floor now epoch epochs s r le =
      let (out, runs, scheduled) =
        run_epoch-IsScheduled logic now this_worker frontier epoch (or_empty (lookup epoch s.inbuf))
          (or_empty (lookup epoch s.loads_inbuf)) s.state
          (or_empty-Pending this_worker frontier (epoch ∷ epochs) epoch s.inbuf r.items)
          (or_empty-Pending this_worker frontier (epoch ∷ epochs) epoch s.loads_inbuf r.loads)
          r.scheduled in
      let first : leb s.kv_downstream_cap epoch ≡ true = ground (arith, le) in
      let second : leb s.snap_cap epoch ≡ true = ground (arith, le, r.same) in
      let (loads, loads_from) =
        after-Pending this_worker frontier floor epoch epochs s.loads_inbuf r.loads r.loads_from in
      (
        (
          record {
            kv_downstream_cap = epoch;
            snap_cap = epoch;
            state = out.0;
            inbuf = remove epoch s.inbuf;
            loads_inbuf =
                if is_closed frontier epoch then remove epoch s.loads_inbuf else s.loads_inbuf;
          },
          record { epoch = epoch; outputs = out.1; changes = out.2 },
        ),
        rw (first, second, runs) refl,
        record {
          same = refl;
          items = remove-Pending this_worker frontier epoch epochs s.inbuf r.items;
          loads = loads;
          items_from = All-remove (λ e. floor ≤ e.0) epoch s.inbuf r.items_from;
          loads_from = loads_from;
          scheduled = scheduled;
        },
        refl,
        refl,
      )

  pub work_all-Ready :
      (frontier : Option ℕ) (floor : ℕ) (now : DateTime) (epochs : List ℕ)
      (s : UnaryOperator K V L S)
      → Ready this_worker frontier floor epochs s
      → All (λ e. s.kv_downstream_cap ≤ e) epochs
      → Below frontier s.kv_downstream_cap
      → All (Below frontier) epochs
      → Set.Ascends epochs
      → (out : UnaryOperator K V L S × List (SentEpoch K R S)) × (work_all logic this_worker
            frontier now epochs s
          ≡ some out)
        × Ready this_worker frontier floor [] out.0
        × (map (λ (x : SentEpoch K R S). x.epoch) out.1 ≡ epochs)
        × Climbs s.kv_downstream_cap epochs out.0.kv_downstream_cap
        × Below frontier out.0.kv_downstream_cap
  unfolding work_all
  work_all-Ready frontier floor now [] s r from below within up =
      ((s, []), refl, r, refl, omega arith, below)
  work_all-Ready frontier floor now (epoch ∷ epochs) s r from below within up =
      let (first, e, r', at, sent) = work_unary-Ready frontier floor now epoch epochs s r from.0 in
      let (rest, f, r'', same, climbs, last) =
        work_all-Ready frontier floor now epochs first.0 r'
          (All-map (λ j. ltb epoch j ≡ true) (λ j lt. ground (arith, lt, at)) epochs up.0)
          (subst (Below frontier) (sym at) within.0) within.1 up.1 in
      (
        (rest.0, first.1 ∷ rest.1),
        rw (e, f) refl,
        r'',
        λ i. sent i ∷ same i,
        (from.0, subst (λ c. Climbs c epochs rest.0.kv_downstream_cap) at climbs),
        last,
      )
