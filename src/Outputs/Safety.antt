-- ===== src/Outputs/Safety.antt =====
-- The snapshots of a partitioned output find their partitions (src/outputs.rs).
use bytewax.Prelude.{
  ℕ, ◌≡◌, refl, Option, some, List, [], ◌∷◌, map, ◌++◌, ◌>>=◌, All, All-map, Bool-cases, inl, inr,
}
use bytewax.Prelude.Order.Ord.{Ord, eq_refl}
use bytewax.Prelude.Order.Map.{lookup, insert, lookup-insert}
use bytewax.Prelude.Order.Set
use bytewax.Timely.Parts.{or_new}
use bytewax.Timely.Buffer
use bytewax.Recovery.Change.{StateChange, upsert}
use bytewax.Outputs.Defs.{
  Sink, State, or_built, write_part, write_items, snapshot_all, load_parts, eager, close,
}

-- What the notificator calls: the eager logic, on the items that have arrived, and the close logic,
-- on the loads.
pub data Call (P S K V : Type 0) : Type 0 where
  eagerly : Option (List (P × List (K × V))) → Call P S K V
  closing : Option (List (ℕ × (P × StateChange S))) → Call P S K V

module _ {P St : Type 0} ⦃o : Ord P⦄ where
  -- Each partition that was written to in the epoch is there.
  abbrev pub AwokenBuilt : State P St → Type 0
  AwokenBuilt s = All (λ k. (st : St) × (lookup k s.parts ≡ some st)) s.awoken

module _ {P St S V : Type 0} ⦃o : Ord P⦄ (sink : P → Sink St S V) where
  snapshot_all-some :
      (ks : List P) (parts : List (P × St))
      → All (λ k. (st : St) × (lookup k parts ≡ some st)) ks
      → (snaps : List (P × StateChange S)) × (snapshot_all sink ks parts ≡ some snaps)
  unfolding snapshot_all
  snapshot_all-some [] parts h = ([], refl)
  snapshot_all-some (k ∷ ks) parts h =
      let (snaps, e) = snapshot_all-some ks parts h.1 in
      ((k, upsert ((sink k).snapshot h.0.0)) ∷ snaps, rw (h.0.1, e) refl)

module _ {P St S V K : Type 0} ⦃o : Ord P⦄ (sink : P → Sink St S V) (this_worker : ℕ) where
  unfoldable pub run_calls :
      List (Call P S K V) → State P St → Option (State P St × List (P × StateChange S))
  unfolding eager close
  run_calls [] s = some (s, [])
  run_calls (eagerly items ∷ calls) s = run_calls calls (eager sink items s)
  run_calls (closing loads ∷ calls) s = do
    (s', snaps) ← close sink this_worker loads s
    (last, later) ← run_calls calls s'
    some (last, snaps ++ later)

  write_part-AwokenBuilt :
      (k : P) (items : List (K × V)) (s : State P St)
      → AwokenBuilt s
      → AwokenBuilt (write_part sink k items s)
  unfolding write_part
  write_part-AwokenBuilt k items s h =
      let st =
        (sink k).write_batch (or_built sink k (lookup k s.parts))
          (map (λ (e : K × V). e.1) items) in
      Set.All-insert (λ j. (u : St) × (lookup j (insert k st s.parts) ≡ some u)) k s.awoken
        (st, rw (lookup-insert k k st s.parts, eq_refl k) refl)
        (All-map (λ j. (u : St) × (lookup j s.parts ≡ some u))
          (λ j built. elim (Bool-cases (o.eq k j)) [
            | inl e ↦ (st, rw (lookup-insert k j st s.parts, e) refl)
            | inr e ↦ (built.0, rw (lookup-insert k j st s.parts, e) built.1)
          ])
          s.awoken h)

  pub write_items-AwokenBuilt :
      (items : List (P × List (K × V))) (s : State P St)
      → AwokenBuilt s
      → AwokenBuilt (write_items sink items s)
  unfolding write_items
  write_items-AwokenBuilt [] s h = h
  write_items-AwokenBuilt ((k, batch) ∷ items) s h =
      write_items-AwokenBuilt items (write_part sink k batch s) (write_part-AwokenBuilt k batch s h)

  run_calls-some :
      (calls : List (Call P S K V)) (s : State P St)
      → AwokenBuilt s
      → (out : State P St × List (P × StateChange S)) × (run_calls calls s ≡ some out)
  unfolding run_calls close eager
  run_calls-some [] s h = ((s, []), refl)
  run_calls-some (eagerly items ∷ calls) s h =
      run_calls-some calls (write_items sink (or_new items) s)
        (write_items-AwokenBuilt (or_new items) s h)
  run_calls-some (closing loads ∷ calls) s h =
      let (snaps, e) = snapshot_all-some sink s.awoken s.parts h in
      let s' : State P St = record {
        parts = load_parts sink this_worker (Buffer.or_empty loads) s.parts;
        awoken = [];
      } in
      let (out, rest) = run_calls-some calls s' tt in ((out.0, snaps ++ out.1), rw (e, rest) refl)

  -- The `unwrap` in the close logic never fails: from the start, in whatever order the logics of a
  -- partitioned output are called and whatever has arrived, each partition to snapshot is there.
  pub run_calls_total :
      (calls : List (Call P S K V))
      → (out : State P St × List (P × StateChange S)) × (run_calls calls
            (record { parts = []; awoken = [] })
          ≡ some out)
  run_calls_total calls = run_calls-some calls (record { parts = []; awoken = [] }) tt
