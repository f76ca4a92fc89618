-- ===== src/Outputs/Epoch.antt =====
-- The epoch of a partitioned output: what is written in it and what is snapshotted (src/outputs.rs).
use bytewax.Prelude.{
  ℕ, ◌≡◌, refl, true, false, Bool, ◌||◌, sym, ap, subst, Option, none, some, List, [], ◌∷◌, map,
  if◌then◌else◌, arith, All, All-map, Bool-cases, inl, inr, ◌∙◌,
}
use bytewax.Prelude.Order.Ord.{Ord, eq_refl}
use bytewax.Prelude.Order.Map.{lookup, lookup-insert, Ascends, keys}
use bytewax.Prelude.Order.Entries.{lookup_below}
use bytewax.Prelude.Order.Set
use bytewax.Timely.Buffer
use bytewax.Recovery.Change.{StateChange, upsert}
use bytewax.Timely.Parts.{or_new}
use bytewax.Outputs.Safety.{AwokenBuilt, write_items-AwokenBuilt}
use bytewax.Outputs.Defs.{
  Sink, State, or_built, write_part, write_items, snapshot_all, load_parts, eager, close,
}

module _ {P St S V : Type 0} ⦃o : Ord P⦄ (sink : P → Sink St S V) where
  -- The snapshots of partitions that are all there.
  snapshot_all-each :
      (ks : List P) (parts : List (P × St))
      → All (λ k. (st : St) × (lookup k parts ≡ some st)) ks
      → (snaps : List (P × StateChange S)) × (snapshot_all sink ks parts ≡ some snaps)
        × (keys snaps ≡ ks)
        × All
            (λ e.
              (st : St) × (lookup e.0 parts ≡ some st) × (e.1 ≡ upsert ((sink e.0).snapshot st)))
            snaps
  unfolding snapshot_all
  snapshot_all-each [] parts h = ([], refl, refl, tt)
  snapshot_all-each (k ∷ ks) parts ((st, found), h) =
      let (snaps, e, same, each) = snapshot_all-each ks parts h in
      (
        (k, upsert ((sink k).snapshot st)) ∷ snaps,
        rw (found, e) refl,
        ap (λ js. k ∷ js) same,
        ((st, found, refl), each),
      )

module _ {P St S V K : Type 0} ⦃o : Ord P⦄ (sink : P → Sink St S V) where
  -- A partition after a batch, if there is one for it.
  abbrev pub written : P → Option St → Option (List (K × V)) → Option St
  written j st none = st
  written j st (some items) =
      some ((sink j).write_batch (or_built sink j st) (map (λ (e : K × V). e.1) items))

  write_part-written :
      (k j : P) (batch : List (K × V)) (s : State P St)
      → lookup j (write_part sink k batch s).parts
        ≡ (if o.eq k j then written j (lookup j s.parts) (some batch) else lookup j s.parts)
  unfolding write_part
  write_part-written k j batch s =
      let st =
        (sink k).write_batch (or_built sink k (lookup k s.parts))
          (map (λ (e : K × V). e.1) batch) in
      elim (Bool-cases (o.eq k j)) [
        | inl e ↦ rw (lookup-insert k j st s.parts, (o.eq_iff k j).0 e, eq_refl j) refl
        | inr e ↦ rw (lookup-insert k j st s.parts, e) refl
      ]

  write_items-written :
      (j : P) (items : List (P × List (K × V))) (s : State P St)
      → Ascends items
      → lookup j (write_items sink items s).parts ≡ written j (lookup j s.parts) (lookup j items)
  unfolding write_items lookup
  write_items-written j [] s h = refl
  write_items-written j ((k, batch) ∷ items) s h =
      let next = write_part sink k batch s in
      let rest = write_items-written j items next h.1 in
      elim (Bool-cases (o.eq k j)) [
        | inl e ↦ rw (rest, lookup_below k j items h.0 e, e, write_part-written k j batch s, e) refl
        | inr e ↦ rw (rest, e, write_part-written k j batch s, e) refl
      ]

  write_items-contains :
      (j : P) (items : List (P × List (K × V))) (s : State P St)
      → Set.contains j (write_items sink items s).awoken
        ≡ (if Set.contains j (keys items) then true else Set.contains j s.awoken)
  unfolding write_items write_part Set.contains
  write_items-contains j [] s = refl
  write_items-contains j ((k, batch) ∷ items) s = ground (
    arith,
    Set.contains-insert k j s.awoken,
    write_items-contains j items (write_part sink k batch s),
  )

  write_items-Ascends :
      (items : List (P × List (K × V))) (s : State P St)
      → Set.Ascends s.awoken
      → Set.Ascends (write_items sink items s).awoken
  unfolding write_items write_part
  write_items-Ascends [] s h = h
  write_items-Ascends ((k, batch) ∷ items) s h =
      write_items-Ascends items (write_part sink k batch s) (Set.Ascends-insert k s.awoken h)

  -- The eager logic of an epoch, which runs as often as items arrive.
  unfoldable pub eager_all : List (Option (List (P × List (K × V)))) → State P St → State P St
  unfolding eager
  eager_all [] s = s
  eager_all (part_to_items ∷ calls) s = eager_all calls (eager sink part_to_items s)

  -- A partition after the items of an epoch, in the order of their arrival, if there are any for it.
  abbrev pub written_all : P → Option St → List (Option (List (P × List (K × V)))) → Option St
  written_all j st [] = st
  written_all j st (part_to_items ∷ calls) =
      written_all j (written j st (lookup j (or_new part_to_items))) calls

  -- Whether items of the partition have arrived.
  abbrev pub is_written : P → List (Option (List (P × List (K × V)))) → Bool
  is_written j [] = false
  is_written j (part_to_items ∷ calls) =
      Set.contains j (keys (or_new part_to_items)) || is_written j calls

  eager_all-written :
      (j : P) (calls : List (Option (List (P × List (K × V))))) (s : State P St)
      → All (λ c. Ascends (or_new c)) calls
      → lookup j (eager_all calls s).parts ≡ written_all j (lookup j s.parts) calls
  unfolding eager_all eager
  eager_all-written j [] s up = refl
  eager_all-written j (c ∷ calls) s up =
      eager_all-written j calls (write_items sink (or_new c) s) up.1
      ∙ ap (λ st. written_all j st calls) (write_items-written j (or_new c) s up.0)

  eager_all-contains :
      (j : P) (calls : List (Option (List (P × List (K × V))))) (s : State P St)
      → Set.contains j (eager_all calls s).awoken
        ≡ (if is_written j calls then true else Set.contains j s.awoken)
  unfolding eager_all eager
  eager_all-contains j [] s = refl
  eager_all-contains j (c ∷ calls) s = ground (
    arith,
    eager_all-contains j calls (write_items sink (or_new c) s),
    write_items-contains j (or_new c) s,
  )

  eager_all-Ascends :
      (calls : List (Option (List (P × List (K × V))))) (s : State P St)
      → Set.Ascends s.awoken
      → Set.Ascends (eager_all calls s).awoken
  unfolding eager_all eager
  eager_all-Ascends [] s h = h
  eager_all-Ascends (c ∷ calls) s h =
      eager_all-Ascends calls (write_items sink (or_new c) s) (write_items-Ascends (or_new c) s h)

  eager_all-AwokenBuilt :
      (calls : List (Option (List (P × List (K × V))))) (s : State P St)
      → AwokenBuilt s
      → AwokenBuilt (eager_all calls s)
  unfolding eager_all eager
  eager_all-AwokenBuilt [] s h = h
  eager_all-AwokenBuilt (c ∷ calls) s h =
      eager_all-AwokenBuilt calls (write_items sink (or_new c) s)
        (write_items-AwokenBuilt sink 0 (or_new c) s h)

  -- What is snapshotted at the end of an epoch, however often the eager logic has run in it, each time
  -- on items that are a map in the order of the keys: exactly the partitions that had items, in the
  -- order of their keys, each in the state that writing its items, in the order of their arrival,
  -- left it in, starting from the partition as it was before the epoch or, if there was none, from a
  -- new one. Afterwards nothing is marked as written.
  pub close-written :
      (this_worker : ℕ) (calls : List (Option (List (P × List (K × V))))) (parts : List (P × St))
      (loads : Option (List (ℕ × (P × StateChange S))))
      → All (λ c. Ascends (or_new c)) calls
      → (s : State P St) × (snaps : List (P × StateChange S)) × (close sink this_worker loads
            (eager_all calls (record { parts = parts; awoken = [] }))
          ≡ some (s, snaps))
        × Set.Ascends (keys snaps)
        × ((j : P) → Set.contains j (keys snaps) ≡ is_written j calls)
        × All
            (λ e.
              (st : St) × (written_all e.0 (lookup e.0 parts) calls ≡ some st)
              × (e.1 ≡ upsert ((sink e.0).snapshot st)))
            snaps
        × (s.awoken ≡ [])
  unfolding close Set.contains
  close-written this_worker calls parts loads up =
      let start : State P St = record { parts = parts; awoken = [] } in
      let after = eager_all calls start in
      let (snaps, runs, same, each) =
        snapshot_all-each sink after.awoken after.parts (eager_all-AwokenBuilt calls start tt) in
      (
        record {
          parts = load_parts sink this_worker (Buffer.or_empty loads) after.parts;
          awoken = [];
        },
        snaps,
        rw runs refl,
        subst Set.Ascends (sym same) (eager_all-Ascends calls start tt),
        λ j. ap (Set.contains j) same ∙ eager_all-contains j calls start ∙ ground arith,
        All-map _
            (λ e (st, found, is). (st, sym (eager_all-written e.0 calls start up) ∙ found, is))
            snaps each,
        refl,
      )
