-- ===== src/Timely/Parts.antt =====
-- `PartitionedWriteOp`, `PartitionedLoadOp` and `PartitionedCommitOp` (src/timely.rs): the parts that a
-- worker builds as primaries are assigned, and what it does with them. A part `W` and its operations
-- are arguments; a value `none` is a panic.
use mathlib.Core.List.{Permᴰ}
use bytewax.Prelude.{
  ℕ, ◌-◌, ◌==◌, leb, Bool, true, false, not, ◌&&◌, Option, none, some, List, [], ◌∷◌, ◌++◌, map,
  ◌>>=◌, if◌then◌else◌, ◌≤◌, All, Option-cases, inl, inr,
}
use bytewax.Prelude.Order.Ord.{Ord, ℕ_ord}
use bytewax.Prelude.Order.Map.{lookup, insert, remove}
use bytewax.Timely.Buffer.{InBuffer}
use bytewax.Timely.Buffer

module _ {P W : Type 0} ⦃o : Ord P⦄ where
  -- `BTreeMap::contains_key`.
  unfoldable pub has_key : P → List (P × W) → Bool
  has_key k m = elim (lookup k m) [ none ↦ false | some w ↦ true ]

  module _ (builder : P → W) (this_worker : ℕ) where
    unfoldable pub update_part : P → ℕ → List (P × W) → List (P × W)
    unfolding has_key
    update_part part_key worker parts =
        if worker == this_worker && not (has_key part_key parts)
        then insert part_key (builder part_key) parts
        else remove part_key parts

    -- The loop over the primaries of an epoch.
    unfoldable pub update_parts : List (P × ℕ) → List (P × W) → List (P × W)
    unfolding update_part
    update_parts [] parts = parts
    update_parts ((part_key, worker) ∷ rest) parts =
        update_parts rest (update_part part_key worker parts)

abbrev pub or_new : {P V : Type 0} → Option (List (P × List V)) → List (P × List V)
or_new none = []
or_new (some m) = m

module _ {K V P : Type 0} ⦃o : Ord P⦄ where
  -- The items of an epoch, by their parts.
  unfoldable pub add_items : List (ℕ × (P × (K × V))) → List (P × List V) → List (P × List V)
  add_items [] parts = parts
  add_items ((worker, (part, (key, value))) ∷ routed) parts =
      add_items routed (insert part (Buffer.or_empty (lookup part parts) ++ value ∷ []) parts)

  -- The arrival of a batch at an epoch.
  unfoldable pub arrive :
      ℕ → List (ℕ × (P × (K × V))) → List (ℕ × List (P × List V)) → List (ℕ × List (P × List V))
  unfolding add_items
  arrive epoch routed inbuf = insert epoch (add_items routed (or_new (lookup epoch inbuf))) inbuf

module _ {V P W : Type 0} ⦃o : Ord P⦄ (write_batch : W → List V → W) where
  -- The eager logic of `partd_write`, on the items of an epoch.
  unfoldable pub write_parts : List (P × List V) → List (P × W) → Option (List (P × W))
  write_parts [] parts = some parts
  write_parts ((part_key, items) ∷ rest) parts = do
    part ← lookup part_key parts
    write_parts rest (insert part_key (write_batch part items) parts)

-- `epoch.checked_sub(&delay)`.
unfoldable pub checked_sub : ℕ → ℕ → Option ℕ
checked_sub epoch delay = if leb delay epoch then some (epoch - delay) else none

module _ {P W : Type 0} (commit : W → ℕ → W) where
  -- The commits in the close logic of `partd_commit`.
  unfoldable pub commit_parts : ℕ → ℕ → List (P × W) → List (P × W)
  unfolding checked_sub
  commit_parts epoch delay parts = elim (checked_sub epoch delay) [
    | none ↦ parts
    | some delayed ↦ map (λ (e : P × W). (e.0, commit e.1 delayed)) parts
  ]

-- A part that is being loaded, `LoadPartEntry`.
pub record LoadPartEntry (P L : Type 0) : Type 0 where
  pub cap : ℕ
  pub key : P
  pub part : L

-- `BinaryHeap::peek_mut`: an entry that no other is greater than, by the times of the capabilities
-- (`impl Ord for LoadPartEntry`), and the entries beside it. Which of equals is not specified.
pub record Greatest (P L : Type 0) : Type 0 where
  pub peek :
      LoadPartEntry P L → List (LoadPartEntry P L) → LoadPartEntry P L × List (LoadPartEntry P L)
  pub peek-permᴰ :
      (e : LoadPartEntry P L) (es : List (LoadPartEntry P L))
      → Permᴰ (e ∷ es) ((peek e es).0 ∷ (peek e es).1)
  pub peek-All :
      (e : LoadPartEntry P L) (es : List (LoadPartEntry P L))
      → All (λ x. x.cap ≤ (peek e es).0.cap) (e ∷ es)

module _ {P L I : Type 0} (heap : Greatest P L) (next_batch : L → Option (L × List I)) where
  -- The reading at an activation: the queue afterwards, and what is sent, at its epoch.
  unfoldable pub load_next : List (LoadPartEntry P L) → List (LoadPartEntry P L) × List (ℕ × I)
  load_next [] = ([], [])
  load_next (first ∷ others) =
      let (entry, rest) = heap.peek first others in
      elim (next_batch entry.part) [
        | none ↦ (rest, [])
        | some (part, items) ↦
            (record entry { part = part } ∷ rest, map (λ i. (entry.cap, i)) items)
      ]

  -- The primaries that arrive at an epoch: the parts of this worker are queued.
  unfoldable pub queue_parts :
      (P → L) → ℕ → ℕ → List (P × ℕ) → List (LoadPartEntry P L) → List (LoadPartEntry P L)
  queue_parts builder this_worker epoch [] queue = queue
  queue_parts builder this_worker epoch ((part_key, worker) ∷ rest) queue =
      queue_parts builder this_worker epoch rest (
        if worker == this_worker
        then record { cap = epoch; key = part_key; part = builder part_key } ∷ queue
        else queue)

  -- What is sent is of the latest epoch in the queue.
  pub load_next-latest :
      (queue : List (LoadPartEntry P L))
      → All (λ (s : ℕ × I). All (λ e. e.cap ≤ s.0) queue) (load_next queue).1
  unfolding load_next
  load_next-latest [] = tt
  load_next-latest (first ∷ others) =
      elim (Option-cases (next_batch (heap.peek first others).0.part)) [
        | inl e ↦ rw (load_next, e) tt
        | inr ((part, items), e) ↦ rw (load_next, e) (each items)
      ]
    where
      each :
          (items : List I)
          → All
              (λ (s : ℕ × I). All (λ x. x.cap ≤ s.0) (first ∷ others))
              (map (λ i. ((heap.peek first others).0.cap, i)) items)
      each [] = tt
      each (i ∷ is) = (heap.peek-All first others, each is)
