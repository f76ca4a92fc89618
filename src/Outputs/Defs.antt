-- ===== src/Outputs/Defs.antt =====
-- `partitioned_output` and `dynamic_output` (src/outputs.rs). The user's sink is an argument. A value
-- `none` is a panic.
use bytewax.Prelude.{
  ℕ, ◌==◌, Bool, Option, none, some, List, [], ◌∷◌, ◌++◌, map, ◌>>=◌, ◌>>◌, assert, if◌then◌else◌,
}
use bytewax.Prelude.Order.Ord.{Ord, ℕ_ord}
use bytewax.Prelude.Order.Map.{lookup, insert, remove}
use bytewax.Prelude.Order.Set
use bytewax.Timely.Buffer
use bytewax.Timely.Parts.{or_new}
use bytewax.Recovery.Change.{StateChange, upsert, discard}

-- `FixedPartitionedSink` and `StatefulPartition`, for one partition: `St` is the state of the
-- partition's object, `S` its snapshots.
pub record Sink (St S V : Type 0) : Type 0 where
  pub build_part : Option S → St
  pub write_batch : St → List V → St
  pub snapshot : St → S

-- The partitions that are built, and those written to in the epoch.
pub record State (P St : Type 0) : Type 0 where
  pub parts : List (P × St)
  pub awoken : List P

module _ {P : Type 0} ⦃o : Ord P⦄ where
  module _ {D : Type 0} where
    -- The items of an epoch, by their partitions.
    unfoldable pub add_routed :
        ℕ → List (ℕ × (P × D)) → List (P × List D) → Option (List (P × List D))
    add_routed this_worker [] parts = some parts
    add_routed this_worker ((worker, (part, item)) ∷ routed) parts = do
      assert (worker == this_worker)
      add_routed this_worker routed
          (insert part (Buffer.or_empty (lookup part parts) ++ item ∷ []) parts)

    -- The arrival of a batch at an epoch, in `items_inbuf`.
    unfoldable pub receive :
        ℕ
        → ℕ
        → List (ℕ × (P × D))
        → List (ℕ × List (P × List D))
        → Option (List (ℕ × List (P × List D)))
    unfolding add_routed
    receive this_worker epoch routed inbuf = do
      parts ← add_routed this_worker routed (or_new (lookup epoch inbuf))
      some (insert epoch parts inbuf)

  module _ {St S V : Type 0} (sink : P → Sink St S V) where
    -- `parts.entry(part_key).or_insert_with_key(build)`.
    abbrev pub or_built : P → Option St → St
    or_built part_key none = (sink part_key).build_part none
    or_built part_key (some part) = part

    -- The loop of the eager logic.
    unfoldable pub write_part : {K : Type 0} → P → List (K × V) → State P St → State P St
    write_part {K} part_key items s =
        let part = or_built part_key (lookup part_key s.parts) in
        let batch = map (λ (e : K × V). e.1) items in
        record {
          parts = insert part_key ((sink part_key).write_batch part batch) s.parts;
          awoken = Set.insert part_key s.awoken;
        }

    unfoldable pub write_items : {K : Type 0} → List (P × List (K × V)) → State P St → State P St
    unfolding write_part
    write_items [] s = s
    write_items ((part_key, items) ∷ rest) s = write_items rest (write_part part_key items s)

    -- The snapshots of the close logic: `while let Some(part_key) = awoken.pop_first()`.
    unfoldable pub snapshot_all : List P → List (P × St) → Option (List (P × StateChange S))
    snapshot_all [] parts = some []
    snapshot_all (part_key ∷ awoken) parts = do
      part ← lookup part_key parts
      snaps ← snapshot_all awoken parts
      some ((part_key, upsert ((sink part_key).snapshot part)) ∷ snaps)

    -- The loads of an epoch.
    unfoldable pub load_part : ℕ → ℕ → P → StateChange S → List (P × St) → List (P × St)
    load_part this_worker worker part_key (upsert state) parts =
        if worker == this_worker
        then insert part_key ((sink part_key).build_part (some state)) parts
        else remove part_key parts
    load_part this_worker worker part_key discard parts =
        if worker == this_worker then remove part_key parts else remove part_key parts

    unfoldable pub load_parts : ℕ → List (ℕ × (P × StateChange S)) → List (P × St) → List (P × St)
    unfolding load_part
    load_parts this_worker [] parts = parts
    load_parts this_worker ((worker, (part_key, change)) ∷ loads) parts =
        load_parts this_worker loads (load_part this_worker worker part_key change parts)

    -- The logics of an epoch: what is in the buffers for it, if anything, is an argument.
    unfoldable pub eager : {K : Type 0} → Option (List (P × List (K × V))) → State P St → State P St
    unfolding write_items
    eager part_to_items s = write_items (or_new part_to_items) s

    unfoldable pub close :
        ℕ
        → Option (List (ℕ × (P × StateChange S)))
        → State P St
        → Option (State P St × List (P × StateChange S))
    unfolding snapshot_all load_parts
    close this_worker loads s = do
      snaps ← snapshot_all s.awoken s.parts
      some (
        record { parts = load_parts this_worker (Buffer.or_empty loads) s.parts; awoken = [] },
        snaps,
      )

module _ {St V : Type 0} (write_batch : St → List V → St) where
  -- An activation of `dynamic_output`: the batches that have arrived are written, and at the end of
  -- the input the sink is dropped. What is sent: the epochs of the batches.
  unfoldable pub write_batches : List (ℕ × List V) → St → St × List ℕ
  write_batches [] st = (st, [])
  write_batches ((epoch, batch) ∷ rest) st =
      let (st', sent) = write_batches rest (write_batch st batch) in (st', epoch ∷ sent)

  unfoldable pub activate_dynamic : Bool → List (ℕ × List V) → Option St → Option St × List ℕ
  unfolding write_batches
  activate_dynamic frontier_is_empty incoming none = (none, [])
  activate_dynamic frontier_is_empty incoming (some st) =
      let (st', sent) = write_batches incoming st in
      ((if frontier_is_empty then none else some st'), sent)
