-- ===== src/Inputs/Startup.antt =====
-- The activation of `partitioned_input` (src/inputs.rs): the partitions that a worker resumes or
-- starts, and what they do. The frontiers, the time, the probe and what has arrived are arguments. A
-- value `none` is a panic.
use bytewax.Prelude.{
  ℕ, ◌==◌, Bool, true, false, Option, none, some, List, [], ◌∷◌, ◌++◌, map, ◌>>=◌, ◌>>◌, assert,
  if◌then◌else◌, pos, ◌-ℤ◌, ltb_ℤ, min_ℤ,
}
use bytewax.Prelude.Order.Ord.{Ord, ℕ_ord}
use bytewax.Prelude.Order.Map.{insert, remove}
use bytewax.Prelude.Order.Set
use bytewax.Window.Types.{DateTime, Duration}
use bytewax.Timely.Buffer.{InBuffer}
use bytewax.Timely.Buffer
use bytewax.Timely.Parts.{has_key}
use bytewax.Stateful.Defs.{or_else}
use bytewax.Recovery.Resume.{max_ℕ}
use bytewax.Recovery.Change.{StateChange, upsert, discard}
use bytewax.Inputs.Defs.{Source, PartState, Event, step_part}

pub record InputState (K St : Type 0) : Type 0 where
  pub parts : List (K × PartState St)
  pub primary_parts : List K
  pub primaries_inbuf : InBuffer (K × ℕ)
  pub init_caps : Option (ℕ × ℕ)

-- What an activation leaves: whether the execution aborts, what is sent, with its partition, and the
-- delay of the next activation, if it is asked for.
pub record Activation (K St S I : Type 0) : Type 0 where
  pub state : InputState K St
  pub aborts : Bool
  pub sent : List (K × Event S I)
  pub awake_after : Option Duration

module _ {K : Type 0} ⦃o : Ord K⦄ where
  -- The capabilities of an operator are held from the resume epoch on.
  unfoldable pub initial : {St : Type 0} → ℕ → InputState K St
  initial start_at = record {
    parts = [];
    primary_parts = [];
    primaries_inbuf = [];
    init_caps = some (start_at, start_at);
  }

  unfoldable pub add_primaries : ℕ → List (K × ℕ) → List K → List K
  add_primaries this_worker [] primary_parts = primary_parts
  add_primaries this_worker ((part, worker) ∷ rest) primary_parts =
      add_primaries this_worker rest
        (if worker == this_worker then Set.insert part primary_parts else primary_parts)

  -- The primaries of the epochs that are closed, in their order.
  unfoldable pub apply_primaries :
      ℕ → List ℕ → InBuffer (K × ℕ) → List K → InBuffer (K × ℕ) × List K
  unfolding add_primaries
  apply_primaries this_worker [] inbuf primary_parts = (inbuf, primary_parts)
  apply_primaries this_worker (epoch ∷ epochs) inbuf primary_parts =
      let (inbuf', primaries) = Buffer.remove epoch inbuf in
      apply_primaries this_worker epochs inbuf'
        (add_primaries this_worker (Buffer.or_empty primaries) primary_parts)

-- The delay until the least of the next awakenings.
unfoldable pub min_next_awake :
    {K St : Type 0} → DateTime → List (K × PartState St) → Option DateTime
min_next_awake now [] = none
min_next_awake now ((key, p) ∷ parts) =
    let here = or_else now p.next_awake in
    elim (min_next_awake now parts) [ none ↦ some here | some t ↦ some (min_ℤ here t) ]

-- `to_std().unwrap_or(ZERO)`.
abbrev pub delay : DateTime → DateTime → Duration
delay now t = if ltb_ℤ t now then pos 0 else t -ℤ now

unfoldable pub awake_after :
    {K St : Type 0} → Bool → DateTime → List (K × PartState St) → Option Duration
unfolding min_next_awake
awake_after false now parts = none
awake_after true now parts = elim (min_next_awake now parts) [
  | none ↦ none
  | some t ↦ some (delay now t)
]

module _ {K St : Type 0} ⦃o : Ord K⦄ where
  unfoldable pub remove_all : List K → List (K × PartState St) → List (K × PartState St)
  remove_all [] parts = parts
  remove_all (k ∷ ks) parts = remove_all ks (remove k parts)

module _ {K St S I : Type 0} ⦃o : Ord K⦄ (source : K → Source St S I) where
  -- A partition that starts at an epoch, from its snapshot, if any.
  unfoldable pub start_part : DateTime → ℕ → ℕ → K → Option S → Option (PartState St)
  start_part now downstream_cap snap_cap part_key state = do
    part ← (source part_key).build_part now state
    next_awake ← (source part_key).next_awake part
    some (record {
      part = part;
      downstream_cap = downstream_cap;
      snap_cap = snap_cap;
      epoch_started = now;
      next_awake = next_awake;
    })

  unfoldable pub load_change :
      DateTime → ℕ → K → StateChange S → List (K × PartState St) → Option (List (K × PartState St))
  unfolding start_part
  load_change now emit_epoch part_key (upsert state) parts = do
    p ← start_part now emit_epoch emit_epoch part_key (some state)
    some (insert part_key p parts)
  load_change now emit_epoch part_key discard parts = some parts

  -- The loads of a batch, which arrive at an epoch.
  unfoldable pub load_batch :
      DateTime
      → ℕ
      → ℕ
      → List (ℕ × (K × StateChange S))
      → List (K × PartState St)
      → Option (List (K × PartState St))
  unfolding load_change
  load_batch now this_worker emit_epoch [] parts = some parts
  load_batch now this_worker emit_epoch ((worker, (part_key, change)) ∷ rest) parts = do
    assert (worker == this_worker)
    parts' ← load_change now emit_epoch part_key change parts
    load_batch now this_worker emit_epoch rest parts'

  unfoldable pub load_batches :
      DateTime
      → ℕ
      → ℕ
      → List (ℕ × List (ℕ × (K × StateChange S)))
      → List (K × PartState St)
      → Option (List (K × PartState St))
  unfolding load_batch
  load_batches now this_worker start_at [] parts = some parts
  load_batches now this_worker start_at ((load_epoch, incoming) ∷ rest) parts = do
    parts' ← load_batch now this_worker (max_ℕ load_epoch start_at) incoming parts
    load_batches now this_worker start_at rest parts'

  -- The partitions of this worker that have not been loaded.
  unfoldable pub init_parts :
      DateTime → ℕ → ℕ → List K → List (K × PartState St) → Option (List (K × PartState St))
  unfolding start_part
  init_parts now downstream_cap snap_cap [] parts = some parts
  init_parts now downstream_cap snap_cap (part_key ∷ rest) parts = elim (has_key part_key parts) [
    | true ↦ init_parts now downstream_cap snap_cap rest parts
    | false ↦ do
      p ← start_part now downstream_cap snap_cap part_key none
      init_parts now downstream_cap snap_cap rest (insert part_key p parts)
  ]

  -- At the end of the loads.
  unfoldable pub finish_loads :
      Bool
      → DateTime
      → List K
      → Option (ℕ × ℕ)
      → List (K × PartState St)
      → Option (Option (ℕ × ℕ) × List (K × PartState St))
  unfolding init_parts
  finish_loads false now primary_parts init_caps parts = some (init_caps, parts)
  finish_loads true now primary_parts none parts = some (none, parts)
  finish_loads true now primary_parts (some (downstream_cap, snap_cap)) parts = do
    assert (downstream_cap == snap_cap)
    parts' ← init_parts now downstream_cap snap_cap primary_parts parts
    some (none, parts')

  -- The loop over the partitions. Those at their end are removed after it.
  unfoldable pub step_parts :
      Duration
      → (ℕ → Bool)
      → DateTime
      → List (K × PartState St)
      → Option (List (K × PartState St) × List K × Bool × List (K × Event S I))
  step_parts epoch_interval behind now [] = some ([], [], false, [])
  step_parts epoch_interval behind now ((part_key, p) ∷ parts) = do
    s ← step_part (source part_key) epoch_interval behind now p
    (parts', eofd, aborts, sent) ← step_parts epoch_interval behind now parts
    some (
      (part_key, s.after) ∷ parts',
      (if s.is_eof then part_key ∷ eofd else eofd),
      (if s.aborts then true else aborts),
      map (λ (e : Event S I). (part_key, e)) s.events ++ sent,
    )
