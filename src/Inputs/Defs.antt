-- ===== src/Inputs/Defs.antt =====
-- One partition of a source: `PartitionedPartState` and `DynamicPartState` with what an activation
-- does to them (src/inputs.rs). The user's source is an argument, and so are the system time, the
-- interval of the epochs, and the probe: whether the outputs are still behind an epoch. A value
-- `none` is a panic.
use bytewax.Prelude.{
  ℕ, zero, suc, ◌+◌, ◌==◌, leb, Bool, true, false, not, ◌&&◌, ◌||◌, Option, none, some, List, [],
  ◌∷◌, ◌++◌, length, ◌>>=◌, ◌>>◌, assert, if◌then◌else◌, pos, ◌+ℤ◌, ◌-ℤ◌, ltb_ℤ,
}
use bytewax.Prelude.Words.{wrap_u64}
use bytewax.Window.Types.{DateTime, Duration}

pub data BatchResult (I : Type 0) : Type 0 where
  eof abort : BatchResult I
  batch : List I → BatchResult I

-- `FixedPartitionedSource` and `StatefulPartition`, for one partition: `St` is the state of the
-- partition's object, `S` its snapshots. A method that raises yields `none`, but for the exceptions
-- of `next_batch` that are an `eof` or an `abort`.
pub record Source (St S I : Type 0) : Type 0 where
  pub build_part : DateTime → Option S → Option St
  pub next_batch : St → Option DateTime → Option (St × BatchResult I)
  pub next_awake : St → Option (Option DateTime)
  pub snapshot : St → Option S

-- `DEFAULT_COOLDOWN`, a millisecond.
abbrev pub default_cooldown : Duration
default_cooldown = pos 1000000

unfoldable pub default_next_awake : Option DateTime → ℕ → DateTime → Option DateTime
default_next_awake (some next_awake) batch_len now = some next_awake
default_next_awake none zero now = some (now +ℤ default_cooldown)
default_next_awake none (suc n) now = none

unfoldable pub awake_due : Option DateTime → DateTime → Bool
awake_due none now = true
awake_due (some next_awake) now = not (ltb_ℤ now next_awake)

-- `PartitionedPartState`, with the times of its two capabilities.
pub record PartState (St : Type 0) : Type 0 where
  pub part : St
  pub downstream_cap : ℕ
  pub snap_cap : ℕ
  pub epoch_started : DateTime
  pub next_awake : Option DateTime

-- What is sent, with its epoch: the items of a batch downstream, or a snapshot.
pub data Event (S I : Type 0) : Type 0 where
  items : ℕ → List I → Event S I
  snap : ℕ → S → Event S I

-- What an activation does to a partition.
pub record Step (St S I : Type 0) : Type 0 where
  pub after : PartState St
  pub is_eof : Bool
  pub aborts : Bool
  pub events : List (Event S I)

-- `Capability::downgrade`.
unfoldable pub downgrade : ℕ → ℕ → Option ℕ
downgrade cap epoch = do assert (leb cap epoch); some epoch

module _ {St S I : Type 0} (source : Source St S I) (epoch_interval : Duration) where
  -- The `match` on the batch.
  unfoldable pub take_result : DateTime → PartState St → St → BatchResult I → Option (Step St S I)
  unfolding default_next_awake
  take_result now p st (batch xs) = do
    next_awake_res ← source.next_awake st
    some (record {
      after = record p {
        part = st;
        next_awake = default_next_awake next_awake_res (length xs) now;
      };
      is_eof = false;
      aborts = false;
      events = items p.downstream_cap xs ∷ [];
    })
  take_result now p st eof =
      some (record { after = record p { part = st }; is_eof = true; aborts = false; events = [] })
  take_result now p st abort =
      some (record { after = record p { part = st }; is_eof = false; aborts = true; events = [] })

  unfoldable pub take_batch : DateTime → PartState St → Option (Step St S I)
  unfolding take_result
  take_batch now p = do (st, res) ← source.next_batch p.part p.next_awake; take_result now p st res

  -- The snapshot at the end of an epoch, and the next epoch.
  unfoldable pub close_epoch : DateTime → ℕ → Step St S I → Option (Step St S I)
  unfolding downgrade
  close_epoch now epoch s = do
    state ← source.snapshot s.after.part
    downstream_cap ← downgrade s.after.downstream_cap (wrap_u64 (epoch + 1))
    snap_cap ← downgrade s.after.snap_cap (wrap_u64 (epoch + 1))
    some (record s {
      after = record s.after {
        downstream_cap = downstream_cap;
        snap_cap = snap_cap;
        epoch_started = now;
      };
      events = s.events ++ snap epoch state ∷ [];
    })

  unfoldable pub end_epoch : DateTime → ℕ → Step St S I → Option (Step St S I)
  unfolding close_epoch
  end_epoch now epoch s =
      if not (ltb_ℤ (now -ℤ s.after.epoch_started) epoch_interval) || s.is_eof
      then close_epoch now epoch s
      else some s

  -- The body of the loop over the partitions, where `behind` is `probe.less_than`.
  unfoldable pub step_part : (ℕ → Bool) → DateTime → PartState St → Option (Step St S I)
  unfolding take_batch end_epoch awake_due
  step_part behind now p = do
    assert (p.downstream_cap == p.snap_cap)
    elim (not (behind p.downstream_cap) && awake_due p.next_awake now) [
      | true ↦ do s ← take_batch now p; end_epoch now p.downstream_cap s
      | false ↦ some (record { after = p; is_eof = false; aborts = false; events = [] })
    ]

-- `DynamicPartState` and the activation of `dynamic_input`: no snapshots, and at the end of the
-- source the state is dropped.
pub record DynamicPartState (St : Type 0) : Type 0 where
  pub part : St
  pub output_cap : ℕ
  pub epoch_started : DateTime
  pub next_awake : Option DateTime

module _ {St S I : Type 0} (source : Source St S I) (epoch_interval : Duration) where
  unfoldable pub advance : DateTime → ℕ → DynamicPartState St → Option (DynamicPartState St)
  unfolding downgrade
  advance now epoch p = elim (not (ltb_ℤ (now -ℤ p.epoch_started) epoch_interval)) [
    | true ↦ do
      output_cap ← downgrade p.output_cap (wrap_u64 (epoch + 1))
      some (record p { output_cap = output_cap; epoch_started = now })
    | false ↦ some p
  ]

  -- The state afterwards, whether the execution aborts, and what is sent.
  unfoldable pub step_dynamic :
      (ℕ → Bool)
      → DateTime
      → Option (DynamicPartState St)
      → Option (Option (DynamicPartState St) × Bool × List (ℕ × List I))
  unfolding advance awake_due default_next_awake
  step_dynamic behind now none = some (none, false, [])
  step_dynamic behind now (some p) =
      let epoch = p.output_cap in
      elim (not (behind epoch) && awake_due p.next_awake now) [
        | true ↦ do
          (st, res) ← source.next_batch p.part p.next_awake
          elim res [
            | batch xs ↦ do
              next_awake_res ← source.next_awake st
              p' ← advance now epoch (record p {
                part = st;
                next_awake = default_next_awake next_awake_res (length xs) now;
              })
              some (some p', false, (epoch, xs) ∷ [])
            | eof ↦ do p' ← advance now epoch (record p { part = st }); some (none, false, [])
            | abort ↦ do p' ← advance now epoch (record p { part = st }); some (some p', true, [])
          ]
        | false ↦ some (some p, false, [])
      ]
