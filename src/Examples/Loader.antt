-- ===== src/Examples/Loader.antt =====
-- A table of snapshots, read in batches of one row (src/recovery.rs).
use bytewax.Prelude.{ℕ, suc, ◌+◌, ◌-◌, ◌≡◌, refl, map, arith, none, some, List, [], ◌∷◌, length}
use bytewax.Prelude.Order.Ord.{ℕ_ord}
use bytewax.Recovery.Tables.{SerializedSnapshot, RecoveryPart, write_all, write_snap}
use bytewax.Recovery.Change.{upsert, discard}
use bytewax.Recovery.Snaps.{
  Snapshot, Serde, ser_snap, load_snaps, latest_snap, LoadsOnly, load_snaps-latest,
}
use bytewax.Recovery.Commit.{resume_rows}
use bytewax.Recovery.Load.{uninit, drain}
use bytewax.Recovery.Paging.{drain-order_by}
use bytewax.Examples.Arrange.{by_key}

abbrev pub snaps : List (SerializedSnapshot ℕ ℕ)
snaps =
    record { key = 2; snap_epoch = 1; ser_change = some 20 }
    ∷ record { key = 1; snap_epoch = 1; ser_change = some 10 }
    ∷ record { key = 2; snap_epoch = 3; ser_change = none }
    ∷ []

drain-order_by_example :
    drain by_key 4 1 snaps (length (resume_rows 4 snaps) + 2) uninit
    ≡ some (by_key.order_by (resume_rows 4 snaps))
drain-order_by_example =
    drain-order_by 4 snaps by_key 0 ((refl, (refl, tt)), ((refl, tt), (tt, tt)))

-- A serialization by successors.
abbrev pub plus_one : Serde ℕ ℕ
plus_one = record { ser = λ n. suc n; de = λ n. n - 1 }

abbrev pub store : RecoveryPart ℕ ℕ
store = record { parts = []; exs = []; fronts = []; commits = []; snaps = [] }

-- Key 2 is written at epochs 1 and 3 and, after the resume epoch, at 4.
abbrev pub emitted : List (ℕ × Snapshot ℕ ℕ)
emitted =
    (1, record { key = 2; change = upsert 20 })
    ∷ (1, record { key = 1; change = upsert 10 })
    ∷ (3, record { key = 2; change = upsert 21 })
    ∷ (4, record { key = 2; change = discard })
    ∷ []

load_snaps-latest_example :
    (p' : RecoveryPart ℕ ℕ) × (read : List (SerializedSnapshot ℕ ℕ)) × (write_all write_snap
        (map (ser_snap plus_one) emitted)
        (record store { snaps = [] })
      ≡ some p')
    × (drain by_key 4 1 p'.snaps (length (resume_rows 4 p'.snaps) + 2) uninit ≡ some read)
    × LoadsOnly 4 2 (latest_snap 4 2 none emitted) (load_snaps plus_one read)
load_snaps-latest_example = load_snaps-latest plus_one 4 2 (λ s. omega arith) by_key 0 emitted store
