-- ===== src/Examples/Recovery.antt =====
-- The runs of `resume_from` that the tests of src/recovery.rs make, a commit, and a worker's progress.
use Prim.Native.Nat.{ℕ, ◌<◌, ◌≤◌}
use bytewax.Prelude.{◌≡◌, ◌⊎◌, refl, none, some, [], ◌∷◌, arith, All, Any, Pairs}
use bytewax.Prelude.Order.Ord.{ℕ_ord}
use bytewax.Recovery.Tables.{RecoveryPart}
use bytewax.Recovery.Resume.{
  ResumeFrom, default_resume_from, ok, err, inconsistent_partitions, resume_from,
}
use bytewax.Recovery.Safety.{IsReached, resume_from-IsReached}
use bytewax.Recovery.Commit.{commit, commit-keeps_snaps}
use bytewax.Recovery.Frontier.{run, run-Pairs}

abbrev pub all_fronts : RecoveryPart ℕ ℕ
all_fronts = record {
  parts = record { part_index = 0; part_count = 1 } ∷ [];
  exs = record { ex_num = 1; worker_count = 3; resume_epoch = 11 } ∷ [];
  fronts =
      record { ex_num = 1; worker_index = 0; worker_frontier = 13 }
      ∷ record { ex_num = 1; worker_index = 1; worker_frontier = 12 }
      ∷ record { ex_num = 1; worker_index = 2; worker_frontier = 13 }
      ∷ [];
  commits = record { part_index = 0; commit_epoch = 12 } ∷ [];
  snaps =
      record { key = 7; snap_epoch = 3; ser_change = some 1 }
      ∷ record { key = 7; snap_epoch = 5; ser_change = none }
      ∷ [];
}

resume_from-explicit_fronts : resume_from all_fronts ≡ ok (record { ex_num = 2; resume_epoch = 12 })
unfolding resume_from
resume_from-explicit_fronts = refl

abbrev pub default_fronts : RecoveryPart ℕ ℕ
default_fronts = record all_fronts {
  fronts =
      record { ex_num = 1; worker_index = 0; worker_frontier = 13 }
      ∷ record { ex_num = 1; worker_index = 2; worker_frontier = 13 }
      ∷ [];
  commits = record { part_index = 0; commit_epoch = 11 } ∷ [];
}

resume_from-default_fronts :
    resume_from default_fronts ≡ ok (record { ex_num = 2; resume_epoch = 11 })
unfolding resume_from
resume_from-default_fronts = refl

resume_from-inconsistent :
    resume_from
      (record default_fronts { commits = record { part_index = 0; commit_epoch = 12 } ∷ [] })
    ≡ err inconsistent_partitions
unfolding resume_from
resume_from-inconsistent = refl

commit-keeps_snaps_example :
    Any (λ c. c ≡ record { part_index = 0; commit_epoch = 9 }) (commit 0 9 all_fronts).commits
    × ((commit 0 9 all_fronts).snaps ≡ all_fronts.snaps)
commit-keeps_snaps_example = commit-keeps_snaps 0 9 all_fronts

run-Pairs_example :
    All
      (λ e. (4 ≤ e.0) × (e.0 < e.1.worker_frontier))
      (run 1 0 (some 4) (some 0 ∷ some 6 ∷ some 6 ∷ none ∷ none ∷ []))
    × Pairs
        (λ a b. (a.1.worker_frontier ≤ b.0) × (a.1.worker_frontier < b.1.worker_frontier))
        (run 1 0 (some 4) (some 0 ∷ some 6 ∷ some 6 ∷ none ∷ none ∷ []))
run-Pairs_example =
    run-Pairs 1 0 4 (some 0 ∷ some 6 ∷ some 6 ∷ none ∷ none ∷ []) (omega arith) (omega arith)

abbrev pub point : ResumeFrom
point = record { ex_num = 2; resume_epoch = 12 }

resume_from-IsReached_example :
    ((n : ℕ) × All (λ a. a.part_count ≡ n) all_fronts.parts
      × ((i : ℕ) → i < n → Any (λ a. a.part_index ≡ i) all_fronts.parts))
    × All (λ c. c.commit_epoch ≤ 12) all_fronts.commits
    × (((all_fronts.exs ≡ []) × (point ≡ default_resume_from))
        ⊎ IsReached all_fronts.exs all_fronts.fronts point)
resume_from-IsReached_example =
    resume_from-IsReached all_fronts point (omega arith) resume_from-explicit_fronts
