-- ===== src/Recovery/Fresh.antt =====
-- A recovery store that `init_db_dir` (src/recovery.rs) has just made: what an execution resumes from.
use bytewax.Prelude.{
  ℕ, zero, suc, ◌+◌, ◌<◌, ◌≤◌, ◌==◌, ◌≡◌, refl, ap, true, not, List, [], ◌∷◌, map, filter, arith,
  All,
}
use bytewax.Recovery.Tables.{PartitionMeta, RecoveryPart}
use bytewax.Recovery.Resume.{
  Resumed, default_resume_from, has, distinct, count_from, maximum, resume_row, resume_with,
  resume_from,
}

-- The rows of the partitions from an index on.
abbrev pub part_rows : ℕ → ℕ → ℕ → List PartitionMeta
part_rows count i zero = []
part_rows count i (suc n) =
    record { part_index = i; part_count = count } ∷ part_rows count (suc i) n

module _ (count : ℕ) where
  distinct-counts :
      (i n : ℕ)
      → distinct (map (λ (a : PartitionMeta). a.part_count) (part_rows count i (suc n)))
        ≡ count ∷ []
  unfolding distinct has
  distinct-counts i zero = refl
  distinct-counts i (suc n) =
      let again : (count == count) ≡ true = ground arith in rw again (distinct-counts (suc i) n)

  indices :
      (i n : ℕ) → map (λ (a : PartitionMeta). a.part_index) (part_rows count i n) ≡ count_from i n
  unfolding count_from
  indices i zero = refl
  indices i (suc n) = ap (λ is. i ∷ is) (indices (suc i) n)

-- No index of a list is missing from it.
none_missing :
    (js is : List ℕ) → All (λ j. has j is ≡ true) js → filter (λ j. not (has j is)) js ≡ []
none_missing [] is h = refl
none_missing (j ∷ js) is h = rw h.0 (none_missing js is h.1)

has-count_from : (j i n : ℕ) → i ≤ j → j < i + n → has j (count_from i n) ≡ true
unfolding has count_from
has-count_from j i zero le lt = absurd (omega (arith, le, lt))
has-count_from j i (suc n) le lt = ground (arith, has-count_from j (suc i) n)

has_all :
    (i n j m : ℕ)
    → i ≤ j
    → j + m ≤ i + n
    → All (λ k. has k (count_from i n) ≡ true) (count_from j m)
unfolding count_from
has_all i n j zero le lt = tt
has_all i n j (suc m) le lt = (
  has-count_from j i n le (omega (arith, lt)),
  has_all i n (suc j) m (omega (arith, le)) (omega (arith, lt)),
)

-- The progress of a store whose partitions are new.
abbrev pub fresh : {K S : Type 0} → ℕ → RecoveryPart K S
fresh count = record {
  parts = part_rows count 0 count;
  exs = [];
  fronts = [];
  commits = [];
  snaps = [];
}

module _ (K S : Type 0) where
  resume_with-fresh :
      (count : ℕ) → resume_with {K = K} {S = S} count (fresh count) ≡ Resumed.ok default_resume_from
  unfolding resume_with resume_row maximum
  resume_with-fresh count =
      let all = count_from 0 count in
      rw
        (
          indices count 0 count,
          none_missing all all (has_all 0 count 0 count (omega arith) (omega arith)),
        )
        refl

  pub resume_from-fresh :
      (n : ℕ) → resume_from {K = K} {S = S} (fresh (suc n)) ≡ Resumed.ok default_resume_from
  unfolding resume_from
  resume_from-fresh n = rw (distinct-counts (suc n) 0 n, resume_from) (resume_with-fresh (suc n))
