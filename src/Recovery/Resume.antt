-- ===== src/Recovery/Resume.antt =====
-- `RecoveryPart::resume_from`, whose queries are folds over the rows.
use bytewax.Prelude.{
  ℕ, zero, suc, ◌+◌, ◌==◌, ltb, Bool, true, false, not, Option, none, some, List, [], ◌∷◌, ◌++◌,
  map, filter, ◌>>=◌, if◌then◌else◌,
}
use bytewax.Recovery.Tables.{PartitionMeta, ExecutionMeta, FrontierMeta, CommitMeta, RecoveryPart}

pub data ResumeError : Type 0 where
  no_partitions inconsistent_counts missing_partitions inconsistent_partitions : ResumeError

pub record ResumeFrom : Type 0 where
  pub ex_num : ℕ
  pub resume_epoch : ℕ

-- `impl Default for ResumeFrom`.
abbrev pub default_resume_from : ResumeFrom
default_resume_from = record { ex_num = 0; resume_epoch = 1 }

pub data Resumed : Type 0 where
  ok : ResumeFrom → Resumed
  err : ResumeError → Resumed

unfoldable pub has : ℕ → List ℕ → Bool
has n [] = false
has n (m ∷ ms) = if n == m then true else has n ms

-- `DISTINCT`, and the groups of `GROUP BY`.
unfoldable pub distinct : List ℕ → List ℕ
unfolding has
distinct [] = []
distinct (n ∷ ns) = let rest = distinct ns in if has n ns then rest else n ∷ rest

-- `PartitionCount::iter` from an index on, and `generate_series`.
unfoldable pub count_from : ℕ → ℕ → List ℕ
count_from i zero = []
count_from i (suc n) = i ∷ count_from (suc i) n

abbrev pub max_ℕ : ℕ → ℕ → ℕ
max_ℕ a b = if ltb a b then b else a

abbrev pub min_ℕ : ℕ → ℕ → ℕ
min_ℕ a b = if ltb b a then b else a

-- `MAX` and `MIN`: none stands for NULL.
unfoldable pub maximum : List ℕ → Option ℕ
maximum [] = none
maximum (n ∷ ns) = elim (maximum ns) [ none ↦ some n | some m ↦ some (max_ℕ n m) ]

unfoldable pub minimum : List ℕ → Option ℕ
minimum [] = none
minimum (n ∷ ns) = elim (minimum ns) [ none ↦ some n | some m ↦ some (min_ℕ n m) ]

-- `max_ex`.
unfoldable pub find_ex : ℕ → List ExecutionMeta → Option ExecutionMeta
find_ex n [] = none
find_ex n (e ∷ es) = if e.ex_num == n then some e else find_ex n es

-- `explicit_progress` and `default_progress`: a worker and its frontier.
unfoldable pub progress : ExecutionMeta → List FrontierMeta → List (ℕ × ℕ)
unfolding count_from
progress e fronts =
    map (λ f. (f.worker_index, f.worker_frontier)) (filter (λ f. f.ex_num == e.ex_num) fronts)
    ++ map (λ i. (i, e.resume_epoch)) (count_from 0 e.worker_count)

-- `max_progress` of one worker.
unfoldable pub max_progress : List (ℕ × ℕ) → ℕ → Option ℕ
unfolding maximum
max_progress rows worker = maximum (map (λ r. r.1) (filter (λ r. r.0 == worker) rows))

-- `MIN(worker_frontier)` over the groups; NULLs are passed over.
unfoldable pub min_progress : List (ℕ × ℕ) → List ℕ → Option ℕ
unfolding max_progress
min_progress rows [] = none
min_progress rows (w ∷ ws) = elim (max_progress rows w) [
  | none ↦ min_progress rows ws
  | some m ↦ elim (min_progress rows ws) [ none ↦ some m | some l ↦ some (min_ℕ m l) ]
]

unfoldable pub resume_row : List ExecutionMeta → List FrontierMeta → Option ResumeFrom
unfolding maximum find_ex progress min_progress distinct
resume_row exs fronts = do
  ex ← maximum (map (λ (e : ExecutionMeta). e.ex_num) exs)
  e ← find_ex ex exs
  epoch ← min_progress (progress e fronts) (distinct (map (λ r. r.0) (progress e fronts)))
  some (record { ex_num = ex + 1; resume_epoch = epoch })

abbrev pub or_default : Option ResumeFrom → ResumeFrom
or_default none = default_resume_from
or_default (some r) = r

abbrev pub is_none {ℓ} : {A : Type ℓ} → List A → Bool
is_none [] = true
is_none (a ∷ xs) = false

-- The checks of the partitions of one count, and of the commits.
unfoldable pub resume_with : {K S : Type 0} → ℕ → RecoveryPart K S → Resumed
unfolding resume_row count_from has
resume_with part_count p =
    let resume_from = or_default (resume_row p.exs p.fronts) in
    let missing =
      filter (λ i. not (has i (map (λ (a : PartitionMeta). a.part_index) p.parts)))
        (count_from 0 part_count) in
    let ahead =
      filter (λ (c : CommitMeta). ltb resume_from.resume_epoch c.commit_epoch) p.commits in
    if not (is_none missing)
    then err missing_partitions
    else if not (is_none ahead)
    then err inconsistent_partitions
    else ok resume_from

unfoldable pub resume_from : {K S : Type 0} → RecoveryPart K S → Resumed
unfolding distinct resume_with
resume_from p = elim (distinct (map (λ (a : PartitionMeta). a.part_count) p.parts)) [
  | [] ↦ err no_partitions
  | part_count ∷ [] ↦ resume_with part_count p
  | a ∷ b ∷ counts ↦ err inconsistent_counts
]
