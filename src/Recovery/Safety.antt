-- ===== src/Recovery/Safety.antt =====
-- The answers of `resume_from` (src/recovery.rs), against the tables.
use mathlib.Core.Bool.{false≢true}
use bytewax.Prelude.{
  ℕ, ◌+◌, ◌≤◌, ◌<◌, ◌≡◌, refl, sym, ap, subst, ◌∙◌, ◌⊎◌, ◌==◌, ==_iff, ltb, ltb→ge, Bool, true,
  false, not, some, List, [], ◌∷◌, map, filter, if◌then◌else◌, arith, All, All-map, All-member,
  All-Any, Any, Bool-cases, inl, inr,
}
use bytewax.Recovery.Tables.{PartitionMeta, ExecutionMeta, FrontierMeta, CommitMeta, RecoveryPart}
use bytewax.Recovery.Resume.{
  ResumeFrom, no_partitions, inconsistent_counts, missing_partitions, inconsistent_partitions, ok,
  err, has, distinct, count_from, find_ex, resume_row, or_default, default_resume_from, is_none,
  resume_with, resume_from,
}
use bytewax.Recovery.Extremes.{maximum-member, maximum-some, maximum-ge}
use bytewax.Recovery.Progress.{
  min_progress-worker, find_ex-Any, distinct-Any, map-Any, Any-of_map, has-Any, count_from-Any,
}

-- The execution to resume after, and an epoch that each of its workers has made it to.
pub record IsReached (exs : List ExecutionMeta) (fronts : List FrontierMeta) (r : ResumeFrom)
    : Type 0 where
  pub last : ExecutionMeta
  pub recorded : Any (λ x. x ≡ last) exs
  pub newest : All (λ x. x.ex_num ≤ last.ex_num) exs
  pub next : r.ex_num ≡ last.ex_num + 1
  pub reached :
      (w : ℕ)
      → w < last.worker_count
      → (r.resume_epoch ≤ last.resume_epoch)
        ⊎ Any
            (λ f.
              (f.ex_num ≡ last.ex_num)
              × (f.worker_index ≡ w)
              × (r.resume_epoch ≤ f.worker_frontier))
            fronts

some_inj : {A : Type 0} {a b : A} → some a ≡ some b → a ≡ b
some_inj e = cc e

find_ex-some :
    (n : ℕ) (es : List ExecutionMeta)
    → Any (λ x. x.ex_num ≡ n) es
    → (e : ExecutionMeta) × (find_ex n es ≡ some e)
unfolding find_ex
find_ex-some n [] at = elim at [ ]
find_ex-some n (x ∷ xs) (inl here) = (x, rw ((==_iff x.ex_num n).1 here) refl)
find_ex-some n (x ∷ xs) (inr there) = elim (Bool-cases (x.ex_num == n)) [
  | inl same ↦ (x, rw same refl)
  | inr other ↦ let (e, f) = find_ex-some n xs there in (e, rw other f)
]

All-at :
    (es : List ExecutionMeta) (m : ℕ)
    → All (λ n. n ≤ m) (map (λ (x : ExecutionMeta). x.ex_num) es)
    → All (λ x. x.ex_num ≤ m) es
All-at [] m h = tt
All-at (x ∷ xs) m h = (h.0, All-at xs m h.1)

resume_row-IsReached :
    (x : ExecutionMeta) (xs : List ExecutionMeta) (fronts : List FrontierMeta)
    → All (λ y. 0 < y.worker_count) (x ∷ xs)
    → (r : ResumeFrom) × (resume_row (x ∷ xs) fronts ≡ some r) × IsReached (x ∷ xs) fronts r
unfolding resume_row
resume_row-IsReached x xs fronts positive =
    let exs = x ∷ xs in
    let nums = map (λ (y : ExecutionMeta). y.ex_num) exs in
    let (ex, greatest) = maximum-some x.ex_num (map (λ (y : ExecutionMeta). y.ex_num) xs) in
    let (e, found) = find_ex-some ex exs (
      Any-of_map (λ n. n ≡ ex) (λ (y : ExecutionMeta). y.ex_num) exs
        (maximum-member nums ex greatest)) in
    let (at, num) = find_ex-Any ex exs e found in
    let room = All-Any (λ (y : ExecutionMeta). 0 < y.worker_count) exs positive at in
    let (l, least, claim) = min_progress-worker e fronts 0 room in
    (
      record { ex_num = ex + 1; resume_epoch = l },
      rw (greatest, found, least) refl,
      record {
        last = e;
        recorded = at;
        newest =
            All-map (λ (y : ExecutionMeta). y.ex_num ≤ ex) (λ y le. omega (arith, le, num)) exs
              (All-at exs ex (maximum-ge nums ex greatest));
        next = ap (λ n. n + 1) (sym num);
        reached = λ w lt.
            let (k, least', claim') = min_progress-worker e fronts w lt in
            let same : k ≡ l = some_inj (sym least' ∙ least) in
            subst
              (λ z.
                (z ≤ e.resume_epoch)
                ⊎ Any (λ f. (f.ex_num ≡ e.ex_num) × (f.worker_index ≡ w) × (z ≤ f.worker_frontier))
                    fronts)
              same claim';
      },
    )

module _ {A : Type 0} where
  -- A selection is empty where no row passes.
  is_none-filter :
      (p : A → Bool) (xs : List A) → is_none (filter p xs) ≡ true → All (λ x. p x ≡ false) xs
  is_none-filter p [] h = tt
  is_none-filter p (x ∷ xs) h = elim (Bool-cases (p x)) [
    | inl passes ↦ absurd (false≢true (ground (arith, h, passes)))
    | inr fails ↦ (fails, is_none-filter p xs (ground (arith, h, fails)))
  ]

passed :
    (a b : Bool) (q r : ResumeFrom)
    → (if not a
        then err missing_partitions
        else if not b
        then err inconsistent_partitions
        else ok q)
      ≡ ok r
    → (a ≡ true) × (b ≡ true) × (q ≡ r)
passed true true q r h = (refl, refl, cc h)
passed true false q r h = cc h
passed false b q r h = cc h

-- The rows agree with a resume point that `resume_with` answers with.
resume_with-ok :
    {K S : Type 0} (n : ℕ) (p : RecoveryPart K S) (r : ResumeFrom)
    → resume_with n p ≡ ok r
    → (r ≡ or_default (resume_row p.exs p.fronts))
      × All (λ c. c.commit_epoch ≤ r.resume_epoch) p.commits
      × ((i : ℕ) → i < n → Any (λ a. a.part_index ≡ i) p.parts)
unfolding resume_with
resume_with-ok n p r e =
    let q = or_default (resume_row p.exs p.fronts) in
    let missing = λ (i : ℕ). not (has i (map (λ (a : PartitionMeta). a.part_index) p.parts)) in
    let ahead = λ (c : CommitMeta). ltb q.resume_epoch c.commit_epoch in
    let (complete, behind, same) =
      passed (is_none (filter missing (count_from 0 n))) (is_none (filter ahead p.commits)) q r e in
    (
      sym same,
      All-map (λ c. ahead c ≡ false)
          (λ c no_more.
            subst (λ (x : ResumeFrom). c.commit_epoch ≤ x.resume_epoch) same
              (ltb→ge q.resume_epoch c.commit_epoch no_more))
          p.commits (is_none-filter ahead p.commits behind),
      λ i lt.
          let found =
            All-Any (λ k. missing k ≡ false) (count_from 0 n)
              (is_none-filter missing (count_from 0 n) complete)
              (count_from-Any 0 n i (omega arith) (omega (arith, lt))) in
          Any-of_map (λ k. k ≡ i) (λ (a : PartitionMeta). a.part_index) p.parts
            (has-Any i _ (ground (arith, found))),
    )

-- A single count is that of each part.
one-count :
    (n : ℕ) (parts : List PartitionMeta)
    → distinct (map (λ (a : PartitionMeta). a.part_count) parts) ≡ n ∷ []
    → All (λ a. a.part_count ≡ n) parts
one-count n parts e = All-member _ parts λ a at.
    let counts = map (λ (b : PartitionMeta). b.part_count) parts in
    let there =
      distinct-Any a.part_count counts (map-Any (λ (b : PartitionMeta). b.part_count) a parts at) in
    elim (subst (Any (λ m. m ≡ a.part_count)) e there) [
      | inl same ↦ sym same
      | inr nowhere ↦ elim nowhere [ ]
    ]

-- Where `resume_from` answers with a resume point, over executions of at least one worker: the
-- partitions have one count and there is one for each index below it; no partition has committed
-- past the resume epoch; and either nothing was ever executed and the point is the default, or it
-- comes after the newest execution, each of whose workers began at or after the resume epoch or has
-- written a frontier at or after it.
pub resume_from-IsReached :
    {K S : Type 0} (p : RecoveryPart K S) (r : ResumeFrom)
    → All (λ x. 0 < x.worker_count) p.exs
    → resume_from p ≡ ok r
    → ((n : ℕ) × All (λ a. a.part_count ≡ n) p.parts
        × ((i : ℕ) → i < n → Any (λ a. a.part_index ≡ i) p.parts))
      × All (λ c. c.commit_epoch ≤ r.resume_epoch) p.commits
      × (((p.exs ≡ []) × (r ≡ default_resume_from)) ⊎ IsReached p.exs p.fronts r)
unfolding resume_from
resume_from-IsReached p r positive e =
    go (distinct (map (λ (a : PartitionMeta). a.part_count) p.parts)) refl e
  where
    from :
        (exs : List ExecutionMeta)
        → All (λ x. 0 < x.worker_count) exs
        → r ≡ or_default (resume_row exs p.fronts)
        → ((exs ≡ []) × (r ≡ default_resume_from)) ⊎ IsReached exs p.fronts r
    from [] positive e = inl (refl, e)
    from (x ∷ xs) positive e =
        let (q, row, reached) = resume_row-IsReached x xs p.fronts positive in
        inr (subst (IsReached (x ∷ xs) p.fronts) (sym (e ∙ ap or_default row)) reached)

    go :
        (counts : List ℕ)
        → distinct (map (λ (a : PartitionMeta). a.part_count) p.parts) ≡ counts
        → elim counts [
          | [] ↦ err no_partitions
          | n ∷ [] ↦ resume_with n p
          | a ∷ b ∷ more ↦ err inconsistent_counts
        ]
          ≡ ok r
        → ((n : ℕ) × All (λ a. a.part_count ≡ n) p.parts
            × ((i : ℕ) → i < n → Any (λ a. a.part_index ≡ i) p.parts))
          × All (λ c. c.commit_epoch ≤ r.resume_epoch) p.commits
          × (((p.exs ≡ []) × (r ≡ default_resume_from)) ⊎ IsReached p.exs p.fronts r)
    go [] counted f = cc f
    go (n ∷ []) counted f =
        let (point, behind, complete) = resume_with-ok n p r f in
        ((n, one-count n p.parts counted, complete), behind, from p.exs positive point)
    go (a ∷ b ∷ more) counted f = cc f
