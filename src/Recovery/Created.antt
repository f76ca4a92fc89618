-- ===== src/Recovery/Created.antt =====
-- A recovery store that `init_db_dir` (src/recovery.rs) makes in an empty directory.
use mathlib.Core.List.{append_assoc, append-nil}
use bytewax.Prelude.{
  ℕ, zero, suc, ◌+◌, ◌<◌, ◌≤◌, ◌==◌, ltb, ==_iff, ◌≡◌, refl, ap, subst, ◌⊎◌, ◌∙◌, true, false, none,
  some, List, [], ◌∷◌, ◌++◌, arith, All, All-map, All-append, Bool-cases, inl, inr,
}
use bytewax.Prelude.Order.Ord.{Ord}
use bytewax.Prelude.Order.Map.{lookup, insert, lookup-insert}
use bytewax.Recovery.Tables.{
  PartitionMeta, RecoveryPart, write_part, write_all, insert_row, has_row, same_part,
}
use bytewax.Timely.Buffer.{or_empty}
use bytewax.Recovery.Load.{next_whole}
use bytewax.Recovery.Resume.{
  Resumed, no_partitions, distinct, default_resume_from, count_from, resume_from,
}
use bytewax.Recovery.Bundle.{no_rows, or_no_rows, init, init_all, init_db_dir}
use bytewax.Recovery.Calc.{new, write_rows}
use bytewax.Recovery.Fresh.{part_rows, fresh, resume_from-fresh}

has_row-new :
    (a : PartitionMeta) (rows : List PartitionMeta)
    → All (λ b. b.part_index < a.part_index) rows
    → has_row same_part a rows ≡ false
unfolding has_row
has_row-new a [] h = refl
has_row-new a (b ∷ rows) h = ground (arith, has_row-new a rows h.1)

module _ {K S : Type 0} (count : ℕ) where
  -- Rows of rising indices are written behind those that are there.
  write_all-part_rows :
      (i n : ℕ) (p : RecoveryPart K S)
      → i + n ≤ count
      → All (λ b. b.part_index < i) p.parts
      → write_all write_part (part_rows count i n) p
        ≡ some (record p { parts = p.parts ++ part_rows count i n })
  unfolding write_all write_part insert_row
  write_all-part_rows i zero p le h = rw (append-nil p.parts) refl
  write_all-part_rows i (suc n) p le h =
      let a : PartitionMeta = record { part_index = i; part_count = count } in
      let fits : ltb i count ≡ true = ground (arith, le) in
      let room : suc i + n ≤ count = omega (arith, le) in
      let last : All (λ b. b.part_index < suc i) (a ∷ []) = (omega arith, tt) in
      let less : All (λ b. b.part_index < suc i) p.parts =
        All-map (λ b. b.part_index < i) (λ b lt. omega (arith, lt)) p.parts h in
      rw (fits, has_row-new a p.parts h)
        (write_all-part_rows (suc i) n (record p { parts = p.parts ++ a ∷ [] }) room
            (All-append (λ b. b.part_index < suc i) p.parts (a ∷ []) less last)
          ∙ ap (λ rows. some (record p { parts = rows }))
              (append_assoc p.parts (a ∷ []) (part_rows count (suc i) n)))

module _ {K S : Type 0} where
  write_rows-part_rows :
      (count : ℕ)
      → write_rows {K = K} {S = S} (part_rows count 0 count) [] [] [] new ≡ some (fresh count)
  unfolding write_rows write_all new no_rows
  write_rows-part_rows count = rw (write_all-part_rows count 0 count no_rows (omega arith) tt) refl

-- The resume point of a store of new partitions: an error where there is none.
abbrev pub first_resume : ℕ → Resumed
first_resume zero = Resumed.err no_partitions
first_resume (suc n) = Resumed.ok default_resume_from

resume_from-first : (K S : Type 0) (n : ℕ) → resume_from {K = K} {S = S} (fresh n) ≡ first_resume n
unfolding resume_from distinct
resume_from-first K S zero = refl
resume_from-first K S (suc n) = resume_from-fresh K S n

-- The database of a partition that is new.
abbrev pub one_row : {K S : Type 0} → ℕ → ℕ → RecoveryPart K S
one_row count i = record {
  parts = record { part_index = i; part_count = count } ∷ [];
  exs = [];
  fronts = [];
  commits = [];
  snaps = [];
}

module _ {F : Type 0} ⦃o : Ord F⦄ (part_file : ℕ → F)
    (injective : (i j : ℕ) → part_file i ≡ part_file j → i ≡ j) where
  different : (i j : ℕ) → (i < j) ⊎ (j < i) → o.eq (part_file i) (part_file j) ≡ false
  different i j apart = elim (Bool-cases (o.eq (part_file i) (part_file j))) [
    | inl same ↦
        let e : i ≡ j = injective i j ((o.eq_iff (part_file i) (part_file j)).0 same) in
        absurd (ground (arith, e, apart))
    | inr other ↦ other
  ]

module _ {F K S : Type 0} ⦃o : Ord F⦄ (part_file : ℕ → F) where
  -- What the loaders of the partitions yield of their rows, partition by partition.
  unfoldable pub parts_of : List ℕ → List (F × RecoveryPart K S) → List PartitionMeta
  unfolding next_whole
  parts_of [] dir = []
  parts_of (k ∷ ks) dir =
      or_empty (next_whole (or_no_rows (lookup (part_file k) dir)).parts false).0 ++ parts_of ks dir

module _ {F K S : Type 0} ⦃o : Ord F⦄ (part_file : ℕ → F)
    (injective : (i j : ℕ) → part_file i ≡ part_file j → i ≡ j) (count : ℕ) where
  init-one_row :
      (i : ℕ) (dir : List (F × RecoveryPart K S))
      → i < count
      → lookup (part_file i) dir ≡ none
      → init part_file i count dir ≡ some (insert (part_file i) (one_row count i) dir)
  unfolding init write_part insert_row has_row no_rows
  init-one_row i dir lt free =
      let fits : ltb i count ≡ true = ground (arith, lt) in rw (free, fits) refl

  init_all-one_row :
      (i n : ℕ) (dir : List (F × RecoveryPart K S))
      → i + n ≤ count
      → ((j : ℕ) → i ≤ j → lookup (part_file j) dir ≡ none)
      → (dir' : List (F × RecoveryPart K S)) × (init_all part_file (count_from i n) count dir
          ≡ some dir')
        × ((j : ℕ) → j < i → lookup (part_file j) dir' ≡ lookup (part_file j) dir)
        × ((j : ℕ) → i ≤ j → j < i + n → lookup (part_file j) dir' ≡ some (one_row count j))
  unfolding init_all count_from
  init_all-one_row i zero dir le free =
      (dir, refl, λ j lt. refl, λ j from lt. absurd (omega (arith, from, lt)))
  init_all-one_row i (suc n) dir le free =
      let dir₁ : List (F × RecoveryPart K S) = insert (part_file i) (one_row count i) dir in
      let room : suc i + n ≤ count = omega (arith, le) in
      let here : i < count = omega (arith, le) in
      let (dir', runs, kept, made) = init_all-one_row (suc i) n dir₁ room still_free in
      (
        dir',
        rw (init-one_row i dir here (free i (omega arith))) runs,
        λ j lt. kept j (omega (arith, lt)) ∙ before j lt,
        λ j from lt. elim (Bool-cases (i == j)) [
          | inl same ↦
              let e : i ≡ j = (==_iff i j).0 same in
              subst (λ k. lookup (part_file k) dir' ≡ some (one_row count k)) e
                (kept i (omega arith) ∙ itself)
          | inr other ↦ made j (ground (arith, from, other)) (omega (arith, lt))
        ],
      )
    where
      itself :
          lookup (part_file i) (insert (part_file i) (one_row count i) dir) ≡ some (one_row count i)
      itself =
          rw
            (
              lookup-insert (part_file i) (part_file i) (one_row count i) dir,
              (o.eq_iff (part_file i) (part_file i)).1 refl,
            )
            refl

      before :
          (j : ℕ)
          → j < i
          → lookup (part_file j) (insert (part_file i) (one_row count i) dir)
            ≡ lookup (part_file j) dir
      before j lt =
          rw
            (
              lookup-insert (part_file i) (part_file j) (one_row count i) dir,
              different part_file injective i j (inr lt),
            )
            refl

      still_free :
          (j : ℕ)
          → suc i ≤ j
          → lookup (part_file j) (insert (part_file i) (one_row count i) dir) ≡ none
      still_free j lt =
          rw
            (
              lookup-insert (part_file i) (part_file j) (one_row count i) dir,
              different part_file injective i j (inl lt),
            )
            (free j (omega (arith, lt)))

  parts_of-part_rows :
      (dir : List (F × RecoveryPart K S)) (i n : ℕ)
      → ((j : ℕ) → i ≤ j → j < i + n → lookup (part_file j) dir ≡ some (one_row count j))
      → parts_of part_file (count_from i n) dir ≡ part_rows count i n
  unfolding count_from parts_of
  parts_of-part_rows dir i zero made = refl
  parts_of-part_rows dir i (suc n) made = rw (made i (omega arith) (omega arith)) (
      ap (λ rows. record { part_index = i; part_count = count } ∷ rows)
        (parts_of-part_rows dir (suc i) n
          (λ j from lt. made j (omega (arith, from)) (omega (arith, lt)))))

module _ {F K S : Type 0} ⦃o : Ord F⦄ (part_file : ℕ → F)
    (injective : (i j : ℕ) → part_file i ≡ part_file j → i ≡ j) where
  -- In an empty directory, and where no two partitions have one file, `init_db_dir` creates a file for
  -- each partition with just the row of that partition. What the loaders of the partitions yield of
  -- these rows can be written to the database of the resume calculation, and where there is a
  -- partition at all, an execution that resumes from it starts at the default: the first execution,
  -- from the first epoch. Without a partition it fails, as there is none.
  pub init_db_dir-resumes :
      (count : ℕ)
      → (dir : List (F × RecoveryPart K S)) × (p : RecoveryPart K S) × (init_db_dir part_file count
            (some [])
          ≡ some dir)
        × ((j : ℕ) → j < count → lookup (part_file j) dir ≡ some (one_row count j))
        × (write_rows (parts_of part_file (count_from 0 count) dir) [] [] [] new ≡ some p)
        × (resume_from p ≡ first_resume count)
  unfolding init_db_dir lookup
  init_db_dir-resumes count =
      let (dir, runs, kept, made) =
        init_all-one_row part_file injective count 0 count [] (omega arith) (λ j from. refl) in
      let rows = parts_of-part_rows part_file injective count dir 0 count made in
      (
        dir,
        fresh count,
        runs,
        λ j lt. made j (omega arith) (omega (arith, lt)),
        ap (λ ps. write_rows ps [] [] [] new) rows ∙ write_rows-part_rows count,
        resume_from-first K S count,
      )
