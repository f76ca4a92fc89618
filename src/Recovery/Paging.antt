-- ===== src/Recovery/Paging.antt =====
-- The batches of the snapshot loader (src/recovery.rs).
use mathlib.Core.List.{append_assoc}
use bytewax.Prelude.{
  ℕ, zero, suc, ◌+◌, ◌≤◌, ◌<◌, ◌≡◌, refl, sym, ap, subst, ◌∙◌, true, false, Option, none, some,
  List, [], ◌∷◌, ◌++◌, filter, length, arith, All, All-map, Pairs, Pairs-filter, Pairs-permᴰ,
  Bool-cases, inl, inr, All-both, filter-passes, length-permᴰ,
}
use bytewax.Prelude.Order.Ord.{Ord, lt_of_not}
use bytewax.Prelude.Order.Keys.{eq_flip}
use bytewax.Recovery.Tables.{SerializedSnapshot, same_snap}
use bytewax.Recovery.Commit.{resume_rows, last_before, is_at}
use bytewax.Recovery.Load.{
  Cursor, uninit, in_progress, done, OrderBy, take, last, is_after, page, next_cursor, select_snaps,
  next_batch, drain,
}

module _ {A : Type 0} where
  unfoldable drop : ℕ → List A → List A
  drop zero xs = xs
  drop (suc n) [] = []
  drop (suc n) (x ∷ xs) = drop n xs

  -- A limit that is not zero cuts a list with rows after one of them, the last that is taken.
  take-last :
      (n : ℕ) (x : A) (xs : List A)
      → (mid : List A) × (s : A) × (take (suc n) (x ∷ xs) ≡ mid ++ s ∷ [])
        × (x ∷ xs ≡ mid ++ s ∷ drop (suc n) (x ∷ xs))
        × (last (take (suc n) (x ∷ xs)) ≡ some s)
        × (length (drop (suc n) (x ∷ xs)) ≤ length xs)
  unfolding take drop last
  take-last zero x xs = ([], x, refl, refl, refl, omega arith)
  take-last (suc n) x [] = ([], x, refl, refl, refl, omega arith)
  take-last (suc n) x (y ∷ xs) =
      let (mid, s, taken, whole, at, le) = take-last n y xs in
      (x ∷ mid, s, ap (λ l. x ∷ l) taken, ap (λ l. x ∷ l) whole, at, omega arith)

module _ {K S : Type 0} ⦃o : Ord K⦄ where
  -- The keys ascend.
  abbrev Rises : SerializedSnapshot K S → SerializedSnapshot K S → Type 0
  Rises r s = o.lt r.key s.key ≡ true

  filter_after :
      (k : K) (post : List (SerializedSnapshot K S))
      → All (λ s. o.lt k s.key ≡ true) post
      → filter (is_after (some k)) post ≡ post
  filter_after k [] h = refl
  filter_after k (s ∷ post) h = rw (h.0, filter_after k post h.1) refl

  -- What is after a row of a list with ascending keys.
  filter-append :
      (pre : List (SerializedSnapshot K S)) (s : SerializedSnapshot K S)
      (post : List (SerializedSnapshot K S))
      → Pairs Rises (pre ++ s ∷ post)
      → filter (is_after (some s.key)) (pre ++ s ∷ post) ≡ post
  filter-append [] s post h = rw (o.lt_irrefl s.key) (filter_after s.key post h.0)
  filter-append (r ∷ pre) s post h = rw (not_after r pre h.0) (filter-append pre s post h.1)
    where
      not_after :
          (r : SerializedSnapshot K S) (pre : List (SerializedSnapshot K S))
          → All (Rises r) (pre ++ s ∷ post)
          → o.lt s.key r.key ≡ false
      not_after r [] g = ground (arith, o.lt_irrefl r.key, o.lt_trans r.key s.key r.key)
      not_after r (q ∷ pre) g = not_after r pre g.1

  module _ (by : OrderBy K S) (before batch_size : ℕ) (snaps : List (SerializedSnapshot K S))
      (ascending : Pairs Rises (by.order_by (resume_rows before snaps))) where
    abbrev rows : List (SerializedSnapshot K S)
    rows = by.order_by (resume_rows before snaps)

    drain_done : (n : ℕ) → drain by before (suc batch_size) snaps (suc n) done ≡ some []
    unfolding drain next_batch
    drain_done n = refl

    page_after :
        (pre mid rest : List (SerializedSnapshot K S)) (s : SerializedSnapshot K S)
        → rows ≡ pre ++ (mid ++ s ∷ rest)
        → page by before (suc batch_size) snaps (some s.key) ≡ take (suc batch_size) rest
    unfolding page
    page_after pre mid rest s whole =
        let split = whole ∙ sym (append_assoc pre mid (s ∷ rest)) in
        ap (take (suc batch_size)) (
          ap (filter (is_after (some s.key))) split
          ∙ filter-append (pre ++ mid) s rest (subst (Pairs Rises) split ascending))

    select_after :
        (pre mid rest : List (SerializedSnapshot K S)) (s : SerializedSnapshot K S)
        → rows ≡ pre ++ (mid ++ s ∷ rest)
        → next_batch by before (suc batch_size) snaps (in_progress s.key) ≡ (
          some (take (suc batch_size) rest),
          next_cursor by before (suc batch_size) snaps (last (take (suc batch_size) rest)),
        )
    unfolding next_batch select_snaps
    select_after pre mid rest s whole = rw (page_after pre mid rest s whole) refl

    drain_more :
        (n : ℕ) (batch later : List (SerializedSnapshot K S)) (cursor cursor' : Cursor K)
        → next_batch by before (suc batch_size) snaps cursor ≡ (some batch, cursor')
        → drain by before (suc batch_size) snaps n cursor' ≡ some later
        → drain by before (suc batch_size) snaps (suc n) cursor ≡ some (batch ++ later)
    unfolding drain
    drain_more n batch later cursor cursor' e rest = rw (drain, e, ap (λ r. r.1) e, rest) refl

    drain_rest :
        (n : ℕ) (pre rest : List (SerializedSnapshot K S)) (cursor : Cursor K)
        → rows ≡ pre ++ rest
        → next_batch by before (suc batch_size) snaps cursor ≡ (
          some (take (suc batch_size) rest),
          next_cursor by before (suc batch_size) snaps (last (take (suc batch_size) rest)),
        )
        → length rest + 1 < n
        → drain by before (suc batch_size) snaps n cursor ≡ some rest
    unfolding take last
    drain_rest zero pre rest cursor whole batch enough = ground arith
    drain_rest (suc zero) pre rest cursor whole batch enough = ground arith
    drain_rest (suc (suc n)) pre [] cursor whole batch enough =
        drain_more (suc n) [] [] cursor done batch (drain_done n)
    drain_rest (suc (suc n)) pre (x ∷ xs) cursor whole batch enough =
        let (mid, s, taken, split, at, le) = take-last batch_size x xs in
        let rest = drop (suc batch_size) (x ∷ xs) in
        let whole' = whole ∙ ap (λ l. pre ++ l) split in
        let later =
          drain_rest (suc n) (pre ++ (mid ++ s ∷ [])) rest (in_progress s.key)
            (whole'
              ∙ sym (
                  append_assoc pre (mid ++ s ∷ []) rest
                  ∙ ap (λ l. pre ++ l) (append_assoc mid (s ∷ []) rest)))
            (select_after pre mid rest s whole') (omega arith) in
        let next =
          batch
          ∙ ap
              (λ r. (
                some (take (suc batch_size) (x ∷ xs)),
                next_cursor by before (suc batch_size) snaps r,
              ))
              at in
        drain_more (suc n) (take (suc batch_size) (x ∷ xs)) rest cursor (in_progress s.key) next
          later
        ∙ ap some (ap (λ l. l ++ rest) taken ∙ append_assoc mid (s ∷ []) rest ∙ sym split)

-- Between rows with different keys and epochs, at most one of a key is to resume from.
module _ {A : Type 0} (R Q : A → A → Type 0) (P : A → Type 0)
    (f : (a b : A) → P a → P b → R a b → Q a b) where
  Pairs-refine : (xs : List A) → All P xs → Pairs R xs → Pairs Q xs
  Pairs-refine [] p h = tt
  Pairs-refine (x ∷ xs) p h = (
    All-map (λ b. P b × R x b) (λ b g. f x b p.0 g.0 g.1) xs (All-both P (R x) xs p.1 h.0),
    Pairs-refine xs p.1 h.1,
  )

module _ {K S : Type 0} ⦃o : Ord K⦄ (before : ℕ) (snaps : List (SerializedSnapshot K S)) where
  abbrev Last : SerializedSnapshot K S → Type 0
  Last r = is_at (last_before before r.key snaps) r.snap_epoch ≡ true

  is_at-same : (m : Option ℕ) (a b : ℕ) → is_at m a ≡ true → is_at m b ≡ true → a ≡ b
  is_at-same none a b h g = ground arith
  is_at-same (some m) a b h g = ground arith

  apart :
      (r s : SerializedSnapshot K S)
      → Last r
      → Last s
      → same_snap r s ≡ false
      → o.eq r.key s.key ≡ false
  apart r s h g other = elim (Bool-cases (o.eq r.key s.key)) [
    | inr e ↦ e
    | inl e ↦
        let same =
          is_at-same (last_before before s.key snaps) r.snap_epoch s.snap_epoch
            (subst (λ k. is_at (last_before before k snaps) r.snap_epoch ≡ true)
              ((o.eq_iff r.key s.key).0 e) h)
            g in
        ground (arith)
  ]

  resume_rows-Pairs :
      Pairs (λ r s. same_snap r s ≡ false) snaps
      → Pairs (λ r s. o.eq r.key s.key ≡ false) (resume_rows before snaps)
  unfolding resume_rows
  resume_rows-Pairs h =
      let p = λ (s : SerializedSnapshot K S). is_at (last_before before s.key snaps) s.snap_epoch in
      Pairs-refine (λ r s. same_snap r s ≡ false) (λ r s. o.eq r.key s.key ≡ false) Last apart
        (resume_rows before snaps) (filter-passes p snaps)
        (Pairs-filter p (λ r s. same_snap r s ≡ false) snaps h)

  order_by-Rises :
      (by : OrderBy K S)
      → Pairs (λ r s. same_snap r s ≡ false) snaps
      → Pairs Rises (by.order_by (resume_rows before snaps))
  order_by-Rises by h =
      let rows = resume_rows before snaps in
      Pairs-both (by.order_by rows)
        (Pairs-permᴰ (λ r s. o.eq r.key s.key ≡ false) (λ r s e. eq_flip r.key s.key e)
          (by.order_by-permᴰ rows) (resume_rows-Pairs h))
        (by.order_by-Pairs rows)
    where
      Pairs-both :
          (xs : List (SerializedSnapshot K S))
          → Pairs (λ r s. o.eq r.key s.key ≡ false) xs
          → Pairs (λ r s. o.lt s.key r.key ≡ false) xs
          → Pairs Rises xs
      Pairs-both [] e l = tt
      Pairs-both (r ∷ xs) e l = (
        All-map (λ s. (o.eq r.key s.key ≡ false) × (o.lt s.key r.key ≡ false))
            (λ s g. lt_of_not s.key r.key g.1 g.0) xs
            (All-both (λ s. o.eq r.key s.key ≡ false) (λ s. o.lt s.key r.key ≡ false) xs e.0 l.0),
        Pairs-both xs e.1 l.1,
      )

  -- The batches of the snapshot loader are, one after the other, exactly the snapshots to resume
  -- from, each once, in the order of the keys, and there are at most two more of them than there are
  -- such snapshots; none is left out or read twice at the border of two batches. The conditions are
  -- that the batch size is not zero and that no two rows of the table have the key and the epoch in
  -- common, which is its primary key.
  pub drain-order_by :
      (by : OrderBy K S) (batch_size : ℕ)
      → Pairs (λ r s. same_snap r s ≡ false) snaps
      → drain by before (suc batch_size) snaps (length (resume_rows before snaps) + 2) uninit
        ≡ some (by.order_by (resume_rows before snaps))
  unfolding next_batch select_snaps page
  drain-order_by by batch_size h =
      let rows = by.order_by (resume_rows before snaps) in
      let e = length-permᴰ (by.order_by-permᴰ (resume_rows before snaps)) in
      drain_rest by before batch_size snaps (order_by-Rises by h)
        (length (resume_rows before snaps) + 2) [] rows uninit refl (rw (filter_all rows) refl)
        (omega arith)
    where
      filter_all : (xs : List (SerializedSnapshot K S)) → filter (is_after none) xs ≡ xs
      filter_all [] = refl
      filter_all (x ∷ xs) = ap (λ l. x ∷ l) (filter_all xs)
