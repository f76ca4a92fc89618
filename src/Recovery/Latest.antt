-- ===== src/Recovery/Latest.antt =====
-- What a recovery partition gives back of the snapshots that were written to it (src/recovery.rs).
use mathlib.Core.Bool.{false≢true}
use mathlib.Core.List.{Permᴰ}
use bytewax.Prelude.{
  ℕ, suc, ◌+◌, ◌≤◌, ◌≡◌, refl, sym, ap, subst, ◌∙◌, ==_iff, ltb, true, false, Option, none, some,
  List, [], ◌∷◌, map, filter, length, arith, All, All-map, All-Any, All-member, All-permᴰ, All-both,
  All-filter, filter-passes, Any, Any-map, Any-filter, Any-permᴰ, Bool-cases, inl, inr,
}
use bytewax.Prelude.Order.Ord.{Ord, eq_refl}
use bytewax.Recovery.Tables.{
  SerializedSnapshot, RecoveryPart, same_snap, upsert_row, write_all, write_snap,
}
use bytewax.Recovery.Resume.{maximum}
use bytewax.Recovery.Extremes.{maximum-member, maximum-ge}
use bytewax.Recovery.Rows.{Any-unmap, Any-unfilter, maximum_of}
use bytewax.Recovery.Commit.{resume_rows, last_before, is_at, is_earlier, and_left}
use bytewax.Recovery.Load.{OrderBy, uninit, drain}
use bytewax.Recovery.Paging.{drain-order_by}
use bytewax.Recovery.Store.{
  latest, newer, IsLatest, Below, Distinct, newer-IsLatest, upsert_row-Distinct, unique, bound_of,
  from_any,
}

is_at-some : (m : Option ℕ) (n : ℕ) → is_at m n ≡ true → m ≡ some n
is_at-some none n h = cc h
is_at-some (some m) n h = ap some (sym ((==_iff n m).0 h))

module _ {A C : Type 0} {P Q : A → Type 0} (f : (a : A) → P a → Q a → C) where
  meet : (xs : List A) → Any P xs → All Q xs → C
  meet [] at h = elim at [ ]
  meet (x ∷ xs) (inl here) h = f x here h.0
  meet (x ∷ xs) (inr there) h = meet xs there h.1

module _ {K S : Type 0} ⦃o : Ord K⦄ (before : ℕ) (rows : List (SerializedSnapshot K S)) where
  abbrev Resumes : SerializedSnapshot K S → Type 0
  Resumes s = is_at (last_before before s.key rows) s.snap_epoch ≡ true

  -- The epochs of a key before the resume epoch.
  abbrev epochs_of : K → List ℕ
  epochs_of key =
      map (λ (t : SerializedSnapshot K S). t.snap_epoch) (filter (is_earlier before key) rows)

  Resumes-greatest :
      (s : SerializedSnapshot K S) → Resumes s → maximum (epochs_of s.key) ≡ some s.snap_epoch
  unfolding last_before
  Resumes-greatest s h = is_at-some _ s.snap_epoch h

  -- A row to resume from is from before the resume epoch.
  Resumes-earlier : (s : SerializedSnapshot K S) → Resumes s → is_earlier before s.key s ≡ true
  Resumes-earlier s h =
      let greatest = maximum-member (epochs_of s.key) s.snap_epoch (Resumes-greatest s h) in
      let at =
        Any-unfilter (is_earlier before s.key)
          (λ (t : SerializedSnapshot K S). t.snap_epoch ≡ s.snap_epoch) rows
          (Any-unmap (λ (t : SerializedSnapshot K S). t.snap_epoch) s.snap_epoch
            (filter (is_earlier before s.key) rows) greatest) in
      from_any
        (λ (t : SerializedSnapshot K S)
            (k : (t.snap_epoch ≡ s.snap_epoch) × (is_earlier before s.key t ≡ true)).
          same_epoch t s k.0 k.1)
        rows at
    where
      same_epoch :
          (t s : SerializedSnapshot K S)
          → t.snap_epoch ≡ s.snap_epoch
          → is_earlier before s.key t ≡ true
          → is_earlier before s.key s ≡ true
      same_epoch t s e early = rw (eq_refl s.key) (ground (arith, e, early))

  Resumes-latest :
      (r s : SerializedSnapshot K S)
      → Resumes s
      → Any (λ x. x ≡ r) rows
      → is_earlier before s.key r ≡ true
      → r.snap_epoch ≤ s.snap_epoch
  Resumes-latest r s h at early =
      bound_of (is_earlier before s.key) (λ (t : SerializedSnapshot K S). t.snap_epoch) s.snap_epoch
        r rows (maximum-ge (epochs_of s.key) s.snap_epoch (Resumes-greatest s h)) at early

  -- What holds of each row to resume from.
  every :
      (Q : SerializedSnapshot K S → Type 0)
      → ((s : SerializedSnapshot K S) → Any (λ x. x ≡ s) rows → Resumes s → Q s)
      → All Q (resume_rows before rows)
  unfolding resume_rows
  every Q f =
      let p = λ (s : SerializedSnapshot K S). is_at (last_before before s.key rows) s.snap_epoch in
      All-map (λ s. Any (λ x. x ≡ s) rows × (p s ≡ true)) (λ s h. f s h.0 h.1) (filter p rows)
        (All-both (λ s. Any (λ x. x ≡ s) rows) (λ s. p s ≡ true) (filter p rows)
          (All-filter p (λ s. Any (λ x. x ≡ s) rows) rows
            (All-member (λ s. Any (λ x. x ≡ s) rows) rows (λ s at. at)))
          (filter-passes p rows))

module _ {K S : Type 0} ⦃o : Ord K⦄ (before : ℕ) (key : K) where
  -- Of a key, just the row given is there, or none.
  abbrev pub IsOnly : Option (SerializedSnapshot K S) → List (SerializedSnapshot K S) → Type 0
  IsOnly none rows = All (λ s. o.eq s.key key ≡ false) rows
  IsOnly (some r) rows = Any (λ s. s ≡ r) rows × All (λ s. o.eq s.key key ≡ true → s ≡ r) rows

  earlier_at :
      (s : SerializedSnapshot K S)
      → o.eq s.key key ≡ true
      → is_earlier before s.key s ≡ true
      → is_earlier before key s ≡ true
  earlier_at s e h = subst (λ k. is_earlier before k s ≡ true) ((o.eq_iff s.key key).0 e) h

  earlier_for :
      (s r : SerializedSnapshot K S)
      → o.eq s.key key ≡ true
      → is_earlier before key r ≡ true
      → is_earlier before s.key r ≡ true
  earlier_for s r e h = subst (λ k. is_earlier before k r ≡ true) (sym ((o.eq_iff s.key key).0 e)) h

  latest-Resumes :
      (r : SerializedSnapshot K S) (rows : List (SerializedSnapshot K S))
      → Any (λ s. s ≡ r) rows
      → is_earlier before key r ≡ true
      → All (Below before key r) rows
      → Resumes before rows r
  unfolding last_before
  latest-Resumes r rows at early low =
      let p = is_earlier before key in
      let passes =
        Any-filter p (λ s. s ≡ r) rows
          (Any-map (λ s. s ≡ r) (λ s e. (ap p e ∙ early, e)) rows at) in
      let (m, e) =
        maximum_of _ (λ (s : SerializedSnapshot K S). s.snap_epoch) (filter p rows) passes in
      let le =
        bound_of p (λ (s : SerializedSnapshot K S). s.snap_epoch) m r rows
          (maximum-ge (epochs_of before rows key) m e) at early in
      let of_row =
        Any-unfilter p (λ (s : SerializedSnapshot K S). s.snap_epoch ≡ m) rows
          (Any-unmap (λ (s : SerializedSnapshot K S). s.snap_epoch) m (filter p rows)
            (maximum-member _ m e)) in
      let ge : m ≤ r.snap_epoch =
        meet
          (λ (s : SerializedSnapshot K S) (h : (s.snap_epoch ≡ m) × (p s ≡ true))
              (below : Below before key r s).
            subst (λ n. n ≤ r.snap_epoch) h.0 (below h.1))
          rows of_row low in
      rw ((o.eq_iff r.key key).0 (and_left _ _ early), e)
        ((==_iff r.snap_epoch m).1 (omega (arith, le, ge)))

  resume_rows-IsOnly :
      (found : Option (SerializedSnapshot K S)) (rows : List (SerializedSnapshot K S))
      → Distinct rows
      → IsLatest before key found rows
      → IsOnly found (resume_rows before rows)
  unfolding resume_rows
  resume_rows-IsOnly none rows d h =
      every before rows (λ s. o.eq s.key key ≡ false)
        (λ s at resumes. elim (Bool-cases (o.eq s.key key)) [
          | inl e ↦ absurd (
              false≢true (
                sym (All-Any (λ t. is_earlier before key t ≡ false) rows h at)
                ∙ earlier_at s e (Resumes-earlier before rows s resumes)))
          | inr e ↦ e
        ])
  resume_rows-IsOnly (some r) rows d (at, early, low) = (
    Any-filter (λ s. is_at (last_before before s.key rows) s.snap_epoch) (λ s. s ≡ r) rows
        (Any-map (λ s. s ≡ r)
          (λ s e. (
            ap (λ t. is_at (last_before before t.key rows) t.snap_epoch) e
                ∙ latest-Resumes r rows at early low,
            e,
          ))
          rows at),
    every before rows (λ s. o.eq s.key key ≡ true → s ≡ r)
        (λ s at_s resumes e.
          let early_s = earlier_at s e (Resumes-earlier before rows s resumes) in
          let high = All-Any (Below before key r) rows low at_s early_s in
          let below = Resumes-latest before rows r s resumes at (earlier_for s r e early) in
          unique r s rows d at at_s (
            ground (
              arith,
              e,
              high,
              below,
              and_left (o.eq r.key key) (ltb r.snap_epoch before) early,
              o.eq_iff r.key key,
              o.eq_iff s.key key,
              o.eq_iff r.key s.key,
            ))),
  )

  -- The writes of a row after the other.
  write_snaps :
      (writes : List (SerializedSnapshot K S)) (p : RecoveryPart K S)
      (found : Option (SerializedSnapshot K S))
      → Distinct p.snaps
      → IsLatest before key found p.snaps
      → (p' : RecoveryPart K S) × (write_all write_snap writes p ≡ some p')
        × Distinct p'.snaps
        × IsLatest before key (latest before key found writes) p'.snaps
  unfolding write_all write_snap latest
  write_snaps [] p found d h = (p, refl, d, h)
  write_snaps (w ∷ writes) p found d h =
      write_snaps writes (record p { snaps = upsert_row same_snap w p.snaps })
        (newer before key found w) (upsert_row-Distinct w p.snaps d)
        (newer-IsLatest before key found w p.snaps h)

  permᴰ-IsOnly :
      (found : Option (SerializedSnapshot K S)) {xs ys : List (SerializedSnapshot K S)}
      → Permᴰ xs ys
      → IsOnly found xs
      → IsOnly found ys
  permᴰ-IsOnly none perm h = All-permᴰ (λ s. o.eq s.key key ≡ false) perm h
  permᴰ-IsOnly (some r) perm h =
      (Any-permᴰ (λ s. s ≡ r) perm h.0, All-permᴰ (λ s. o.eq s.key key ≡ true → s ≡ r) perm h.1)

  -- The writes and the batches of the loader together.
  pub write_all-IsOnly :
      (by : OrderBy K S) (batch_size : ℕ) (writes : List (SerializedSnapshot K S))
      (p : RecoveryPart K S)
      → (p' : RecoveryPart K S) × (read : List (SerializedSnapshot K S)) × (write_all write_snap
            writes
            (record p { snaps = [] })
          ≡ some p')
        × (drain by before
              (suc batch_size)
              p'.snaps
              (length (resume_rows before p'.snaps) + 2)
              uninit
            ≡ some read)
        × IsOnly (latest before key none writes) read
  write_all-IsOnly by batch_size writes p =
      let (p', written, d, h) = write_snaps writes (record p { snaps = [] }) none tt tt in
      (
        p',
        by.order_by (resume_rows before p'.snaps),
        written,
        drain-order_by before p'.snaps by batch_size d,
        permᴰ-IsOnly (latest before key none writes)
            (by.order_by-permᴰ (resume_rows before p'.snaps))
            (resume_rows-IsOnly (latest before key none writes) p'.snaps d h),
      )
