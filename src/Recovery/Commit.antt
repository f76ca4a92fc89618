-- ===== src/Recovery/Commit.antt =====
-- `RecoveryCommitter::commit` (src/recovery.rs): the commit of an epoch and the deletion of snapshots.
use bytewax.Prelude.{
  ℕ, ◌≡◌, refl, ◌∙◌, ap, ◌==◌, ==_iff, ltb, Bool, true, false, not, ◌&&◌, Option, none, some, List,
  [], ◌∷◌, map, filter, All, All-member, Any, Any-map, Any-filter, Bool-cases, inl, inr,
}
use bytewax.Prelude.Order.Ord.{Ord, eq_refl}
use bytewax.Recovery.Tables.{SerializedSnapshot, RecoveryPart, same_commit, upsert_row}
use bytewax.Recovery.Resume.{maximum, is_none}
use bytewax.Recovery.Extremes.{maximum-member}
use bytewax.Recovery.Rows.{Any-unmap, Any-unfilter, maximum_of}

abbrev pub is_at : Option ℕ → ℕ → Bool
is_at none n = false
is_at (some m) n = n == m

module _ {K S : Type 0} ⦃o : Ord K⦄ where
  -- `max_epoch_snapshots` at a key.
  unfoldable pub last_before : ℕ → K → List (SerializedSnapshot K S) → Option ℕ
  unfolding maximum
  last_before epoch key snaps = maximum (
      map (λ (s : SerializedSnapshot K S). s.snap_epoch)
        (filter (λ s. o.eq s.key key && ltb s.snap_epoch epoch) snaps))

  -- The rows of `snaps JOIN max_epoch_snapshots`.
  unfoldable pub resume_rows : ℕ → List (SerializedSnapshot K S) → List (SerializedSnapshot K S)
  unfolding last_before
  resume_rows epoch snaps = filter (λ s. is_at (last_before epoch s.key snaps) s.snap_epoch) snaps

  -- `DELETE FROM snaps WHERE snap_epoch < ?1 AND NOT EXISTS (...)`: the subquery does not refer to the
  -- row that is deleted.
  unfoldable pub collect : ℕ → List (SerializedSnapshot K S) → List (SerializedSnapshot K S)
  unfolding resume_rows
  collect epoch snaps =
      filter (λ s. not (ltb s.snap_epoch epoch && is_none (resume_rows epoch snaps))) snaps

  unfoldable pub commit : ℕ → ℕ → RecoveryPart K S → RecoveryPart K S
  unfolding collect upsert_row
  commit part_key epoch p = record p {
    commits =
        upsert_row same_commit (record { part_index = part_key; commit_epoch = epoch }) p.commits;
    snaps = collect epoch p.snaps;
  }

pub and_left : (a b : Bool) → (a && b) ≡ true → a ≡ true
and_left true b h = refl
and_left false b h = h

module _ {A : Type 0} where
  pub upsert_row-member :
      (same : A → A → Bool) (a : A) (xs : List A) → Any (λ x. x ≡ a) (upsert_row same a xs)
  unfolding upsert_row
  upsert_row-member same a [] = inl refl
  upsert_row-member same a (b ∷ bs) = elim (Bool-cases (same a b)) [
    | inl found ↦ rw (found, upsert_row) (inl refl)
    | inr other ↦ rw (other, upsert_row) (inr (upsert_row-member same a bs))
  ]

  filter-All : (p : A → Bool) (xs : List A) → All (λ a. p a ≡ true) xs → filter p xs ≡ xs
  filter-All p [] h = refl
  filter-All p (a ∷ xs) h = rw (h.0, filter-All p xs h.1) refl

  Any-is_none : (P : A → Type 0) (xs : List A) → Any P xs → is_none xs ≡ false
  Any-is_none P [] at = elim at [ ]
  Any-is_none P (a ∷ xs) at = refl

module _ {K S : Type 0} ⦃o : Ord K⦄ where
  abbrev pub is_earlier : ℕ → K → SerializedSnapshot K S → Bool
  is_earlier epoch key r = o.eq r.key key && ltb r.snap_epoch epoch

  is_at-last_before :
      (epoch m : ℕ) (key : K) (r : SerializedSnapshot K S) (snaps : List (SerializedSnapshot K S))
      → maximum
          (map (λ (s : SerializedSnapshot K S). s.snap_epoch) (filter (is_earlier epoch key) snaps))
        ≡ some m
      → r.snap_epoch ≡ m
      → is_earlier epoch key r ≡ true
      → is_at (last_before epoch r.key snaps) r.snap_epoch ≡ true
  unfolding last_before
  is_at-last_before epoch m key r snaps e at early =
      rw ((o.eq_iff r.key key).0 (and_left _ _ early), e, at) ((==_iff m m).1 refl)

  -- Where there is a snapshot from before the epoch, there is one to resume from.
  resume_rows-some :
      (epoch : ℕ) (s : SerializedSnapshot K S) (snaps : List (SerializedSnapshot K S))
      → Any (λ r. r ≡ s) snaps
      → ltb s.snap_epoch epoch ≡ true
      → is_none (resume_rows epoch snaps) ≡ false
  unfolding resume_rows
  resume_rows-some epoch s snaps at before =
      let p = is_earlier epoch s.key in
      let early : is_earlier epoch s.key s ≡ true = rw (eq_refl s.key) before in
      let passes =
        Any-filter p (λ r. r ≡ s) snaps
          (Any-map (λ r. r ≡ s) (λ r e. (ap p e ∙ early, e)) snaps at) in
      let (m, e) =
        maximum_of _ (λ (r : SerializedSnapshot K S). r.snap_epoch) (filter p snaps) passes in
      let last =
        Any-unfilter p (λ r. r.snap_epoch ≡ m) snaps
          (Any-unmap (λ r. r.snap_epoch) m (filter p snaps) (maximum-member _ m e)) in
      Any-is_none (λ r. r ≡ r) _
        (Any-filter (λ r. is_at (last_before epoch r.key snaps) r.snap_epoch) (λ r. r ≡ r) snaps
          (Any-map (λ r. (r.snap_epoch ≡ m) × (p r ≡ true))
            (λ r h. (is_at-last_before epoch m s.key r snaps e h.0 h.1, refl)) snaps last))

  -- A commit puts its epoch on record for its partition, and deletes no snapshot, of whatever epoch.
  pub commit-keeps_snaps :
      (part_key epoch : ℕ) (p : RecoveryPart K S)
      → Any
          (λ c. c ≡ record { part_index = part_key; commit_epoch = epoch })
          (commit part_key epoch p).commits
        × ((commit part_key epoch p).snaps ≡ p.snaps)
  unfolding commit collect
  commit-keeps_snaps part_key epoch p = (
    upsert_row-member same_commit _ p.commits,
    filter-All _ p.snaps (
        All-member _ p.snaps λ s at. elim (Bool-cases (ltb s.snap_epoch epoch)) [
          | inl before ↦ rw (before, resume_rows-some epoch s p.snaps at before) refl
          | inr after ↦ rw after refl
        ]),
  )
