-- ===== src/Recovery/Store.antt =====
-- What a recovery partition keeps of the snapshots that are written to it (src/recovery.rs).
use mathlib.Core.Bool.{false≢true}
use bytewax.Prelude.{
  ℕ, ◌≤◌, ◌≡◌, sym, ap, subst, ◌∙◌, ltb, Bool, true, false, not, ◌&&◌, Option, none, some, List, [],
  ◌∷◌, map, filter, arith, All, All-map, All-Any, Any, Pairs, Bool-cases, inl, inr, if◌then◌else◌,
}
use bytewax.Prelude.Order.Ord.{Ord}
use bytewax.Recovery.Tables.{SerializedSnapshot, same_snap, upsert_row}
use bytewax.Recovery.Commit.{is_earlier, upsert_row-member, and_left}

module _ {A : Type 0} (same : A → A → Bool) (P : A → Type 0) where
  upsert_row-All : (a : A) (xs : List A) → P a → All P xs → All P (upsert_row same a xs)
  unfolding upsert_row
  upsert_row-All a [] here h = (here, tt)
  upsert_row-All a (b ∷ xs) here h = elim (Bool-cases (same a b)) [
    | inl found ↦ rw (found, upsert_row) (here, h.1)
    | inr other ↦ rw (other, upsert_row) (h.0, upsert_row-All a xs here h.1)
  ]

module _ {A : Type 0} (same : A → A → Bool) where
  upsert_row-keeps :
      (a r : A) (xs : List A)
      → same a r ≡ false
      → Any (λ x. x ≡ r) xs
      → Any (λ x. x ≡ r) (upsert_row same a xs)
  unfolding upsert_row
  upsert_row-keeps a r [] apart at = elim at [ ]
  upsert_row-keeps a r (b ∷ xs) apart (inl here) =
      rw (ap (same a) here ∙ apart, upsert_row) (inl here)
  upsert_row-keeps a r (b ∷ xs) apart (inr there) = elim (Bool-cases (same a b)) [
    | inl found ↦ rw (found, upsert_row) (inr there)
    | inr other ↦ rw (other, upsert_row) (inr (upsert_row-keeps a r xs apart there))
  ]

module _ {K S : Type 0} ⦃o : Ord K⦄ (before : ℕ) (key : K) where
  -- The latest write of a key before an epoch: of two writes at an epoch the second counts.
  abbrev pub newer :
      Option (SerializedSnapshot K S) → SerializedSnapshot K S → Option (SerializedSnapshot K S)
  newer none w = if is_earlier before key w then some w else none
  newer (some r) w =
      if is_earlier before key w && not (ltb w.snap_epoch r.snap_epoch) then some w else some r

  unfoldable pub latest :
      Option (SerializedSnapshot K S)
      → List (SerializedSnapshot K S)
      → Option (SerializedSnapshot K S)
  latest found [] = found
  latest found (w ∷ writes) = latest (newer found w) writes

  abbrev pub IsLatest : Option (SerializedSnapshot K S) → List (SerializedSnapshot K S) → Type 0
  IsLatest none rows = All (λ s. is_earlier before key s ≡ false) rows
  IsLatest (some r) rows =
      Any (λ s. s ≡ r) rows
      × (is_earlier before key r ≡ true)
      × All (λ s. is_earlier before key s ≡ true → s.snap_epoch ≤ r.snap_epoch) rows

  abbrev pub Below : SerializedSnapshot K S → SerializedSnapshot K S → Type 0
  Below r s = is_earlier before key s ≡ true → s.snap_epoch ≤ r.snap_epoch

  different :
      (w r : SerializedSnapshot K S)
      → is_earlier before key r ≡ true
      → (is_earlier before key w && not (ltb w.snap_epoch r.snap_epoch)) ≡ false
      → same_snap w r ≡ false
  different w r early e =
      ground (arith, o.eq_iff w.key r.key, o.eq_iff w.key key, o.eq_iff r.key key)

  pub newer-IsLatest :
      (found : Option (SerializedSnapshot K S)) (w : SerializedSnapshot K S)
      (rows : List (SerializedSnapshot K S))
      → IsLatest found rows
      → IsLatest (newer found w) (upsert_row same_snap w rows)
  newer-IsLatest none w rows h = elim (Bool-cases (is_earlier before key w)) [
    | inl e ↦ rw e (
      upsert_row-member same_snap w rows,
      e,
      upsert_row-All same_snap (Below w) w rows (λ _e. omega arith)
          (All-map (λ s. is_earlier before key s ≡ false)
            (λ s no yes_e. absurd (false≢true (sym no ∙ yes_e))) rows h),
    )
    | inr e ↦ rw e (upsert_row-All same_snap (λ s. is_earlier before key s ≡ false) w rows e h)
  ]
  newer-IsLatest (some r) w rows (at, early, low) =
      elim (Bool-cases (is_earlier before key w && not (ltb w.snap_epoch r.snap_epoch))) [
        | inl e ↦ rw e (
          upsert_row-member same_snap w rows,
          and_left _ _ e,
          upsert_row-All same_snap (Below w) w rows (λ _e. omega arith)
              (All-map (Below r) (λ s below yes_e. ground (arith, e, below yes_e)) rows low),
        )
        | inr e ↦ rw e (
          upsert_row-keeps same_snap w r rows (different w r early e) at,
          early,
          upsert_row-All same_snap (Below r) w rows (λ yes_e. ground (arith, e, yes_e)) low,
        )
      ]

module _ {A C : Type 0} {P : A → Type 0} (f : (a : A) → P a → C) where
  pub from_any : (xs : List A) → Any P xs → C
  from_any [] at = elim at [ ]
  from_any (x ∷ xs) (inl here) = f x here
  from_any (x ∷ xs) (inr there) = from_any xs there

module _ {A : Type 0} (p : A → Bool) (f : A → ℕ) (m : ℕ) where
  -- A bound on the rows that pass is a bound on each of them.
  pub bound_of :
      (r : A) (xs : List A)
      → All (λ n. n ≤ m) (map f (filter p xs))
      → Any (λ x. x ≡ r) xs
      → p r ≡ true
      → f r ≤ m
  bound_of r [] h at passes = elim at [ ]
  bound_of r (x ∷ xs) h (inl here) passes =
      let h' = rw (ap p here ∙ passes) at h in subst (λ y. f y ≤ m) here h'.0
  bound_of r (x ∷ xs) h (inr there) passes = elim (Bool-cases (p x)) [
    | inl e ↦ let h' = rw e at h in bound_of r xs h'.1 there passes
    | inr e ↦ let h' = rw e at h in bound_of r xs h' there passes
  ]

module _ {K S : Type 0} ⦃o : Ord K⦄ where
  -- No two rows have the primary key in common.
  abbrev pub Distinct : List (SerializedSnapshot K S) → Type 0
  Distinct rows = Pairs (λ r s. same_snap r s ≡ false) rows

  same_sym : (r s : SerializedSnapshot K S) → same_snap r s ≡ false → same_snap s r ≡ false
  same_sym r s h = ground (arith, o.eq_iff r.key s.key, o.eq_iff s.key r.key)

  same_trans :
      (w b s : SerializedSnapshot K S)
      → same_snap w b ≡ true
      → same_snap b s ≡ false
      → same_snap w s ≡ false
  same_trans w b s h g =
      ground (arith, o.eq_iff w.key b.key, o.eq_iff w.key s.key, o.eq_iff b.key s.key)

  pub upsert_row-Distinct :
      (w : SerializedSnapshot K S) (rows : List (SerializedSnapshot K S))
      → Distinct rows
      → Distinct (upsert_row same_snap w rows)
  unfolding upsert_row
  upsert_row-Distinct w [] h = (tt, tt)
  upsert_row-Distinct w (b ∷ rows) h = elim (Bool-cases (same_snap w b)) [
    | inl found ↦
        rw (found, upsert_row)
          (All-map (λ s. same_snap b s ≡ false) (λ s g. same_trans w b s found g) rows h.0, h.1)
    | inr other ↦
        rw (other, upsert_row)
          (
            upsert_row-All same_snap (λ s. same_snap b s ≡ false) w rows (same_sym w b other) h.0,
            upsert_row-Distinct w rows h.1,
          )
  ]

  pub unique :
      (r s : SerializedSnapshot K S) (rows : List (SerializedSnapshot K S))
      → Distinct rows
      → Any (λ x. x ≡ r) rows
      → Any (λ x. x ≡ s) rows
      → same_snap r s ≡ true
      → s ≡ r
  unique r s [] d at_r at_s same = elim at_r [ ]
  unique r s (x ∷ rows) d (inl h) (inl g) same = sym g ∙ h
  unique r s (x ∷ rows) d (inl h) (inr g) same =
      let apart = All-Any (λ y. same_snap x y ≡ false) rows d.0 g in
      absurd (false≢true (sym (subst (λ y. same_snap y s ≡ false) h apart) ∙ same))
  unique r s (x ∷ rows) d (inr h) (inl g) same =
      let apart = same_sym x r (All-Any (λ y. same_snap x y ≡ false) rows d.0 h) in
      absurd (false≢true (sym (subst (λ y. same_snap r y ≡ false) g apart) ∙ same))
  unique r s (x ∷ rows) d (inr h) (inr g) same = unique r s rows d.1 h g same
