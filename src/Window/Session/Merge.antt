-- ===== src/Window/Session/Merge.antt =====
-- What `merge_sessions` makes of sessions in the order of their starts.
use bytewax.Prelude.{
  ◌≡◌, sym, subst, ◌+ℤ◌, ◌≤ℤ◌, true, false, List, [], ◌∷◌, arith, All, All-map, Any, Pairs,
  Bool-cases, inl, inr, ◌⊎◌, ◌≢◌,
}
use bytewax.Window.Types.{DateTime, Duration, WindowKey}
use bytewax.Window.Session.Defs.{Session, StartsBy, contains, merge_with, merge_from, merge_all}

-- The later session starts when the earlier one has been silent for the gap.
abbrev pub Separated : Duration → Session → Session → Type 0
Separated gap s r = s.latest_event_time +ℤ gap ≤ℤ r.start

abbrev pub IsSpan : Session → Type 0
IsSpan s = s.start ≤ℤ s.latest_event_time

-- A session holds the events from one instant to another.
abbrev pub Covers : DateTime → DateTime → Session → Type 0
Covers a b s = (s.start ≤ℤ a) × (b ≤ℤ s.latest_event_time)

abbrev pub DifferentKey : Session → Session → Type 0
DifferentKey s r = s.key ≢ r.key

module _ (gap : Duration) where
  merge_with-bounds :
      (s r : Session)
      → ((merge_with s r).start ≤ℤ s.start)
        × ((merge_with s r).start ≤ℤ r.start)
        × (s.latest_event_time ≤ℤ (merge_with s r).latest_event_time)
        × (r.latest_event_time ≤ℤ (merge_with s r).latest_event_time)
        × ((merge_with s r).key ≡ s.key)
  unfolding merge_with
  merge_with-bounds s r = ground arith

  merge_with-start : (s r : Session) → StartsBy s r → StartsBy s (merge_with s r)
  unfolding merge_with
  merge_with-start s r h = ground arith

  StartsBy-before :
      (s p : Session) (ss : List Session) → StartsBy s p → All (StartsBy p) ss → All (StartsBy s) ss
  StartsBy-before s p ss h b = All-map (StartsBy p) (λ r l. omega arith) ss b

  contains_cases :
      (s r : Session)
      → StartsBy s r
      → (contains s r.start gap ≡ true) ⊎ ((contains s r.start gap ≡ false) × Separated gap s r)
  unfolding contains
  contains_cases s r h = ground arith

  -- No result starts before the first session.
  merge_from-StartsBy :
      (s p : Session) (ss : List Session)
      → StartsBy s p
      → All (StartsBy p) ss
      → Pairs StartsBy ss
      → All (StartsBy s) (merge_from gap p ss)
  unfolding merge_from
  merge_from-StartsBy s p [] h b sorted = (h, tt)
  merge_from-StartsBy s p (r ∷ ss) h b sorted = elim (contains_cases p r b.0) [
    | inl inside ↦
        rw (inside, merge_from)
          (merge_from-StartsBy s (merge_with p r) ss (omega (arith, merge_with-start p r b.0))
            (StartsBy-before (merge_with p r) p ss (merge_with-bounds p r).0 b.1) sorted.1)
    | inr (outside, apart) ↦
        rw (outside, merge_from)
          (h, merge_from-StartsBy s r ss (omega (arith, b.0)) sorted.0 sorted.1)
  ]

  Separated-before :
      (p r : Session) (ss : List Session)
      → Separated gap p r
      → All (StartsBy r) ss
      → All (Separated gap p) ss
  Separated-before p r ss h b = All-map (StartsBy r) (λ x l. omega arith) ss b

  -- The results are separated by the gap.
  merge_from-Separated :
      (p : Session) (ss : List Session)
      → All (StartsBy p) ss
      → Pairs StartsBy ss
      → Pairs (Separated gap) (merge_from gap p ss)
  unfolding merge_from
  merge_from-Separated p [] b sorted = (tt, tt)
  merge_from-Separated p (r ∷ ss) b sorted = elim (contains_cases p r b.0) [
    | inl inside ↦
        rw (inside, merge_from)
          (merge_from-Separated (merge_with p r) ss
            (StartsBy-before (merge_with p r) p ss (merge_with-bounds p r).0 b.1) sorted.1)
    | inr (outside, apart) ↦
        rw (outside, merge_from)
          (
            Separated-before p r (merge_from gap r ss) apart
                (merge_from-StartsBy r r ss (omega arith) sorted.0 sorted.1),
            merge_from-Separated r ss sorted.0 sorted.1,
          )
  ]

  merge_with-IsSpan : (s r : Session) → IsSpan s → IsSpan r → IsSpan (merge_with s r)
  unfolding merge_with
  merge_with-IsSpan s r h g = ground arith

  merge_from-IsSpan :
      (p : Session) (ss : List Session)
      → IsSpan p
      → All IsSpan ss
      → All IsSpan (merge_from gap p ss)
  unfolding merge_from
  merge_from-IsSpan p [] h hs = (h, tt)
  merge_from-IsSpan p (r ∷ ss) h hs = elim (Bool-cases (contains p r.start gap)) [
    | inl inside ↦
        rw (inside, merge_from)
          (merge_from-IsSpan (merge_with p r) ss (merge_with-IsSpan p r h hs.0) hs.1)
    | inr outside ↦ rw (outside, merge_from) (h, merge_from-IsSpan r ss hs.0 hs.1)
  ]

  -- The keys are keys of the sessions merged, and stay different.
  merge_from-key :
      (P : WindowKey → Type 0) (p : Session) (ss : List Session)
      → P p.key
      → All (λ s. P s.key) ss
      → All (λ s. P s.key) (merge_from gap p ss)
  unfolding merge_from
  merge_from-key P p [] h hs = (h, tt)
  merge_from-key P p (r ∷ ss) h hs = elim (Bool-cases (contains p r.start gap)) [
    | inl inside ↦
        rw (inside, merge_from)
          (merge_from-key P (merge_with p r) ss (subst P (sym (merge_with-bounds p r).4) h) hs.1)
    | inr outside ↦ rw (outside, merge_from) (h, merge_from-key P r ss hs.0 hs.1)
  ]

  merge_from-DifferentKey :
      (p : Session) (ss : List Session)
      → All (DifferentKey p) ss
      → Pairs DifferentKey ss
      → Pairs DifferentKey (merge_from gap p ss)
  unfolding merge_from
  merge_from-DifferentKey p [] h hs = (tt, tt)
  merge_from-DifferentKey p (r ∷ ss) h hs = elim (Bool-cases (contains p r.start gap)) [
    | inl inside ↦
        rw (inside, merge_from)
          (merge_from-DifferentKey (merge_with p r) ss
            (subst (λ k. All (λ s. k ≢ s.key) ss) (sym (merge_with-bounds p r).4) h.1) hs.1)
    | inr outside ↦
        rw (outside, merge_from)
          (merge_from-key (λ k. p.key ≢ k) r ss h.0 h.1, merge_from-DifferentKey r ss hs.0 hs.1)
  ]

  covered_merge :
      (a b : DateTime) (p r : Session) (ss : List Session)
      → Any (Covers a b) (p ∷ r ∷ ss)
      → Any (Covers a b) (merge_with p r ∷ ss)
  covered_merge a b p r ss (inl first) = inl (omega (arith, merge_with-bounds p r))
  covered_merge a b p r ss (inr (inl second)) = inl (omega (arith, merge_with-bounds p r))
  covered_merge a b p r ss (inr (inr there)) = inr there

  -- No event is lost: what a session covers, a result covers.
  merge_from-Covers :
      (a b : DateTime) (p : Session) (ss : List Session)
      → Any (Covers a b) (p ∷ ss)
      → Any (Covers a b) (merge_from gap p ss)
  unfolding merge_from
  merge_from-Covers a b p [] at = at
  merge_from-Covers a b p (r ∷ ss) at = elim (Bool-cases (contains p r.start gap)) [
    | inl inside ↦
        rw (inside, merge_from)
          (merge_from-Covers a b (merge_with p r) ss (covered_merge a b p r ss at))
    | inr outside ↦
        rw (outside, merge_from)
          (elim at [ inl here ↦ inl here | inr there ↦ inr (merge_from-Covers a b r ss there) ])
  ]

-- Sessions as `merge_sessions` leaves them.
pub record IsMerged (gap : Duration) (ss : List Session) : Type 0 where
  pub spans : All IsSpan ss
  pub separated : Pairs (Separated gap) ss
  pub different : Pairs DifferentKey ss

pub merge_all-IsMerged :
    (gap : Duration) (ss : List Session)
    → Pairs StartsBy ss
    → All IsSpan ss
    → Pairs DifferentKey ss
    → IsMerged gap (merge_all gap ss)
unfolding merge_all
merge_all-IsMerged gap [] sorted spans keys = record { spans = tt; separated = tt; different = tt }
merge_all-IsMerged gap (s ∷ ss) sorted spans keys = record {
  spans = merge_from-IsSpan gap s ss spans.0 spans.1;
  separated = merge_from-Separated gap s ss sorted.0 sorted.1;
  different = merge_from-DifferentKey gap s ss keys.0 keys.1;
}

pub merge_all-Covers :
    (gap : Duration) (a b : DateTime) (ss : List Session)
    → Any (Covers a b) ss
    → Any (Covers a b) (merge_all gap ss)
unfolding merge_all
merge_all-Covers gap a b [] at = at
merge_all-Covers gap a b (s ∷ ss) at = merge_from-Covers gap a b s ss at

pub merge_all-key :
    (gap : Duration) (P : WindowKey → Type 0) (ss : List Session)
    → All (λ s. P s.key) ss
    → All (λ s. P s.key) (merge_all gap ss)
unfolding merge_all
merge_all-key gap P [] h = tt
merge_all-key gap P (s ∷ ss) h = merge_from-key gap P s ss h.0 h.1
