-- ===== src/Window/Session/Closing.antt =====
-- Which sessions a `SessionWindower` closes, and when it asks to be woken.
use bytewax.Prelude.{
  ◌≡◌, refl, sym, subst, ap, ◌⊎◌, pos, ◌+ℤ◌, ◌≤ℤ◌, ◌<ℤ◌, ltb_ℤ, ltb_ℤ→lt, ltb_ℤ→ge, +ℤ_parts, Bool,
  true, false, not, some, List, [], ◌∷◌, map, arith, All, All-map, All-filter, All-member, All-both,
  filter, Any, Any-map, Any-filter, Pairs, Pairs-filter, filter-passes, Bool-cases, inl, inr,
}
use bytewax.Window.Types.{WindowKey, WindowMetadata, DateTime, Duration}
use bytewax.Window.Session.Defs.{
  Session, SessionWindower, session_metadata, current_close_time, is_open_at, drain_closed, last,
  next_close,
}
use bytewax.Window.Session.Merge.{Separated, IsSpan, DifferentKey, IsMerged}
use bytewax.Window.Session.Insert.{IsValid}

module _ (P : Session → Type 0) where
  Any-map_over :
      {B : Type 0} (f : Session → B) (Q : B → Type 0)
      → ((s : Session) → P s → Q (f s))
      → (ss : List Session) → Any P ss
      → Any Q (map f ss)
  Any-map_over f Q h [] at = elim at [ ]
  Any-map_over f Q h (s ∷ ss) (inl here) = inl (h s here)
  Any-map_over f Q h (s ∷ ss) (inr there) = inr (Any-map_over f Q h ss there)

drained_from :
    {B : Type 0} (f : Session → B) (q : Session → Bool) (Q : B → Type 0) (ss : List Session)
    → All (λ s. q s ≡ true → Q (f s)) ss
    → All Q (map f (filter q ss))
drained_from f q Q [] h = tt
drained_from f q Q (s ∷ ss) h = elim (Bool-cases (q s)) [
  | inl e ↦ rw e (h.0 e, drained_from f q Q ss h.1)
  | inr e ↦ rw e (drained_from f q Q ss h.1)
]

false_of-not : (b : Bool) → not b ≡ true → b ≡ false
false_of-not true e = sym e
false_of-not false e = refl

-- Of valid sessions, a session is drained, with its key and its boundaries, if the gap after its latest event has
-- passed at the watermark, and otherwise stays as it is; nothing else is drained, and nothing else
-- stays. The sessions that stay are valid.
pub drain_closed-parts :
    (w : SessionWindower) (watermark : DateTime)
    → IsValid w
    → All
        (λ s.
          ((s.latest_event_time +ℤ w.gap ≤ℤ watermark)
            × Any (λ e. e ≡ (s.key, session_metadata s)) (drain_closed w watermark).1)
          ⊎ ((watermark <ℤ s.latest_event_time +ℤ w.gap)
              × Any (λ r. r ≡ s) (drain_closed w watermark).0.sessions))
        w.sessions
      × IsValid (drain_closed w watermark).0
      × All
          (λ r. (watermark <ℤ r.latest_event_time +ℤ w.gap) × Any (λ s. s ≡ r) w.sessions)
          (drain_closed w watermark).0.sessions
      × All
          (λ e.
            Any
              (λ s. (s.latest_event_time +ℤ w.gap ≤ℤ watermark) × (e ≡ (s.key, session_metadata s)))
              w.sessions)
          (drain_closed w watermark).1
unfolding drain_closed
drain_closed-parts w watermark v = (
  All-member _ w.sessions λ s at.
      elim (Bool-cases (ltb_ℤ watermark (s.latest_event_time +ℤ w.gap))) [
        | inl live ↦ inr (
          ltb_ℤ→lt watermark _ live,
          Any-filter p (λ r. r ≡ s) w.sessions
              (Any-map (λ x. x ≡ s) (λ x e. (rw e live, e)) w.sessions at),
        )
        | inr over ↦ inl (
          ltb_ℤ→ge watermark _ over,
          Any-map_over (λ x. x ≡ s) (λ x. (x.key, session_metadata x))
              (λ e. e ≡ (s.key, session_metadata s))
              (λ x e. ap (λ y. (y.key, session_metadata y)) e) _
              (Any-filter (λ x. not (p x)) (λ r. r ≡ s) w.sessions
                (Any-map (λ x. x ≡ s) (λ x e. (rw (e, over) refl, e)) w.sessions at)),
        )
      ],
  record {
    positive = v.positive;
    merged = record {
      spans = All-filter p IsSpan w.sessions v.merged.spans;
      separated = Pairs-filter p (Separated w.gap) w.sessions v.merged.separated;
      different = Pairs-filter p DifferentKey w.sessions v.merged.different;
    };
    issued = All-filter p (λ s. s.key ≤ℤ w.max_key) w.sessions v.issued;
  },
  All-map (λ r. (p r ≡ true) × Any (λ s. s ≡ r) w.sessions) (λ r h. (ltb_ℤ→lt watermark _ h.0, h.1))
      (filter p w.sessions)
      (All-both (λ r. p r ≡ true) (λ r. Any (λ s. s ≡ r) w.sessions) (filter p w.sessions)
        (filter-passes p w.sessions)
        (All-filter p (λ r. Any (λ s. s ≡ r) w.sessions) w.sessions
          (All-member (λ r. Any (λ s. s ≡ r) w.sessions) w.sessions (λ r at. at)))),
  drained_from (λ s. (s.key, session_metadata s)) (λ s. not (p s))
      (λ e.
        Any (λ s. (s.latest_event_time +ℤ w.gap ≤ℤ watermark) × (e ≡ (s.key, session_metadata s)))
          w.sessions)
      w.sessions
      (All-member _ w.sessions λ s at over.
        Any-map (λ x. x ≡ s)
          (λ x e.
            subst
              (λ y.
                (y.latest_event_time +ℤ w.gap ≤ℤ watermark)
                × ◌≡◌ {A = WindowKey × WindowMetadata} (s.key, session_metadata s)
                    (y.key, session_metadata y))
              (sym e) (ltb_ℤ→ge watermark _ (false_of-not (p s) over), refl))
          w.sessions at),
)
  where
    p : Session → Bool
    p s = is_open_at s watermark w.gap

module _ (gap : Duration) (positive : pos 0 <ℤ gap) where
  last-latest :
      (s : Session) (ss : List Session)
      → All IsSpan (s ∷ ss)
      → Pairs (Separated gap) (s ∷ ss)
      → (x : Session) × (last (s ∷ ss) ≡ some x)
        × All (λ r. r.latest_event_time ≤ℤ x.latest_event_time) (s ∷ ss)
  unfolding last
  last-latest s [] spans apart = (s, refl, (omega arith, tt))
  last-latest s (r ∷ ss) spans apart =
      let (x, e, le) = last-latest r ss spans.1 apart.1 in
      (x, e, (omega (arith, +ℤ_parts, apart.0.0, spans.1.0, le.0), le))

-- With two valid sessions or more open, the awakening that is asked for is at the closing time of the
-- last session, at or after every closing time, and after that of the first session.
pub next_close-latest :
    (w : SessionWindower) (s r : Session) (ss : List Session)
    → IsValid w
    → w.sessions ≡ s ∷ r ∷ ss
    → (t : DateTime) × (next_close w ≡ some t)
      × All (λ x. current_close_time x w.gap ≤ℤ t) w.sessions
      × (current_close_time s w.gap <ℤ t)
unfolding next_close
next_close-latest w s r ss v e =
    let m = subst (IsMerged w.gap) e v.merged in
    let (x, found, le) = last-latest w.gap v.positive s (r ∷ ss) m.spans m.separated in
    (
      current_close_time x w.gap,
      rw (e, found) refl,
      subst (All (λ y. current_close_time y w.gap ≤ℤ current_close_time x w.gap)) (sym e) (
          All-map (λ y. y.latest_event_time ≤ℤ x.latest_event_time) (λ y h. omega (arith, +ℤ_parts))
            (s ∷ r ∷ ss) le),
      omega (arith, +ℤ_parts, v.positive, m.separated.0.0, m.spans.1.0, le.1.0),
    )
