-- ===== src/Window/Session/Orphan.antt =====
-- What an item before a session does to the key of the session.
use bytewax.Prelude.{
  ◌≡◌, refl, sym, subst, ap, ◌∙◌, ℤ, pos, ◌+ℤ◌, ◌≤ℤ◌, ◌<ℤ◌, gt→eqb_ℤ, ge→ltb_ℤ, +ℤ_parts, none,
  some, List, [], ◌∷◌, ◌++◌, arith, pos_part, neg_part, length, length-permᴰ, All, Any, Any-permᴰ,
  Pairs, inl, inr,
}
use bytewax.Prelude.Words.{Fits, i64_half, wrap_i64-Fits}
use bytewax.Window.Types.{DateTime, WindowKey, ok}
use bytewax.Window.Session.Defs.{
  Session, SessionWindower, UnstableSort, StartsBy, session_new, contains, merge_with, merge_all,
  insert_first, insert_item, find,
}
use bytewax.Window.Session.Insert.{IsValid}
use bytewax.Window.Session.Merge.{IsSpan}

module _ (s r : Session) (before : r.start <ℤ s.start) where
  -- Two sessions are sorted in one way if their starts differ.
  sorted_pair :
      (ys : List Session)
      → length ys ≡ 2
      → Pairs StartsBy ys
      → Any (λ x. x ≡ s) ys
      → Any (λ x. x ≡ r) ys
      → ys ≡ r ∷ s ∷ []
  sorted_pair [] n h at to = elim at [ ]
  sorted_pair (x ∷ []) n h at to = absurd (omega arith)
  sorted_pair (x ∷ y ∷ z ∷ l) n h at to = absurd (omega arith)
  sorted_pair (x ∷ y ∷ []) n h (inl e) (inl f) = absurd (
      omega (arith, ap (λ t. pos_part t.start) (sym e ∙ f), ap (λ t. neg_part t.start) (sym e ∙ f)))
  sorted_pair (x ∷ y ∷ []) n h (inl e) (inr (inl f)) = absurd (
      omega (
        arith,
        subst (λ t. t.start ≤ℤ y.start) e h.0.0,
        ap (λ t. pos_part t.start) f,
        ap (λ t. neg_part t.start) f,
      ))
  sorted_pair (x ∷ y ∷ []) n h (inr (inl e)) (inl f) = λ i. f i ∷ e i ∷ []
  sorted_pair (x ∷ y ∷ []) n h (inr (inl e)) (inr (inl f)) = absurd (
      omega (arith, ap (λ t. pos_part t.start) (sym e ∙ f), ap (λ t. neg_part t.start) (sym e ∙ f)))
  sorted_pair (x ∷ y ∷ []) n h _ (inr (inr f)) = elim f [ ]
  sorted_pair (x ∷ y ∷ []) n h (inr (inr e)) _ = elim e [ ]

  pub sort_pair : (by : UnstableSort) → by.sort_unstable (s ∷ r ∷ []) ≡ r ∷ s ∷ []
  sort_pair by =
      let p = by.sort_unstable-permᴰ (s ∷ r ∷ []) in
      sorted_pair (by.sort_unstable (s ∷ r ∷ [])) (sym (length-permᴰ p))
        (by.sort_unstable-Pairs (s ∷ r ∷ [])) (Any-permᴰ (λ x. x ≡ s) p (inl refl))
        (Any-permᴰ (λ x. x ≡ r) p (inr (inl refl)))

module _ (gap time : ℤ) (s : Session) (k : WindowKey) where
  -- The session of an item that comes less than the gap before a session takes that one in.
  merge_all-before :
      time <ℤ s.start
      → s.start <ℤ time +ℤ gap
      → s.start ≤ℤ s.latest_event_time
      → merge_all gap (session_new k time ∷ s ∷ [])
        ≡ record { key = k; start = time; latest_event_time = s.latest_event_time } ∷ []
  unfolding merge_all session_new contains merge_with
  merge_all-before h g span = ground (arith, +ℤ_parts time gap)

  insert_first-one :
      pos 0 <ℤ gap
      → time ≤ℤ s.latest_event_time
      → insert_first gap time
          (record { key = k; start = time; latest_event_time = s.latest_event_time } ∷ [])
        ≡ some (record { key = k; start = time; latest_event_time = s.latest_event_time } ∷ [], k)
  unfolding insert_first contains
  insert_first-one positive le = ground (arith, +ℤ_parts s.latest_event_time gap)

-- An item in time that comes before the only session, by less than the gap, and with room for one
-- more key, is returned a new key,
-- under which the session goes on; no session has the key of the session from before.
pub insert_item-orphans :
    (by : UnstableSort) (w : SessionWindower) (watermark time : DateTime) (s : Session)
    → IsValid w
    → w.sessions ≡ s ∷ []
    → Fits i64_half (w.max_key +ℤ pos 1)
    → watermark ≤ℤ time
    → time <ℤ s.start
    → s.start <ℤ time +ℤ w.gap
    → (w' : SessionWindower) × (insert_item by w watermark time
        ≡ some (w', ok (w.max_key +ℤ pos 1) ∷ []))
      × (w'.sessions
          ≡ record {
            key = w.max_key +ℤ pos 1;
            start = time;
            latest_event_time = s.latest_event_time;
          }
            ∷ [])
      × (find s.key w'.sessions ≡ none)
unfolding insert_item find
insert_item-orphans by w watermark time s v only room in_time before near =
    let k = w.max_key +ℤ pos 1 in
    let span = (subst (All IsSpan) only v.merged.spans).0 in
    let issued = (subst (All (λ x. x.key ≤ℤ w.max_key)) only v.issued).0 in
    let r : Session = record { key = k; start = time; latest_event_time = s.latest_event_time } in
    let sorted =
      ap (λ ss. by.sort_unstable (ss ++ session_new k time ∷ [])) only
      ∙ sort_pair s (session_new k time) (unfold session_new in before) by in
    let merged = ap (merge_all w.gap) sorted ∙ merge_all-before w.gap time s k before near span in
    (
      record w { sessions = r ∷ []; max_key = k },
      rw
          (
            ge→ltb_ℤ time watermark in_time,
            wrap_i64-Fits k room,
            merged,
            insert_first-one w.gap time s k v.positive (omega arith),
          )
          refl,
      refl,
      rw (gt→eqb_ℤ k s.key (omega (arith, +ℤ_parts, issued))) refl,
    )
