-- ===== src/Window/Session/Insert.antt =====
-- `SessionWindower::insert`, of src/window/session_window.rs, against the sessions.
use bytewax.Prelude.{
  ◌≡◌, refl, sym, ap, ◌⊎◌, pos, pos_part, neg_part, ◌+ℤ◌, ◌≤ℤ◌, ◌<ℤ◌, ltb_ℤ, +ℤ_parts, ltb_ℤ→lt,
  ltb_ℤ→ge, true, false, some, List, [], ◌∷◌, ◌++◌, arith, All, All-map, All-member, All-append,
  All-permᴰ, Any, Any-map, Any-append_left, Any-append_right, Any-permᴰ, Pairs, Pairs-permᴰ,
  Pairs-append_one, Bool-cases, inl, inr,
}
use bytewax.Prelude.Words.{Fits, i64_half, wrap_i64-Fits}
use bytewax.Window.Types.{DateTime, Duration, WindowKey, ok, late}
use bytewax.Window.Session.Defs.{
  Session, SessionWindower, UnstableSort, session_new, contains, try_insert, merge_all,
  insert_first, insert_item,
}
use bytewax.Window.Session.Merge.{
  Separated, IsSpan, Covers, DifferentKey, IsMerged, merge_all-IsMerged, merge_all-Covers,
  merge_all-key,
}

-- The sessions are apart, and the keys were issued by the windower.
pub record IsValid (w : SessionWindower) : Type 0 where
  pub positive : pos 0 <ℤ w.gap
  pub merged : IsMerged w.gap w.sessions
  pub issued : All (λ s. s.key ≤ℤ w.max_key) w.sessions

module _ (gap : Duration) (time : DateTime) (positive : pos 0 <ℤ gap) where
  -- A session that covers the item takes it without a change.
  try_insert-Covers : (s : Session) → Covers time time s → try_insert s time gap ≡ (s, true)
  unfolding try_insert contains
  try_insert-Covers s h = ground (arith, +ℤ_parts s.latest_event_time gap)

  try_insert-apart :
      (s r : Session) → Separated gap s r → Covers time time r → try_insert s time gap ≡ (s, false)
  unfolding try_insert contains
  try_insert-apart s r h c = ground (arith, +ℤ_parts s.latest_event_time gap)

  -- No session before it takes the item.
  try_insert-before :
      (s : Session) (ss : List Session)
      → All (Separated gap s) ss
      → Any (Covers time time) ss
      → try_insert s time gap ≡ (s, false)
  try_insert-before s [] h at = elim at [ ]
  try_insert-before s (r ∷ ss) h (inl here) = try_insert-apart s r h.0 here
  try_insert-before s (r ∷ ss) h (inr there) = try_insert-before s ss h.1 there

  insert_first-Covers :
      (ss : List Session)
      → Pairs (Separated gap) ss
      → Any (Covers time time) ss
      → (k : WindowKey) × (insert_first gap time ss ≡ some (ss, k))
        × Any (λ s. (s.key ≡ k) × Covers time time s) ss
  unfolding insert_first
  insert_first-Covers [] h at = elim at [ ]
  insert_first-Covers (s ∷ ss) h (inl here) =
      (s.key, rw (try_insert-Covers s here) refl, inl (refl, here))
  insert_first-Covers (s ∷ ss) h (inr there) =
      let (k, e, at) = insert_first-Covers ss h.1 there in
      (k, rw (try_insert-before s ss h.0 there, e) refl, inr at)

module _ (by : UnstableSort) (w : SessionWindower) (time : DateTime) (v : IsValid w) where
  -- The key that `next_key` issues.
  abbrev fresh : WindowKey
  fresh = w.max_key +ℤ pos 1

  module _ (room : Fits i64_half (w.max_key +ℤ pos 1)) where
    abbrev unsorted : List Session
    unsorted = w.sessions ++ session_new fresh time ∷ []

    abbrev merged : List Session
    merged = merge_all w.gap (by.sort_unstable unsorted)

    unsorted-IsSpan : All IsSpan unsorted
    unfolding session_new
    unsorted-IsSpan = All-append IsSpan w.sessions _ v.merged.spans (omega arith)

    unsorted-DifferentKey : Pairs DifferentKey unsorted
    unfolding session_new
    unsorted-DifferentKey =
        Pairs-append_one DifferentKey (λ a b h e. h (sym e)) w.sessions _ v.merged.different
          (All-map (λ s. s.key ≤ℤ w.max_key)
            (λ s le e. omega (arith, +ℤ_parts, ap pos_part e, ap neg_part e)) w.sessions v.issued)

    unsorted-issued : All (λ s. s.key ≤ℤ fresh) unsorted
    unfolding session_new
    unsorted-issued =
        All-append (λ s. s.key ≤ℤ fresh) w.sessions _
          (All-map (λ s. s.key ≤ℤ w.max_key) (λ s le. omega (arith, +ℤ_parts)) w.sessions v.issued)
          (omega arith)

    merged-IsMerged : IsMerged w.gap merged
    merged-IsMerged =
        let p = by.sort_unstable-permᴰ unsorted in
        merge_all-IsMerged w.gap (by.sort_unstable unsorted) (by.sort_unstable-Pairs unsorted)
          (All-permᴰ IsSpan p unsorted-IsSpan)
          (Pairs-permᴰ DifferentKey (λ a b h e. h (sym e)) p unsorted-DifferentKey)

    merged-issued : All (λ s. s.key ≤ℤ fresh) merged
    merged-issued =
        merge_all-key w.gap (λ k. k ≤ℤ fresh) (by.sort_unstable unsorted)
          (All-permᴰ (λ s. s.key ≤ℤ fresh) (by.sort_unstable-permᴰ unsorted) unsorted-issued)

    merged-Covers : (a b : DateTime) → Any (Covers a b) unsorted → Any (Covers a b) merged
    merged-Covers a b at =
        merge_all-Covers w.gap a b (by.sort_unstable unsorted)
          (Any-permᴰ (Covers a b) (by.sort_unstable-permᴰ unsorted) at)

    new-Covers : Any (Covers time time) merged
    unfolding session_new
    new-Covers =
        merged-Covers time time
          (Any-append_right (Covers time time) w.sessions _ (inl (omega arith)))

    old-Covers : All (λ s. Any (Covers s.start s.latest_event_time) merged) w.sessions
    old-Covers = All-member _ w.sessions λ s at. merged-Covers s.start s.latest_event_time (
        Any-append_left (Covers s.start s.latest_event_time) w.sessions _
          (Any-map (λ x. x ≡ s) (λ x e. rw e (omega arith)) w.sessions at))

    insert_in_time :
        (watermark : DateTime)
        → ltb_ℤ time watermark ≡ false
        → (k : WindowKey) × (insert_item by w watermark time
            ≡ some (record w { sessions = merged; max_key = fresh }, ok k ∷ []))
          × Any (λ s. (s.key ≡ k) × Covers time time s) merged
    unfolding insert_item
    insert_in_time watermark in_time =
        let (k, e, at) =
          insert_first-Covers w.gap time v.positive merged merged-IsMerged.separated new-Covers in
        (k, rw (in_time, wrap_i64-Fits fresh room, e) refl, at)

-- On valid sessions, whose keys leave room for one more: an item before the watermark is late, and changes nothing. Any other item is taken, without a
-- panic, by one session, whose key is returned and which covers the instant of the item; the
-- sessions are valid afterwards, and each session from before lies within one of them.
pub insert_item-takes :
    (by : UnstableSort) (w : SessionWindower) (watermark time : DateTime)
    → IsValid w
    → Fits i64_half (w.max_key +ℤ pos 1)
    → ((time <ℤ watermark) × (insert_item by w watermark time ≡ some (w, late w.max_key ∷ [])))
      ⊎ ((watermark ≤ℤ time)
          × (w' : SessionWindower) × (k : WindowKey) × (insert_item by w watermark time
              ≡ some (w', ok k ∷ []))
          × IsValid w'
          × Any (λ s. (s.key ≡ k) × Covers time time s) w'.sessions
          × All (λ s. Any (Covers s.start s.latest_event_time) w'.sessions) w.sessions)
unfolding insert_item
insert_item-takes by w watermark time v room = elim (Bool-cases (ltb_ℤ time watermark)) [
  | inl is_late ↦ inl (ltb_ℤ→lt time watermark is_late, rw (is_late, insert_item) refl)
  | inr in_time ↦
      let (k, e, at) = insert_in_time by w time v room watermark in_time in
      inr (
        ltb_ℤ→ge time watermark in_time,
        record w { sessions = merged by w time v room; max_key = fresh by w time v },
        k,
        e,
        record {
          positive = v.positive;
          merged = merged-IsMerged by w time v room;
          issued = merged-issued by w time v room;
        },
        at,
        old-Covers by w time v room,
      )
]
