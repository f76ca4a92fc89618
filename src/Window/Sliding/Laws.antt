-- ===== src/Window/Sliding/Laws.antt =====
-- `SlidingWindower` as a `Windower`, with the laws that the operator relies on.
use bytewax.Prelude.{
  ◌≡◌, refl, sym, ap, subst, ◌∙◌, ◌⊎◌, ◌≢◌, ltb_ℤ, true, not, some, List, [], ◌∷◌, map, filter, All,
  All-both, All-map, All-filter, Pairs, Pairs-filter, filter-passes, Bool-cases, Option-cases, inl,
  inr,
}
use bytewax.Prelude.Order.Ord.{ℤ_ord}
use bytewax.Prelude.Order.Map.{lookup}
use bytewax.Prelude.Order.Entries.{lookup-entries, Ascends-Pairs, lookup-filter}
use bytewax.Window.Types.{DateTime, WindowKey, Arithmetic}
use bytewax.Window.Logic.Interface.{Windower}
use bytewax.Window.Logic.Laws.{Open, IsRouted, Inserts, Drains, WindowerLaws}
use bytewax.Window.Sliding.Defs.{
  SlidingWindower, insert_item, get_metadata, drain_closed, is_empty, next_close,
}
use bytewax.Window.Sliding.Whole.{IsWhole}
use bytewax.Window.Sliding.Opened.{IsConsistent, result_of}
use bytewax.Window.Sliding.State.{insert_item-Inserted}
use bytewax.Window.Sliding.Closing.{Entry, is_closed, closed_entry, drain_closed-splits}

abbrev pub sliding : Arithmetic → Windower SlidingWindower
sliding ar = record {
  insert = insert_item ar;
  drain_closed = drain_closed;
  is_empty = is_empty;
  get_metadata = get_metadata;
  next_close = next_close;
}

module _ (ar : Arithmetic) where
  Open-lookup :
      (w : SlidingWindower) (k : WindowKey)
      → Open (sliding ar) w k
      → (b : DateTime × DateTime) × (lookup k w.close_times ≡ some b)
  unfolding get_metadata
  Open-lookup w k (m, e) = elim (Option-cases (lookup k w.close_times)) [
    | inl missing ↦ cc (rw missing at e)
    | inr found ↦ found
  ]

  lookup-Open :
      (w : SlidingWindower) (k : WindowKey) (b : DateTime × DateTime)
      → lookup k w.close_times ≡ some b
      → Open (sliding ar) w k
  unfolding get_metadata
  lookup-Open w k b e = (record { open_time = b.0; close_time = b.1 }, rw e refl)

  routed :
      (w : SlidingWindower) (watermark : DateTime) (es : List (WindowKey × DateTime × DateTime))
      → All (λ e. (ltb_ℤ e.2 watermark ≡ true) ⊎ (lookup e.0 w.close_times ≡ some (e.1, e.2))) es
      → All (IsRouted (sliding ar) w) (map (result_of watermark) es)
  routed w watermark [] h = tt
  routed w watermark ((k, o, c) ∷ es) h = (
    elim (Bool-cases (ltb_ℤ c watermark)) [
      | inl passed ↦ rw passed tt
      | inr future ↦ rw future (elim h.0 [
        | inl passed ↦ cc (sym future ∙ passed)
        | inr there ↦ lookup-Open w k (o, c) there
      ])
    ],
    routed w watermark es h.1,
  )

  -- On a consistent state and a time of whole milliseconds an insertion does not panic, and in the
  -- consistent state after it the windows that the results name are open, and no window else that
  -- was not open before.
  pub sliding-Inserts :
      (w : SlidingWindower) (watermark time : DateTime)
      → IsConsistent w
      → IsWhole w time
      → Inserts (sliding ar) IsConsistent w watermark time
  sliding-Inserts w watermark time h v =
      let i = insert_item-Inserted ar w watermark time v h in
      let w' = record w { close_times = i.times } in
      record {
        after = w';
        results = map (result_of watermark) i.windows;
        returns = i.returns;
        keeps = i.keeps;
        routed = routed w' watermark i.windows i.enters;
        only = λ k o.
            let (b, e) = Open-lookup w' k o in
            elim (i.only k b e) [
              | inl before ↦ inl (lookup-Open w k b before)
              | inr named ↦ inr named
            ];
      }

  All-closed :
      (P : WindowKey → Type 0) (m : List Entry)
      → All (λ e. P e.0) m
      → All (λ e. P e.0) (map closed_entry m)
  All-closed P [] h = tt
  All-closed P (e ∷ m) h = (h.0, All-closed P m h.1)

  Pairs-closed :
      (m : List Entry) → Pairs (λ e f. e.0 ≢ f.0) m → Pairs (λ e f. e.0 ≢ f.0) (map closed_entry m)
  Pairs-closed [] h = tt
  Pairs-closed (e ∷ m) h = (All-closed (λ k. e.0 ≢ k) m h.0, Pairs-closed m h.1)

  closed_apart :
      (w : SlidingWindower) (watermark : DateTime) (k : WindowKey) (b : DateTime × DateTime)
      (e : Entry)
      → lookup k w.close_times ≡ some b
      → not (is_closed watermark (k, b)) ≡ true
      → lookup e.0 w.close_times ≡ some e.1
      → is_closed watermark e ≡ true
      → e.0 ≢ k
  closed_apart w watermark k b e there live at closed same =
      let found : some e.1 ≡ some b = sym at ∙ ap (λ x. lookup x w.close_times) same ∙ there in
      let same_times : e.1 ≡ b = cc found in
      let live' : not (ltb_ℤ e.1.1 watermark) ≡ true =
        subst (λ (x : DateTime × DateTime). not (ltb_ℤ x.1 watermark) ≡ true) (sym same_times)
          live in
      cc (rw closed at live')

  module _ (w : SlidingWindower) (watermark : DateTime) (h : IsConsistent w) where
    abbrev shut : List Entry
    shut = filter (is_closed watermark) w.close_times

    abbrev kept : List Entry
    kept = filter (λ e. not (is_closed watermark e)) w.close_times

    -- A window that stays is no window that closed.
    still_apart :
        (k : WindowKey) (b : DateTime × DateTime) → lookup k kept ≡ some b → All (λ e. e.0 ≢ k) shut
    still_apart k b found =
        let (there, live) =
          lookup-filter (λ e. not (is_closed watermark e)) w.close_times k b h.ascends found in
        All-map (λ e. (lookup e.0 w.close_times ≡ some e.1) × (is_closed watermark e ≡ true))
          (λ e a same. closed_apart w watermark k b e there live a.0 a.1 same) shut
          (All-both (λ e. lookup e.0 w.close_times ≡ some e.1) (λ e. is_closed watermark e ≡ true)
            shut
            (All-filter (is_closed watermark) (λ e. lookup e.0 w.close_times ≡ some e.1)
              w.close_times (lookup-entries w.close_times h.ascends))
            (filter-passes (is_closed watermark) w.close_times))

  -- On a consistent state the windows that are drained were open, each is drained once, and a window
  -- that is open afterwards was open before and is not drained. The state stays consistent.
  pub sliding-Drains :
      (w : SlidingWindower) (watermark : DateTime)
      → IsConsistent w
      → Drains (sliding ar) IsConsistent w watermark
  sliding-Drains w watermark h =
      let (closed, future, keeps) = drain_closed-splits w watermark h in
      record {
        keeps = keeps;
        were_open = rw closed (
            All-closed (Open (sliding ar) w) (shut w watermark h) (
              All-filter (is_closed watermark) (λ e. Open (sliding ar) w e.0) w.close_times
                (All-map (λ e. lookup e.0 w.close_times ≡ some e.1)
                  (λ e there. lookup-Open w e.0 e.1 there) w.close_times
                  (lookup-entries w.close_times h.ascends))));
        once = rw closed (
            Pairs-closed (shut w watermark h) (
              Pairs-filter (is_closed watermark) (λ e f. e.0 ≢ f.0) w.close_times
                (Ascends-Pairs w.close_times h.ascends)));
        still = λ k o.
            let (b, e) = Open-lookup (drain_closed w watermark).0 k o in
            let e' = subst (λ m. lookup k m ≡ some b) future e in
            (
              lookup-Open w k b
                  (lookup-filter (λ x. not (is_closed watermark x)) w.close_times k b h.ascends
                    e').0,
              rw closed
                  (All-closed (λ j. j ≢ k) (shut w watermark h) (still_apart w watermark h k b e')),
            );
      }

-- The sliding windower keeps the laws, for items at whole milliseconds.
unfoldable pub sliding_laws : (ar : Arithmetic) → WindowerLaws (sliding ar)
sliding_laws ar = record {
  Inv = IsConsistent;
  Accepts = IsWhole;
  inserts = sliding-Inserts ar;
  drains = sliding-Drains ar;
}
