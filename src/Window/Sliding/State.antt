-- ===== src/Window/Sliding/State.antt =====
-- The open windows of a `SlidingWindower` (src/window/sliding_window.rs) and its `insert`.
use bytewax.Prelude.{
  ◌≡◌, sym, ◌∙◌, ltb_ℤ, ltb_ℤ→ge, true, none, some, List, map, ◌∙◌, All, All-member, ◌⊎◌, ◌↔◌, Any,
  Bool-cases, Option-cases, inl, inr,
}
use bytewax.Prelude.Order.Ord.{ℤ_ord}
use bytewax.Prelude.Order.Map.{lookup, lookup-All}
use bytewax.Window.Types.{DateTime, WindowKey, ok, Arithmetic}
use bytewax.Window.Sliding.Defs.{SlidingWindower, insert_item}
use bytewax.Window.Sliding.Intersects.{IsWindowAt}
use bytewax.Window.Sliding.Whole.{IsWhole}
use bytewax.Window.Sliding.Exact.{intersects-exact}
use bytewax.Window.Sliding.Opened.{
  IsEntry, IsConsistent, result_of, opened, insert_all-opened, opened-IsEntry, opened-Ascends,
  lookup-opened, lookup-opened_only, lookup-opened_kept,
}

-- What an insertion is asked for: what it returns, the windows of the item, and the open windows after it.
pub record Inserted (ar : Arithmetic) (w : SlidingWindower) (watermark time : DateTime)
    : Type 0 where
  pub windows : List (WindowKey × DateTime × DateTime)
  pub times : List (WindowKey × (DateTime × DateTime))
  pub returns :
      insert_item ar w watermark time
      ≡ some (record w { close_times = times }, map (result_of watermark) windows)
  pub exact : (e : WindowKey × DateTime × DateTime) → Any (λ x. x ≡ e) windows ↔ IsWindowAt w time e
  pub keeps : IsConsistent (record w { close_times = times })
  pub enters :
      All (λ e. (ltb_ℤ e.2 watermark ≡ true) ⊎ (lookup e.0 times ≡ some (e.1, e.2))) windows
  pub only :
      (k : WindowKey) (b : DateTime × DateTime)
      → lookup k times ≡ some b
      → (lookup k w.close_times ≡ some b) ⊎ Any (λ r. r ≡ ok k) (map (result_of watermark) windows)
  pub retains :
      (k : WindowKey) → (lookup k w.close_times ≡ none) ⊎ (lookup k times ≡ lookup k w.close_times)

-- On a consistent state and for an instant at whole milliseconds, `insert` does not panic. It reports
-- exactly the windows that contain the instant, as late if they close before the watermark; it
-- enters those that are not late with their boundaries and opens no other, changes no window that
-- was open, and leaves the state consistent.
pub insert_item-Inserted :
    (ar : Arithmetic) (w : SlidingWindower) (watermark time : DateTime)
    → IsWhole w time
    → IsConsistent w
    → Inserted ar w watermark time
unfolding insert_item
insert_item-Inserted ar w watermark time v h =
    let (es, e, exact) = intersects-exact ar w time v in
    let sound = All-member (IsWindowAt w time) es (λ a at. (exact a).0 at) in
    let m = w.close_times in
    record {
      windows = es;
      times = opened watermark es m;
      returns = rw (e, insert_item) (insert_all-opened w watermark time es m h.entries sound);
      exact = exact;
      keeps = record {
        entries = opened-IsEntry w watermark time es m sound h.entries;
        ascends = opened-Ascends w watermark time es m h.ascends;
      };
      enters = All-member _ es λ x at. elim (Bool-cases (ltb_ℤ x.2 watermark)) [
        | inl passed ↦ inl passed
        | inr future ↦
            inr (lookup-opened w watermark time x es m sound (ltb_ℤ→ge x.2 watermark future) at)
      ];
      only = λ k b found. lookup-opened_only watermark k es m b found;
      retains = λ k. elim (Option-cases (lookup k m)) [
        | inl missing ↦ inl missing
        | inr (b, there) ↦ inr (
            lookup-opened_kept w watermark time k b es m sound
              (lookup-All (IsEntry w) k m h.entries b there) there
            ∙ sym there)
      ];
    }
