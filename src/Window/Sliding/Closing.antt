-- ===== src/Window/Sliding/Closing.antt =====
-- Which windows a `SlidingWindower` closes, and when it asks to be woken.
use bytewax.Prelude.{
  ◌≡◌, refl, ap, sym, subst, ◌≤ℤ◌, ltb_ℤ, min_ℤ, min_ℤ_bounds, ◌∙◌, Bool, true, not, none, some,
  List, [], ◌∷◌, map, arith, filter, All, Any, inl, inr, ◌⊎◌,
}
use bytewax.Prelude.Order.Ord.{ℤ_ord}
use bytewax.Prelude.Order.Map.{Ascends}
use bytewax.Window.Types.{DateTime, WindowKey, WindowMetadata}
use bytewax.Window.Sliding.Defs.{
  SlidingWindower, split_closed, drain_closed, earliest, next_close, is_empty,
}
use bytewax.Window.Sliding.Opened.{IsEntry, IsConsistent}

abbrev pub Entry : Type 0
Entry = WindowKey × (DateTime × DateTime)

-- A window closes strictly after its closing time has been passed.
abbrev pub is_closed : DateTime → Entry → Bool
is_closed watermark (k, (o, c)) = ltb_ℤ c watermark

abbrev pub closed_entry : Entry → WindowKey × WindowMetadata
closed_entry (k, (o, c)) = (k, record { open_time = o; close_time = c })

split_closed-filter :
    (watermark : DateTime) (m : List Entry)
    → split_closed watermark m ≡ (
      filter (λ e. not (is_closed watermark e)) m,
      map closed_entry (filter (is_closed watermark) m),
    )
unfolding split_closed
split_closed-filter watermark [] = refl
split_closed-filter watermark ((k, (o, c)) ∷ m) = ground (arith, split_closed-filter watermark m)

module _ (P : Entry → Type 0) (p : Entry → Bool) where
  All-filter : (m : List Entry) → All P m → All P (filter p m)
  All-filter [] h = tt
  All-filter (e ∷ m) h = ground (arith, All-filter m h.1)

Ascends-filter : (p : Entry → Bool) (m : List Entry) → Ascends m → Ascends (filter p m)
Ascends-filter p [] h = tt
Ascends-filter p ((k, b) ∷ m) h =
    ground (arith, Ascends-filter p m h.1, All-filter (λ e. ltb_ℤ k e.0 ≡ true) p m h.0)

-- Draining splits the open windows by the watermark, in the order of their keys, and keeps the
-- windows consistent.
pub drain_closed-splits :
    (w : SlidingWindower) (watermark : DateTime)
    → IsConsistent w
    → ((drain_closed w watermark).1 ≡ map closed_entry (filter (is_closed watermark) w.close_times))
      × ((drain_closed w watermark).0.close_times
          ≡ filter (λ e. not (is_closed watermark e)) w.close_times)
      × IsConsistent (drain_closed w watermark).0
unfolding drain_closed
drain_closed-splits w watermark h =
    let e = split_closed-filter watermark w.close_times in
    let p = λ (x : Entry). not (is_closed watermark x) in
    (
      ap (λ x. x.1) e,
      ap (λ x. x.0) e,
      subst (λ x. IsConsistent (record w { close_times = x.0 })) (sym e)
          (record {
            entries = All-filter (IsEntry w) p w.close_times h.entries;
            ascends = Ascends-filter p w.close_times h.ascends;
          }),
    )

-- A time is the least closing time of some entries.
abbrev pub IsEarliest : DateTime → List Entry → Type 0
IsEarliest t m = All (λ e. t ≤ℤ e.1.1) m × Any (λ e. e.1.1 ≡ t) m

earliest_bounds :
    (t : DateTime) (m : List Entry)
    → (earliest t m ≤ℤ t)
      × All (λ e. earliest t m ≤ℤ e.1.1) m
      × ((earliest t m ≡ t) ⊎ Any (λ e. e.1.1 ≡ earliest t m) m)
unfolding earliest
earliest_bounds t [] = (omega arith, tt, inl refl)
earliest_bounds t ((k, (o, c)) ∷ m) =
    let (le, below, at) = earliest_bounds (min_ℤ t c) m in
    let (le_t, le_c, here) = min_ℤ_bounds t c in
    (
      omega arith,
      (omega arith, below),
      elim at [
        | inl first ↦ elim here [
          | inl old ↦ inl (first ∙ old)
          | inr new ↦ inr (inl (sym (first ∙ new)))
        ]
        | inr there ↦ inr (inr there)
      ],
    )

earliest-IsEarliest :
    (k : WindowKey) (o c : DateTime) (m : List Entry) → IsEarliest (earliest c m) ((k, (o, c)) ∷ m)
earliest-IsEarliest k o c m =
    let (le, below, at) = earliest_bounds c m in
    ((le, below), elim at [ inl first ↦ inl (sym first) | inr there ↦ inr there ])

next_close_cases :
    (w : SlidingWindower) (m : List Entry)
    → w.close_times ≡ m
    → ((is_empty w ≡ true) × (next_close w ≡ none))
      ⊎ ((t : DateTime) × (next_close w ≡ some t) × IsEarliest t w.close_times)
unfolding next_close is_empty
next_close_cases w [] e = inl (rw (e, is_empty) refl, rw (e, next_close) refl)
next_close_cases w ((k, (o, c)) ∷ m) e =
    inr (earliest c m, rw (e, next_close) refl, rw e (earliest-IsEarliest k o c m))

-- The next awakening is asked for at the least closing time of the open windows, and none is asked
-- for exactly when no window is open.
pub next_close-IsEarliest :
    (w : SlidingWindower)
    → ((is_empty w ≡ true) × (next_close w ≡ none))
      ⊎ ((t : DateTime) × (next_close w ≡ some t) × IsEarliest t w.close_times)
next_close-IsEarliest w = next_close_cases w w.close_times refl
