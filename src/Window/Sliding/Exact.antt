-- ===== src/Window/Sliding/Exact.antt =====
-- The windows that `intersects` (src/window/sliding_window.rs) yields, where the spans are whole
-- milliseconds.
use native.Mathlib.Nat.{lt_of_mul-lt-mul_left}
use bytewax.Prelude.{
  ℕ, suc, ◌+◌, ◌*◌, ◌≤◌, ◌<◌, ◌≡◌, refl, ap, ℤ, pos, negsuc, pos_part, neg_part, ◌+ℤ◌, ◌-ℤ◌, ◌*ℤ◌,
  ◌≤ℤ◌, ◌<ℤ◌, eqb_ℤ, eq_of_parts, +ℤ_parts, -ℤ_parts, some, List, arith, ◌∙◌, ◌↔◌, sym, subst, none,
  if◌then◌else◌, Any, All-map, All-Any, false,
}
use bytewax.Prelude.Words.{Fits, i32_half}
use bytewax.Prelude.Scale.{
  scale-pos_part, scale-neg_part, scale_mul, scale_cancel, scale_mono, scale-suc_parts,
  scale-pred_parts, scale_add,
}
use bytewax.Window.Types.{DateTime, WindowKey, Arithmetic}
use bytewax.Window.Sliding.Defs.{SlidingWindower, candidates, intersects}
use bytewax.Window.Sliding.Whole.{IsWhole, num_ms-pos, num_ms-whole}
use bytewax.Window.Sliding.Intersects.{
  open_at, IsWindowAt, In, IsCandidate, candidates_sound, candidates_complete,
}

mul_pos : (a b : ℕ) → 0 < a → 0 < b → 0 < a * b
mul_pos a b h k = grind arith

module _ (ar : Arithmetic) where
  module _ (w : SlidingWindower) (time : DateTime) (v : IsWhole w time) where
    open v use {o, l, t}

    -- What the code computes, in milliseconds.
    abbrev first : ℤ
    first = ar.div_floor (t -ℤ pos l) (pos o) +ℤ pos 1

    abbrev count : ℕ
    count = pos_part (ar.div_ceil (pos l) (pos o))

    since : time -ℤ (w.align_to +ℤ w.length) ≡ pos 1000000 *ℤ (t -ℤ pos l)
    since = eq_of_parts _ _ (
        omega (
          arith,
          +ℤ_parts,
          -ℤ_parts,
          scale-pos_part,
          scale-neg_part,
          ap pos_part v.length_ms,
          ap neg_part v.length_ms,
          ap pos_part v.time_ms,
          ap neg_part v.time_ms,
        ))

    since_ms : ar.num_milliseconds (time -ℤ (w.align_to +ℤ w.length)) ≡ t -ℤ pos l
    since_ms = ap ar.num_milliseconds since ∙ num_ms-whole ar (t -ℤ pos l)

    offset_ms : ar.num_milliseconds w.offset ≡ pos o
    offset_ms = ap ar.num_milliseconds v.offset_ms ∙ num_ms-pos ar o

    length_ms : ar.num_milliseconds w.length ≡ pos l
    length_ms = ap ar.num_milliseconds v.length_ms ∙ num_ms-pos ar l

    o-ne : eqb_ℤ (pos o) (pos 0) ≡ false
    o-ne = ground (arith, v.positive)

    intersects-candidates : intersects ar w time ≡ some (candidates w time first (pos 0) count)
    unfolding intersects
    intersects-candidates =
        (λ i.
          if eqb_ℤ (offset_ms i) (pos 0)
          then none
          else some (
              candidates w time (ar.div_floor (since_ms i) (offset_ms i) +ℤ pos 1) (pos 0)
                (pos_part (ar.div_ceil (length_ms i) (offset_ms i)))))
        ∙ rw o-ne refl

    floor : (pos o *ℤ first <ℤ t -ℤ pos l +ℤ pos o +ℤ pos 1) × (t -ℤ pos l <ℤ pos o *ℤ first)
    floor =
        let b = ar.div_floor_bounds (t -ℤ pos l) (pos o) (omega (arith, v.positive)) in
        (omega (arith, +ℤ_parts, b.0, scale-suc_parts o (ar.div_floor (t -ℤ pos l) (pos o))), b.1)

    ceil_of :
        (c : ℤ)
        → pos o *ℤ (c -ℤ pos 1) <ℤ pos l
        → pos l ≤ℤ pos o *ℤ c
        → (o * pos_part c < l + o) × (l ≤ o * pos_part c)
    ceil_of (pos n) h k =
        omega
          (arith, scale-pred_parts o (pos n), scale-pos_part o (pos n), scale-neg_part o (pos n))
    ceil_of (negsuc n) h k = omega (
      arith,
      v.positive,
      scale-pos_part o (negsuc n),
      scale-neg_part o (negsuc n),
      k,
      mul_pos o (suc n),
    )

    Fits-of : (k : ℤ) → pos o *ℤ k <ℤ t +ℤ pos o → t -ℤ pos l <ℤ pos o *ℤ k → Fits i32_half k
    Fits-of (pos n) h g =
        let below : o * n < o * 2147483647 =
          omega
            (arith, +ℤ_parts, v.before_end, scale-pos_part o (pos n), scale-neg_part o (pos n)) in
        omega (arith, lt_of_mul-lt-mul_left o below)
    Fits-of (negsuc n) h g =
        let below : o * suc n < o * 2147483647 = omega (
          arith,
          -ℤ_parts,
          v.after_start,
          v.positive,
          scale-pos_part o (negsuc n),
          scale-neg_part o (negsuc n),
        ) in
        omega (arith, lt_of_mul-lt-mul_left o below)

    ceil : (o * count < l + o) × (l ≤ o * count)
    ceil =
        let b = ar.div_ceil_bounds (pos l) (pos o) (omega (arith, v.positive)) in
        ceil_of (ar.div_ceil (pos l) (pos o)) b.0 b.1

    -- The window of an index, in milliseconds.
    open_at-ms : (k : ℤ) → open_at w k ≡ w.align_to +ℤ pos 1000000 *ℤ (pos o *ℤ k)
    open_at-ms k =
        (λ i. w.align_to +ℤ v.offset_ms i *ℤ k) ∙ ap (◌+ℤ◌ w.align_to) (scale_mul 1000000 o k)

    Above : (k : ℤ) → In w time first (pos 0) count k → t -ℤ pos l <ℤ pos o *ℤ k
    Above k h =
        omega (arith, +ℤ_parts, floor.1, scale_mono o first k (omega (arith, +ℤ_parts, h.0)))

    below : (k : ℤ) → In w time first (pos 0) count k → pos o *ℤ k <ℤ t +ℤ pos o
    below k h = omega (
      arith,
      +ℤ_parts,
      -ℤ_parts,
      floor.0,
      ceil.0,
      scale_mono o (k +ℤ pos 1) (first +ℤ pos count) (omega (arith, +ℤ_parts, h.1)),
      scale-suc_parts o k,
      ap pos_part (scale_add o first (pos count)),
      ap neg_part (scale_add o first (pos count)),
      scale-pos_part o (pos count),
      scale-neg_part o (pos count),
    )

    In-Fits : (k : ℤ) → In w time first (pos 0) count k → Fits i32_half k
    In-Fits k h = Fits-of k (omega (arith, below k h)) (omega (arith, Above k h))

    -- The bounds of a window against the instant, in milliseconds.
    started-ms : (k : ℤ) → (open_at w k ≤ℤ time) ↔ (pos o *ℤ k ≤ℤ t)
    started-ms k =
        rw (open_at-ms k, v.time_ms)
          (
            λ h. omega (arith, +ℤ_parts, scale-pos_part, scale-neg_part),
            λ h. omega (arith, +ℤ_parts, scale-pos_part, scale-neg_part),
          )

    ended-ms : (k : ℤ) → (time <ℤ open_at w k +ℤ w.length) ↔ (t -ℤ pos l <ℤ pos o *ℤ k)
    ended-ms k =
        rw (open_at-ms k, v.length_ms, v.time_ms)
          (
            λ h. omega (arith, +ℤ_parts, -ℤ_parts, scale-pos_part, scale-neg_part),
            λ h. omega (arith, +ℤ_parts, -ℤ_parts, scale-pos_part, scale-neg_part),
          )

    index_of :
        (k : ℤ)
        → open_at w k ≤ℤ time
        → time <ℤ open_at w k +ℤ w.length
        → In w time first (pos 0) count k
    index_of k started not_ended =
        let s = (started-ms k).0 started in
        let e = (ended-ms k).0 not_ended in
        let b = ar.div_floor_bounds (t -ℤ pos l) (pos o) (omega (arith, v.positive)) in
        (
          omega (
            arith,
            +ℤ_parts,
            scale_cancel o (ar.div_floor (t -ℤ pos l) (pos o)) k (omega (arith, b.0, e)),
          ),
          omega (
            arith,
            +ℤ_parts,
            scale_cancel o k (first +ℤ pos count) (
                omega (
                  arith,
                  +ℤ_parts,
                  -ℤ_parts,
                  floor.1,
                  ceil.1,
                  s,
                  ap pos_part (scale_add o first (pos count)),
                  ap neg_part (scale_add o first (pos count)),
                  scale-pos_part o (pos count),
                  scale-neg_part o (pos count),
                )),
          ),
        )

    candidate-IsWindowAt :
        (e : WindowKey × DateTime × DateTime)
        → IsCandidate w time first (pos 0) count e
        → IsWindowAt w time e
    candidate-IsWindowAt e c = record {
      opens = c.opens;
      closes = c.closes;
      started = c.started;
      not_ended = rw (c.closes, c.opens) ((ended-ms e.0).1 (Above e.0 (c.lower, c.upper)));
    }

window_entry :
    (w : SlidingWindower) (time : DateTime) (e : WindowKey × DateTime × DateTime)
    → IsWindowAt w time e
    → (e.0, open_at w e.0, open_at w e.0 +ℤ w.length) ≡ e
window_entry w time e a =
    let c = a.closes ∙ ap (λ x. x +ℤ w.length) a.opens in λ i. (e.0, sym a.opens i, sym c i)

-- Of an instant at whole milliseconds, with boundaries of whole milliseconds and indices that fit
-- an `i32`, `intersects` does not panic and yields exactly the windows that contain it.
pub intersects-exact :
    (ar : Arithmetic) (w : SlidingWindower) (time : DateTime)
    → IsWhole w time
    → (es : List (WindowKey × DateTime × DateTime)) × (intersects ar w time ≡ some es)
      × ((e : WindowKey × DateTime × DateTime) → Any (λ x. x ≡ e) es ↔ IsWindowAt w time e)
intersects-exact ar w time v =
    let i = first ar w time v in
    let n = count ar w time v in
    let fits = In-Fits ar w time v in
    let es = candidates w time i (pos 0) n in
    let sound =
      All-map (IsCandidate w time i (pos 0) n) (candidate-IsWindowAt ar w time v) es
        (candidates_sound w time i (pos 0) n fits) in
    (
      es,
      intersects-candidates ar w time v,
      λ e. (
        λ at. All-Any (IsWindowAt w time) es sound at,
        λ a.
            let started = subst (λ x. x ≤ℤ time) a.opens a.started in
            let not_ended : time <ℤ open_at w e.0 +ℤ w.length =
              rw (← a.opens, ← a.closes) a.not_ended in
            subst (λ y. Any (λ x. x ≡ y) es) (window_entry w time e a)
              (candidates_complete w time i (pos 0) n fits e.0
                (index_of ar w time v e.0 started not_ended) started),
      ),
    )
