-- ===== src/Window/Sliding/Truncation.antt =====
-- What the rounding of `intersects` to whole milliseconds does to an instant between two of them.
use bytewax.Prelude.{
  ℕ, ◌+◌, ◌*◌, ◌/◌, ◌≤◌, ◌<◌, ◌≡◌, refl, ap, sym, ℤ, pos, pos_part, neg_part, ◌+ℤ◌, ◌-ℤ◌, ◌*ℤ◌,
  ◌≤ℤ◌, ◌<ℤ◌, eqb_ℤ, lt→ltb_ℤ, eq_of_parts, parts_disjoint, +ℤ_parts, -ℤ_parts, none, some, [],
  arith, ◌∙◌, if◌then◌else◌, false,
}
use bytewax.Prelude.Words.{Fits, i32_half, wrap_i32-Fits}
use bytewax.Prelude.Scale.{scale-pos_part, scale-neg_part, scale_cancel, scale-suc_parts, scale_mul}
use bytewax.Window.Types.{DateTime, Arithmetic}
use bytewax.Window.Sliding.Defs.{SlidingWindower, candidates, intersects}
use bytewax.Window.Sliding.Intersects.{open_at, IsWindowAt}

-- Tumbling windows of whole milliseconds, and an instant that lies less than a millisecond before the
-- end of a window at or below `align_to`.
pub record IsLastInstant (w : SlidingWindower) (time : DateTime) : Type 0 where
  pub o : ℕ
  pub j : ℕ
  pub r : ℕ
  pub positive : 0 < o
  pub j_small : j ≤ 2147483647
  pub r_positive : 0 < r
  pub r_small : r < 1000000
  pub offset_ms : w.offset ≡ pos (1000000 * o)
  pub length_ms : w.length ≡ pos (1000000 * o)
  pub time_eq : time ≡ w.align_to +ℤ w.length -ℤ pos (1000000 * (o * j) + r)

module _ (ar : Arithmetic) (w : SlidingWindower) (time : DateTime) (v : IsLastInstant w time) where
  open v use {o, j, r}

  -- The index of the window that contains the instant.
  abbrev index : ℤ
  index = pos 0 -ℤ pos j

  since : time -ℤ (w.align_to +ℤ w.length) ≡ pos 0 -ℤ pos (1000000 * (o * j) + r)
  since =
      eq_of_parts _ _
        (omega (arith, +ℤ_parts, -ℤ_parts, ap pos_part v.time_eq, ap neg_part v.time_eq))

  whole_ms : (1000000 * (o * j) + r) / 1000000 ≡ o * j
  whole_ms = omega (arith, v.r_small)

  since_ms : ar.num_milliseconds (time -ℤ (w.align_to +ℤ w.length)) ≡ pos 0 -ℤ pos (o * j)
  since_ms =
      ap ar.num_milliseconds since
      ∙ ar.num_milliseconds_neg (1000000 * (o * j) + r)
      ∙ ap (λ n. pos 0 -ℤ pos n) whole_ms

  o_ms : ar.num_milliseconds (pos (1000000 * o)) ≡ pos o
  o_ms = ar.num_milliseconds_pos (1000000 * o) ∙ ap pos (omega arith)

  scaled_index : pos o *ℤ index ≡ pos 0 -ℤ pos (o * j)
  scaled_index = eq_of_parts _ _ (
      omega (
        arith,
        scale-pos_part o index,
        scale-neg_part o index,
        -ℤ_parts (pos 0) (pos (o * j)),
        ap (λ (t : ℕ). o * t) (-ℤ_parts (pos 0) (pos j)),
      ))

  floor : ar.div_floor (pos 0 -ℤ pos (o * j)) (pos o) ≡ index
  floor =
      let q = ar.div_floor (pos 0 -ℤ pos (o * j)) (pos o) in
      let b = ar.div_floor_bounds (pos 0 -ℤ pos (o * j)) (pos o) (omega (arith, v.positive)) in
      eq_of_parts _ _ (
        omega (
          arith,
          +ℤ_parts,
          scale_cancel o q (index +ℤ pos 1) (
              omega (
                arith,
                v.positive,
                b.0,
                ap pos_part scaled_index,
                ap neg_part scaled_index,
                scale-suc_parts o index,
              )),
          scale_cancel o index (q +ℤ pos 1)
              (omega (arith, b.1, ap pos_part scaled_index, ap neg_part scaled_index)),
        ))

  ceil : ar.div_ceil (pos o) (pos o) ≡ pos 1
  ceil =
      let c = ar.div_ceil (pos o) (pos o) in
      let b = ar.div_ceil_bounds (pos o) (pos o) (omega (arith, v.positive)) in
      eq_of_parts _ _ (
        omega (
          arith,
          -ℤ_parts,
          scale_cancel o (c -ℤ pos 1) (pos 1)
              (omega (arith, b.0, scale-pos_part o (pos 1), scale-neg_part o (pos 1))),
          scale_cancel o (pos 0) c
              (omega (arith, v.positive, b.1, scale-pos_part o (pos 0), scale-neg_part o (pos 0))),
        ))

  offset_index : w.offset *ℤ index ≡ pos 0 -ℤ pos (1000000 * (o * j))
  offset_index =
      (λ i. v.offset_ms i *ℤ index)
      ∙ scale_mul 1000000 o index
      ∙ eq_of_parts _ _ (
          omega (
            arith,
            -ℤ_parts (pos 0) (pos (o * j)),
            -ℤ_parts (pos 0) (pos (1000000 * (o * j))),
            ap pos_part scaled_index,
            ap neg_part scaled_index,
            scale-pos_part 1000000 (pos o *ℤ index),
            scale-neg_part 1000000 (pos o *ℤ index),
          ))

  next_index : index +ℤ pos 1 +ℤ pos 0 ≡ index +ℤ pos 1
  next_index = eq_of_parts _ _ (omega (arith, +ℤ_parts))

  -- The windows tile: the next one opens when this one closes.
  offset_next : w.offset *ℤ (index +ℤ pos 1) ≡ w.offset *ℤ index +ℤ pos (1000000 * o)
  offset_next =
      (λ i. v.offset_ms i *ℤ (index +ℤ pos 1))
      ∙ eq_of_parts _ _ (omega (arith, +ℤ_parts, scale-suc_parts (1000000 * o) index))
      ∙ (λ i. sym v.offset_ms i *ℤ index +ℤ pos (1000000 * o))

  -- The first window that the code tries opens after the instant.
  opens_late : time <ℤ open_at w (index +ℤ pos 1 +ℤ pos 0)
  opens_late =
      rw (next_index, offset_next, offset_index, v.time_eq, v.length_ms)
        (omega (arith, +ℤ_parts, -ℤ_parts, v.r_positive))

  o-ne : eqb_ℤ (pos o) (pos 0) ≡ false
  o-ne = ground (arith, v.positive)

  next-Fits : Fits i32_half (index +ℤ pos 1 +ℤ pos 0)
  next-Fits = omega (arith, +ℤ_parts, -ℤ_parts, v.j_small, parts_disjoint (index +ℤ pos 1 +ℤ pos 0))

  no_candidate : candidates w time (index +ℤ pos 1) (pos 0) 1 ≡ []
  unfolding candidates
  no_candidate =
      let whole = wrap_i32-Fits (index +ℤ pos 1 +ℤ pos 0) next-Fits in
      rw (whole, lt→ltb_ℤ time _ opens_late) refl

  intersects-none : intersects ar w time ≡ some []
  unfolding intersects
  intersects-none =
      (λ i.
        let m = ar.num_milliseconds in
        let ms = (ap m v.offset_ms ∙ o_ms) i in
        if eqb_ℤ ms (pos 0)
        then none
        else some (
            candidates w time (ar.div_floor (since_ms i) ms +ℤ pos 1) (pos 0)
              (pos_part (ar.div_ceil ((ap m v.length_ms ∙ o_ms) i) ms))))
      ∙ (λ i.
          if eqb_ℤ (pos o) (pos 0)
          then none
          else some (candidates w time (floor i +ℤ pos 1) (pos 0) (pos_part (ceil i))))
      ∙ rw (o-ne, no_candidate) refl

  starts : open_at w index ≤ℤ time
  starts =
      rw (offset_index, v.time_eq, v.length_ms)
        (omega (arith, +ℤ_parts, -ℤ_parts, v.r_small, v.positive))

  ends : time <ℤ open_at w index +ℤ w.length
  ends = rw (offset_index, v.time_eq, v.length_ms) (omega (arith, +ℤ_parts, -ℤ_parts, v.r_positive))

-- The last instants of a tumbling window of whole milliseconds at or below `align_to`, less than a
-- millisecond before its end, are in the window of index -j, and `intersects` yields no window at all.
pub intersects_misses_last_instant :
    (ar : Arithmetic) (w : SlidingWindower) (time : DateTime) (v : IsLastInstant w time)
    → (intersects ar w time ≡ some [])
      × IsWindowAt w time
          (pos 0 -ℤ pos v.j, open_at w (pos 0 -ℤ pos v.j), open_at w (pos 0 -ℤ pos v.j) +ℤ w.length)
intersects_misses_last_instant ar w time v = (
  intersects-none ar w time v,
  record {
    opens = refl;
    closes = refl;
    started = starts ar w time v;
    not_ended = ends ar w time v;
  },
)
