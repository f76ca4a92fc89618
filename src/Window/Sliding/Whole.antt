-- ===== src/Window/Sliding/Whole.antt =====
-- Whole milliseconds, to which src/window/sliding_window.rs cuts the spans.
use bytewax.Prelude.{
  ℕ, suc, ◌+◌, ◌*◌, ◌/◌, ◌≤◌, ◌<◌, ◌≡◌, refl, ℤ, pos, negsuc, pos_part, neg_part, ◌+ℤ◌, ◌-ℤ◌, ◌*ℤ◌,
  eq_of_parts, -ℤ_parts, arith,
}
use bytewax.Prelude.Scale.{scale-pos_part, scale-neg_part}
use bytewax.Window.Types.{DateTime, Arithmetic}
use bytewax.Window.Sliding.Defs.{SlidingWindower}

-- The spans and the distance of the instant from `align_to` are whole milliseconds, and the instant
-- is less than 2^31 - 2 windows away from `align_to`, so that the index fits the `i32` of the code.
pub record IsWhole (w : SlidingWindower) (time : DateTime) : Type 0 where
  pub o : ℕ
  pub l : ℕ
  pub t : ℤ
  pub positive : 0 < o
  pub offset_ms : w.offset ≡ pos (1000000 * o)
  pub length_ms : w.length ≡ pos (1000000 * l)
  pub time_ms : time ≡ w.align_to +ℤ pos 1000000 *ℤ t
  pub before_end : pos_part t + l ≤ o * 2147483646
  pub after_start : neg_part t + l ≤ o * 2147483646

module _ (ar : Arithmetic) where
  ms_pos : (n : ℕ) → pos 1000000 *ℤ pos n ≡ pos (1000000 * n)
  ms_pos n = eq_of_parts _ _ (omega (arith, scale-pos_part, scale-neg_part))

  ms_neg : (n : ℕ) → pos 1000000 *ℤ negsuc n ≡ pos 0 -ℤ pos (1000000 * suc n)
  ms_neg n = eq_of_parts _ _ (omega (arith, scale-pos_part, scale-neg_part, -ℤ_parts))

  minus_suc : (n : ℕ) → pos 0 -ℤ pos (suc n) ≡ negsuc n
  minus_suc n = eq_of_parts _ _ (omega (arith, -ℤ_parts))

  ms_div : (n : ℕ) → 1000000 * n / 1000000 ≡ n
  ms_div n = omega arith

  pub num_ms-pos : (n : ℕ) → ar.num_milliseconds (pos (1000000 * n)) ≡ pos n
  num_ms-pos n = rw (ar.num_milliseconds_pos, ms_div) refl

  pub num_ms-whole : (z : ℤ) → ar.num_milliseconds (pos 1000000 *ℤ z) ≡ z
  num_ms-whole (pos n) = rw (ms_pos) (num_ms-pos n)
  num_ms-whole (negsuc n) = rw (ms_neg, ar.num_milliseconds_neg, ms_div) (minus_suc n)
