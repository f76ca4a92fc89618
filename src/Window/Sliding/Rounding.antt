-- ===== src/Window/Sliding/Rounding.antt =====
-- The rounding functions that the windowers call, at positive divisors: an instance of
-- `Arithmetic`.
use bytewax.Prelude.{
  ℕ, zero, suc, ◌+◌, ◌*◌, ◌/◌, ◌≡◌, refl, ℤ, pos, negsuc, pos_part, neg_part, ◌+ℤ◌, ◌-ℤ◌, ◌*ℤ◌,
  ◌<ℤ◌, ◌≤ℤ◌, ◌<◌, ◌≤◌, ap, arith,
}
use bytewax.Prelude.Scale.{scale-pos_part, scale-neg_part, scale-suc_parts, scale-pred_parts}
use bytewax.Window.Types.{Arithmetic}

-- An instance of the library functions.
unfoldable pub neg : ℕ → ℤ
neg zero = pos 0
neg (suc n) = negsuc n

pos_part-neg : (n : ℕ) → pos_part (neg n) ≡ 0
unfolding neg
pos_part-neg zero = refl
pos_part-neg (suc n) = refl

neg_part-neg : (n : ℕ) → neg_part (neg n) ≡ n
unfolding neg
neg_part-neg zero = refl
neg_part-neg (suc n) = refl

unfoldable pub floor : ℤ → ℤ → ℤ
floor (pos a) (pos (suc b)) = pos (a / suc b)
floor (negsuc a) (pos (suc b)) = negsuc (a / suc b)
floor a b = pos 0

unfoldable pub ceil : ℤ → ℤ → ℤ
unfolding neg
ceil (pos zero) (pos (suc b)) = pos 0
ceil (pos (suc a)) (pos (suc b)) = pos (suc (a / suc b))
ceil (negsuc a) (pos (suc b)) = neg (suc a / suc b)
ceil a b = pos 0

unfoldable pub truncate_ms : ℤ → ℤ
unfolding neg
truncate_ms (pos n) = pos (n / 1000000)
truncate_ms (negsuc n) = neg (suc n / 1000000)

minus : (n : ℕ) → pos 0 -ℤ pos n ≡ neg n
unfolding ◌-ℤ◌ neg
minus zero = refl
minus (suc n) = ground arith

truncate_ms-neg : (n : ℕ) → truncate_ms (neg n) ≡ neg (n / 1000000)
unfolding truncate_ms
truncate_ms-neg zero = refl
truncate_ms-neg (suc n) = refl

pub truncate_ms_pos : (n : ℕ) → truncate_ms (pos n) ≡ pos (n / 1000000)
unfolding truncate_ms
truncate_ms_pos n = refl

pub truncate_ms_neg : (n : ℕ) → truncate_ms (pos 0 -ℤ pos n) ≡ pos 0 -ℤ pos (n / 1000000)
truncate_ms_neg n = rw (minus n, minus (n / 1000000)) (truncate_ms-neg n)

div_bounds : (a b : ℕ) → (suc b * (a / suc b) ≤ a) × (a < suc b * (a / suc b) + suc b)
div_bounds a b = omega arith

pub floor_bounds : (a b : ℤ) → pos 0 <ℤ b → (b *ℤ floor a b ≤ℤ a) × (a <ℤ b *ℤ (floor a b +ℤ pos 1))
unfolding floor
floor_bounds (pos a) (pos (suc b)) h = omega (
  arith,
  scale-suc_parts (suc b) (pos (a / suc b)),
  scale-pos_part,
  scale-neg_part,
  div_bounds a b,
)
floor_bounds (negsuc a) (pos (suc b)) h = omega (
  arith,
  scale-suc_parts (suc b) (negsuc (a / suc b)),
  scale-pos_part,
  scale-neg_part,
  div_bounds a b,
)
floor_bounds _ (pos zero) h = absurd (omega arith)
floor_bounds _ (negsuc b) h = absurd (omega arith)

pub ceil_bounds : (a b : ℤ) → pos 0 <ℤ b → (b *ℤ (ceil a b -ℤ pos 1) <ℤ a) × (a ≤ℤ b *ℤ ceil a b)
unfolding ceil
ceil_bounds (pos zero) (pos (suc b)) h =
    omega (arith, scale-pred_parts (suc b) (pos 0), scale-pos_part, scale-neg_part, div_bounds 0 b)
ceil_bounds (pos (suc a)) (pos (suc b)) h = omega (
  arith,
  scale-pred_parts (suc b) (pos (suc (a / suc b))),
  scale-pos_part,
  scale-neg_part,
  div_bounds a b,
)
ceil_bounds (negsuc a) (pos (suc b)) h = omega (
  arith,
  scale-pred_parts (suc b) (neg (suc a / suc b)),
  scale-pos_part (suc b) (neg (suc a / suc b)),
  scale-neg_part (suc b) (neg (suc a / suc b)),
  pos_part-neg (suc a / suc b),
  neg_part-neg (suc a / suc b),
  ap (λ (t : ℕ). suc b * t) (pos_part-neg (suc a / suc b)),
  ap (λ (t : ℕ). suc b * t) (neg_part-neg (suc a / suc b)),
  div_bounds (suc a) b,
)
ceil_bounds _ (pos zero) h = absurd (omega arith)
ceil_bounds _ (negsuc b) h = absurd (omega arith)

abbrev pub rounding : Arithmetic
rounding = record {
  num_milliseconds = truncate_ms;
  div_floor = floor;
  div_ceil = ceil;
  num_milliseconds_pos = truncate_ms_pos;
  num_milliseconds_neg = truncate_ms_neg;
  div_floor_bounds = floor_bounds;
  div_ceil_bounds = ceil_bounds;
}
