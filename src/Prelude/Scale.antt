-- ===== src/Prelude/Scale.antt =====
-- The product of a number and an integer: the facts by which `omega` reads it as an unknown.
use Prim.Native.Nat.{ℕ, ◌+◌, ◌*◌}
use mathlib.Core.Path.{◌≡◌, ap}
use native.Mathlib.Omega.{arith}
use native.Mathlib.Decide.{dec_lt}
use native.Mathlib.Nat.{mul-le-mul_left}
use bytewax.Prelude.Int.{
  ℤ, pos, negsuc, pos_part, neg_part, ◌+ℤ◌, ◌-ℤ◌, ◌*ℤ◌, ◌≤ℤ◌, ◌<ℤ◌, +ℤ_parts, -ℤ_parts, eq_of_parts,
}

-- The product has the sign of the integer.
pub scale-pos_part : (n : ℕ) (a : ℤ) → pos_part (pos n *ℤ a) ≡ n * pos_part a
unfolding ◌*ℤ◌
scale-pos_part n (pos m) = ground arith
scale-pos_part n (negsuc m) = ground arith

pub scale-neg_part : (n : ℕ) (a : ℤ) → neg_part (pos n *ℤ a) ≡ n * neg_part a
unfolding ◌*ℤ◌
scale-neg_part n (pos m) = ground arith
scale-neg_part n (negsuc m) = ground arith

pub scale_mono : (n : ℕ) (a b : ℤ) → a ≤ℤ b → pos n *ℤ a ≤ℤ pos n *ℤ b
scale_mono n a b h = omega (arith, scale-pos_part, scale-neg_part, mul-le-mul_left n h)

pub scale_add : (n : ℕ) (a b : ℤ) → pos n *ℤ (a +ℤ b) ≡ pos n *ℤ a +ℤ pos n *ℤ b
scale_add n a b = omega (
  arith,
  scale-pos_part,
  scale-neg_part,
  +ℤ_parts,
  eq_of_parts,
  ap (λ (t : ℕ). n * t) (+ℤ_parts a b),
)

pub scale_one : (n : ℕ) → pos n *ℤ pos 1 ≡ pos n
scale_one n = omega (arith, scale-pos_part, scale-neg_part, eq_of_parts)

pub scale_cancel : (n : ℕ) (a b : ℤ) → pos n *ℤ a <ℤ pos n *ℤ b → a <ℤ b
scale_cancel n a b h = elim (dec_lt (pos_part a + neg_part b) (pos_part b + neg_part a)) [
  | yes l ↦ l
  | no g ↦ absurd (omega (arith, scale_mono n b a (omega arith)))
]

-- Scaling twice.
pub scale_mul : (m n : ℕ) (a : ℤ) → pos (m * n) *ℤ a ≡ pos m *ℤ (pos n *ℤ a)
scale_mul m n a = omega (
  arith,
  scale-pos_part,
  scale-neg_part,
  eq_of_parts,
  ap (λ (t : ℕ). m * t) (scale-pos_part n a),
  ap (λ (t : ℕ). m * t) (scale-neg_part n a),
)

-- A step up or down adds or takes away the number.
pub scale-pred_parts :
    (n : ℕ) (a : ℤ)
    → pos_part (pos n *ℤ (a -ℤ pos 1)) + neg_part (pos n *ℤ a) + n
      ≡ neg_part (pos n *ℤ (a -ℤ pos 1)) + pos_part (pos n *ℤ a)
scale-pred_parts n a =
    omega (arith, scale-pos_part, scale-neg_part, ap (λ (t : ℕ). n * t) (-ℤ_parts a (pos 1)))

pub scale-suc_parts :
    (n : ℕ) (a : ℤ)
    → pos_part (pos n *ℤ (a +ℤ pos 1)) + neg_part (pos n *ℤ a)
      ≡ neg_part (pos n *ℤ (a +ℤ pos 1)) + pos_part (pos n *ℤ a) + n
scale-suc_parts n a =
    omega (arith, scale-pos_part, scale-neg_part, ap (λ (t : ℕ). n * t) (+ℤ_parts a (pos 1)))
