-- ===== src/Prelude/Order/Ord.antt =====
-- The interface of a totally ordered type, and the orders of numbers and of integers.
use Prim.Native.Nat.{ℕ}
use mathlib.Core.Path.{◌≡◌, refl}
use mathlib.Core.Logic.{◌↔◌}
use mathlib.Core.Bool.{Bool, true, false}
use native.Mathlib.Omega.{arith}
use bytewax.Prelude.Tests.{ltb, ◌==◌, ==_iff}
use bytewax.Prelude.Int.{ℤ, ltb_ℤ, eqb_ℤ, eqb_ℤ_iff, eq_of_parts}

pub record Ord {ℓ} (K : Type ℓ) : Type ℓ where
  pub lt : K → K → Bool
  pub eq : K → K → Bool
  pub eq_iff : (a b : K) → (eq a b ≡ true) ↔ (a ≡ b)
  pub lt_irrefl : (a : K) → lt a a ≡ false
  pub lt_trans : (a b c : K) → lt a b ≡ true → lt b c ≡ true → lt a c ≡ true
  pub lt_total : (a b : K) → lt a b ≡ false → lt b a ≡ false → a ≡ b

module _ {ℓ} {K : Type ℓ} ⦃o : Ord K⦄ where
  pub lt_of_not : (k j : K) → o.lt k j ≡ false → o.eq j k ≡ false → o.lt j k ≡ true
  lt_of_not k j n e = ground (arith, o.lt_total k j, o.eq_iff j k)

  -- Two keys in order are two keys.
  pub eq_of_lt : (k j : K) → o.lt k j ≡ true → o.eq k j ≡ false
  eq_of_lt k j l = ground (arith, o.eq_iff k j, o.lt_irrefl k)

  pub eq_refl : (k : K) → o.eq k k ≡ true
  eq_refl k = (o.eq_iff k k).1 refl

pub ltb_irrefl : (a : ℕ) → ltb a a ≡ false
ltb_irrefl a = ground arith

pub ltb_trans : (a b c : ℕ) → ltb a b ≡ true → ltb b c ≡ true → ltb a c ≡ true
ltb_trans a b c h k = ground arith

pub ltb-total : (a b : ℕ) → ltb a b ≡ false → ltb b a ≡ false → a ≡ b
ltb-total a b h k = ground arith

instance abbrev pub ℕ_ord : Ord ℕ
ℕ_ord = record {
  lt = ltb;
  eq = ◌==◌;
  eq_iff = ==_iff;
  lt_irrefl = ltb_irrefl;
  lt_trans = ltb_trans;
  lt_total = ltb-total;
}

pub ltb_ℤ-irrefl : (a : ℤ) → ltb_ℤ a a ≡ false
ltb_ℤ-irrefl a = ground arith

pub ltb_ℤ-trans : (a b c : ℤ) → ltb_ℤ a b ≡ true → ltb_ℤ b c ≡ true → ltb_ℤ a c ≡ true
ltb_ℤ-trans a b c h k = ground arith

pub ltb_ℤ-total : (a b : ℤ) → ltb_ℤ a b ≡ false → ltb_ℤ b a ≡ false → a ≡ b
ltb_ℤ-total a b h k = eq_of_parts a b (ground arith)

instance abbrev pub ℤ_ord : Ord ℤ
ℤ_ord = record {
  lt = ltb_ℤ;
  eq = eqb_ℤ;
  eq_iff = eqb_ℤ_iff;
  lt_irrefl = ltb_ℤ-irrefl;
  lt_trans = ltb_ℤ-trans;
  lt_total = ltb_ℤ-total;
}
