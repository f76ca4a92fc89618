-- ===== src/Prelude/Words.antt =====
-- Two's complement words: the conversions `as i32` and `as i64`, by which sums wrap in a release
-- build.
use Prim.Native.Nat.{ℕ, ◌+◌, ◌-◌, ◌%◌, ◌≤◌, ◌<◌}
use mathlib.Core.Path.{◌≡◌}
use native.Mathlib.Omega.{arith}
use bytewax.Prelude.Tests.{ltb, if◌then◌else◌}
use bytewax.Prelude.Int.{ℤ, pos, negsuc, pos_part, neg_part}

-- A number as a `u64`.
abbrev pub wrap_u64 : ℕ → ℕ
wrap_u64 n = n % 18446744073709551616

abbrev pub i32_half : ℕ
i32_half = 2147483648

abbrev pub i64_half : ℕ
i64_half = 9223372036854775808

-- The integer with the same bits in a word that holds -half to half - 1.
unfoldable pub wrap : ℕ → ℤ → ℤ
wrap half (pos n) =
    let r = n % (half + half) in if ltb r half then pos r else negsuc (half + half - 1 - r)
wrap half (negsuc n) =
    let r = n % (half + half) in if ltb r half then negsuc r else pos (half + half - 1 - r)

abbrev pub wrap_i32 : ℤ → ℤ
wrap_i32 = wrap i32_half

abbrev pub wrap_i64 : ℤ → ℤ
wrap_i64 = wrap i64_half

-- A value in range is left alone.
abbrev pub Fits : ℕ → ℤ → Type 0
Fits half z = (pos_part z < half) × (neg_part z ≤ half)

pub wrap_i32-Fits : (z : ℤ) → Fits i32_half z → wrap_i32 z ≡ z
unfolding wrap
wrap_i32-Fits (pos n) h = ground arith
wrap_i32-Fits (negsuc n) h = ground arith

pub wrap_i64-Fits : (z : ℤ) → Fits i64_half z → wrap_i64 z ≡ z
unfolding wrap
wrap_i64-Fits (pos n) h = ground arith
wrap_i64-Fits (negsuc n) h = ground arith

pub wrap_i32_overflow : wrap_i32 (pos 2147483648) ≡ negsuc 2147483647
unfolding wrap
wrap_i32_overflow = ground arith
