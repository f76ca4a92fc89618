-- ===== src/Window/Types.antt =====
-- The shared types of src/window/mod.rs. An instant (`DateTime<Utc>`) and a span (`Duration`) are
-- integers, their number of nanoseconds.
use bytewax.Prelude.{
  ℕ, ◌/◌, ◌≡◌, ℤ, pos, ◌+ℤ◌, ◌-ℤ◌, ◌*ℤ◌, ◌≤ℤ◌, ◌<ℤ◌, ltb_ℤ, eqb_ℤ, Bool, not, ◌&&◌,
}

abbrev pub DateTime : Type 0
DateTime = ℤ

abbrev pub Duration : Type 0
Duration = ℤ

-- An `i64`.
abbrev pub WindowKey : Type 0
WindowKey = ℤ

pub record WindowMetadata : Type 0 where
  pub open_time : DateTime
  pub close_time : DateTime

pub data CompareOp : Type 0 where
  lt le eq ne gt ge : CompareOp

unfoldable pub richcmp : WindowMetadata → WindowMetadata → CompareOp → Bool
richcmp a b lt = ltb_ℤ a.close_time b.close_time
richcmp a b le = not (ltb_ℤ b.close_time a.close_time)
richcmp a b eq = eqb_ℤ a.close_time b.close_time && eqb_ℤ a.open_time b.open_time
richcmp a b ne = not (eqb_ℤ a.close_time b.close_time) && not (eqb_ℤ a.open_time b.open_time)
richcmp a b gt = ltb_ℤ b.close_time a.close_time
richcmp a b ge = not (ltb_ℤ a.close_time b.close_time)

-- `Result<WindowKey, InsertError>`, with `InsertError::Late`.
pub data InsertResult : Type 0 where
  ok : WindowKey → InsertResult
  late : WindowKey → InsertResult

-- `std::task::Poll<Option<V>>`: pending, a value, or the end of the input.
pub data Poll {ℓ} (V : Type ℓ) : Type ℓ where
  pending : Poll V
  item : V → Poll V
  eof : Poll V

-- The library functions that the windowers call on spans, by what their documentation says of
-- them: `chrono::Duration::num_milliseconds` counts whole milliseconds, towards zero, and
-- `num::Integer::{div_floor, div_ceil}` round down and up.
pub record Arithmetic : Type 0 where
  pub num_milliseconds : Duration → ℤ
  pub div_floor : ℤ → ℤ → ℤ
  pub div_ceil : ℤ → ℤ → ℤ
  pub num_milliseconds_pos : (n : ℕ) → num_milliseconds (pos n) ≡ pos (n / 1000000)
  pub num_milliseconds_neg :
      (n : ℕ) → num_milliseconds (pos 0 -ℤ pos n) ≡ pos 0 -ℤ pos (n / 1000000)
  pub div_floor_bounds :
      (a b : ℤ) → pos 0 <ℤ b → (b *ℤ div_floor a b ≤ℤ a) × (a <ℤ b *ℤ (div_floor a b +ℤ pos 1))
  pub div_ceil_bounds :
      (a b : ℤ) → pos 0 <ℤ b → (b *ℤ (div_ceil a b -ℤ pos 1) <ℤ a) × (a ≤ℤ b *ℤ div_ceil a b)
