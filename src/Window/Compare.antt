-- ===== src/Window/Compare.antt =====
-- `WindowMetadata::__richcmp__` (src/window/mod.rs): which of its answers are the opposite of which.
use bytewax.Prelude.{◌≡◌, ◌↔◌, refl, eqb_ℤ, ltb_ℤ, Bool, true, false, not, ◌&&◌, arith}
use bytewax.Window.Types.{WindowMetadata, CompareOp, richcmp}

not-not : (a : Bool) → a ≡ not (not a)
not-not true = refl
not-not false = refl

-- The negation of a conjunction against the conjunction of the negations.
not-and : (a b : Bool) → ((not a && not b) ≡ not (a && b)) ↔ (a ≡ b)
not-and true true = ground arith
not-and true false = ground arith
not-and false true = ground arith
not-and false false = ground arith

-- `>=` is the opposite of `<`, and `>` of `<=`. `!=` is the opposite of `==` only where the closing
-- times are equal just if the opening times are.
pub richcmp-opposite :
    (a b : WindowMetadata)
    → (richcmp a b CompareOp.ge ≡ not (richcmp a b CompareOp.lt))
      × (richcmp a b CompareOp.gt ≡ not (richcmp a b CompareOp.le))
      × ((richcmp a b CompareOp.ne ≡ not (richcmp a b CompareOp.eq))
          ↔ (eqb_ℤ a.close_time b.close_time ≡ eqb_ℤ a.open_time b.open_time))
unfolding richcmp
richcmp-opposite a b = (
  refl,
  not-not (ltb_ℤ b.close_time a.close_time),
  not-and (eqb_ℤ a.close_time b.close_time) (eqb_ℤ a.open_time b.open_time),
)
