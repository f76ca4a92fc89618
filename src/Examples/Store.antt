-- ===== src/Examples/Store.antt =====
-- A recovery store of three partitions, and requests for them (src/recovery.rs).
use bytewax.Prelude.{
  ℕ, ◌<◌, ◌==◌, ◌≡◌, refl, Bool, true, false, ltb, some, List, [], ◌∷◌, All, Pairs,
}
use bytewax.Prelude.Order.Ord.{ℕ_ord}
use bytewax.Prelude.Order.Map.{lookup}
use bytewax.Recovery.Tables.{RecoveryPart}
use bytewax.Recovery.Resume.{count_from, resume_from}
use bytewax.Recovery.Bundle.{Bundle, init_db_dir, build_parts}
use bytewax.Recovery.Calc.{new, write_rows}
use bytewax.Recovery.Cache.{IsOpenedAt, build_parts-once}
use bytewax.Recovery.Created.{one_row, parts_of, first_resume, init_db_dir-resumes}

-- The file of a partition is its number.
abbrev same : (i j : ℕ) → i ≡ j → i ≡ j
same i j e = e

init_db_dir-resumes_example :
    (dir : List (ℕ × RecoveryPart ℕ ℕ)) × (p : RecoveryPart ℕ ℕ) × (init_db_dir (λ i. i) 3 (some [])
      ≡ some dir)
    × ((j : ℕ) → j < 3 → lookup j dir ≡ some (one_row 3 j))
    × (write_rows (parts_of (λ i. i) (count_from 0 3) dir) [] [] [] new ≡ some p)
    × (resume_from p ≡ first_resume 3)
init_db_dir-resumes_example = init_db_dir-resumes (λ i. i) same 3

abbrev pub paths : List (ℕ × ℕ)
paths = (0, 70) ∷ (1, 71) ∷ []

-- Only the files from 70 on are databases.
abbrev pub opens : ℕ → Bool
opens f = ltb 69 f

known : All (λ k. (f : ℕ) × (lookup k paths ≡ some f) × (opens f ≡ true)) (1 ∷ 0 ∷ 1 ∷ [])
unfolding lookup
known = ((71, refl, refl), ((70, refl, refl), ((71, refl, refl), tt)))

build_parts-once_example :
    (fs : List ℕ) × (b : Bundle ℕ) × (build_parts opens
        (1 ∷ 0 ∷ 1 ∷ [])
        (record { paths = paths; built_parts = []; opened = [] })
      ≡ some (fs, b))
    × IsOpenedAt paths (1 ∷ 0 ∷ 1 ∷ []) fs
    × Pairs (λ j k. (j == k) ≡ false) b.opened
build_parts-once_example = build_parts-once opens paths (1 ∷ 0 ∷ 1 ∷ []) known
