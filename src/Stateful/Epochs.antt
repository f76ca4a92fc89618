-- ===== src/Stateful/Epochs.antt =====
-- The epochs that the two stateful operators work on (src/operators/stateful_unary.rs and
-- src/operators/mod.rs).
use bytewax.Prelude.{
  ℕ, ◌≡◌, ◌∙◌, ap, leb, Bool, true, false, Option, List, [], ◌∷◌, filter, if◌then◌else◌, arith,
  Bool-cases, inl, inr, ◌==◌, ==_iff, ◌&&◌, ◌||◌,
}
use bytewax.Prelude.Order.Ord.{ℕ_ord}
use bytewax.Prelude.Order.Keys
use bytewax.Prelude.Order.Set
use bytewax.Prelude.Order.Set.{contains}
use bytewax.Stateful.Defs.{is_closed, or_else}
use bytewax.Stateful.Activation.{closed_epochs}
use bytewax.Stateful.Unary.{process_epochs}

pub contains-extend :
    (j : ℕ) (s ks : List ℕ)
    → contains j (Set.extend s ks) ≡ (if contains j s then true else contains j ks)
unfolding Set.extend contains
contains-extend j s [] = ground arith
contains-extend j s (k ∷ ks) =
    ground (arith, contains-extend j (Set.insert k s) ks, Set.contains-insert k j s)

pub contains-filter :
    (p : ℕ → Bool) (j : ℕ) (s : List ℕ)
    → contains j (filter p s) ≡ (if p j then contains j s else false)
unfolding contains
contains-filter p j [] = ground arith
contains-filter p j (k ∷ s) = elim (Bool-cases (k == j)) [
  | inl e ↦ ground (arith, e, ap p ((==_iff k j).0 e), contains-filter p j s)
  | inr e ↦ ground (arith, e, contains-filter p j s)
]

contains-singleton :
    (p : ℕ → Bool) (k j : ℕ)
    → contains j (if p k then k ∷ [] else []) ≡ (if k == j then p j else false)
unfolding contains
contains-singleton p k j = elim (Bool-cases (k == j)) [
  | inl e ↦ ground (arith, e, ap p ((==_iff k j).0 e))
  | inr e ↦ ground (arith, e)
]

singleton-Ascends : (b : Bool) (k : ℕ) → Set.Ascends (if b then k ∷ [] else [])
singleton-Ascends true k = (tt, tt)
singleton-Ascends false k = tt

filter_late :
    (frontier : Option ℕ) (last : ℕ) (xs ys : List ℕ)
    → filter (is_closed frontier) (Set.extend (Set.extend (Set.insert last []) xs) ys)
      ≡ Set.extend
          (Set.extend
            (if is_closed frontier last then last ∷ [] else [])
            (filter (is_closed frontier) xs))
          (filter (is_closed frontier) ys)
unfolding contains
filter_late frontier last xs ys =
    let p = is_closed frontier in
    let from = if p last then last ∷ [] else [] in
    Keys.Ascends-ext _ _
      (Set.Ascends-filter p _ (
        Set.Ascends-extend (Set.extend (Set.insert last []) xs) ys
          (Set.Ascends-extend (Set.insert last []) xs (Set.Ascends-insert last [] tt))))
      (Set.Ascends-extend (Set.extend from (filter p xs)) (filter p ys)
        (Set.Ascends-extend from (filter p xs) (singleton-Ascends (p last) last)))
      (λ j.
        contains-filter p j (Set.extend (Set.extend (Set.insert last []) xs) ys)
        ∙ ground (
          arith,
          contains-extend j (Set.extend (Set.insert last []) xs) ys,
          contains-extend j (Set.insert last []) xs,
          Set.contains-insert last j [],
          contains-extend j (Set.extend from (filter p xs)) (filter p ys),
          contains-extend j from (filter p xs),
          contains-singleton p last j,
          contains-filter p j xs,
          contains-filter p j ys,
        ))

-- An epoch to work on: the frontier, from the resume epoch on, and each closed epoch that is the last
-- one worked on or has items or loads.
abbrev pub is_due : Option ℕ → ℕ → ℕ → List ℕ → List ℕ → ℕ → Bool
is_due frontier resume_epoch last input_epochs load_epochs j =
    (leb resume_epoch (or_else last frontier) && (or_else last frontier == j))
    || (is_closed frontier j && (last == j || contains j input_epochs || contains j load_epochs))

pub contains-closed_epochs-is_due :
    (frontier : Option ℕ) (resume_epoch last : ℕ) (input_epochs load_epochs : List ℕ) (j : ℕ)
    → contains j (closed_epochs frontier resume_epoch last input_epochs load_epochs)
      ≡ is_due frontier resume_epoch last input_epochs load_epochs j
unfolding closed_epochs
contains-closed_epochs-is_due frontier resume_epoch last input_epochs load_epochs j =
    let p = is_closed frontier in
    let from = if p last then last ∷ [] else [] in
    let inputs = Set.extend from (filter p input_epochs) in
    let all = Set.extend inputs (filter p load_epochs) in
    ground (
      arith,
      Set.contains-insert (or_else last frontier) j all,
      contains-extend j inputs (filter p load_epochs),
      contains-extend j from (filter p input_epochs),
      contains-singleton p last j,
      contains-filter p j input_epochs,
      contains-filter p j load_epochs,
    )

-- The unary operator, which collects the epochs and then drops those that are not closed, works on the
-- same epochs as stateful_unary, which drops them as it collects.
pub process_epochs-closed_epochs :
    (frontier : Option ℕ) (resume_epoch last : ℕ) (input_epochs load_epochs : List ℕ)
    → process_epochs frontier resume_epoch last input_epochs load_epochs
      ≡ closed_epochs frontier resume_epoch last input_epochs load_epochs
unfolding process_epochs closed_epochs
process_epochs-closed_epochs frontier resume_epoch last input_epochs load_epochs =
    ap
      (λ s.
        if leb resume_epoch (or_else last frontier)
        then Set.insert (or_else last frontier) s
        else s)
      (filter_late frontier last input_epochs load_epochs)
