-- ===== src/Operators/Items.antt =====
-- The operators that work on one item at a time: `branch`, `extract_key` and `wrap_key`
-- (src/operators/mod.rs). What the user's predicate answers, and whether a Python object is a pair
-- with a text in front, are arguments. A value `none` is a panic.
use bytewax.Prelude.{Bool, true, false, Option, some, List, [], ◌∷◌, ◌≡◌, refl, ◌>>=◌}

module _ {I : Type 0} (predicate : I → Option Bool) where
  -- The streams of the trues and of the falses.
  unfoldable pub branch : List I → Option (List I × List I)
  branch [] = some ([], [])
  branch (item ∷ items) = do
    passes ← predicate item
    (trues, falses) ← branch items
    some (elim passes [ true ↦ (item ∷ trues, falses) | false ↦ (trues, item ∷ falses) ])

-- A Python object as the 2-tuple that it is, if it is one, and as the `str` that it is.
pub record Objects (I K V : Type 0) : Type 0 where
  pub as_pair : I → Option (I × V)
  pub as_str : I → Option K
  pub into_py : K × V → I

module _ {I K V : Type 0} (objects : Objects I K V) where
  unfoldable pub extract_one : I → Option (K × V)
  extract_one item = do
    (first, value) ← objects.as_pair item
    key ← objects.as_str first
    some (key, value)

  unfoldable pub extract_key : List I → Option (List (K × V))
  unfolding extract_one
  extract_key [] = some []
  extract_key (item ∷ items) = do
    pair ← extract_one item
    rest ← extract_key items
    some (pair ∷ rest)

  unfoldable pub wrap_key : List (K × V) → List I
  wrap_key [] = []
  wrap_key (pair ∷ pairs) = objects.into_py pair ∷ wrap_key pairs

  -- What `wrap_key` makes of the items of a keyed stream `extract_key` reads back, where Python reads
  -- a pair back as it was written and its first part as a text.
  pub extract_key-wrap_key :
      ((k : K) (v : V) → extract_one (objects.into_py (k, v)) ≡ some (k, v))
      → (pairs : List (K × V)) → extract_key (wrap_key pairs) ≡ some pairs
  unfolding extract_key wrap_key
  extract_key-wrap_key reads [] = refl
  extract_key-wrap_key reads ((k, v) ∷ pairs) =
      rw (reads k v, extract_key-wrap_key reads pairs) refl
