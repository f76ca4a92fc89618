-- ===== src/Recovery/Load.antt =====
-- The loaders of the tables of a recovery partition (src/recovery.rs).
use mathlib.Core.List.{Permᴰ}
use bytewax.Prelude.{
  ℕ, zero, suc, ◌≡◌, Bool, true, false, Option, none, some, List, [], ◌∷◌, ◌++◌, filter, Pairs,
}
use bytewax.Prelude.Order.Ord.{Ord}
use bytewax.Recovery.Tables.{SerializedSnapshot}
use bytewax.Recovery.Commit.{resume_rows}

-- A loader of a small table, which is read whole: the batch, and `done`.
unfoldable pub next_whole : {A : Type 0} → List A → Bool → Option (List A) × Bool
next_whole rows false = (some rows, true)
next_whole rows true = (none, true)

pub data Cursor (T : Type 0) : Type 0 where
  uninit : Cursor T
  in_progress : T → Cursor T
  done : Cursor T

-- `ORDER BY step_id, state_key`: the rows in an order in which no key stands after a greater one.
pub record OrderBy (K S : Type 0) ⦃o : Ord K⦄ : Type 0 where
  pub order_by : List (SerializedSnapshot K S) → List (SerializedSnapshot K S)
  pub order_by-permᴰ : (rows : List (SerializedSnapshot K S)) → Permᴰ rows (order_by rows)
  pub order_by-Pairs :
      (rows : List (SerializedSnapshot K S))
      → Pairs (λ r s. o.lt s.key r.key ≡ false) (order_by rows)

module _ {A : Type 0} where
  -- `LIMIT`.
  unfoldable pub take : ℕ → List A → List A
  take zero xs = []
  take (suc n) [] = []
  take (suc n) (x ∷ xs) = x ∷ take n xs

  unfoldable pub last : List A → Option A
  last [] = none
  last (x ∷ []) = some x
  last (x ∷ y ∷ xs) = last (y ∷ xs)

module _ {K S : Type 0} ⦃o : Ord K⦄ where
  -- `WHERE ?2 IS NULL OR ?3 IS NULL OR (step_id, state_key) > (?2, ?3)`.
  abbrev pub is_after : Option K → SerializedSnapshot K S → Bool
  is_after none row = true
  is_after (some k) row = o.lt k row.key

  module _ (by : OrderBy K S) (before batch_size : ℕ) (snaps : List (SerializedSnapshot K S)) where
    -- The batch after a cursor.
    unfoldable pub page : Option K → List (SerializedSnapshot K S)
    unfolding take
    page cursor =
        take batch_size (filter (is_after cursor) (by.order_by (resume_rows before snaps)))

    abbrev pub next_cursor : Option (SerializedSnapshot K S) → Cursor K
    next_cursor none = done
    next_cursor (some row) = in_progress row.key

    unfoldable pub select_snaps : Option K → List (SerializedSnapshot K S) × Cursor K
    unfolding page last
    select_snaps cursor = (page cursor, next_cursor (last (page cursor)))

    unfoldable pub next_batch : Cursor K → Option (List (SerializedSnapshot K S)) × Cursor K
    unfolding select_snaps
    next_batch uninit = let (batch, cursor) = select_snaps none in (some batch, cursor)
    next_batch (in_progress k) = let (batch, cursor) = select_snaps (some k) in (some batch, cursor)
    next_batch done = (none, done)

    -- The batches up to the end, if so many suffice.
    unfoldable pub drain : ℕ → Cursor K → Option (List (SerializedSnapshot K S))
    unfolding next_batch
    drain zero cursor = none
    drain (suc n) cursor =
        let (batch, cursor') = next_batch cursor in
        let later = drain n cursor' in
        elim batch [
          | none ↦ some []
          | some rows ↦ elim later [ none ↦ none | some rest ↦ some (rows ++ rest) ]
        ]
