-- ===== src/Timely/Buffer.antt =====
-- `InBuffer`: the items that have arrived, by their epochs. The scratch vector `tmp` is empty between
-- the calls and has no counterpart.
use mathlib.Core.List.{append-nil, append_assoc}
use bytewax.Prelude.{
  sym, ◌∙◌, ℕ, ◌≡◌, refl, ◌==◌, Option, none, some, List, [], ◌∷◌, ◌++◌, if◌then◌else◌, Bool-cases,
  inl, inr, ap, ==_iff,
}
use bytewax.Prelude.Order.Ord.{ℕ_ord}
use bytewax.Prelude.Order.Map
use bytewax.Prelude.Order.Map.{lookup, lookup-insert, lookup-remove}

abbrev pub InBuffer : Type 0 → Type 0
InBuffer D = List (ℕ × List D)

module _ {D : Type 0} where
  unfoldable pub new : InBuffer D
  new = []

  abbrev pub or_empty : Option (List D) → List D
  or_empty none = []
  or_empty (some ds) = ds

  -- `entry(epoch).and_modify(append).or_insert(incoming)`.
  unfoldable pub extend : ℕ → List D → InBuffer D → InBuffer D
  extend epoch incoming b = Map.insert epoch (or_empty (lookup epoch b) ++ incoming) b

  unfoldable pub remove : ℕ → InBuffer D → InBuffer D × Option (List D)
  remove epoch b = (Map.remove epoch b, lookup epoch b)

  unfoldable pub epochs : InBuffer D → List ℕ
  epochs b = Map.keys b

  -- The arrivals, each a batch at an epoch, buffered one after the other.
  unfoldable pub extend_all : List (ℕ × List D) → InBuffer D → InBuffer D
  unfolding extend
  extend_all [] b = b
  extend_all ((epoch, incoming) ∷ rest) b = extend_all rest (extend epoch incoming b)

  -- What arrived at an epoch, in the order of arrival.
  unfoldable pub arrived : ℕ → List (ℕ × List D) → List D
  arrived e [] = []
  arrived e ((epoch, incoming) ∷ rest) = (if epoch == e then incoming else []) ++ arrived e rest

  or_empty-extend :
      (e epoch : ℕ) (incoming : List D) (b : InBuffer D)
      → or_empty (lookup e (extend epoch incoming b))
        ≡ or_empty (lookup e b) ++ (if epoch == e then incoming else [])
  unfolding extend
  or_empty-extend e epoch incoming b =
      rw (lookup-insert epoch e (or_empty (lookup epoch b) ++ incoming) b)
        (elim (Bool-cases (epoch == e)) [
          | inl same ↦ rw (same, (==_iff epoch e).0 same) refl
          | inr other ↦ rw other (sym (append-nil _))
        ])

  extend_all-arrived :
      (e : ℕ) (arrivals : List (ℕ × List D)) (b : InBuffer D)
      → or_empty (lookup e (extend_all arrivals b)) ≡ or_empty (lookup e b) ++ arrived e arrivals
  unfolding extend_all arrived
  extend_all-arrived e [] b = sym (append-nil _)
  extend_all-arrived e ((epoch, incoming) ∷ rest) b =
      extend_all-arrived e rest (extend epoch incoming b)
      ∙ ap (λ ds. ds ++ arrived e rest) (or_empty-extend e epoch incoming b)
      ∙ append_assoc (or_empty (lookup e b)) _ (arrived e rest)

  -- Of what has arrived in any order of the epochs, `remove` yields just the items of its epoch, in
  -- the order of their arrival, and leaves those of each other epoch.
  pub remove-arrived :
      (arrivals : List (ℕ × List D)) (e j : ℕ)
      → let (b, items) = remove e (extend_all arrivals new) in
        (or_empty items ≡ arrived e arrivals)
        × (or_empty (lookup j b) ≡ (if e == j then [] else arrived j arrivals))
  unfolding remove new arrived lookup
  remove-arrived arrivals e j = (
    extend_all-arrived e arrivals new,
    rw (lookup-remove e j (extend_all arrivals new)) (elim (Bool-cases (e == j)) [
      | inl same ↦ rw same refl
      | inr other ↦ rw other (extend_all-arrived j arrivals new)
    ]),
  )
