-- ===== src/Timely/Primaries.antt =====
-- `calc_primaries` and the logics of `AssignPrimariesOp` (src/timely.rs). A value `none` is a panic.
use mathlib.Core.List.{Permᴰ}
use bytewax.Prelude.{
  ℕ, ◌+◌, ◌≤◌, ◌≡◌, ◌==◌, Bool, true, false, not, Option, none, some, List, [], ◌∷◌, filter, length,
  ◌>>=◌, ◌>>◌, assert, if◌then◌else◌, All, Any, Pairs,
}
use bytewax.Prelude.Order.Ord.{Ord, ℕ_ord}
use bytewax.Prelude.Order.Map.{lookup, insert, keys}
use bytewax.Prelude.Order.Set

-- The partitions, each with the workers that have it.
abbrev pub Known : Type 0 → Type 0
Known P = List (P × List ℕ)

abbrev pub Primaries : Type 0 → Type 0
Primaries P = List (P × ℕ)

-- `slice::sort_unstable_by_key` arranges by rising keys, and `slice::select_nth_unstable_by_key` at 0
-- finds an element with the least key; which of equals comes first is not specified.
pub record Selection (P : Type 0) : Type 0 where
  pub sort_unstable_by_key : (P → ℕ) → List P → List P
  pub select_first_by_key : (ℕ → ℕ) → ℕ → List ℕ → ℕ
  pub sort-permᴰ : (key : P → ℕ) (ps : List P) → Permᴰ ps (sort_unstable_by_key key ps)
  pub sort-Pairs :
      (key : P → ℕ) (ps : List P) → Pairs (λ p q. key p ≤ key q) (sort_unstable_by_key key ps)
  pub select-Any :
      (key : ℕ → ℕ) (w : ℕ) (ws : List ℕ) → Any (λ v. v ≡ select_first_by_key key w ws) (w ∷ ws)
  pub select-All :
      (key : ℕ → ℕ) (w : ℕ) (ws : List ℕ)
      → All (λ v. key (select_first_by_key key w ws) ≤ key v) (w ∷ ws)

abbrev pub or_none : Option (List ℕ) → List ℕ
or_none none = []
or_none (some ws) = ws

abbrev pub is_at : Option ℕ → ℕ → Bool
is_at none w = false
is_at (some v) w = v == w

module _ {P : Type 0} where
  -- How many partitions a worker is assigned.
  unfoldable pub load : ℕ → Primaries P → ℕ
  load w [] = 0
  load w ((p, v) ∷ m) = let rest = load w m in if w == v then rest + 1 else rest

  -- On no candidates the selection panics.
  unfoldable pub select : Selection P → List ℕ → (ℕ → ℕ) → Option ℕ
  select by [] key = none
  select by (w ∷ ws) key = some (by.select_first_by_key key w ws)

module _ {P : Type 0} ⦃o : Ord P⦄ where
  -- The loop of `calc_primaries`.
  unfoldable pub assign_all : Selection P → Known P → List P → Primaries P → Option (Primaries P)
  unfolding load select
  assign_all by known [] primaries = some primaries
  assign_all by known (part ∷ parts) primaries = do
    candidates ← lookup part known
    worker ← select by candidates (λ w. load w primaries)
    assign_all by known parts (insert part worker primaries)

  unfoldable pub same_keys : List P → List P → Bool
  same_keys [] [] = true
  same_keys [] (q ∷ qs) = false
  same_keys (p ∷ ps) [] = false
  same_keys (p ∷ ps) (q ∷ qs) = let rest = same_keys ps qs in if o.eq p q then rest else false

  unfoldable pub calc_primaries : Selection P → Known P → Option (Primaries P)
  unfolding assign_all same_keys
  calc_primaries by known = do
    primaries ←
        assign_all by known
          (by.sort_unstable_by_key (λ p. length (or_none (lookup p known))) (keys known)) []
    assert (same_keys (keys known) (keys primaries))
    some primaries

  -- The eager logic of `assign_primaries`, on the items of an epoch.
  unfoldable pub learn : List (P × ℕ) → Known P → Known P
  learn [] known = known
  learn ((key, worker) ∷ routes) known =
      learn routes (insert key (Set.insert worker (or_none (lookup key known))) known)

  -- The assignments that are sent: those that the old primaries do not have.
  unfoldable pub changes : Primaries P → Primaries P → List (P × ℕ)
  changes old new = filter (λ (e : P × ℕ). not (is_at (lookup e.0 old) e.1)) new

  abbrev pub is_none : Primaries P → Bool
  is_none [] = true
  is_none (e ∷ m) = false

  -- The close logic: the new primaries, and what is sent.
  unfoldable pub reassign :
      Selection P → Known P → Primaries P → Option (Primaries P × List (P × ℕ))
  unfolding calc_primaries changes
  reassign by known old = do
    new ← calc_primaries by known
    assert (not (is_none new))
    some (new, changes old new)
