-- ===== src/Prelude/Order/Set.antt =====
-- `BTreeSet`: a list of keys in ascending order.
use mathlib.Core.Path.{◌≡◌, refl}
use mathlib.Core.Bool.{Bool, true, false}
use mathlib.Core.List.{List, [], ◌∷◌}
use native.Mathlib.Omega.{arith}
use bytewax.Prelude.Tests.{if◌then◌else◌}
use bytewax.Prelude.Lists.{All-map, All, All-filter, filter}
use bytewax.Prelude.Order.Ord.{Ord, lt_of_not}

module _ {ℓ} {K : Type ℓ} ⦃o : Ord K⦄ where
  -- `BTreeSet::insert`.
  unfoldable pub insert : K → List K → List K
  insert k [] = k ∷ []
  insert k (j ∷ s) = if o.lt k j then k ∷ j ∷ s else if o.eq j k then j ∷ s else j ∷ insert k s

  -- `BTreeSet::extend`.
  unfoldable pub extend : List K → List K → List K
  extend s [] = s
  extend s (k ∷ ks) = extend (insert k s) ks

  -- `BTreeSet::contains`.
  unfoldable pub contains : K → List K → Bool
  contains k [] = false
  contains k (j ∷ s) = if o.eq j k then true else contains k s

  abbrev pub Ascends : List K → Type 0
  Ascends [] = Unit
  Ascends (k ∷ s) = All (λ j. o.lt k j ≡ true) s × Ascends s

  pub contains-insert :
      (k j : K) (s : List K) → contains j (insert k s) ≡ (if o.eq k j then true else contains j s)
  unfolding contains insert
  contains-insert k j [] = refl
  contains-insert k j (i ∷ s) =
      ground (arith, o.eq_iff k j, o.eq_iff i k, o.eq_iff i j, contains-insert k j s)

  pub All-insert : (P : K → Type 0) (k : K) (s : List K) → P k → All P s → All P (insert k s)
  unfolding insert
  All-insert P k [] p h = (p, tt)
  All-insert P k (j ∷ s) p h = ground (arith, All-insert P k s p h.1)

  All-lt :
      (k j : K) (s : List K)
      → All (λ i. o.lt j i ≡ true) s
      → o.lt k j ≡ true
      → All (λ i. o.lt k i ≡ true) s
  All-lt k j s h l = All-map (λ i. o.lt j i ≡ true) (λ i. o.lt_trans k j i l) s h

  pub Ascends-insert : (k : K) (s : List K) → Ascends s → Ascends (insert k s)
  unfolding insert
  Ascends-insert k [] h = (tt, tt)
  Ascends-insert k (j ∷ s) h = ground (
    arith,
    All-lt k j s h.0,
    lt_of_not k j,
    All-insert (λ i. o.lt j i ≡ true) k s,
    Ascends-insert k s h.1,
  )

  pub Ascends-extend : (s ks : List K) → Ascends s → Ascends (extend s ks)
  unfolding extend
  Ascends-extend s [] h = h
  Ascends-extend s (k ∷ ks) h = Ascends-extend (insert k s) ks (Ascends-insert k s h)

  pub Ascends-filter : (p : K → Bool) (s : List K) → Ascends s → Ascends (filter p s)
  Ascends-filter p [] h = tt
  Ascends-filter p (k ∷ s) h =
      ground (arith, Ascends-filter p s h.1, All-filter p (λ j. o.lt k j ≡ true) s h.0)
