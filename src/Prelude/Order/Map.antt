-- ===== src/Prelude/Order/Map.antt =====
-- `BTreeMap`: an association list, its keys in ascending order.
use mathlib.Core.Path.{◌≡◌, refl, subst}
use mathlib.Core.Logic.{inl, inr}
use mathlib.Core.Bool.{Bool, true}
use mathlib.Core.Option.{Option, none, some}
use mathlib.Core.List.{List, [], ◌∷◌, map}
use native.Mathlib.Omega.{arith}
use bytewax.Prelude.Tests.{if◌then◌else◌, Bool-cases}
use bytewax.Prelude.Lists.{All-map, All, All-filter, filter}
use bytewax.Prelude.Order.Ord.{Ord, lt_of_not}

module _ {ℓ κ} {K : Type ℓ} {V : Type κ} ⦃o : Ord K⦄ where
  -- `BTreeMap::get`.
  unfoldable pub lookup : K → List (K × V) → Option V
  lookup k [] = none
  lookup k ((j, v) ∷ m) = if o.eq j k then some v else lookup k m

  -- `BTreeMap::insert`: the value of a key that is there is replaced.
  unfoldable pub insert : K → V → List (K × V) → List (K × V)
  insert k v [] = (k, v) ∷ []
  insert k v ((j, w) ∷ m) =
      if o.lt k j
      then (k, v) ∷ (j, w) ∷ m
      else if o.eq j k
      then (k, v) ∷ m
      else (j, w) ∷ insert k v m

  -- `BTreeMap::remove`.
  unfoldable pub remove : K → List (K × V) → List (K × V)
  remove k [] = []
  remove k ((j, v) ∷ m) = let rest = remove k m in if o.eq j k then rest else (j, v) ∷ rest

  -- `BTreeMap::keys`.
  abbrev pub keys : List (K × V) → List K
  keys = map λ e. e.0

  pub lookup-insert :
      (k j : K) (v : V) (m : List (K × V))
      → lookup j (insert k v m) ≡ (if o.eq k j then some v else lookup j m)
  unfolding lookup insert
  lookup-insert k j v [] = refl
  lookup-insert k j v ((i, w) ∷ m) =
      ground (arith, o.eq_iff k j, o.eq_iff i k, o.eq_iff i j, lookup-insert k j v m)

  pub lookup-remove :
      (k j : K) (m : List (K × V)) → lookup j (remove k m) ≡ (if o.eq k j then none else lookup j m)
  unfolding lookup remove
  lookup-remove k j [] = ground arith
  lookup-remove k j ((i, w) ∷ m) =
      ground (arith, o.eq_iff k j, o.eq_iff i k, o.eq_iff i j, lookup-remove k j m)

  -- The keys rise along the list, and so no key stands twice.
  abbrev pub Ascends : List (K × V) → Type 0
  Ascends [] = Unit
  Ascends ((k, v) ∷ m) = All (λ e. o.lt k e.0 ≡ true) m × Ascends m

  pub All-insert :
      (P : K × V → Type 0) (k : K) (v : V) (m : List (K × V))
      → P (k, v)
      → All P m
      → All P (insert k v m)
  unfolding insert
  All-insert P k v [] p h = (p, tt)
  All-insert P k v ((j, w) ∷ m) p h = ground (arith, All-insert P k v m p h.1)

  pub All-remove : (P : K × V → Type 0) (k : K) (m : List (K × V)) → All P m → All P (remove k m)
  unfolding remove
  All-remove P k [] h = tt
  All-remove P k ((j, w) ∷ m) h = ground (arith, All-remove P k m h.1)

  All-lt :
      (k j : K) (m : List (K × V))
      → All (λ e. o.lt j e.0 ≡ true) m
      → o.lt k j ≡ true
      → All (λ e. o.lt k e.0 ≡ true) m
  All-lt k j m h l = All-map (λ e. o.lt j e.0 ≡ true) (λ e. o.lt_trans k j e.0 l) m h

  All-eq :
      (k j : K) (m : List (K × V))
      → All (λ e. o.lt j e.0 ≡ true) m
      → o.eq j k ≡ true
      → All (λ e. o.lt k e.0 ≡ true) m
  All-eq k j m h l = subst (λ i. All (λ e. o.lt i e.0 ≡ true) m) ((o.eq_iff j k).0 l) h

  pub Ascends-insert : (k : K) (v : V) (m : List (K × V)) → Ascends m → Ascends (insert k v m)
  unfolding insert
  Ascends-insert k v [] h = (tt, tt)
  Ascends-insert k v ((j, w) ∷ m) h = ground (
    arith,
    All-lt k j m h.0,
    All-eq k j m h.0,
    lt_of_not k j,
    All-insert (λ e. o.lt j e.0 ≡ true) k v m,
    Ascends-insert k v m h.1,
  )

  pub Ascends-remove : (k : K) (m : List (K × V)) → Ascends m → Ascends (remove k m)
  unfolding remove
  Ascends-remove k [] h = tt
  Ascends-remove k ((j, w) ∷ m) h =
      ground (arith, All-remove (λ e. o.lt j e.0 ≡ true) k m h.0, Ascends-remove k m h.1)

  -- What is found is an entry.
  pub lookup-All :
      (P : K × V → Type 0) (k : K) (m : List (K × V))
      → All P m
      → (v : V) → lookup k m ≡ some v
      → P (k, v)
  unfolding lookup
  lookup-All P k [] h v e = ground arith
  lookup-All P k ((j, w) ∷ m) h v e = elim (Bool-cases (o.eq j k)) [
    | inl here ↦
        let found : some w ≡ some v = rw here at e in
        subst (λ x. P (x, v)) ((o.eq_iff j k).0 here) (subst (λ x. P (j, x)) (cc found) h.0)
    | inr there ↦ lookup-All P k m h.1 v (rw there at e)
  ]

  pub Ascends-filter : (p : K × V → Bool) (m : List (K × V)) → Ascends m → Ascends (filter p m)
  Ascends-filter p [] h = tt
  Ascends-filter p ((k, v) ∷ m) h =
      ground (arith, Ascends-filter p m h.1, All-filter p (λ e. o.lt k e.0 ≡ true) m h.0)
