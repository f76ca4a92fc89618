-- ===== src/Prelude/Order/Entries.antt =====
-- The entries of a `BTreeMap`, and what a filter leaves of them.
use mathlib.Core.Path.{◌≡◌, refl, sym, subst, ◌∙◌}
use mathlib.Core.Logic.{◌≢◌, inl, inr}
use mathlib.Core.Bool.{Bool, true, false, false≢true}
use mathlib.Core.Option.{none, some}
use mathlib.Core.List.{List, [], ◌∷◌}
use native.Mathlib.Omega.{arith}
use bytewax.Prelude.Tests.{if◌then◌else◌, Bool-cases}
use bytewax.Prelude.Lists.{All, All-both, All-map, All-filter, Pairs, filter, filter-passes}
use bytewax.Prelude.Order.Ord.{Ord, eq_of_lt, eq_refl}
use bytewax.Prelude.Order.Map.{lookup, Ascends, lookup-All}

module _ {K V : Type 0} ⦃o : Ord K⦄ where
  -- Each entry is found under its key.
  pub lookup-entries : (m : List (K × V)) → Ascends m → All (λ e. lookup e.0 m ≡ some e.1) m
  unfolding lookup
  lookup-entries [] h = tt
  lookup-entries ((k, v) ∷ m) h = (
    rw (eq_refl k) refl,
    All-map {A = K × V} (λ e. (o.lt k e.0 ≡ true) × (lookup e.0 m ≡ some e.1))
        (λ e a. rw (eq_of_lt k e.0 a.0) a.1) m
        (All-both (λ e. o.lt k e.0 ≡ true) (λ e. lookup e.0 m ≡ some e.1) m h.0
          (lookup-entries m h.1)),
  )

  -- The keys are different.
  pub Ascends-Pairs : (m : List (K × V)) → Ascends m → Pairs (λ e f. e.0 ≢ f.0) m
  Ascends-Pairs [] h = tt
  Ascends-Pairs ((k, v) ∷ m) h = (
    All-map (λ e. o.lt k e.0 ≡ true)
        (λ e l same. false≢true (sym (eq_of_lt k e.0 l) ∙ (o.eq_iff k e.0).1 same)) m h.0,
    Ascends-Pairs m h.1,
  )

  module _ (p : K × V → Bool) where
    -- An entry that a filter leaves was there.
    pub lookup-filter :
        (m : List (K × V)) (k : K) (v : V)
        → Ascends m
        → lookup k (filter p m) ≡ some v
        → (lookup k m ≡ some v) × (p (k, v) ≡ true)
    lookup-filter m k v h found =
        lookup-All (λ e. (lookup e.0 m ≡ some e.1) × (p e ≡ true)) k (filter p m)
          (All-both (λ e. lookup e.0 m ≡ some e.1) (λ e. p e ≡ true) (filter p m)
            (All-filter p (λ e. lookup e.0 m ≡ some e.1) m (lookup-entries m h))
            (filter-passes p m))
          v found

  -- A key that stands before all entries, up to equality, is not found.
  pub lookup_below :
      (j k : K) (m : List (K × V))
      → All (λ e. o.lt j e.0 ≡ true) m
      → o.eq j k ≡ true
      → lookup k m ≡ none
  unfolding lookup
  lookup_below j k [] h same = refl
  lookup_below j k ((i, v) ∷ m) h same =
      ground (arith, o.eq_iff j k, o.eq_iff i k, o.lt_irrefl k, lookup_below j k m h.1 same)

  -- Looking up in a filtered map.
  pub lookup-filter_all :
      (p : K × V → Bool) (k : K) (m : List (K × V))
      → Ascends m
      → lookup k (filter p m)
        ≡ elim (lookup k m) [ none ↦ none | some v ↦ if p (k, v) then some v else none ]
  unfolding lookup
  lookup-filter_all p k [] h = refl
  lookup-filter_all p k ((i, v) ∷ m) h = elim (Bool-cases (o.eq i k)) [
    | inl same ↦
        let i_k = (o.eq_iff i k).0 same in
        elim (Bool-cases (p (i, v))) [
          | inl passes ↦ rw (passes, same, subst (λ z. p (z, v) ≡ true) i_k passes) refl
          | inr fails ↦
              rw (fails, same, subst (λ z. p (z, v) ≡ false) i_k fails)
                (lookup_below i k (filter p m) (All-filter p (λ e. o.lt i e.0 ≡ true) m h.0) same)
        ]
    | inr other ↦ elim (Bool-cases (p (i, v))) [
      | inl passes ↦ rw (passes, other) (lookup-filter_all p k m h.1)
      | inr fails ↦ rw (fails, other) (lookup-filter_all p k m h.1)
    ]
  ]
