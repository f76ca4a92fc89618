-- ===== src/Timely/Assignment.antt =====
-- The parts that the workers hold as the primaries change (src/timely.rs).
use bytewax.Prelude.{
  ℕ, ◌==◌, ==_iff, ◌≡◌, refl, sym, ap, ◌∙◌, Bool, true, false, not, ◌&&◌, Option, none, some, List,
  [], ◌∷◌, filter, if◌then◌else◌, arith, All, All-map, All-both, filter-passes, Bool-cases, inl,
  inr,
}
use bytewax.Prelude.Order.Ord.{Ord, ℕ_ord, eq_of_lt}
use bytewax.Prelude.Order.Map.{lookup, insert, remove, lookup-insert, lookup-remove}
use bytewax.Prelude.Order.Map
use bytewax.Prelude.Order.Entries.{lookup_below, lookup-filter_all}
use bytewax.Timely.Primaries.{Primaries, is_at, changes}
use bytewax.Timely.Parts.{has_key, update_part, update_parts}
use bytewax.Timely.Routing.{insert_routes}

not-true : (b : Bool) → not b ≡ true → b ≡ false
not-true true e = sym e
not-true false e = refl

-- The change that is sent for a key, by its old and its new primary.
abbrev pub sent : Option ℕ → Option ℕ → Option ℕ
sent a none = none
sent a (some w) = if not (is_at a w) then some w else none

-- Whether a worker has a part after a change, if any.
abbrev or_at : Bool → ℕ → Option ℕ → Bool
or_at h this_worker none = h
or_at h this_worker (some w) = w == this_worker

abbrev pub or_else_at : Option ℕ → Option ℕ → Option ℕ
or_else_at none b = b
or_else_at (some a) b = some a

changed : (a b : Option ℕ) → (b ≡ none → a ≡ none) → or_else_at (sent a b) a ≡ b
changed none none h = refl
changed (some v) none h = cc (h refl)
changed none (some w) h = refl
changed (some v) (some w) h = elim (Bool-cases (v == w)) [
  | inl same ↦ rw same (ap some ((==_iff v w).0 same))
  | inr other ↦ rw other refl
]

module _ {P : Type 0} ⦃o : Ord P⦄ where
  -- The old primaries are of partitions that the new ones have too.
  abbrev pub Covers : Primaries P → Primaries P → Type 0
  Covers old new = (k : P) → lookup k new ≡ none → lookup k old ≡ none

  -- Routes that each name a different partition take the place of the old ones.
  lookup-insert_routes :
      (k : P) (routes m : Primaries P)
      → Map.Ascends routes
      → lookup k (insert_routes m routes) ≡ or_else_at (lookup k routes) (lookup k m)
  unfolding insert_routes lookup
  lookup-insert_routes k [] m up = refl
  lookup-insert_routes k ((p, w) ∷ routes) m up = elim (Bool-cases (o.eq p k)) [
    | inl same ↦
        rw
          (
            lookup-insert_routes k routes (insert p w m) up.1,
            lookup-insert p k w m,
            same,
            lookup_below p k routes up.0 same,
          )
          refl
    | inr other ↦
        rw (lookup-insert_routes k routes (insert p w m) up.1, lookup-insert p k w m, other) refl
  ]

  -- A routing table that holds the old primaries holds the new ones once what `assign_primaries` sends
  -- has been inserted: sending only the changes is enough.
  pub insert_routes-changes :
      (old new : Primaries P) (k : P)
      → Map.Ascends new
      → Covers old new
      → lookup k (insert_routes old (changes old new)) ≡ lookup k new
  unfolding changes
  insert_routes-changes old new k up covers =
      lookup-insert_routes k (changes old new) old (Map.Ascends-filter _ new up)
      ∙ ap (λ x. or_else_at x (lookup k old)) (lookup-filter_all _ k new up)
      ∙ changed (lookup k old) (lookup k new) (covers k)

  module _ {W : Type 0} (builder : P → W) (this_worker : ℕ) where
    has_key-update_part :
        (k p : P) (w : ℕ) (parts : List (P × W))
        → has_key k (update_part builder this_worker p w parts)
          ≡ (if o.eq p k then w == this_worker && not (has_key p parts) else has_key k parts)
    unfolding update_part has_key
    has_key-update_part k p w parts =
        ground (arith, lookup-insert p k (builder p) parts, lookup-remove p k parts)

    -- No part is assigned to this worker that it has.
    abbrev IsNews : List (P × W) → P × ℕ → Type 0
    IsNews parts u = u.1 ≡ this_worker → has_key u.0 parts ≡ false

    IsNews-update_part :
        (p : P) (w : ℕ) (parts : List (P × W)) (us : List (P × ℕ))
        → All (λ u. o.lt p u.0 ≡ true) us
        → All (IsNews parts) us
        → All (IsNews (update_part builder this_worker p w parts)) us
    IsNews-update_part p w parts us above news =
        All-map (λ (u : P × ℕ). (o.lt p u.0 ≡ true) × IsNews parts u)
          (λ u h same. has_key-update_part u.0 p w parts ∙ rw (eq_of_lt p u.0 h.0) (h.1 same)) us
          (All-both _ _ us above news)

    has_key-update_parts :
        (k : P) (us : List (P × ℕ)) (parts : List (P × W))
        → Map.Ascends us
        → All (IsNews parts) us
        → has_key k (update_parts builder this_worker us parts)
          ≡ or_at (has_key k parts) this_worker (lookup k us)
    unfolding update_parts lookup
    has_key-update_parts k [] parts up news = refl
    has_key-update_parts k ((p, w) ∷ us) parts up news =
        let parts' = update_part builder this_worker p w parts in
        let rest =
          has_key-update_parts k us parts' up.1 (IsNews-update_part p w parts us up.0 news.1) in
        elim (Bool-cases (o.eq p k)) [
          | inl same ↦
              rest
              ∙ rw (lookup_below p k us up.0 same, same)
                  (has_key-update_part k p w parts ∙ rw same (built p w parts news.0))
          | inr other ↦
              rest
              ∙ rw other (
                  ap (λ h. or_at h this_worker (lookup k us))
                    (has_key-update_part k p w parts ∙ rw other refl))
        ]
      where
        built :
            (p : P) (w : ℕ) (parts : List (P × W))
            → IsNews parts (p, w)
            → (w == this_worker && not (has_key p parts)) ≡ (w == this_worker)
        built p w parts news = elim (Bool-cases (w == this_worker)) [
          | inl here ↦ rw (here, news ((==_iff w this_worker).0 here)) refl
          | inr away ↦ rw away refl
        ]

    at_changed :
        (a b : Option ℕ) (h : Bool)
        → h ≡ is_at a this_worker
        → (b ≡ none → a ≡ none)
        → or_at h this_worker (sent a b) ≡ is_at b this_worker
    at_changed none none h e covers = e
    at_changed (some v) none h e covers = cc (covers refl)
    at_changed none (some w) h e covers = refl
    at_changed (some v) (some w) h e covers = elim (Bool-cases (v == w)) [
      | inl same ↦ rw same (e ∙ ap (λ x. x == this_worker) ((==_iff v w).0 same))
      | inr other ↦ rw other refl
    ]

    -- A worker that holds just the parts it is primary for holds just those again once it has gone
    -- through the changes of the primaries.
    pub update_parts-changes :
        (old new : Primaries P) (parts : List (P × W))
        → Map.Ascends new
        → Covers old new
        → ((k : P) → has_key k parts ≡ is_at (lookup k old) this_worker)
        → (k : P)
        → has_key k (update_parts builder this_worker (changes old new) parts)
          ≡ is_at (lookup k new) this_worker
    unfolding changes
    update_parts-changes old new parts up covers holds k =
        let p = λ (e : P × ℕ). not (is_at (lookup e.0 old) e.1) in
        let news =
          All-map (λ e. p e ≡ true)
            (λ e passes same.
              holds e.0 ∙ ap (is_at (lookup e.0 old)) (sym same) ∙ not-true _ passes)
            (filter p new) (filter-passes p new) in
        has_key-update_parts k (changes old new) parts (Map.Ascends-filter p new up) news
        ∙ ap (or_at (has_key k parts) this_worker) (lookup-filter_all p k new up)
        ∙ at_changed (lookup k old) (lookup k new) (has_key k parts) (holds k) (covers k)
