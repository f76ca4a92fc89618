-- ===== src/Timely/Delivery.antt =====
-- An item's way to the worker that writes it: `partition`, then `route` (src/timely.rs).
use bytewax.Prelude.{
  ℕ, zero, suc, ◌%◌, ◌<◌, ◌≡◌, ==_iff, refl, ap, ◌∙◌, true, false, some, List, [], ◌∷◌, map, length,
  arith, All, All-Any, Any, inl, inr,
}
use bytewax.Prelude.Order.Ord.{Ord, ℕ_ord}
use bytewax.Prelude.Order.Map.{lookup}
use bytewax.Timely.Primaries.{Primaries, is_at}
use bytewax.Timely.Parts.{has_key}
use bytewax.Timely.Routing.{is_empty, nth, part_of, label_all, label_items, route_all, route_items}

nth-Any :
    {A : Type 0} (xs : List A) (i : ℕ)
    → i < length xs
    → (a : A) × (nth xs i ≡ some a) × Any (λ x. x ≡ a) xs
unfolding nth
nth-Any [] i lt = absurd (omega (arith, lt))
nth-Any (a ∷ xs) zero lt = (a, refl, inl refl)
nth-Any (a ∷ xs) (suc i) lt = let (b, e, at) = nth-Any xs i (omega (arith, lt)) in (b, e, inr at)

not_empty : {A : Type 0} (xs : List A) → 0 < length xs → is_empty xs ≡ false
not_empty [] h = absurd (omega (arith, h))
not_empty (x ∷ xs) h = refl

module _ {P : Type 0} ⦃o : Ord P⦄ (primaries : Primaries P) where
  -- Every known part has a primary.
  abbrev pub HasPrimary : P → Type 0
  HasPrimary p = (w : ℕ) × (lookup p primaries ≡ some w)

  routes_known : (ps : List P) → 0 < length ps → All HasPrimary ps → is_empty primaries ≡ false
  unfolding lookup
  routes_known [] h g = absurd (omega (arith, h))
  routes_known (p ∷ ps) h ((w, e), g) = go primaries e
    where
      go : (m : Primaries P) → lookup p m ≡ some w → is_empty m ≡ false
      go [] none_e = cc none_e
      go (x ∷ m) some_e = refl

module _ {K P : Type 0} (assign : K → ℕ) (known : List P) where
  found_part :
      0 < length known
      → (k : K) → (p : P) × (part_of assign known k ≡ some p) × Any (λ x. x ≡ p) known
  unfolding part_of
  found_part some_known k = nth-Any known (assign k % length known) (omega (arith, some_known))

module _ {K V P W : Type 0} ⦃o : Ord P⦄ (assign : K → ℕ) (known : List P)
    (primaries : Primaries P) where
  module _ (parts : ℕ → List (P × W)) where
    -- A routed item: its part is the one of its key, its worker that part's primary, which has it.
    abbrev pub IsDelivered : ℕ × (P × (K × V)) → Type 0
    IsDelivered (w, (p, (k, v))) =
        (part_of assign known k ≡ some p)
        × (lookup p primaries ≡ some w)
        × (has_key p (parts w) ≡ true)

    delivered :
        0 < length known
        → All (HasPrimary primaries) known
        → ((w : ℕ) (k : P) → has_key k (parts w) ≡ is_at (lookup k primaries) w)
        → (items : List (K × V))
        → (labelled : List (P × (K × V))) × (routed : List (ℕ × (P × (K × V)))) × (label_all assign
              known items
            ≡ some labelled)
          × (route_all primaries labelled ≡ some routed)
          × (map (λ r. r.1.1) routed ≡ items)
          × All IsDelivered routed
    unfolding label_all route_all
    delivered some_known primary holds [] = ([], [], refl, refl, refl, tt)
    delivered some_known primary holds ((k, v) ∷ items) =
        let (p, found, at) = found_part assign known some_known k in
        let (w, e) = All-Any (HasPrimary primaries) known primary at in
        let (labelled, routed, labels, routes, same, all) =
          delivered some_known primary holds items in
        (
          (p, (k, v)) ∷ labelled,
          (w, (p, (k, v))) ∷ routed,
          rw (found, labels) refl,
          rw (e, routes) refl,
          ap (λ xs. (k, v) ∷ xs) same,
          ((found, e, holds w p ∙ ap (λ x. is_at x w) e ∙ (==_iff w w).1 refl), all),
        )

    -- With at least one part known, a primary for each known part, and each worker holding just the
    -- parts that it is primary for: `partition` and `route` do not panic on any items, keep them in
    -- their order, label each with the part of its key, and send it to that part's primary, which
    -- holds the part.
    pub partition_route-IsDelivered :
        (items : List (K × V))
        → 0 < length known
        → All (HasPrimary primaries) known
        → ((w : ℕ) (k : P) → has_key k (parts w) ≡ is_at (lookup k primaries) w)
        → (labelled : List (P × (K × V))) × (routed : List (ℕ × (P × (K × V)))) × (label_items
              assign known items
            ≡ some labelled)
          × (route_items primaries labelled ≡ some routed)
          × (map (λ r. r.1.1) routed ≡ items)
          × All IsDelivered routed
    unfolding label_items route_items
    partition_route-IsDelivered items some_known primary holds =
        let (labelled, routed, labels, routes, same, all) =
          delivered some_known primary holds items in
        (
          labelled,
          routed,
          rw (not_empty known some_known) labels,
          rw (routes_known primaries known some_known primary) routes,
          same,
          all,
        )
