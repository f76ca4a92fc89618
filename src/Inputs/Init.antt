-- ===== src/Inputs/Init.antt =====
-- The partitions that a worker starts at the end of the loads (src/inputs.rs).
use mathlib.Core.Bool.{false≢true}
use bytewax.Prelude.{
  ℕ, ◌≡◌, refl, Bool, true, false, Option, none, some, List, [], ◌∷◌, inl, inr, Option-cases,
  Bool-cases, if◌then◌else◌, ◌∙◌, sym, ap,
}
use bytewax.Prelude.Order.Ord.{Ord}
use bytewax.Prelude.Order.Map.{lookup, insert, lookup-insert}
use bytewax.Prelude.Order.Set.{contains}
use bytewax.Window.Types.{DateTime}
use bytewax.Timely.Parts.{has_key}
use bytewax.Inputs.Defs.{Source, PartState}
use bytewax.Inputs.Trace.{Returns}
use bytewax.Inputs.Startup.{start_part, init_parts}

module _ {K St S I : Type 0} ⦃o : Ord K⦄ (source : K → Source St S I) (now : DateTime)
    (epoch : ℕ) where
  -- A partition that is there, or else a new one if it is a primary.
  abbrev pub or_started : K → Bool → Option (PartState St) → Option (PartState St)
  or_started j primary (some p) = some p
  or_started j true none = start_part source now epoch epoch j none
  or_started j false none = none

  abbrev has : Option (PartState St) → Bool
  has none = false
  has (some p) = true

  start_part_total :
      (k : K)
      → Returns (source k)
      → (p : PartState St) × (start_part source now epoch epoch k none ≡ some p)
  unfolding start_part
  start_part_total k r =
      let (st, e) = r.built now none in
      let (t, f) = r.awoken st in
      (
        record {
          part = st;
          downstream_cap = epoch;
          snap_cap = epoch;
          epoch_started = now;
          next_awake = t;
        },
        rw (e, f) refl,
      )

  started_at :
      (j k : K) (p : PartState St) (primary : Bool) (parts : List (K × PartState St))
      → has_key k parts ≡ false
      → start_part source now epoch epoch k none ≡ some p
      → or_started j primary (lookup j (insert k p parts))
        ≡ or_started j (if o.eq k j then true else primary) (lookup j parts)
  unfolding has_key
  started_at j k p primary parts absent started = elim (Bool-cases (o.eq k j)) [
    | inl same ↦
        let e = (o.eq_iff k j).0 same in
        elim (Option-cases (lookup k parts)) [
          | inl free ↦ rw (lookup-insert k j p parts, same, sym e, free) (sym started)
          | inr (q, there) ↦ absurd (false≢true (sym absent ∙ ap has there))
        ]
    | inr other ↦ rw (lookup-insert k j p parts, other) refl
  ]

  there_already :
      (j k : K) (primary : Bool) (parts : List (K × PartState St))
      → has_key k parts ≡ true
      → or_started j primary (lookup j parts)
        ≡ or_started j (if o.eq k j then true else primary) (lookup j parts)
  unfolding has_key
  there_already j k primary parts there = elim (Bool-cases (o.eq k j)) [
    | inl same ↦
        let e = (o.eq_iff k j).0 same in
        elim (Option-cases (lookup k parts)) [
          | inl free ↦ absurd (false≢true (ap has (sym free) ∙ there))
          | inr (q, at) ↦ rw (sym e, at) refl
        ]
    | inr other ↦ rw other refl
  ]

  -- Where no method of the source raises, the initialization does not panic, and a worker has the
  -- partitions that it resumed, as they were, and a new one for each other partition that it is the
  -- primary of.
  pub init_parts-or_started :
      (primary_parts : List K) (parts : List (K × PartState St))
      → ((k : K) → Returns (source k))
      → (out : List (K × PartState St)) × (init_parts source now epoch epoch primary_parts parts
          ≡ some out)
        × ((j : K) → lookup j out ≡ or_started j (contains j primary_parts) (lookup j parts))
  unfolding init_parts contains
  init_parts-or_started [] parts r = (
    parts,
    refl,
    λ j. elim (Option-cases (lookup j parts)) [ inl e ↦ rw e refl | inr (p, e) ↦ rw e refl ],
  )
  init_parts-or_started (k ∷ keys) parts r = elim (Bool-cases (has_key k parts)) [
    | inl there ↦
        let (out, runs, found) = init_parts-or_started keys parts r in
        (
          out,
          rw (there, init_parts, runs) refl,
          λ j. found j ∙ there_already j k (contains j keys) parts there,
        )
    | inr absent ↦
        let (p, started) = start_part_total k (r k) in
        let (out, runs, found) = init_parts-or_started keys (insert k p parts) r in
        (
          out,
          rw (absent, init_parts, started, runs) refl,
          λ j. found j ∙ started_at j k p (contains j keys) parts absent started,
        )
  ]
