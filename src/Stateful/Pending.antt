-- ===== src/Stateful/Pending.antt =====
-- What the `unary` operator (src/operators/mod.rs) has buffered, while it works on the closed epochs.
use bytewax.Prelude.{
  ℕ, ◌≤◌, ◌≡◌, ap, ==_iff, true, false, Option, none, some, List, [], ◌∷◌, filter, if◌then◌else◌,
  arith, All, All-map, filter-passes, Bool-cases, Option-cases, inl, inr, ◌==◌,
}
use bytewax.Prelude.Order.Ord.{ℕ_ord}
use bytewax.Prelude.Order.Map.{lookup, remove, lookup-All, All-remove}
use bytewax.Prelude.Order.Set
use bytewax.Prelude.Order.Set.{contains}
use bytewax.Timely.Buffer.{InBuffer, or_empty}
use bytewax.Timely.Buffer
use bytewax.Stateful.Defs.{is_closed, or_else}
use bytewax.Stateful.Activation.{closed_epochs}
use bytewax.Stateful.Waits.{Waits, closed_epochs-each}
use bytewax.Stateful.Epochs.{contains-extend, contains-filter}

module _ {D : Type 0} (this_worker : ℕ) (frontier : Option ℕ) (epochs : List ℕ) where
  -- What waits is for this worker, and its epoch is still to be worked on, if it is closed.
  abbrev pub Pending : ℕ × List (ℕ × D) → Type 0
  Pending e =
      All (λ d. d.0 ≡ this_worker) e.1
      × (is_closed frontier e.0 ≡ true → contains e.0 epochs ≡ true)

  pub or_empty-Pending :
      (epoch : ℕ) (b : InBuffer (ℕ × D))
      → All Pending b
      → All (λ d. d.0 ≡ this_worker) (or_empty (lookup epoch b))
  or_empty-Pending epoch b h = elim (Option-cases (lookup epoch b)) [
    | inl e ↦ rw e tt
    | inr (ds, e) ↦ rw e ((lookup-All Pending epoch b h ds e).0)
  ]

later :
    (frontier : Option ℕ) (floor e : ℕ)
    → floor ≤ e
    → (is_closed frontier e ≡ true → contains e [] ≡ true)
    → or_else floor frontier ≤ e
unfolding contains
later none floor e from left = from
later (some f) floor e from left = ground (arith, left)

module _ {D : Type 0} (this_worker : ℕ) (frontier : Option ℕ) where
  pub remove-Pending :
      (epoch : ℕ) (epochs : List ℕ) (b : InBuffer (ℕ × D))
      → All (Pending this_worker frontier (epoch ∷ epochs)) b
      → All (Pending this_worker frontier epochs) (remove epoch b)
  unfolding remove contains
  remove-Pending epoch epochs [] h = tt
  remove-Pending epoch epochs ((e, ds) ∷ b) h =
      let rest = remove-Pending epoch epochs b h.1 in
      elim (Bool-cases (e == epoch)) [
        | inl same ↦ rw same rest
        | inr other ↦
            rw other ((h.0.0, λ closed. ground (arith, h.0.1 closed, other, ==_iff e epoch)), rest)
      ]

  keep-Pending :
      (epoch : ℕ) (epochs : List ℕ) (b : InBuffer (ℕ × D))
      → is_closed frontier epoch ≡ false
      → All (Pending this_worker frontier (epoch ∷ epochs)) b
      → All (Pending this_worker frontier epochs) b
  unfolding contains
  keep-Pending epoch epochs b going =
      All-map (Pending this_worker frontier (epoch ∷ epochs))
        (λ e h. (
          h.0,
          λ closed. elim (Bool-cases (epoch == e.0)) [
            | inl same ↦
                absurd (cc (going, closed, ap (is_closed frontier) ((==_iff epoch e.0).0 same)))
            | inr other ↦ ground (arith, h.1 closed, other)
          ],
        ))
        b

  pub after-Pending :
      (floor epoch : ℕ) (epochs : List ℕ) (b : InBuffer (ℕ × D))
      → All (Pending this_worker frontier (epoch ∷ epochs)) b
      → All (λ (e : ℕ × List (ℕ × D)). floor ≤ e.0) b
      → All
          (Pending this_worker frontier epochs)
          (if is_closed frontier epoch then remove epoch b else b)
        × All
            (λ (e : ℕ × List (ℕ × D)). floor ≤ e.0)
            (if is_closed frontier epoch then remove epoch b else b)
  after-Pending floor epoch epochs b h from = elim (Bool-cases (is_closed frontier epoch)) [
    | inl closed ↦
        rw closed (remove-Pending epoch epochs b h, All-remove (λ e. floor ≤ e.0) epoch b from)
    | inr going ↦ rw going (keep-Pending epoch epochs b going h, from)
  ]

  -- What is left is at the frontier or later.
  pub Pending-Waits :
      (floor : ℕ) (b : InBuffer (ℕ × D))
      → All (λ (e : ℕ × List (ℕ × D)). floor ≤ e.0) b
      → All (Pending this_worker frontier []) b
      → All (Waits this_worker (or_else floor frontier)) b
  Pending-Waits floor [] h g = tt
  Pending-Waits floor (e ∷ b) h g =
      ((later frontier floor e.0 h.0 g.0.1, g.0.0), Pending-Waits floor b h.1 g.1)

  pub Waits-Pending :
      (cap : ℕ) (epochs : List ℕ) (b : InBuffer (ℕ × D))
      → ((e : ℕ)
          → is_closed frontier e ≡ true
          → contains e (Buffer.epochs b) ≡ true
          → contains e epochs ≡ true)
      → All (Waits this_worker cap) b
      → All (Pending this_worker frontier epochs) b
  unfolding contains Buffer.epochs
  Waits-Pending cap epochs [] into h = tt
  Waits-Pending cap epochs ((e, ds) ∷ b) into h = (
    (h.0.1, λ closed. into e closed (ground (arith, ==_iff e e))),
    Waits-Pending cap epochs b (λ j closed there. into j closed (ground (arith, there))) h.1,
  )

-- A closed epoch with items or loads is one to work on.
pub contains-closed_epochs :
    (frontier : Option ℕ) (resume_epoch last : ℕ) (input_epochs load_epochs : List ℕ) (e : ℕ)
    → is_closed frontier e ≡ true
    → (if contains e input_epochs then true else contains e load_epochs) ≡ true
    → contains e (closed_epochs frontier resume_epoch last input_epochs load_epochs) ≡ true
unfolding closed_epochs
contains-closed_epochs frontier resume_epoch last input_epochs load_epochs e closed there =
    let p = is_closed frontier in
    let from = if p last then last ∷ [] else [] in
    let inputs = Set.extend from (filter p input_epochs) in
    let all = Set.extend inputs (filter p load_epochs) in
    ground (
      arith,
      closed,
      there,
      Set.contains-insert (or_else last frontier) e all,
      contains-extend e inputs (filter p load_epochs),
      contains-extend e from (filter p input_epochs),
      contains-filter p e input_epochs,
      contains-filter p e load_epochs,
    )

-- Not after the frontier.
abbrev pub Below : Option ℕ → ℕ → Type 0
Below none e = Unit
Below (some f) e = e ≤ f

closed-Below : (frontier : Option ℕ) (e : ℕ) → is_closed frontier e ≡ true → Below frontier e
closed-Below none e closed = tt
closed-Below (some f) e closed = ground (arith, closed)

or_else-Below : (frontier : Option ℕ) (e : ℕ) → Below frontier (or_else e frontier)
or_else-Below none e = tt
or_else-Below (some f) e = omega arith

pub closed_epochs-Below :
    (frontier : Option ℕ) (resume_epoch last : ℕ) (input_epochs load_epochs : List ℕ)
    → All (Below frontier) (closed_epochs frontier resume_epoch last input_epochs load_epochs)
closed_epochs-Below frontier resume_epoch last input_epochs load_epochs =
    let within = All-map (λ e. is_closed frontier e ≡ true) (closed-Below frontier) in
    closed_epochs-each (Below frontier) frontier resume_epoch last input_epochs load_epochs
      (or_else-Below frontier last) (closed-Below frontier last)
      (within (filter (is_closed frontier) input_epochs)
        (filter-passes (is_closed frontier) input_epochs))
      (within (filter (is_closed frontier) load_epochs)
        (filter-passes (is_closed frontier) load_epochs))
