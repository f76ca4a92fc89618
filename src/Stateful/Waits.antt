-- ===== src/Stateful/Waits.antt =====
-- What waits in the buffers of the stateful operators, and the epochs to work on
-- (src/operators/stateful_unary.rs).
use bytewax.Prelude.{
  ℕ, ◌≤◌, ◌≡◌, refl, ==_iff, leb, Bool, true, false, Option, some, List, [], ◌∷◌, ◌++◌, filter,
  if◌then◌else◌, arith, All, All-append, All-filter, Bool-cases, Option-cases, inl, inr,
}
use bytewax.Prelude.Order.Ord.{ℕ_ord}
use bytewax.Prelude.Order.Map.{lookup, lookup-All, All-insert}
use bytewax.Prelude.Order.Set
use bytewax.Timely.Buffer.{InBuffer, or_empty}
use bytewax.Timely.Buffer
use bytewax.Stateful.Defs.{is_closed, or_else, unroute}
use bytewax.Stateful.Activation.{closed_epochs}

module _ {D : Type 0} (this_worker cap : ℕ) where
  -- What waits is for this worker and not before the capability.
  abbrev pub Waits : ℕ × List (ℕ × D) → Type 0
  Waits e = (cap ≤ e.0) × All (λ d. d.0 ≡ this_worker) e.1

  pub or_empty-Waits :
      (epoch : ℕ) (b : InBuffer (ℕ × D))
      → All Waits b
      → All (λ d. d.0 ≡ this_worker) (or_empty (lookup epoch b))
  or_empty-Waits epoch b h = elim (Option-cases (lookup epoch b)) [
    | inl e ↦ rw e tt
    | inr (ds, e) ↦ rw e ((lookup-All Waits epoch b h ds e).1)
  ]

  pub extend_all-Waits :
      (arrivals b : List (ℕ × List (ℕ × D)))
      → All Waits arrivals
      → All Waits b
      → All Waits (Buffer.extend_all arrivals b)
  unfolding Buffer.extend_all Buffer.extend
  extend_all-Waits [] b a h = h
  extend_all-Waits ((epoch, incoming) ∷ rest) b a h =
      extend_all-Waits rest (Buffer.extend epoch incoming b) a.1 (
        All-insert Waits epoch (or_empty (lookup epoch b) ++ incoming) b
          (
            a.0.0,
            All-append (λ d. d.0 ≡ this_worker) (or_empty (lookup epoch b)) incoming
                (or_empty-Waits epoch b h) a.0.1,
          )
          h)

  pub keys-Waits : (b : InBuffer (ℕ × D)) → All Waits b → All (λ e. cap ≤ e) (Buffer.epochs b)
  unfolding Buffer.epochs
  keys-Waits [] h = tt
  keys-Waits (e ∷ b) h = (h.0.0, keys-Waits b h.1)

pub unroute_total :
    {D : Type 0} (this_worker : ℕ) (ds : List (ℕ × D))
    → All (λ d. d.0 ≡ this_worker) ds
    → (out : List D) × (unroute this_worker ds ≡ some out)
unfolding unroute
unroute_total this_worker [] h = ([], refl)
unroute_total this_worker ((w, d) ∷ ds) h =
    let (out, e) = unroute_total this_worker ds h.1 in
    (d ∷ out, rw ((==_iff w this_worker).1 h.0, e) refl)

pub extend-All : (P : ℕ → Type 0) (s ks : List ℕ) → All P s → All P ks → All P (Set.extend s ks)
unfolding Set.extend
extend-All P s [] h g = h
extend-All P s (k ∷ ks) h g = extend-All P (Set.insert k s) ks (Set.All-insert P k s g.0 h) g.1

one-Ascends : (b : Bool) (n : ℕ) → Set.Ascends (if b then n ∷ [] else [])
one-Ascends true n = (tt, tt)
one-Ascends false n = tt

one-All : (P : ℕ → Type 0) (b : Bool) (n : ℕ) → (b ≡ true → P n) → All P (if b then n ∷ [] else [])
one-All P true n h = (h refl, tt)
one-All P false n h = tt

-- The epochs to work on rise.
pub closed_epochs-Ascends :
    (frontier : Option ℕ) (resume_epoch last : ℕ) (input_epochs load_epochs : List ℕ)
    → Set.Ascends (closed_epochs frontier resume_epoch last input_epochs load_epochs)
unfolding closed_epochs
closed_epochs-Ascends frontier resume_epoch last input_epochs load_epochs =
    let from_last = if is_closed frontier last then last ∷ [] else [] in
    let one : Set.Ascends from_last = one-Ascends (is_closed frontier last) last in
    let inputs = Set.extend from_last (filter (is_closed frontier) input_epochs) in
    let closed = Set.extend inputs (filter (is_closed frontier) load_epochs) in
    let up =
      Set.Ascends-extend inputs (filter (is_closed frontier) load_epochs)
        (Set.Ascends-extend from_last (filter (is_closed frontier) input_epochs) one) in
    elim (Bool-cases (leb resume_epoch (or_else last frontier))) [
      | inl e ↦ rw e (Set.Ascends-insert (or_else last frontier) closed up)
      | inr e ↦ rw e up
    ]

pub closed_epochs-each :
    (P : ℕ → Type 0) (frontier : Option ℕ) (resume_epoch last : ℕ)
    (input_epochs load_epochs : List ℕ)
    → P (or_else last frontier)
    → (is_closed frontier last ≡ true → P last)
    → All P (filter (is_closed frontier) input_epochs)
    → All P (filter (is_closed frontier) load_epochs)
    → All P (closed_epochs frontier resume_epoch last input_epochs load_epochs)
unfolding closed_epochs
closed_epochs-each P frontier resume_epoch last input_epochs load_epochs at start h g =
    let from_last = if is_closed frontier last then last ∷ [] else [] in
    let one : All P from_last = one-All P (is_closed frontier last) last start in
    let inputs = Set.extend from_last (filter (is_closed frontier) input_epochs) in
    let closed = Set.extend inputs (filter (is_closed frontier) load_epochs) in
    let all =
      extend-All P inputs (filter (is_closed frontier) load_epochs)
        (extend-All P from_last (filter (is_closed frontier) input_epochs) one h) g in
    elim (Bool-cases (leb resume_epoch (or_else last frontier))) [
      | inl e ↦ rw e (Set.All-insert P (or_else last frontier) closed at all)
      | inr e ↦ rw e all
    ]

pub closed_epochs-All :
    (frontier : Option ℕ) (resume_epoch last : ℕ) (input_epochs load_epochs : List ℕ)
    → last ≤ or_else last frontier
    → All (λ e. last ≤ e) input_epochs
    → All (λ e. last ≤ e) load_epochs
    → All (λ e. last ≤ e) (closed_epochs frontier resume_epoch last input_epochs load_epochs)
closed_epochs-All frontier resume_epoch last input_epochs load_epochs le h g =
    closed_epochs-each (λ e. last ≤ e) frontier resume_epoch last input_epochs load_epochs le
      (λ closed. omega arith) (All-filter (is_closed frontier) (λ e. last ≤ e) input_epochs h)
      (All-filter (is_closed frontier) (λ e. last ≤ e) load_epochs g)
