-- ===== src/Timely/Balance.antt =====
-- What `calc_primaries` (src/timely.rs) makes of the partitions that the workers know.
use bytewax.Prelude.{
  ℕ, ◌+◌, ◌≤◌, ◌≡◌, ◌≢◌, ◌==◌, refl, ap, subst, ◌∙◌, Bool, true, false, some, List, [], ◌∷◌, length,
  if◌then◌else◌, arith, All, All-map, All-permᴰ, All-both, All-Any, Any, Pairs, Pairs-permᴰ,
  >>=-eq-some, ◌>>◌, assert,
}
use bytewax.Prelude.Order.Ord.{Ord, eq_refl}
use bytewax.Prelude.Order.Map.{lookup, insert, keys, lookup-insert, Ascends-insert, All-insert}
use bytewax.Prelude.Order.Map
use bytewax.Prelude.Order.Keys.{
  eq_flip, Ascends-Pairs, All-keys, contains-insert, contains-permᴰ, Ascends-keys, Ascends-ext,
}
use bytewax.Prelude.Order.Entries.{lookup-entries}
use bytewax.Prelude.Order.Set.{contains}
use bytewax.Timely.Primaries.{
  Known, Primaries, Selection, load, or_none, select, assign_all, same_keys, calc_primaries,
}

unassigned : (P : Type 0) (v u : ℕ) → load {P = P} v [] ≤ load {P = P} u [] + 1
unfolding load
unassigned P v u = omega arith

module _ {P : Type 0} ⦃o : Ord P⦄ where
  -- A worker has a partition.
  abbrev pub Has : Known P → P → ℕ → Type 0
  Has known p w = Any (λ v. v ≡ w) (or_none (lookup p known))

  -- Each of the known partitions has one primary, a worker that has it.
  pub record IsPrimary (known : Known P) (primaries : Primaries P) : Type 0 where
    pub same : keys primaries ≡ keys known
    pub ascends : Map.Ascends primaries
    pub local : All (λ e. Has known e.0 e.1) primaries

  load-insert :
      (p : P) (w v : ℕ) (m : Primaries P)
      → contains p (keys m) ≡ false
      → load v (insert p w m) ≡ (if v == w then load v m + 1 else load v m)
  unfolding load insert contains
  load-insert p w v [] fresh = refl
  load-insert p w v ((q, u) ∷ m) fresh = ground (arith, load-insert p w v m)

  -- Partitions that wait for a primary: a worker has each of them.
  abbrev Waits : Known P → P → Type 0
  Waits known p = (w : ℕ) × (ws : List ℕ) × (lookup p known ≡ some (w ∷ ws))

  Waits-of :
      (known : Known P) (p : P) (ws : List ℕ) → lookup p known ≡ some ws → ws ≢ [] → Waits known p
  Waits-of known p [] e h = absurd (h refl)
  Waits-of known p (w ∷ ws) e h = (w, ws, e)

  All-Waits :
      (known : Known P)
      → Map.Ascends known
      → All (λ e. e.1 ≢ []) known
      → All (Waits known) (keys known)
  All-Waits known up somewhere = All-keys (Waits known) known (
      All-map (λ (e : P × List ℕ). (lookup e.0 known ≡ some e.1) × (e.1 ≢ []))
        (λ e h. Waits-of known e.0 e.1 h.0 h.1) known
        (All-both _ _ known (lookup-entries known up) somewhere))

  only_parts : (k : P) (b : Bool) → (if b then true else contains k []) ≡ b
  unfolding contains
  only_parts k true = refl
  only_parts k false = refl

  none_yet : (ps : List P) → All (λ p. contains p [] ≡ false) ps
  unfolding contains
  none_yet [] = tt
  none_yet (p ∷ ps) = (refl, none_yet ps)

  asserted : (b : Bool) (m n : Primaries P) → (assert b >> some m) ≡ some n → m ≡ n
  asserted true m n e = cc e
  asserted false m n e = cc e

  -- The choices of one run of the loop.
  record Assigned (known : Known P) (parts : List P) (before after : Primaries P) : Type 0 where
    keeps : Map.Ascends before → Map.Ascends after
    local : All (λ e. Has known e.0 e.1) before → All (λ e. Has known e.0 e.1) after
    has :
        (k : P)
        → contains k (keys after) ≡ (if contains k parts then true else contains k (keys before))

  module _ (by : Selection P) (known : Known P) where
    assign_all-Assigned :
        (parts : List P) (before : Primaries P)
        → All (Waits known) parts
        → (after : Primaries P) × (assign_all by known parts before ≡ some after)
          × Assigned known parts before after
    unfolding assign_all select contains
    assign_all-Assigned [] before h =
        (before, refl, record { keeps = λ up. up; local = λ a. a; has = λ k. refl })
    assign_all-Assigned (p ∷ parts) before ((w, ws, e), h) =
        let v = by.select_first_by_key (λ u. load u before) w ws in
        let there = by.select-Any (λ u. load u before) w ws in
        let (after, runs, a) = assign_all-Assigned parts (insert p v before) h in
        (
          after,
          rw (e, runs) refl,
          record {
            keeps = λ up. a.keeps (Ascends-insert p v before up);
            local = λ l. a.local (All-insert (λ x. Has known x.0 x.1) p v before (rw e there) l);
            has = λ k. a.has k ∙ rw (contains-insert p k v before) (ground arith);
          },
        )

    same_keys_refl : (ps : List P) → same_keys ps ps ≡ true
    unfolding same_keys
    same_keys_refl [] = refl
    same_keys_refl (p ∷ ps) = rw (eq_refl p, same_keys_refl ps) refl

    -- The arrangement that the loop goes through.
    abbrev arranged : List P
    arranged = by.sort_unstable_by_key (λ p. length (or_none (lookup p known))) (keys known)

    -- Where the keys of the partitions rise and some worker has each, `calc_primaries` does not
    -- panic, and gives each partition one primary, a worker that has it.
    pub calc_primaries-IsPrimary :
        Map.Ascends known
        → All (λ e. e.1 ≢ []) known
        → (primaries : Primaries P) × (calc_primaries by known ≡ some primaries)
          × IsPrimary known primaries
    unfolding calc_primaries
    calc_primaries-IsPrimary up somewhere =
        let perm = by.sort-permᴰ (λ p. length (or_none (lookup p known))) (keys known) in
        let waits = All-permᴰ (Waits known) perm (All-Waits known up somewhere) in
        let (after, runs, a) = assign_all-Assigned arranged [] waits in
        let ascends = a.keeps tt in
        let same =
          Ascends-ext (keys after) (keys known) (Ascends-keys after ascends) (Ascends-keys known up)
            (λ k.
              a.has k ∙ rw (← contains-permᴰ k perm) (only_parts k (contains k (keys known)))) in
        (
          after,
          rw (runs, same, same_keys_refl (keys known)) refl,
          record { same = same; ascends = ascends; local = a.local tt },
        )

    -- On workers who each have every partition: the loads differ by one at most.
    abbrev pub IsBalanced : List ℕ → Primaries P → Type 0
    IsBalanced all m =
        (v u : ℕ) → Any (λ x. x ≡ v) all → Any (λ x. x ≡ u) all → load v m ≤ load u m + 1

    assign_all-IsBalanced :
        (w : ℕ) (ws : List ℕ) (parts : List P) (before after : Primaries P)
        → All (λ p. lookup p known ≡ some (w ∷ ws)) parts
        → Pairs (λ p q. o.eq p q ≡ false) parts
        → All (λ p. contains p (keys before) ≡ false) parts
        → IsBalanced (w ∷ ws) before
        → assign_all by known parts before ≡ some after
        → IsBalanced (w ∷ ws) after
    unfolding assign_all select
    assign_all-IsBalanced w ws [] before after h apart fresh even e =
        subst (IsBalanced (w ∷ ws)) (cc e) even
    assign_all-IsBalanced w ws (p ∷ parts) before after h apart fresh even e =
        let x = by.select_first_by_key (λ u. load u before) w ws in
        let least = by.select-All (λ u. load u before) w ws in
        assign_all-IsBalanced w ws parts (insert p x before) after h.1 apart.1
          (All-map (λ q. (o.eq p q ≡ false) × (contains q (keys before) ≡ false))
            (λ q a. contains-insert p q x before ∙ rw a.0 a.1) parts
            (All-both _ _ parts apart.0 fresh.1))
          (λ v u at_v at_u.
            rw (load-insert p x v before fresh.0, load-insert p x u before fresh.0)
              (ground (
                arith,
                even v u at_v at_u,
                All-Any (λ z. load x before ≤ load z before) (w ∷ ws) least at_u,
              )))
          (rw h.0 at e)

    -- Where each worker has every partition, no two workers are primary for numbers of partitions that
    -- differ by more than one.
    pub calc_primaries-IsBalanced :
        (w : ℕ) (ws : List ℕ) (primaries : Primaries P)
        → Map.Ascends known
        → All (λ e. e.1 ≡ w ∷ ws) known
        → calc_primaries by known ≡ some primaries
        → IsBalanced (w ∷ ws) primaries
    unfolding calc_primaries
    calc_primaries-IsBalanced w ws primaries up full e =
        let (after, runs, rest) = >>=-eq-some _ _ e in
        let perm = by.sort-permᴰ (λ p. length (or_none (lookup p known))) (keys known) in
        let found =
          All-keys (λ p. lookup p known ≡ some (w ∷ ws)) known
            (All-map (λ (x : P × List ℕ). (lookup x.0 known ≡ some x.1) × (x.1 ≡ w ∷ ws))
              (λ x h. h.0 ∙ ap some h.1) known
              (All-both _ _ known (lookup-entries known up) full)) in
        subst (IsBalanced (w ∷ ws)) (asserted _ after primaries rest) (
          assign_all-IsBalanced w ws arranged [] after
            (All-permᴰ (λ p. lookup p known ≡ some (w ∷ ws)) perm found)
            (Pairs-permᴰ (λ p q. o.eq p q ≡ false) (λ p q. eq_flip p q) perm
              (Ascends-Pairs (keys known) (Ascends-keys known up)))
            (none_yet arranged) (λ v u at_v at_u. unassigned P v u) runs)
