-- ===== src/Examples/Primaries.antt =====
-- Three partitions and two workers, and what the operators of src/timely.rs do with them.
use bytewax.Prelude.{
  inl, inr, ℕ, ◌+◌, ◌≤◌, ◌≡◌, ◌==◌, ◌<◌, refl, Option, none, some, List, [], ◌∷◌, map,
  if◌then◌else◌, arith, All, length, filter, ltb, not,
}
use bytewax.Prelude.Order.Ord.{ℕ_ord}
use bytewax.Prelude.Order.Map.{lookup, insert}
use bytewax.Timely.Primaries.{
  Known, Primaries, load, select, assign_all, same_keys, calc_primaries, is_at, changes,
}
use bytewax.Timely.Parts.{has_key, update_parts, LoadPartEntry}
use bytewax.Timely.Balance.{IsPrimary, calc_primaries-IsPrimary, calc_primaries-IsBalanced}
use bytewax.Timely.Routing.{label_items, route_items, insert_routes}
use bytewax.Timely.Assignment.{insert_routes-changes, update_parts-changes}
use bytewax.Timely.Delivery.{IsDelivered, partition_route-IsDelivered}
use bytewax.Timely.Notificator.{for_each}
use bytewax.Timely.Rounds.{work, work_at, for_each-work}
use bytewax.Examples.Arrange.{by_load, sort, least, put}

-- Partition 1 is on one worker only.
abbrev pub known : Known ℕ
known = (1, 0 ∷ []) ∷ (2, 0 ∷ 1 ∷ []) ∷ (3, 0 ∷ 1 ∷ []) ∷ []

calc_primaries-IsPrimary_example :
    (primaries : Primaries ℕ) × (calc_primaries by_load known ≡ some primaries)
    × IsPrimary known primaries
calc_primaries-IsPrimary_example =
    calc_primaries-IsPrimary by_load known ((refl, (refl, tt)), ((refl, tt), (tt, tt)))
      ((λ e. cc e), ((λ e. cc e), ((λ e. cc e), tt)))

abbrev pub shared : Known ℕ
shared = (1, 0 ∷ 1 ∷ []) ∷ (2, 0 ∷ 1 ∷ []) ∷ (3, 0 ∷ 1 ∷ []) ∷ []

abbrev pub assigned : Primaries ℕ
assigned = (1, 0) ∷ (2, 1) ∷ (3, 0) ∷ []

shared-assigned : calc_primaries by_load shared ≡ some assigned
unfolding calc_primaries assign_all select least sort put load insert lookup same_keys
shared-assigned = refl

calc_primaries-IsBalanced_example : load 1 assigned ≤ load 0 assigned + 1
calc_primaries-IsBalanced_example =
    calc_primaries-IsBalanced by_load shared 0 (1 ∷ []) assigned
      ((refl, (refl, tt)), ((refl, tt), (tt, tt))) (refl, (refl, (refl, tt))) shared-assigned 1 0
      (inr (inl refl)) (inl refl)

-- Partition 2 moves from worker 0 to worker 1, and partition 3 is new.
abbrev pub old : Primaries ℕ
old = (1, 0) ∷ (2, 0) ∷ []

abbrev pub new : Primaries ℕ
new = (1, 0) ∷ (2, 1) ∷ (3, 0) ∷ []

old_covered : (k : ℕ) → lookup k new ≡ none → lookup k old ≡ none
unfolding lookup
old_covered k = ground arith

insert_routes-changes_example : lookup 2 (insert_routes old (changes old new)) ≡ lookup 2 new
insert_routes-changes_example =
    insert_routes-changes old new 2 ((refl, (refl, tt)), ((refl, tt), (tt, tt))) old_covered

abbrev pub held : List (ℕ × ℕ)
held = (1, 100) ∷ (2, 100) ∷ []

held_by_0 : (k : ℕ) → has_key k held ≡ is_at (lookup k old) 0
unfolding has_key lookup
held_by_0 k = ground arith

update_parts-changes_example :
    has_key 2 (update_parts (λ (p : ℕ). 200) 0 (changes old new) held) ≡ is_at (lookup 2 new) 0
update_parts-changes_example =
    update_parts-changes (λ (p : ℕ). 200) 0 old new held
      ((refl, (refl, tt)), ((refl, tt), (tt, tt))) old_covered held_by_0 2

-- Two partitions that are read, the later of them with one item left.
abbrev pub reading : List (LoadPartEntry ℕ (List ℕ))
reading =
    record { cap = 1; key = 1; part = 10 ∷ [] } ∷ record { cap = 4; key = 2; part = 20 ∷ [] } ∷ []

abbrev pub one_batch : List ℕ → Option (List ℕ × List ℕ)
one_batch [] = none
one_batch (i ∷ is) = some (is, i ∷ [])

-- What each of two workers holds.
abbrev pub holding : ℕ → List (ℕ × ℕ)
holding w = if w == 0 then (1, 100) ∷ [] else if w == 1 then (2, 100) ∷ [] else []

abbrev pub both : Primaries ℕ
both = (1, 0) ∷ (2, 1) ∷ []

holding-both : (w k : ℕ) → has_key k (holding w) ≡ is_at (lookup k both) w
unfolding has_key lookup
holding-both w k = ground arith

abbrev pub items : List (ℕ × ℕ)
items = (4, 40) ∷ (7, 70) ∷ []

two : 0 < length {A = ℕ} (1 ∷ 2 ∷ [])
two = omega arith

primary_1 : lookup 1 both ≡ some 0
unfolding lookup
primary_1 = refl

primary_2 : lookup 2 both ≡ some 1
unfolding lookup
primary_2 = refl

partition_route-IsDelivered_example :
    (labelled : List (ℕ × (ℕ × ℕ))) × (routed : List (ℕ × (ℕ × (ℕ × ℕ)))) × (label_items
        (λ k. k)
        (1 ∷ 2 ∷ [])
        items
      ≡ some labelled)
    × (route_items both labelled ≡ some routed)
    × (map (λ r. r.1.1) routed ≡ items)
    × All (IsDelivered (λ k. k) (1 ∷ 2 ∷ []) both holding) routed
partition_route-IsDelivered_example =
    partition_route-IsDelivered (λ k. k) (1 ∷ 2 ∷ []) both holding items two
      ((0, primary_1), ((1, primary_2), tt)) holding-both

-- Logics that log the epochs.
abbrev pub log_eager : ℕ → List ℕ × ℕ → List ℕ × ℕ
log_eager epoch (log, n) = (epoch ∷ log, n)

abbrev pub log_close : ℕ → List ℕ × ℕ → List ℕ × ℕ
log_close epoch (log, n) = (log, n + 1)

for_each-work_example :
    let closed = filter (λ e. ltb e 4) (2 ∷ 4 ∷ []) in
    let rest = filter (λ e. not (ltb e 4)) (2 ∷ 4 ∷ []) in
    let done = work_at log_eager log_close 4 rest (work log_eager log_close closed ([], 0)) in
    for_each
      (λ e s. some (log_eager e s))
      (λ e s. some (log_close e s))
      (some 4)
      (record { caps_state = some (record { cap = 1; state = [] }); queue = 2 ∷ 4 ∷ [] })
      0
    ≡ some (record { caps_state = some (record { cap = 4; state = done.0 }); queue = rest }, done.1)
for_each-work_example =
    for_each-work log_eager log_close 4 (2 ∷ 4 ∷ []) (record { cap = 1; state = [] }) 0
      ((refl, tt), (tt, tt)) (omega arith) (omega arith)
