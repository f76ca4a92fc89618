-- ===== src/Stateful/Scheduled.antt =====
-- The scheduled notifications of the `unary` operator have their logics (src/operators/mod.rs).
use mathlib.Core.Bool.{false≢true}
use bytewax.Prelude.{
  ◌≡◌, refl, sym, ap, ◌∙◌, Bool, true, false, Option, none, some, List, [], ◌∷◌, if◌then◌else◌,
  arith, Option-cases, ◌⊎◌, inl, inr,
}
use bytewax.Prelude.Order.Ord.{Ord, ℕ_ord}
use bytewax.Prelude.Order.Map.{
  lookup, insert, remove, lookup-insert, lookup-remove, Ascends, Ascends-insert, Ascends-remove,
}
use bytewax.Window.Types.{DateTime}
use bytewax.Timely.Parts.{has_key}
use bytewax.Stateful.Unary.{
  UnaryState, IsComplete, retains, discards, settle, remove_keys, set_sched,
}

abbrev pub is_some : {L : Type 0} → Option L → Bool
is_some none = false
is_some (some l) = true

insert_at :
    {L : Type 0} (b : Bool) (v : L) (x : Option L)
    → is_some (if b then some v else x) ≡ (if b then true else is_some x)
insert_at true v x = refl
insert_at false v x = refl

pub either_at :
    {L : Type 0} (b : Bool) (v w : L) (x y : Option L)
    → is_some x ≡ is_some y
    → is_some (if b then some v else x) ≡ is_some (if b then some w else y)
either_at true v w x y same = refl
either_at false v w x y same = same

remove_at :
    {L : Type 0} (b : Bool) (x : Option L)
    → is_some (if b then none else x) ≡ (if b then false else is_some x)
remove_at true x = refl
remove_at false x = refl

module _ {K L : Type 0} ⦃o : Ord K⦄ where
  pub has_key-insert :
      (k j : K) (v : L) (m : List (K × L))
      → has_key j (insert k v m) ≡ (if o.eq k j then true else has_key j m)
  unfolding has_key
  has_key-insert k j v m = ap is_some (lookup-insert k j v m) ∙ insert_at (o.eq k j) v (lookup j m)

  has_key-remove :
      (k j : K) (m : List (K × L))
      → has_key j (remove k m) ≡ (if o.eq k j then false else has_key j m)
  unfolding has_key
  has_key-remove k j m = ap is_some (lookup-remove k j m) ∙ remove_at (o.eq k j) (lookup j m)

  pub found : (k : K) (m : List (K × L)) → has_key k m ≡ true → (l : L) × (lookup k m ≡ some l)
  unfolding has_key
  found k m h = elim (Option-cases (lookup k m)) [
    | inl e ↦ absurd (false≢true (sym (ap is_some e) ∙ h))
    | inr e ↦ e
  ]

module _ {K L : Type 0} ⦃o : Ord K⦄ where
  -- Each scheduled key has a logic, and the schedule is a map.
  abbrev pub Scheduled : List (K × L) → List (K × DateTime) → Type 0
  Scheduled logics sched =
      Ascends sched × ((k : K) → has_key k sched ≡ true → has_key k logics ≡ true)

  pub drop_both :
      (key : K) (logics : List (K × L)) (sched : List (K × DateTime))
      → Scheduled logics sched
      → Scheduled (remove key logics) (remove key sched)
  drop_both key logics sched (up, h) = (
    Ascends-remove key sched up,
    λ k there. ground (arith, has_key-remove key k sched, has_key-remove key k logics, h k, there),
  )

  pub add_logic :
      (key : K) (l : L) (logics : List (K × L)) (sched : List (K × DateTime))
      → Scheduled logics sched
      → Scheduled (insert key l logics) sched
  add_logic key l logics sched (up, h) =
      (up, λ k there. ground (arith, has_key-insert key k l logics, h k, there))

  pub drop_sched :
      (key : K) (logics : List (K × L)) (sched : List (K × DateTime))
      → Scheduled logics sched
      → Scheduled logics (remove key sched)
  drop_sched key logics sched (up, h) = (
    Ascends-remove key sched up,
    λ k there. ground (arith, has_key-remove key k sched, h k, there),
  )

  pub add_sched :
      (key : K) (t : Option DateTime) (logics : List (K × L)) (sched : List (K × DateTime))
      → (t ≡ none) ⊎ (has_key key logics ≡ true)
      → Scheduled logics sched
      → Scheduled logics (set_sched key t sched)
  add_sched key none logics sched here h = h
  add_sched key (some t) logics sched (inl e) h = cc e
  add_sched key (some t) logics sched (inr here) (up, h) = (
    Ascends-insert key t sched up,
    λ k there. ground (arith, has_key-insert key k t sched, h k, there, o.eq_iff key k, here),
  )

  abbrev pub IsScheduled : UnaryState K L → Type 0
  IsScheduled s = Scheduled s.logics s.sched_cache

  pub settle-IsScheduled :
      (key : K) (l : L) (c : IsComplete) (sched : List (K × DateTime)) (s : UnaryState K L)
      → IsScheduled s
      → Scheduled s.logics sched
      → IsScheduled (settle key l c sched s)
  unfolding settle
  settle-IsScheduled key l retains sched s h g = add_logic key l s.logics sched g
  settle-IsScheduled key l discards sched s h g = drop_both key s.logics s.sched_cache h

  pub settle-keeps :
      (key : K) (l : L) (c : IsComplete) (sched : List (K × DateTime)) (s : UnaryState K L) (j : K)
      → o.eq key j ≡ false
      → has_key j s.logics ≡ true
      → has_key j (settle key l c sched s).logics ≡ true
  unfolding settle
  settle-keeps key l retains sched s j apart h =
      ground (arith, has_key-insert key j l s.logics, apart, h)
  settle-keeps key l discards sched s j apart h =
      ground (arith, has_key-remove key j s.logics, apart, h)

  pub remove_keys-IsScheduled :
      (keys : List K) (s : UnaryState K L) → IsScheduled s → IsScheduled (remove_keys keys s)
  unfolding remove_keys
  remove_keys-IsScheduled [] s h = h
  remove_keys-IsScheduled (key ∷ keys) s h =
      remove_keys-IsScheduled keys
        (record s { logics = remove key s.logics; sched_cache = remove key s.sched_cache })
        (drop_both key s.logics s.sched_cache h)
