-- ===== src/Stateful/Callbacks.antt =====
-- The callbacks of the `unary` operator (src/operators/mod.rs) and the scheduled notifications.
use bytewax.Prelude.{
  ◌≡◌, refl, ap, ◌∙◌, Bool, true, false, not, Option, none, some, List, [], ◌∷◌, ◌++◌, map, ltb_ℤ,
  All, All-map, All-both, All-filter, Pairs, Pairs-filter, ◌⊎◌, inl, inr,
}
use bytewax.Prelude.Order.Ord.{Ord, ℕ_ord, eq_of_lt, eq_refl}
use bytewax.Prelude.Order.Map.{lookup, insert, remove, Ascends}
use bytewax.Prelude.Order.Entries.{lookup-entries}
use bytewax.Prelude.Order.Set
use bytewax.Window.Types.{DateTime}
use bytewax.Timely.Parts.{has_key}
use bytewax.Recovery.Change.{StateChange, upsert, discard}
use bytewax.Stateful.Unary.{
  UnaryLogic, UnaryState, settle, notify_keys, set_sched, notify_of, item_one, item_all, notify_one,
  notify_all, eof_all, eof_logics, reschedule, load_key, load_keys,
}
use bytewax.Stateful.Scheduled.{
  is_some, either_at, has_key-insert, found, drop_both, add_logic, drop_sched, add_sched,
  settle-IsScheduled, settle-keeps, remove_keys-IsScheduled, Scheduled, IsScheduled,
}

module _ {K V R L S : Type 0} ⦃o : Ord K⦄ (logic : UnaryLogic V R L S) (now : DateTime) where
  pub item_all-IsScheduled :
      (items : List (K × V)) (s : UnaryState K L)
      → IsScheduled s
      → IsScheduled (item_all logic now items s).0
  unfolding item_all item_one
  item_all-IsScheduled [] s h = h
  item_all-IsScheduled ((key, value) ∷ items) s h =
      item_all-IsScheduled items (item_one logic now key value s).0
        (settle-IsScheduled key _ _ s.sched_cache s h h)

  -- What is due is of different keys, each with a logic.
  abbrev pub Due : List (K × DateTime) → List (K × L) → Type 0
  Due due logics =
      Pairs (λ e f. o.eq e.0 f.0 ≡ false) due × All (λ e. has_key e.0 logics ≡ true) due

  pub notify_all-IsScheduled :
      (due : List (K × DateTime)) (s : UnaryState K L)
      → IsScheduled s
      → Due due s.logics
      → (out : UnaryState K L × List (K × R)) × (notify_all logic now due s ≡ some out)
        × IsScheduled out.0
  unfolding notify_all notify_one
  notify_all-IsScheduled [] s h due = ((s, []), refl, h)
  notify_all-IsScheduled ((key, sched) ∷ rest) s h (apart, there) =
      let (l, at) = found key s.logics there.0 in
      let (l', output, c) = logic.on_notify sched l in
      let next = settle key l' c (remove key s.sched_cache) s in
      let (out, runs, h') =
        notify_all-IsScheduled rest next
          (settle-IsScheduled key l' c (remove key s.sched_cache) s h
            (drop_sched key s.logics s.sched_cache h))
          (
            apart.1,
            All-map (λ e. (o.eq key e.0 ≡ false) × (has_key e.0 s.logics ≡ true))
                (λ e g. settle-keeps key l' c (remove key s.sched_cache) s e.0 g.0 g.1) rest
                (All-both (λ e. o.eq key e.0 ≡ false) (λ e. has_key e.0 s.logics ≡ true) rest
                  apart.0 there.1),
          ) in
      ((out.0, map (λ r. (key, r)) output ++ out.1), rw (at, runs) refl, h')

  Pairs-apart :
      (sched : List (K × DateTime)) → Ascends sched → Pairs (λ e f. o.eq e.0 f.0 ≡ false) sched
  Pairs-apart [] up = tt
  Pairs-apart (e ∷ sched) up = (
    All-map (λ f. o.lt e.0 f.0 ≡ true) (λ f lt. eq_of_lt e.0 f.0 lt) sched up.0,
    Pairs-apart sched up.1,
  )

  pub notify_keys-Due :
      (logics : List (K × L)) (sched : List (K × DateTime))
      → Scheduled logics sched
      → Due (notify_keys now sched) logics
  unfolding notify_keys has_key
  notify_keys-Due logics sched (up, h) =
      let p = λ (e : K × DateTime). not (ltb_ℤ now e.1) in
      (
        Pairs-filter p (λ e f. o.eq e.0 f.0 ≡ false) sched (Pairs-apart sched up),
        All-filter p (λ e. has_key e.0 logics ≡ true) sched
            (All-map (λ e. lookup e.0 sched ≡ some e.1) (λ e at. h e.0 (ap is_some at)) sched
              (lookup-entries sched up)),
      )

  eof_all-has_key :
      (k : K) (logics : List (K × L)) → has_key k (eof_all logic now logics).0 ≡ has_key k logics
  unfolding eof_all has_key lookup
  eof_all-has_key k [] = refl
  eof_all-has_key k ((key, l) ∷ logics) =
      either_at (o.eq key k) (logic.on_eof l).0 l (lookup k (eof_all logic now logics).0)
        (lookup k logics) (eof_all-has_key k logics)

  pub eof_logics-IsScheduled :
      (eof : Bool) (s : UnaryState K L) → IsScheduled s → IsScheduled (eof_logics logic now eof s).0
  unfolding eof_logics
  eof_logics-IsScheduled false s h = h
  eof_logics-IsScheduled true s (up, h) =
      let after = eof_all logic now s.logics in
      remove_keys-IsScheduled after.2
        (record {
          logics = after.0;
          sched_cache = s.sched_cache;
          awoken_keys_buffer = Set.extend s.awoken_keys_buffer (map (λ (e : K × L). e.0) s.logics);
        })
        (up, λ k there. eof_all-has_key k s.logics ∙ h k there)

  pub reschedule-Scheduled :
      (awoken : List K) (logics : List (K × L)) (sched : List (K × DateTime))
      → Scheduled logics sched
      → Scheduled logics (reschedule logic now awoken logics sched)
  unfolding reschedule has_key
  reschedule-Scheduled [] logics sched h = h
  reschedule-Scheduled (key ∷ awoken) logics sched h =
      reschedule-Scheduled awoken logics (set_sched key (notify_of logic (lookup key logics)) sched)
        (add_sched key (notify_of logic (lookup key logics)) logics sched
          (asked (lookup key logics)) h)
    where
      asked : (x : Option L) → (notify_of logic x ≡ none) ⊎ (is_some x ≡ true)
      asked none = inl refl
      asked (some l) = inr refl

  pub load_keys-IsScheduled :
      (loads : List (K × StateChange S)) (s : UnaryState K L)
      → IsScheduled s
      → IsScheduled (load_keys logic now loads s)
  unfolding load_keys load_key
  load_keys-IsScheduled [] s h = h
  load_keys-IsScheduled ((key, upsert state) ∷ loads) s h =
      let l = logic.builder now (some state) in
      load_keys-IsScheduled loads
        (record s {
          logics = insert key l s.logics;
          sched_cache = set_sched key (logic.notify_at l) s.sched_cache;
        })
        (add_sched key (logic.notify_at l) (insert key l s.logics) s.sched_cache
          (inr (has_key-insert key key l s.logics ∙ rw (eq_refl key) refl))
          (add_logic key l s.logics s.sched_cache h))
  load_keys-IsScheduled ((key, discard) ∷ loads) s h =
      load_keys-IsScheduled loads
        (record s { logics = remove key s.logics; sched_cache = remove key s.sched_cache })
        (drop_both key s.logics s.sched_cache h)
