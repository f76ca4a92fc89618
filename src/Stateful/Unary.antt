-- ===== src/Stateful/Unary.antt =====
-- The `unary` operator (src/operators/mod.rs): one epoch of an activation. The user's logic is an
-- argument, and so are the worker and the system time. A value `none` is a panic.
use bytewax.Prelude.{
  ℕ, Bool, true, false, not, Option, none, some, List, [], ◌∷◌, ◌++◌, map, filter, ◌>>=◌, ltb_ℤ,
  leb, if◌then◌else◌,
}
use bytewax.Prelude.Order.Ord.{Ord, ℕ_ord}
use bytewax.Prelude.Order.Map.{lookup, insert, remove}
use bytewax.Prelude.Order.Set
use bytewax.Window.Types.{DateTime}
use bytewax.Recovery.Change.{StateChange, upsert, discard}
use bytewax.Stateful.Defs.{is_closed, is_eof, or_else, unroute}

pub data IsComplete : Type 0 where
  retains discards : IsComplete

-- `UnaryLogic` with its builder: what a callback emits and whether the logic is complete.
pub record UnaryLogic (V R L S : Type 0) : Type 0 where
  pub builder : DateTime → Option S → L
  pub on_item : DateTime → V → L → L × List R × IsComplete
  pub on_notify : DateTime → L → L × List R × IsComplete
  pub on_eof : L → L × List R × IsComplete
  pub notify_at : L → Option DateTime
  pub snapshot : L → S

pub record UnaryState (K L : Type 0) : Type 0 where
  pub logics : List (K × L)
  pub sched_cache : List (K × DateTime)
  pub awoken_keys_buffer : List K

module _ {K L : Type 0} ⦃o : Ord K⦄ where
  -- A logic after a callback, with what is scheduled for its key then, and the key awoken.
  unfoldable pub settle : K → L → IsComplete → List (K × DateTime) → UnaryState K L → UnaryState K L
  settle key l retains sched_cache s = record {
    logics = insert key l s.logics;
    sched_cache = sched_cache;
    awoken_keys_buffer = Set.insert key s.awoken_keys_buffer;
  }
  settle key l discards sched_cache s = record {
    logics = remove key s.logics;
    sched_cache = remove key s.sched_cache;
    awoken_keys_buffer = Set.insert key s.awoken_keys_buffer;
  }

  unfoldable pub remove_keys : List K → UnaryState K L → UnaryState K L
  remove_keys [] s = s
  remove_keys (key ∷ keys) s =
      remove_keys keys
        (record s { logics = remove key s.logics; sched_cache = remove key s.sched_cache })

module _ {K : Type 0} ⦃o : Ord K⦄ where
  -- The next notification of a key, where it has a logic that asks for one.
  abbrev pub set_sched : K → Option DateTime → List (K × DateTime) → List (K × DateTime)
  set_sched key none sched_cache = sched_cache
  set_sched key (some t) sched_cache = insert key t sched_cache

-- The keys whose notification is due.
unfoldable pub notify_keys : {K : Type 0} → DateTime → List (K × DateTime) → List (K × DateTime)
notify_keys {K} now sched_cache = filter (λ (e : K × DateTime). not (ltb_ℤ now e.1)) sched_cache

module _ {V R L S : Type 0} (logic : UnaryLogic V R L S) where
  abbrev pub or_build : DateTime → Option L → L
  or_build now none = logic.builder now none
  or_build now (some l) = l

  abbrev pub notify_of : Option L → Option DateTime
  notify_of none = none
  notify_of (some l) = logic.notify_at l

  abbrev pub change_of : Option L → StateChange S
  change_of none = discard
  change_of (some l) = upsert (logic.snapshot l)

module _ {K V R L S : Type 0} ⦃o : Ord K⦄ (logic : UnaryLogic V R L S) (now : DateTime) where
  unfoldable pub item_one : K → V → UnaryState K L → UnaryState K L × List (K × R)
  unfolding settle
  item_one key value s =
      let (l, output, is_complete) =
        logic.on_item now value (or_build logic now (lookup key s.logics)) in
      (settle key l is_complete s.sched_cache s, map (λ r. (key, r)) output)

  unfoldable pub item_all : List (K × V) → UnaryState K L → UnaryState K L × List (K × R)
  unfolding item_one
  item_all [] s = (s, [])
  item_all ((key, value) ∷ items) s =
      let (s₁, output) = item_one key value s in
      let (s₂, later) = item_all items s₁ in (s₂, output ++ later)

  unfoldable pub notify_one : K → DateTime → UnaryState K L → Option (UnaryState K L × List (K × R))
  unfolding settle
  notify_one key sched s = do
    found ← lookup key s.logics
    let (l, output, is_complete) = logic.on_notify sched found
    some (settle key l is_complete (remove key s.sched_cache) s, map (λ r. (key, r)) output)

  unfoldable pub notify_all :
      List (K × DateTime) → UnaryState K L → Option (UnaryState K L × List (K × R))
  unfolding notify_one
  notify_all [] s = some (s, [])
  notify_all ((key, sched) ∷ due) s = do
    (s₁, output) ← notify_one key sched s
    (s₂, later) ← notify_all due s₁
    some (s₂, output ++ later)

  -- `on_eof` of every logic: the logics afterwards, what is emitted, and the keys to discard.
  unfoldable pub eof_all : List (K × L) → List (K × L) × List (K × R) × List K
  eof_all [] = ([], [], [])
  eof_all ((key, found) ∷ logics) =
      let (l, output, is_complete) = logic.on_eof found in
      let (after, later, discarded) = eof_all logics in
      (
        (key, l) ∷ after,
        map (λ r. (key, r)) output ++ later,
        elim is_complete [ retains ↦ discarded | discards ↦ key ∷ discarded ],
      )

  unfoldable pub eof_logics : Bool → UnaryState K L → UnaryState K L × List (K × R)
  unfolding eof_all remove_keys
  eof_logics false s = (s, [])
  eof_logics true s =
      let (after, output, discarded) = eof_all s.logics in
      (
        remove_keys discarded (record {
          logics = after;
          sched_cache = s.sched_cache;
          awoken_keys_buffer = Set.extend s.awoken_keys_buffer (map (λ (e : K × L). e.0) s.logics);
        }),
        output,
      )

  unfoldable pub reschedule : List K → List (K × L) → List (K × DateTime) → List (K × DateTime)
  reschedule [] logics sched_cache = sched_cache
  reschedule (key ∷ awoken) logics sched_cache =
      reschedule awoken logics (set_sched key (notify_of logic (lookup key logics)) sched_cache)

  unfoldable pub load_key : K → StateChange S → UnaryState K L → UnaryState K L
  load_key key (upsert state) s =
      let l = logic.builder now (some state) in
      record s {
        logics = insert key l s.logics;
        sched_cache = set_sched key (logic.notify_at l) s.sched_cache;
      }
  load_key key discard s = record s {
    logics = remove key s.logics;
    sched_cache = remove key s.sched_cache;
  }

  unfoldable pub load_keys : List (K × StateChange S) → UnaryState K L → UnaryState K L
  unfolding load_key
  load_keys [] s = s
  load_keys ((key, change) ∷ loads) s = load_keys loads (load_key key change s)

  -- The end of an epoch that is closed.
  unfoldable pub finish_epoch :
      List (K × StateChange S) → UnaryState K L → UnaryState K L × List (K × StateChange S)
  unfolding load_keys
  finish_epoch loads s = (
    load_keys loads (record s { awoken_keys_buffer = [] }),
    map (λ key. (key, change_of logic (lookup key s.logics))) s.awoken_keys_buffer,
  )

  -- The body of the loop over the epochs: the items and the loads of the epoch come from the buffers.
  unfoldable pub run_epoch :
      ℕ
      → Option ℕ
      → ℕ
      → List (ℕ × (K × V))
      → List (ℕ × (K × StateChange S))
      → UnaryState K L
      → Option (UnaryState K L × List (K × R) × List (K × StateChange S))
  unfolding item_all notify_all notify_keys eof_logics reschedule finish_epoch
  run_epoch this_worker frontier epoch items loads s = do
    ours ← unroute this_worker items
    let (s₁, on_items) = item_all ours s
    (s₂, on_notifies) ← notify_all (notify_keys now s₁.sched_cache) s₁
    let (s₃, on_eofs) = eof_logics (is_eof frontier) s₂
    let s₄ : UnaryState K L = record s₃ {
      sched_cache = reschedule s₃.awoken_keys_buffer s₃.logics s₃.sched_cache;
    }
    let output = on_items ++ on_notifies ++ on_eofs
    elim (is_closed frontier epoch) [
      | true ↦ do
        loading ← unroute this_worker loads
        let (s₅, changes) = finish_epoch loading s₄
        some (s₅, output, changes)
      | false ↦ some (s₄, output, [])
    ]

-- `process_epochs`: the last epoch and those of the buffers, as far as they are closed, and the
-- frontier.
unfoldable pub process_epochs : Option ℕ → ℕ → ℕ → List ℕ → List ℕ → List ℕ
process_epochs frontier resume_epoch last_output_epoch input_epochs load_epochs =
    let frontier_epoch = or_else last_output_epoch frontier in
    let all = Set.extend (Set.extend (Set.insert last_output_epoch []) input_epochs) load_epochs in
    let closed = filter (is_closed frontier) all in
    if leb resume_epoch frontier_epoch then Set.insert frontier_epoch closed else closed
