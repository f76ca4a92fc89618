-- ===== src/Stateful/Defs.antt =====
-- The activation of `stateful_unary`. The logics, the user's code, are an argument, and so are the
-- worker and the system time. A value `none` is a panic.
use bytewax.Prelude.{
  ℕ, ◌==◌, ltb, Bool, true, false, not, Option, none, some, List, [], ◌∷◌, ◌++◌, map, filter, ◌>>=◌,
  ◌>>◌, assert, if◌then◌else◌, ltb_ℤ,
}
use bytewax.Prelude.Order.Ord.{Ord, ℕ_ord}
use bytewax.Prelude.Order.Map.{lookup, insert, remove, keys}
use bytewax.Prelude.Order.Set
use bytewax.Window.Types.{DateTime, Poll, pending, item, eof}
use bytewax.Window.Logic.Defs.{LogicFate, retain, discard}
use bytewax.Timely.Buffer.{InBuffer}
use bytewax.Timely.Buffer

-- `StatefulLogic` with its builder, over a snapshot, if any.
pub record StatefulLogic (V R L S : Type 0) : Type 0 where
  pub builder : Option S → L
  pub on_awake : L → Poll V → L × List R
  pub fate : L → LogicFate
  pub next_awake : L → Option DateTime
  pub snapshot : L → S

-- `StateChange`, with the dictionary of the logic's state and the next awakening.
pub data StateChange (S : Type 0) : Type 0 where
  upsert : S → Option DateTime → StateChange S
  discarded : StateChange S

pub record State (K L : Type 0) : Type 0 where
  pub current_logic : List (K × L)
  pub current_next_awake : List (K × DateTime)
  pub awoken_keys_buffer : List K

-- The input frontiers collapsed: none at the end of all input.
abbrev pub is_closed : Option ℕ → ℕ → Bool
is_closed none epoch = true
is_closed (some f) epoch = ltb epoch f

abbrev pub is_eof : Option ℕ → Bool
is_eof none = true
is_eof (some f) = false

abbrev pub or_else {ℓ} : {A : Type ℓ} → A → Option A → A
or_else a none = a
or_else a (some b) = b

-- The assertion on the worker of each item.
unfoldable pub unroute : {D : Type 0} → ℕ → List (ℕ × D) → Option (List D)
unroute this_worker [] = some []
unroute this_worker ((worker, d) ∷ rest) = do
  assert (worker == this_worker)
  ds ← unroute this_worker rest
  some (d ∷ ds)

module _ {K V R L S : Type 0} ⦃o : Ord K⦄ (logic : StatefulLogic V R L S) where
  -- `match next_awake`.
  abbrev pub set_awake : K → Option DateTime → List (K × DateTime) → List (K × DateTime)
  set_awake key none awakes = remove key awakes
  set_awake key (some t) awakes = insert key t awakes

  -- The body of the loop over `tmp_awake_logic_with`.
  unfoldable pub awake_one : State K L → K → Poll V → State K L × List (K × R)
  awake_one s key next_value =
      let built = or_else (logic.builder none) (lookup key s.current_logic) in
      let (l, output) = logic.on_awake built next_value in
      let awoken = Set.insert key s.awoken_keys_buffer in
      elim (logic.fate l) [
        | discard ↦ (
          record {
            current_logic = remove key s.current_logic;
            current_next_awake = remove key s.current_next_awake;
            awoken_keys_buffer = awoken;
          },
          map (λ r. (key, r)) output,
        )
        | retain ↦ (
          record {
            current_logic = insert key l s.current_logic;
            current_next_awake = set_awake key (logic.next_awake l) s.current_next_awake;
            awoken_keys_buffer = awoken;
          },
          map (λ r. (key, r)) output,
        )
      ]

  unfoldable pub awake_all : State K L → List (K × Poll V) → State K L × List (K × R)
  unfolding awake_one
  awake_all s [] = (s, [])
  awake_all s ((key, next_value) ∷ rest) =
      let (s₁, out) = awake_one s key next_value in
      let (s₂, more) = awake_all s₁ rest in (s₂, out ++ more)

  -- `tmp_awake_logic_with` for the items of an epoch, and the buffer of awoken keys, which is drained
  -- at the end of the input.
  unfoldable pub awake_list :
      Bool → DateTime → State K L → List (K × V) → State K L × List (K × Poll V)
  awake_list is_eof now s items =
      let incoming = map (λ (e : K × V). (e.0, item e.1)) items in
      if is_eof
      then (
        record s { awoken_keys_buffer = [] },
        incoming
            ++ map (λ key. (key, eof))
                (Set.extend (keys s.current_next_awake)
                  (Set.extend (map (λ (e : K × V). e.0) items) s.awoken_keys_buffer)),
      )
      else (
        s,
        incoming
            ++ map (λ (e : K × DateTime). (e.0, pending))
                (filter (λ (e : K × DateTime). not (ltb_ℤ now e.1)) s.current_next_awake),
      )

  unfoldable pub snapshot_one : State K L → K → K × StateChange S
  snapshot_one s key = elim (lookup key s.current_logic) [
    | none ↦ (key, discarded)
    | some l ↦ (key, upsert (logic.snapshot l) (lookup key s.current_next_awake))
  ]

  unfoldable pub load_one : State K L → K → StateChange S → State K L
  load_one s key (upsert state next_awake) = record s {
    current_logic = insert key (logic.builder (some state)) s.current_logic;
    current_next_awake = set_awake key next_awake s.current_next_awake;
  }
  load_one s key discarded = record s {
    current_logic = remove key s.current_logic;
    current_next_awake = remove key s.current_next_awake;
  }

  unfoldable pub load_all : State K L → List (K × StateChange S) → State K L
  unfolding load_one
  load_all s [] = s
  load_all s ((key, change) ∷ rest) = load_all (load_one s key change) rest

  -- The end of an epoch that is closed: the awoken keys are snapshotted, then the loads applied.
  unfoldable pub close_epoch :
      State K L → List (K × StateChange S) → State K L × List (K × StateChange S)
  unfolding snapshot_one load_all
  close_epoch s loads = (
    load_all (record s { awoken_keys_buffer = [] }) loads,
    map (snapshot_one s) s.awoken_keys_buffer,
  )

  -- One epoch of the loop of an activation: the items of the epoch and its loads, if any, come from
  -- the buffers. What is sent: the outputs, and at the end of a closed epoch the changes.
  unfoldable pub process_epoch :
      ℕ
      → Option ℕ
      → DateTime
      → ℕ
      → State K L
      → InBuffer (ℕ × (K × V))
      → InBuffer (ℕ × (K × StateChange S))
      → Option (
          (State K L × InBuffer (ℕ × (K × V)) × InBuffer (ℕ × (K × StateChange S)))
          × List (K × R)
          × List (K × StateChange S))
  unfolding awake_list awake_all close_epoch unroute
  process_epoch this_worker frontier now epoch s inbuf loads_inbuf = do
    let (inbuf', incoming) = Buffer.remove epoch inbuf
    items ← unroute this_worker (Buffer.or_empty incoming)
    let (s₁, awakes) = awake_list (is_eof frontier) now s items
    let (s₂, outputs) = awake_all s₁ awakes
    elim (is_closed frontier epoch) [
      | true ↦ do
        let (loads_inbuf', loading) = Buffer.remove epoch loads_inbuf
        loads ← unroute this_worker (Buffer.or_empty loading)
        let (s₃, changes) = close_epoch s₂ loads
        some ((s₃, inbuf', loads_inbuf'), outputs, changes)
      | false ↦ some ((s₂, inbuf', loads_inbuf), outputs, [])
    ]
