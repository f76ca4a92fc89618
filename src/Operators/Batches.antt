-- ===== src/Operators/Batches.antt =====
-- The operators that work on the items of an epoch at once: `flat_map_batch` and `inspect_debug`
-- (src/operators/mod.rs), with `buffer_notify` (src/timely.rs). The user's functions are arguments;
-- a value `none` is a panic.
use bytewax.Prelude.{ℕ, Bool, true, false, Option, none, some, List, [], ◌∷◌, ◌++◌, ◌>>=◌, ◌>>◌}
use bytewax.Prelude.Order.Ord.{ℕ_ord}
use bytewax.Timely.Buffer.{InBuffer, extend, remove}
use bytewax.Timely.Notificator.{EagerNotificator, notify_at, for_each}

-- The user's mapper: it raises, or yields an iterable, which may raise after some of its items.
abbrev pub Mapper : Type 0 → Type 0 → Type 0
Mapper V R = List V → Option (List (Option R))

unfoldable pub push_all : {R : Type 0} → List R → List (Option R) → Option (List R)
push_all outbuf [] = some outbuf
push_all outbuf (none ∷ iter) = none
push_all outbuf (some out_item ∷ iter) = push_all (outbuf ++ out_item ∷ []) iter

unfoldable pub next_batch : {V R : Type 0} → List R → Mapper V R → List V → Option (List R)
unfolding push_all
next_batch outbuf mapper in_batch = do res ← mapper in_batch; push_all outbuf res

-- The inspector is called for each item with the epoch and the worker; whether it raises.
unfoldable pub inspect_all : {V : Type 0} → (V → Bool) → List V → Option (Unit {0})
inspect_all inspector [] = some tt
inspect_all inspector (item ∷ items) = elim (inspector item) [
  | true ↦ inspect_all inspector items
  | false ↦ none
]

-- `OpInputHandleEx::buffer_notify`: the batches that have arrived, with their epochs.
unfoldable pub buffer_notify :
    {V D : Type 0}
    → List (ℕ × List V)
    → InBuffer V
    → EagerNotificator D
    → Option (InBuffer V × EagerNotificator D)
unfolding extend notify_at
buffer_notify [] inbuf ncater = some (inbuf, ncater)
buffer_notify ((epoch, incoming) ∷ arrivals) inbuf ncater = do
  ncater' ← notify_at epoch ncater
  buffer_notify arrivals (extend epoch incoming inbuf) ncater'

-- The buffer of an operator, and the batches that it has sent downstream with their epochs. Where
-- there is a second output for a clock, it is sent a unit at the same epochs.
abbrev pub Sent : Type 0 → Type 0 → Type 0
Sent V R = InBuffer V × List (ℕ × List R)

module _ {V R : Type 0} (call : ℕ → List V → Option (List R)) where
  -- The eager logic: what the call makes of the items of the epoch, if there are any, is sent.
  unfoldable pub batch_logic : ℕ → Unit {0} × Sent V R → Option (Unit {0} × Sent V R)
  unfolding remove
  batch_logic epoch (u, (inbuf, sent)) =
      let (inbuf', items) = remove epoch inbuf in
      elim items [
        | none ↦ some (u, (inbuf', sent))
        | some batch ↦ do out ← call epoch batch; some (u, (inbuf', sent ++ (epoch, out) ∷ []))
      ]

  -- The close logic of both operators does nothing.
  unfoldable pub activate :
      List (ℕ × List V)
      → Option ℕ
      → EagerNotificator (Unit {0})
      → InBuffer V
      → Option (EagerNotificator (Unit {0}) × Sent V R)
  unfolding buffer_notify batch_logic
  activate arrivals frontier ncater inbuf = do
    (inbuf', ncater') ← buffer_notify arrivals inbuf ncater
    for_each batch_logic (λ epoch dx. some dx) frontier ncater' (inbuf', [])

unfoldable pub flat_map_batch :
    {V R : Type 0}
    → Mapper V R
    → List (ℕ × List V)
    → Option ℕ
    → EagerNotificator (Unit {0})
    → InBuffer V
    → Option (EagerNotificator (Unit {0}) × Sent V R)
unfolding activate next_batch
flat_map_batch mapper = activate (λ epoch batch. next_batch [] mapper batch)

unfoldable pub inspect_debug :
    {V : Type 0}
    → (ℕ → V → Bool)
    → List (ℕ × List V)
    → Option ℕ
    → EagerNotificator (Unit {0})
    → InBuffer V
    → Option (EagerNotificator (Unit {0}) × Sent V V)
unfolding activate inspect_all
inspect_debug inspector =
    activate (λ epoch items. inspect_all (inspector epoch) items >> some items)
