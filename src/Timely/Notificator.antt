-- ===== src/Timely/Notificator.antt =====
-- `EagerNotificator`. All its capabilities stand at one time, `cap`; a downgrade to an earlier time
-- panics (timely's `Capability::downgrade`), and the value `none` is a panic.
use bytewax.Prelude.{
  ℕ, ltb, leb, Bool, true, false, not, Option, none, some, List, [], ◌∷◌, ◌>>=◌, ◌>>◌, assert,
  filter, if◌then◌else◌,
}
use bytewax.Prelude.Order.Ord.{ℕ_ord}
use bytewax.Prelude.Order.Set

pub record Running (D : Type 0) : Type 0 where
  pub cap : ℕ
  pub state : D

pub record EagerNotificator (D : Type 0) : Type 0 where
  pub caps_state : Option (Running D)
  pub queue : List ℕ

-- `split_off`: the epochs below the frontier, and those from it on.
unfoldable pub split_off : Option ℕ → List ℕ → List ℕ × List ℕ
split_off none queue = (queue, [])
split_off (some f) queue = (filter (λ e. ltb e f) queue, filter (λ e. not (ltb e f)) queue)

module _ {D : Type 0} where
  unfoldable pub new : ℕ → D → EagerNotificator D
  new cap state = record { caps_state = some (record { cap = cap; state = state }); queue = [] }

  abbrev pub is_some : Option (Running D) → Bool
  is_some none = false
  is_some (some r) = true

  unfoldable pub notify_at : ℕ → EagerNotificator D → Option (EagerNotificator D)
  notify_at epoch n = do
    assert (is_some n.caps_state)
    some (record n { queue = Set.insert epoch n.queue })

  unfoldable pub downgrade_all : ℕ → Running D → Option (Running D)
  downgrade_all epoch r = do assert (leb r.cap epoch); some (record r { cap = epoch })

  -- The logics also work on what they close over, `E`, which outlives the notificator's state.
  module _ {E : Type 0} (eager_logic close_logic : ℕ → D × E → Option (D × E)) where
    unfoldable pub close_epochs : List ℕ → Running D → E → Option (Running D × E)
    unfolding downgrade_all
    close_epochs [] r x = some (r, x)
    close_epochs (epoch ∷ es) r x = do
      r₁ ← downgrade_all epoch r
      dx ← eager_logic r₁.cap (r₁.state, x)
      (d, x') ← close_logic r₁.cap dx
      close_epochs es (record r₁ { state = d }) x'

    -- The end of `for_each`: at the frontier the eager logic runs, and at EOF the state is dropped.
    unfoldable pub at_frontier : Option ℕ → List ℕ → Running D → E → Option (Option (Running D) × E)
    unfolding downgrade_all
    at_frontier none queue r x = some (none, x)
    at_frontier (some f) queue r x = do
      r₁ ← downgrade_all f r
      (d, x') ←
          if Set.contains f queue then eager_logic r₁.cap (r₁.state, x) else some (r₁.state, x)
      some (some (record r₁ { state = d }), x')

    -- After EOF a call does nothing.
    unfoldable pub for_each : Option ℕ → EagerNotificator D → E → Option (EagerNotificator D × E)
    unfolding close_epochs at_frontier split_off
    for_each frontier n x = elim n.caps_state [
      | none ↦ some (n, x)
      | some r ↦
          let (closed, rest) = split_off frontier n.queue in
          close_epochs closed r x >>= λ rx. at_frontier frontier rest rx.0 rx.1 >>= λ cx.
          some (record { caps_state = cx.0; queue = rest }, cx.1)
    ]
