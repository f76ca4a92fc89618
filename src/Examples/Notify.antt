-- ===== src/Examples/Notify.antt =====
-- A logic that asks for one notification (src/operators/mod.rs).
use bytewax.Prelude.{
  ℕ, zero, suc, arith, ◌+◌, ◌≡◌, refl, pos, Option, none, some, List, [], ◌∷◌, map,
}
use bytewax.Prelude.Order.Ord.{ℕ_ord}
use bytewax.Prelude.Order.Map.{lookup}
use bytewax.Window.Types.{DateTime}
use bytewax.Timely.Parts.{has_key}
use bytewax.Recovery.Change.{upsert}
use bytewax.Stateful.Defs.{or_else}
use bytewax.Stateful.Activation.{closed_epochs}
use bytewax.Stateful.Epochs.{process_epochs-closed_epochs}
use bytewax.Stateful.Unary.{process_epochs, UnaryLogic, UnaryState, retains, discards}
use bytewax.Stateful.Scheduled.{IsScheduled}
use bytewax.Stateful.UnaryLoop.{UnaryOperator, Arrival, SentEpoch, unary_all}
use bytewax.Stateful.Working.{Climbs}
use bytewax.Stateful.Steady.{Promised, Settled, Steady, unary_all-Steady}

-- Only a logic without items asks for a notification.
abbrev pub when_empty : ℕ → Option DateTime
when_empty zero = some (pos 9)
when_empty (suc n) = none

abbrev pub count_items : UnaryLogic ℕ ℕ ℕ ℕ
count_items = record {
  builder = λ now state. or_else 0 state;
  on_item = λ now v n. (n + 1, [], retains);
  on_notify = λ sched n. (n, n ∷ [], discards);
  on_eof = λ n. (n, n ∷ [], retains);
  notify_at = when_empty;
  snapshot = λ n. n;
}

abbrev pub waiting : UnaryState ℕ ℕ
waiting = record {
  logics = (1, 2) ∷ (2, 0) ∷ [];
  sched_cache = (2, pos 9) ∷ [];
  awoken_keys_buffer = [];
}

waiting-IsScheduled : IsScheduled waiting
unfolding has_key lookup
waiting-IsScheduled = ((tt, tt), λ k there. ground (arith, there))

abbrev pub two_activations : List (Arrival ℕ ℕ ℕ)
two_activations =
    record {
      frontier = some 4;
      now = pos 10;
      items = (3, (0, (3, 30)) ∷ []) ∷ (5, (0, (1, 7)) ∷ []) ∷ [];
      loads = (3, (0, (1, upsert 7)) ∷ []) ∷ [];
    }
    ∷ record { frontier = some 6; now = pos 12; items = (4, (0, (2, 1)) ∷ []) ∷ []; loads = [] }
    ∷ []

abbrev pub operator : UnaryOperator ℕ ℕ ℕ ℕ
operator = record {
  kv_downstream_cap = 3;
  snap_cap = 3;
  state = waiting;
  inbuf = (3, (0, (2, 20)) ∷ []) ∷ [];
  loads_inbuf = [];
}

two_activations-Promised : Promised 0 3 two_activations
two_activations-Promised = (
  omega arith,
  ((omega arith, (refl, tt)), ((omega arith, (refl, tt)), tt)),
  ((omega arith, (refl, tt)), tt),
  (omega arith, ((omega arith, (refl, tt)), tt), tt, tt),
)

operator-Settled : Settled 0 3 operator
operator-Settled = record {
  same = refl;
  below = omega arith;
  items = ((omega arith, (refl, tt)), tt);
  loads = tt;
  scheduled = waiting-IsScheduled;
}

unary_all-Steady_example :
    (out : Option (UnaryOperator ℕ ℕ ℕ ℕ) × List (SentEpoch ℕ ℕ ℕ)) × (unary_all count_items 0 0
        two_activations
        (some operator)
      ≡ some out)
    × (to : ℕ) × Steady 0 6 to out.0
    × Climbs 3 (map (λ (x : SentEpoch ℕ ℕ ℕ). x.epoch) out.1) to
unary_all-Steady_example =
    unary_all-Steady count_items 0 0 3 two_activations operator two_activations-Promised
      operator-Settled

process_epochs-closed_epochs_example :
    process_epochs (some 4) 2 2 (3 ∷ 5 ∷ []) (2 ∷ 3 ∷ [])
    ≡ closed_epochs (some 4) 2 2 (3 ∷ 5 ∷ []) (2 ∷ 3 ∷ [])
process_epochs-closed_epochs_example =
    process_epochs-closed_epochs (some 4) 2 2 (3 ∷ 5 ∷ []) (2 ∷ 3 ∷ [])
