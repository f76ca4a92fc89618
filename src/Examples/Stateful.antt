-- ===== src/Examples/Stateful.antt =====
-- Two keys that each count their items, and are discarded at the end of the input.
use Prim.Native.Nat.{ℕ, ◌+◌}
use bytewax.Prelude.{◌≡◌, pos, none, some, List, [], ◌∷◌}
use bytewax.Prelude.Order.Ord.{ℕ_ord}
use bytewax.Prelude.Order.Map.{lookup}
use bytewax.Window.Types.{Poll}
use bytewax.Window.Logic.Defs.{retain}
use bytewax.Stateful.Defs.{StatefulLogic, State, or_else, awake_all}
use bytewax.Stateful.Isolation.{view, of_key, key_run, awake_all-view}

-- A running sum, which asks to be awoken at its own value.
abbrev pub add : ℕ → Poll ℕ → ℕ × List ℕ
add n (Poll.item k) = (n + k, (n + k) ∷ [])
add n Poll.pending = (n, [])
add n Poll.eof = (n, n ∷ [])

abbrev pub sum : StatefulLogic ℕ ℕ ℕ ℕ
sum = record {
  builder = or_else 0;
  on_awake = add;
  fate = λ n. retain;
  next_awake = λ n. some (pos n);
  snapshot = λ n. n;
}

abbrev pub start : State ℕ ℕ
start = record {
  current_logic = (1, 5) ∷ [];
  current_next_awake = (1, pos 5) ∷ [];
  awoken_keys_buffer = [];
}

abbrev pub empty : State ℕ ℕ
empty = record { current_logic = []; current_next_awake = []; awoken_keys_buffer = [] }

abbrev pub mixed : List (ℕ × Poll ℕ)
mixed = (1, Poll.item 2) ∷ (2, Poll.item 7) ∷ (1, Poll.pending) ∷ (2, Poll.item 1) ∷ []

awake_all-view_example :
    (view sum 2 (awake_all sum start mixed).0 ≡ (key_run sum (view sum 2 start) (of_key 2 mixed)).0)
    × (of_key 2 (awake_all sum start mixed).1 ≡ (key_run sum (view sum 2 start) (of_key 2 mixed)).1)
awake_all-view_example = awake_all-view sum start 2 mixed

start-idle : lookup 1 start.current_logic ≡ none → lookup 1 start.current_next_awake ≡ none
unfolding lookup
start-idle e = cc e
