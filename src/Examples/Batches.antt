-- ===== src/Examples/Batches.antt =====
-- A mapper that repeats each item, over two epochs (src/operators/mod.rs).
use bytewax.Prelude.{ℕ, ltb, not, ◌≡◌, refl, List, [], ◌∷◌, ◌++◌, map, filter, some, arith}
use bytewax.Prelude.Order.Ord.{ℕ_ord}
use bytewax.Prelude.Order.Map.{lookup, insert}
use bytewax.Prelude.Order.Set
use bytewax.Timely.Buffer.{extend_all}
use bytewax.Timely.Notificator.{Running}
use bytewax.Operators.Batches.{activate}
use bytewax.Operators.Epochs.{due, emits, removes, activate-emits}

abbrev pub twice : List ℕ → List ℕ
twice xs = xs ++ xs

abbrev pub incoming : List (ℕ × List ℕ)
incoming = (4, 40 ∷ []) ∷ (3, 30 ∷ []) ∷ (5, 50 ∷ []) ∷ (3, 31 ∷ []) ∷ []

abbrev pub at_three : Running (Unit {0})
at_three = record { cap = 3; state = tt }

activate-emits_example :
    let queue = Set.extend [] (map (λ (a : ℕ × List ℕ). a.0) incoming) in
    let b = extend_all incoming [] in
    activate
      (λ epoch batch. some (twice batch))
      incoming
      (some 4)
      (record { caps_state = some at_three; queue = [] })
      []
    ≡ some (
      record {
        caps_state = some (record { cap = 4; state = tt });
        queue = filter (λ e. not (ltb e 4)) queue;
      },
      (removes (due 4 queue) b, emits (λ epoch. twice) (due 4 queue) b),
    )
activate-emits_example =
    activate-emits (λ epoch. twice) (λ epoch batch. some (twice batch)) (λ epoch batch. refl)
      incoming 4 [] at_three [] tt tt (omega arith) (omega arith)

what_is_sent :
    emits (λ epoch. twice) (3 ∷ 4 ∷ []) (extend_all incoming [])
    ≡ (3, 30 ∷ 31 ∷ 30 ∷ 31 ∷ []) ∷ (4, 40 ∷ 40 ∷ []) ∷ []
unfolding extend_all lookup insert
what_is_sent = refl
