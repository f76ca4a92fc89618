-- ===== src/Examples/Sources.antt =====
-- A source that counts, in batches of one item (src/inputs.rs).
use bytewax.Prelude.{
  ℕ, ◌+◌, ◌≡◌, refl, false, if◌then◌else◌, ltb, pos, Option, none, some, List, [], ◌∷◌, All, arith,
}
use bytewax.Prelude.Order.Ord.{ℕ_ord}
use bytewax.Prelude.Order.Map.{lookup}
use bytewax.Prelude.Order.Set.{contains}
use bytewax.Recovery.Change.{upsert}
use bytewax.Inputs.Defs.{Source, PartState, Event, batch, eof}
use bytewax.Inputs.Startup.{Activation, init_parts}
use bytewax.Inputs.Trace.{Returns, run, Ordered, run-Ordered}
use bytewax.Inputs.Activate.{activate}
use bytewax.Inputs.Bounds.{IsWellFormed, Sends, activate-IsWellFormed}
use bytewax.Inputs.Init.{or_started, init_parts-or_started}

abbrev pub or_zero : Option ℕ → ℕ
or_zero none = 0
or_zero (some n) = n

abbrev pub count_to_3 : Source ℕ ℕ ℕ
count_to_3 = record {
  build_part = λ now state. some (or_zero state);
  next_batch = λ n sched. some (n + 1, (if ltb n 3 then batch (n ∷ []) else eof));
  next_awake = λ n. some none;
  snapshot = λ n. some n;
}

count_to_3-Returns : Returns count_to_3
count_to_3-Returns = record {
  built = λ now state. (or_zero state, refl);
  batched = λ n sched. ((n + 1, (if ltb n 3 then batch (n ∷ []) else eof)), refl);
  awoken = λ n. (none, refl);
  snapped = λ n. (n, refl);
}

abbrev pub part : PartState ℕ
part = record {
  part = 0;
  downstream_cap = 5;
  snap_cap = 5;
  epoch_started = pos 0;
  next_awake = none;
}

-- Three activations, and epochs of ten nanoseconds.
run-Ordered_example :
    (ev : List (Event ℕ ℕ)) × (run count_to_3
        (pos 10)
        (λ now epoch. false)
        part
        (pos 4 ∷ pos 12 ∷ pos 16 ∷ [])
      ≡ some ev)
    × Ordered 5 ev
run-Ordered_example =
    run-Ordered count_to_3 (pos 10) (λ now epoch. false) part (pos 4 ∷ pos 12 ∷ pos 16 ∷ []) refl
      (omega arith) count_to_3-Returns

abbrev pub parts : List (ℕ × PartState ℕ)
parts = (1, part) ∷ []

-- Partition 1 is there, and 2 is resumed from a snapshot of epoch 3.
activate-IsWellFormed_example :
    (a : Activation ℕ ℕ ℕ ℕ) × (activate
        (λ k. count_to_3)
        (pos 10)
        0
        5
        none
        none
        (λ epoch. false)
        (pos 4)
        ((5, (1, 0) ∷ (2, 0) ∷ []) ∷ [])
        ((3, (0, (2, upsert 2)) ∷ []) ∷ [])
        (record {
          parts = parts;
          primary_parts = [];
          primaries_inbuf = [];
          init_caps = some (5, 5);
        })
      ≡ some a)
    × IsWellFormed 5 7 a.state
    × All (Sends 5 6) a.sent
activate-IsWellFormed_example =
    activate-IsWellFormed (λ k. count_to_3) (pos 4) (λ k. count_to_3-Returns) 5 6 (pos 10)
      (λ epoch. false) 0 none none ((5, (1, 0) ∷ (2, 0) ∷ []) ∷ [])
      ((3, (0, (2, upsert 2)) ∷ []) ∷ [])
      (record { parts = parts; primary_parts = []; primaries_inbuf = []; init_caps = some (5, 5) })
      (omega arith) (omega arith) ((omega arith, (refl, tt)), tt)
      (((tt, tt), ((refl, omega arith, omega arith), tt)), (refl, omega arith, omega arith))

init_parts-or_started_example :
    (out : List (ℕ × PartState ℕ)) × (init_parts {K = ℕ}
        (λ k. count_to_3)
        (pos 4)
        5
        5
        (1 ∷ 2 ∷ [])
        parts
      ≡ some out)
    × ((j : ℕ)
        → lookup j out
          ≡ or_started {K = ℕ}
              (λ k. count_to_3)
              (pos 4)
              5
              j
              (contains {K = ℕ} j (1 ∷ 2 ∷ []))
              (lookup j parts))
init_parts-or_started_example =
    init_parts-or_started (λ k. count_to_3) (pos 4) 5 (1 ∷ 2 ∷ []) parts (λ k. count_to_3-Returns)
