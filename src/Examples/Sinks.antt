-- ===== src/Examples/Sinks.antt =====
-- A sink that keeps what it is given (src/outputs.rs).
use bytewax.Prelude.{ℕ, ◌≡◌, refl, Option, none, some, List, [], ◌∷◌, ◌++◌, All}
use bytewax.Prelude.Order.Ord.{ℕ_ord}
use bytewax.Prelude.Order.Map.{lookup, keys}
use bytewax.Prelude.Order.Set
use bytewax.Recovery.Change.{StateChange, upsert, discard}
use bytewax.Outputs.Defs.{Sink, State, close}
use bytewax.Outputs.Epoch.{eager_all, written_all, is_written, close-written}
use bytewax.Outputs.Safety.{Call, eagerly, closing, run_calls, run_calls_total}

abbrev pub resumed : Option (List ℕ) → List ℕ
resumed none = []
resumed (some written) = written

abbrev pub log_sink : ℕ → Sink (List ℕ) (List ℕ) ℕ
log_sink part = record {
  build_part = resumed;
  write_batch = λ written batch. written ++ batch;
  snapshot = λ written. written;
}

-- Two keyed items for partition 1, which is there, and one for partition 3, which is not.
abbrev pub items : List (ℕ × List (ℕ × ℕ))
items = (1, (0, 10) ∷ (0, 11) ∷ []) ∷ (3, (0, 30) ∷ []) ∷ []

abbrev pub parts : List (ℕ × List ℕ)
parts = (1, 5 ∷ []) ∷ (2, 6 ∷ []) ∷ []

-- Later in the epoch, one more item for partition 3.
abbrev pub batches : List (Option (List (ℕ × List (ℕ × ℕ))))
batches = some items ∷ some ((3, (0, 31) ∷ []) ∷ []) ∷ []

close-written_example :
    (s : State ℕ (List ℕ)) × (snaps : List (ℕ × StateChange (List ℕ))) × (close log_sink 0 none
        (eager_all log_sink batches (record { parts = parts; awoken = [] }))
      ≡ some (s, snaps))
    × Set.Ascends (keys snaps)
    × ((j : ℕ) → Set.contains j (keys snaps) ≡ is_written log_sink j batches)
    × All
        (λ e.
          (st : List ℕ) × (written_all log_sink e.0 (lookup e.0 parts) batches ≡ some st)
          × (e.1 ≡ upsert ((log_sink e.0).snapshot st)))
        snaps
    × (s.awoken ≡ [])
close-written_example =
    close-written log_sink 0 batches parts none (((refl, tt), (tt, tt)), ((tt, tt), tt))

abbrev pub calls : List (Call ℕ (List ℕ) ℕ ℕ)
calls =
    eagerly (some items)
    ∷ closing (some ((1, (1, upsert [])) ∷ (0, (3, discard)) ∷ []))
    ∷ eagerly (some items)
    ∷ closing none
    ∷ []

run_calls_total_example :
    (out : State ℕ (List ℕ) × List (ℕ × StateChange (List ℕ))) × (run_calls log_sink 0 calls
        (record { parts = []; awoken = [] })
      ≡ some out)
run_calls_total_example = run_calls_total log_sink 0 calls
