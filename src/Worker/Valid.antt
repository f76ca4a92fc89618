-- ===== src/Worker/Valid.antt =====
-- The dataflow that a worker runs is one that timely can run (src/worker.rs).
use bytewax.Prelude.{
  ◌≡◌, Bool, true, false, not, some, List, [], ◌∷◌, All, Option-cases, inl, inr, if◌then◌else◌,
}
use bytewax.Prelude.Order.Ord.{Ord}
use bytewax.Prelude.Results.{ok, Ensures, Ensures->>=, Ensures-ensure, Ensures-ok}
use bytewax.Worker.Flow.{no_input, no_output, OperatorInfo, Operators, leaves_all}
use bytewax.Worker.Graph.{Stream, Build, start}
use bytewax.Worker.Compile.{
  Python, Probed, write_recovery, outputs, Production, core_of, build_step, finish, is_empty,
  finish_built, build_production_dataflow,
}
use bytewax.Worker.Order.{build_all, build_production_dataflow-build_all}
use bytewax.Worker.Wiring.{has_stream, IsAcyclic, IsWired, start-IsWired}
use bytewax.Worker.Compiled.{build_core-IsWired}

-- The streams that the end of the dataflow is attached to.
abbrev pub probed_streams : Probed → List Stream
probed_streams (write_recovery snaps) = snaps
probed_streams (outputs clocks) = clocks

abbrev pub IsValid : Production → Type 0
IsValid p = IsAcyclic p.nodes × All (λ s. has_stream p.nodes s ≡ true) (probed_streams p.probed)

module _ {K : Type 0} where
  finish-IsValid : (recovery : Bool) (b : Build K) → IsWired b → Ensures IsValid (finish recovery b)
  unfolding finish
  finish-IsValid recovery b w =
      Ensures-ensure IsValid (not (is_empty b.inputs)) no_input _
        (Ensures-ensure IsValid (not (is_empty b.outputs)) no_output _ (probed recovery))
    where
      probed :
          (recovery : Bool)
          → IsAcyclic b.nodes
            × All
                (λ s. has_stream b.nodes s ≡ true)
                (probed_streams (if recovery then write_recovery b.snaps else outputs b.outputs))
      probed true = (w.acyclic, w.snaps)
      probed false = (w.acyclic, w.outputs)

module _ {K O : Type 0} ⦃o : Ord K⦄ (python : Python O) where
  build_step-IsWired :
      (step : OperatorInfo K O) (b : Build K)
      → IsWired b
      → Ensures IsWired (build_step python step b)
  unfolding build_step
  build_step-IsWired step b w = elim (Option-cases (core_of step.name)) [
    | inl e ↦ rw (e, build_step) tt
    | inr (core, e) ↦ rw (e, build_step) (build_core-IsWired python step core b w)
  ]

  build_all-IsWired :
      (steps : List (OperatorInfo K O)) (b : Build K)
      → IsWired b
      → Ensures IsWired (build_all python steps b)
  unfolding build_all
  build_all-IsWired [] b w = w
  build_all-IsWired (step ∷ steps) b w =
      Ensures->>= IsWired IsWired (build_step python step b) _ (build_step-IsWired step b w)
        (λ b' w'. build_all-IsWired steps b' w')

  -- Each operator of a dataflow that is built reads outputs of operators that were added before it,
  -- and the end of the dataflow is attached to outputs of its operators.
  pub build_production_dataflow-IsValid :
      (recovery : Bool) (flow : Operators K O) (p : Production)
      → build_production_dataflow python recovery flow ≡ some (ok p)
      → IsValid p
  unfolding finish_built
  build_production_dataflow-IsValid recovery flow p built =
      let steps = leaves_all flow in
      Ensures-ok IsValid (finish_built recovery (build_all python steps start)) p
        (Ensures->>= IsWired IsValid (build_all python steps start) _
          (build_all-IsWired steps start start-IsWired) (λ b w. finish-IsValid recovery b w))
        (cc (build_production_dataflow-build_all python recovery flow))
