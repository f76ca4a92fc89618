-- ===== src/Worker/Collected.antt =====
-- Which streams the end of the dataflow is attached to (src/worker.rs).
use Prim.Native.String.{String}
use mathlib.Core.List.{append-nil}
use bytewax.Prelude.{
  ℕ, ◌≡◌, refl, ap, Bool, true, false, not, Option, none, some, List, [], ◌∷◌, ◌++◌, length,
  Option-cases, Bool-cases, inl, inr, if◌then◌else◌,
}
use bytewax.Prelude.Order.Ord.{Ord}
use bytewax.Prelude.Order.Map.{lookup}
use bytewax.Prelude.Results.{
  Result, ok, Ensures, Ensures->>=, Ensures-ensure, Ensures-ok, anything, ◌>>=◌,
}
use bytewax.Worker.Flow.{
  CompileError, no_input, no_output, OperatorInfo, Operators, leaves_all, get_port_stream,
}
use bytewax.Worker.Graph
use bytewax.Worker.Graph.{
  Stream, stream, NodeKind, Node, Build, start, add_node, push_input, push_output, push_snap,
  get_upstream, get_upmultistream, enter, insert_downstream,
}
use bytewax.Worker.Compile
use bytewax.Worker.Compile.{Python, write_recovery, outputs, Production}
use bytewax.Worker.Order.{build_all, build_production_dataflow-build_all}

-- The output of an operator with its snapshots, if it keeps state.
abbrev pub snap_port : NodeKind → Option ℕ
snap_port Graph.stateful_window_unary = some 1
snap_port Graph.partitioned_input = some 1
snap_port Graph.partitioned_output = some 1
snap_port Graph.unary = some 1
snap_port _ = none

-- The output with the clock of a sink or an inspector.
abbrev pub clock_port : NodeKind → Option ℕ
clock_port Graph.inspect_debug = some 1
clock_port Graph.partitioned_output = some 0
clock_port Graph.dynamic_output = some 0
clock_port _ = none

abbrev pub at_port : ℕ → Option ℕ → List Stream
at_port node none = []
at_port node (some output) = stream node output ∷ []

-- Those outputs of all operators, in the order in which the operators were added.
abbrev pub ports : (NodeKind → Option ℕ) → List Node → List Stream
ports port [] = []
ports port (n ∷ nodes) = ports port nodes ++ at_port (length nodes) (port n.kind)

abbrev IsCollected : {K : Type 0} → Build K → Type 0
IsCollected b = (b.snaps ≡ ports snap_port b.nodes) × (b.outputs ≡ ports clock_port b.nodes)

module _ {K : Type 0} ⦃o : Ord K⦄ where
  enter-IsCollected :
      (stream_id : K) (s : Stream) (b : Build K)
      → IsCollected b
      → Ensures IsCollected (enter stream_id s b)
  unfolding enter
  enter-IsCollected stream_id s b c = elim (Option-cases (lookup stream_id b.streams)) [
    | inl e ↦ rw (e, enter) c
    | inr (t, e) ↦ rw (e, enter) tt
  ]

module _ {K O : Type 0} ⦃o : Ord K⦄ (python : Python O) (step : OperatorInfo K O) where
  down :
      (port_name : String) (s : Stream) (b : Build K)
      → IsCollected b
      → Ensures IsCollected (insert_downstream step port_name s b)
  unfolding insert_downstream
  down port_name s b c =
      Ensures->>= (λ k. Unit {0}) IsCollected (get_port_stream step port_name) _
        (anything (get_port_stream step port_name)) (λ k u. enter-IsCollected k s b c)

  after_arg :
      (attr_name : String) (class : Compile.ArgClass) (f : O → Result (CompileError K) (Build K))
      → ((object : O) → Ensures IsCollected (f object))
      → Ensures IsCollected (Compile.extract_arg python step attr_name class >>= f)
  after_arg attr_name class f go =
      let m = Compile.extract_arg python step attr_name class in
      Ensures->>= (λ a. Unit {0}) IsCollected m f (anything m) (λ a u. go a)

  after_up :
      (b : Build K) (f : Stream → Result (CompileError K) (Build K))
      → ((up : Stream) → Ensures IsCollected (f up))
      → Ensures IsCollected (get_upstream step "up" b >>= f)
  after_up b f go =
      let m = get_upstream step "up" b in
      Ensures->>= (λ a. Unit {0}) IsCollected m f (anything m) (λ a u. go a)

  build_windowed-IsCollected :
      (up : Stream) (b : Build K)
      → IsCollected b
      → Ensures IsCollected (Compile.build_windowed python up step b)
  unfolding Compile.build_windowed push_snap add_node
  build_windowed-IsCollected up b c =
      down "down" _ _ (simp (c.0, append-nil), simp (c.1, append-nil))

  build_input-IsCollected :
      (b : Build K) → IsCollected b → Ensures IsCollected (Compile.build_input python step b)
  unfolding Compile.build_input Compile.build_fixed_input Compile.build_dynamic_input push_input
      push_snap add_node
  build_input-IsCollected b c = after_arg "source" Compile.source _ λ object.
      elim (Bool-cases (python.is_instance Compile.fixed_source object)) [
        | inl fixed ↦ rw (fixed) (
            Ensures-ensure IsCollected (python.builds object) _ _
              (down "down" _ _ (simp (c.0, append-nil), simp (c.1, append-nil))))
        | inr other ↦ elim (Bool-cases (python.is_instance Compile.dynamic_source object)) [
          | inl dyn ↦
              rw (other, dyn)
                (Ensures-ensure IsCollected (python.builds object) _ _
                  (down "down" _ _ (simp (c.0, append-nil), simp (c.1, append-nil))))
          | inr neither ↦ rw (other, neither) tt
        ]
      ]

  build_output-IsCollected :
      (b : Build K) → IsCollected b → Ensures IsCollected (Compile.build_output python step b)
  unfolding Compile.build_output Compile.build_fixed_output Compile.build_dynamic_output push_output
      push_snap add_node
  build_output-IsCollected b c = after_arg "sink" Compile.sink _ λ object. after_up b _ λ up.
      elim (Bool-cases (python.is_instance Compile.fixed_sink object)) [
        | inl fixed ↦
            rw (fixed) (Ensures-ensure IsCollected (python.builds object) _ _ (simp c.0, simp c.1))
        | inr other ↦ elim (Bool-cases (python.is_instance Compile.dynamic_sink object)) [
          | inl dyn ↦
              rw (other, dyn)
                (Ensures-ensure IsCollected (python.builds object) _ _
                  (simp (c.0, append-nil), simp c.1))
          | inr neither ↦ rw (other, neither) tt
        ]
      ]

  build_core-IsCollected :
      (core : Compile.Core) (b : Build K)
      → IsCollected b
      → Ensures IsCollected (Compile.build_core python core step b)
  unfolding Compile.build_core Compile.build_fold_window push_output push_snap add_node
  build_core-IsCollected Compile.noop b c = after_up b _ λ up. down "down" up b c
  build_core-IsCollected Compile.branch b c = after_arg "predicate" Compile.callable _ λ p.
      after_up b _ λ up.
        Ensures->>= IsCollected IsCollected (insert_downstream step "trues" _ _) _
          (down "trues" _ _ (simp (c.0, append-nil), simp (c.1, append-nil)))
          (λ b₂ c₂. down "falses" _ b₂ c₂)
  build_core-IsCollected Compile.flat_map_batch b c =
      after_arg "mapper" Compile.callable _
        λ p. after_up b _ λ up. down "down" _ _ (simp (c.0, append-nil), simp (c.1, append-nil))
  build_core-IsCollected Compile.fold_window b c = after_arg "clock" Compile.clock _ λ clock.
      after_arg "windower" Compile.windower _ λ windower.
        after_arg "builder" Compile.callable _ λ builder.
          after_arg "folder" Compile.callable _ λ folder. after_up b _ λ up.
            Ensures-ensure IsCollected (python.builds clock) _ _ (
              Ensures-ensure IsCollected (python.builds windower) _ _
                (build_windowed-IsCollected up b c))
  build_core-IsCollected Compile.input b c = build_input-IsCollected b c
  build_core-IsCollected Compile.inspect_debug b c =
      after_arg "inspector" Compile.callable _
        λ p. after_up b _ λ up. down "down" _ _ (simp (c.0, append-nil), simp c.1)
  build_core-IsCollected Compile.merge b c =
      Ensures->>= (λ a. Unit {0}) IsCollected (get_upmultistream step "ups" b) _
        (anything (get_upmultistream step "ups" b))
        λ ups u. down "down" _ _ (simp (c.0, append-nil), simp (c.1, append-nil))
  build_core-IsCollected Compile.output b c = build_output-IsCollected b c
  build_core-IsCollected Compile.redistribute b c =
      after_up b _ λ up. down "down" _ _ (simp (c.0, append-nil), simp (c.1, append-nil))
  build_core-IsCollected Compile.unary b c =
      after_arg "builder" Compile.callable _
        λ p. after_up b _ λ up. down "down" _ _ (simp c.0, simp (c.1, append-nil))

  build_step-IsCollected :
      (b : Build K) → IsCollected b → Ensures IsCollected (Compile.build_step python step b)
  unfolding Compile.build_step
  build_step-IsCollected b c = elim (Option-cases (Compile.core_of step.name)) [
    | inl e ↦ rw (e, Compile.build_step) tt
    | inr (core, e) ↦ rw (e, Compile.build_step) (build_core-IsCollected core b c)
  ]

module _ {K : Type 0} where
  finish-ports :
      (recovery : Bool) (b : Build K)
      → IsCollected b
      → Ensures
          (λ p. p.probed ≡ (
            if recovery
            then write_recovery (ports snap_port p.nodes)
            else outputs (ports clock_port p.nodes)))
          (Compile.finish recovery b)
  unfolding Compile.finish
  finish-ports recovery b c =
      Ensures-ensure _ (not (Compile.is_empty b.inputs)) no_input _
        (Ensures-ensure _ (not (Compile.is_empty b.outputs)) no_output _ (attached recovery))
    where
      attached :
          (recovery : Bool)
          → (if recovery then write_recovery b.snaps else outputs b.outputs) ≡ (
              if recovery
              then write_recovery (ports snap_port b.nodes)
              else outputs (ports clock_port b.nodes))
      attached true = ap write_recovery c.0
      attached false = ap outputs c.1

module _ {K O : Type 0} ⦃o : Ord K⦄ (python : Python O) where
  build_all-IsCollected :
      (steps : List (OperatorInfo K O)) (b : Build K)
      → IsCollected b
      → Ensures IsCollected (build_all python steps b)
  unfolding build_all
  build_all-IsCollected [] b c = c
  build_all-IsCollected (step ∷ steps) b c =
      Ensures->>= IsCollected IsCollected (Compile.build_step python step b) _
        (build_step-IsCollected python step b c) (λ b' c'. build_all-IsCollected steps b' c')

  -- With a recovery configuration, a dataflow that is built ends in the writer of the recovery store,
  -- which reads the snapshots of just the operators that keep state, of each one once and in the order
  -- in which they were added; without one it ends in the clocks of just the sinks and inspectors.
  pub build_production_dataflow-ports :
      (recovery : Bool) (flow : Operators K O) (p : Production)
      → Compile.build_production_dataflow python recovery flow ≡ some (ok p)
      → p.probed ≡ (
          if recovery
          then write_recovery (ports snap_port p.nodes)
          else outputs (ports clock_port p.nodes))
  unfolding Compile.finish_built start
  build_production_dataflow-ports recovery flow p built =
      let steps = leaves_all flow in
      Ensures-ok _ (Compile.finish_built recovery (build_all python steps start)) p
        (Ensures->>= IsCollected _ (build_all python steps start) _
          (build_all-IsCollected steps start (refl, refl)) (λ b c. finish-ports recovery b c))
        (cc (build_production_dataflow-build_all python recovery flow))
