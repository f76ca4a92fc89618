-- ===== src/Worker/Compile.antt =====
-- `build_production_dataflow` (src/worker.rs): the core operators of a dataflow, one after the other,
-- become timely operators. Which class a Python object has, and whether the user's sources, sinks,
-- clocks and windowers can be built, are arguments.
use Prim.Native.String.{String}
use text.Mathlib.Text.{◌==◌}
use mathlib.Core.List.{reverse}
use mathlib.Core.Option
use bytewax.Prelude.{
  ℕ, zero, suc, Bool, true, false, not, Option, none, some, List, [], ◌∷◌, if◌then◌else◌,
}
use bytewax.Prelude.Order.Ord.{Ord}
use bytewax.Prelude.Results.{Result, ok, err, ensure, ◌>>=◌, ◌>>◌}
use bytewax.Worker.Flow.{
  CompileError, bad_arg, unknown_operator, build_failed, unknown_source, unknown_sink, no_input,
  no_output, OperatorInfo, Operator, Operators, info, substeps, size_all, to_list, get_arg,
}
use bytewax.Worker.Graph.{
  Stream, stream, NodeKind, Node, Build, start, add_node, push_input, push_output, push_snap,
  get_upstream, get_upmultistream, insert_downstream,
}

-- What the end of the dataflow is attached to, and with which operators in front of it.
pub data Probed : Type 0 where
  write_recovery outputs : List Stream → Probed

pub record Production : Type 0 where
  pub nodes : List Node
  pub probed : Probed

-- The classes that an argument is extracted as.
pub data ArgClass : Type 0 where
  callable clock windower source fixed_source dynamic_source : ArgClass
  sink fixed_sink dynamic_sink : ArgClass

pub record Python (O : Type 0) : Type 0 where
  pub is_instance : ArgClass → O → Bool
  pub builds : O → Bool

pub data Core : Type 0 where
  noop branch flat_map_batch fold_window input inspect_debug merge output redistribute unary : Core

-- The names that the `match` knows.
unfoldable pub core_of : String → Option Core
core_of name =
    if name == "_noop"
    then some Core.noop
    else if name == "branch"
    then some Core.branch
    else if name == "flat_map_batch"
    then some Core.flat_map_batch
    else if name == "fold_window"
    then some Core.fold_window
    else if name == "input"
    then some Core.input
    else if name == "inspect_debug"
    then some Core.inspect_debug
    else if name == "merge"
    then some Core.merge
    else if name == "output"
    then some Core.output
    else if name == "redistribute"
    then some Core.redistribute
    else if name == "unary"
    then some Core.unary
    else none

-- `Vec::extend` on the stack, whose end comes first in the list.
unfoldable pub extend : {A : Type 0} → List A → List A → List A
extend [] stack = stack
extend (x ∷ xs) stack = extend xs (x ∷ stack)

abbrev pub is_empty : {A : Type 0} → List A → Bool
is_empty [] = true
is_empty (x ∷ xs) = false

-- The end of the function, where `recovery` is whether there is a recovery configuration.
unfoldable pub finish : {K : Type 0} → Bool → Build K → Result (CompileError K) Production
finish recovery b = do
  ensure (not (is_empty b.inputs)) no_input
  ensure (not (is_empty b.outputs)) no_output
  ok (record {
    nodes = b.nodes;
    probed = if recovery then write_recovery b.snaps else outputs b.outputs;
  })

unfoldable pub finish_built :
    {K : Type 0} → Bool → Result (CompileError K) (Build K) → Result (CompileError K) Production
finish_built recovery built = do b ← built; finish recovery b

module _ {K O : Type 0} ⦃o : Ord K⦄ (python : Python O) where
  unfoldable pub extract_arg : OperatorInfo K O → String → ArgClass → Result (CompileError K) O
  unfolding get_arg
  extract_arg step attr_name class = do
    object ← get_arg step attr_name
    ensure (python.is_instance class object) (bad_arg attr_name)
    ok object

  -- `extract_key`, `stateful_window_unary` and the three operators behind it.
  unfoldable pub build_windowed :
      Stream → OperatorInfo K O → Build K → Result (CompileError K) (Build K)
  build_windowed up step b =
      let (keyed, b₁) = add_node NodeKind.extract_key step.step_id (up ∷ []) b in
      let (windowed, b₂) =
        add_node NodeKind.stateful_window_unary step.step_id (stream keyed 0 ∷ []) b₁ in
      let (results, b₃) = add_node NodeKind.map_results step.step_id (stream windowed 0 ∷ []) b₂ in
      let (oks, b₄) = add_node NodeKind.ok_results step.step_id (stream results 0 ∷ []) b₃ in
      let (down, b₅) =
        add_node NodeKind.wrap_window_state_pair step.step_id (stream oks 0 ∷ []) b₄ in
      insert_downstream step "down" (stream down 0) (push_snap (stream windowed 1) b₅)

  unfoldable pub build_fold_window : OperatorInfo K O → Build K → Result (CompileError K) (Build K)
  build_fold_window step b = do
    clock_config ← extract_arg step "clock" clock
    windower_config ← extract_arg step "windower" windower
    builder ← extract_arg step "builder" callable
    folder ← extract_arg step "folder" callable
    up ← get_upstream step "up" b
    ensure (python.builds clock_config) (build_failed "clock")
    ensure (python.builds windower_config) (build_failed "windower")
    build_windowed up step b

  unfoldable pub build_fixed_input :
      O → OperatorInfo K O → Build K → Result (CompileError K) (Build K)
  build_fixed_input object step b = do
    ensure (python.builds object) (build_failed "FixedPartitionedSource")
    let (n, b₁) = add_node NodeKind.partitioned_input step.step_id [] b
    insert_downstream step "down" (stream n 0) (push_snap (stream n 1) (push_input (stream n 0) b₁))

  unfoldable pub build_dynamic_input :
      O → OperatorInfo K O → Build K → Result (CompileError K) (Build K)
  build_dynamic_input object step b = do
    ensure (python.builds object) (build_failed "DynamicSource")
    let (n, b₁) = add_node NodeKind.dynamic_input step.step_id [] b
    insert_downstream step "down" (stream n 0) (push_input (stream n 0) b₁)

  unfoldable pub build_input : OperatorInfo K O → Build K → Result (CompileError K) (Build K)
  build_input step b = do
    object ← extract_arg step "source" source
    (if python.is_instance fixed_source object
        then build_fixed_input object step b
        else if python.is_instance dynamic_source object
        then build_dynamic_input object step b
        else err unknown_source)

  unfoldable pub build_fixed_output :
      O → Stream → OperatorInfo K O → Build K → Result (CompileError K) (Build K)
  build_fixed_output object up step b = do
    ensure (python.builds object) (build_failed "FixedPartitionedSink")
    let (n, b₁) = add_node NodeKind.partitioned_output step.step_id (up ∷ []) b
    ok (push_snap (stream n 1) (push_output (stream n 0) b₁))

  unfoldable pub build_dynamic_output :
      O → Stream → OperatorInfo K O → Build K → Result (CompileError K) (Build K)
  build_dynamic_output object up step b = do
    ensure (python.builds object) (build_failed "DynamicSink")
    let (n, b₁) = add_node NodeKind.dynamic_output step.step_id (up ∷ []) b
    ok (push_output (stream n 0) b₁)

  unfoldable pub build_output : OperatorInfo K O → Build K → Result (CompileError K) (Build K)
  build_output step b = do
    object ← extract_arg step "sink" sink
    up ← get_upstream step "up" b
    (if python.is_instance fixed_sink object
        then build_fixed_output object up step b
        else if python.is_instance dynamic_sink object
        then build_dynamic_output object up step b
        else err unknown_sink)

  -- The arms of the `match` on the name.
  unfoldable pub build_core : Core → OperatorInfo K O → Build K → Result (CompileError K) (Build K)
  build_core Core.noop step b = do up ← get_upstream step "up" b; insert_downstream step "down" up b
  build_core Core.branch step b = do
    predicate ← extract_arg step "predicate" callable
    up ← get_upstream step "up" b
    let (n, b₁) = add_node NodeKind.branch step.step_id (up ∷ []) b
    b₂ ← insert_downstream step "trues" (stream n 1) b₁
    insert_downstream step "falses" (stream n 0) b₂
  build_core Core.flat_map_batch step b = do
    mapper ← extract_arg step "mapper" callable
    up ← get_upstream step "up" b
    let (n, b₁) = add_node NodeKind.flat_map_batch step.step_id (up ∷ []) b
    insert_downstream step "down" (stream n 0) b₁
  build_core Core.fold_window step b = build_fold_window step b
  build_core Core.input step b = build_input step b
  build_core Core.inspect_debug step b = do
    inspector ← extract_arg step "inspector" callable
    up ← get_upstream step "up" b
    let (n, b₁) = add_node NodeKind.inspect_debug step.step_id (up ∷ []) b
    insert_downstream step "down" (stream n 0) (push_output (stream n 1) b₁)
  build_core Core.merge step b = do
    ups ← get_upmultistream step "ups" b
    let (n, b₁) = add_node NodeKind.concatenate step.step_id ups b
    insert_downstream step "down" (stream n 0) b₁
  build_core Core.output step b = build_output step b
  build_core Core.redistribute step b = do
    up ← get_upstream step "up" b
    let (n, b₁) = add_node NodeKind.exchange step.step_id (up ∷ []) b
    insert_downstream step "down" (stream n 0) b₁
  build_core Core.unary step b = do
    builder ← extract_arg step "builder" callable
    up ← get_upstream step "up" b
    let (n, b₁) = add_node NodeKind.unary step.step_id (up ∷ []) b
    insert_downstream step "down" (stream n 0) (push_snap (stream n 1) b₁)

  unfoldable pub build_step : OperatorInfo K O → Build K → Result (CompileError K) (Build K)
  build_step step b = elim (core_of step.name) [
    | some core ↦ build_core core step b
    | none ↦ err (unknown_operator step.name)
  ]

  -- The loop over the stack; `none` means that the fuel ran out.
  unfoldable pub build_steps :
      ℕ → List (Operator K O) → Build K → Option (Result (CompileError K) (Build K))
  build_steps zero stack b = none
  build_steps (suc fuel) [] b = some (ok b)
  build_steps (suc fuel) (step ∷ build_stack) b = elim (info step).is_core [
    | true ↦ elim (build_step (info step) b) [
      | ok b' ↦ build_steps fuel build_stack b'
      | err e ↦ some (err e)
    ]
    | false ↦ build_steps fuel (extend (reverse (substeps step)) build_stack) b
  ]

  -- The fuel is one more than the operators of the dataflow.
  unfoldable pub build_production_dataflow :
      Bool → Operators K O → Option (Result (CompileError K) Production)
  unfolding finish
  build_production_dataflow recovery flow =
      Option.map (finish_built recovery)
        (build_steps (suc (size_all flow)) (extend (reverse (to_list flow)) []) start)
