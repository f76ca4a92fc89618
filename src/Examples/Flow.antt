-- ===== src/Examples/Flow.antt =====
-- A dataflow of an input, a map, which is made of a `flat_map_batch`, and an output, and a worker that
-- runs for three steps (src/worker.rs).
use Prim.Native.String.{String}
use text.Mathlib.Text.{◌==◌ as str_eq}
use bytewax.Prelude.{
  ℕ, ◌+◌, ◌<◌, ◌==◌, leb, ◌≡◌, refl, Bool, true, false, Option, none, some, [], ◌∷◌, if◌then◌else◌,
  ◌↔◌,
}
use bytewax.Prelude.Order.Ord.{ℕ_ord}
use bytewax.Prelude.Results.{ok}
use bytewax.Prelude.Order.Map.{lookup, insert}
use bytewax.Worker.Flow.{
  OperatorInfo, Operators, operator, nil, cons, leaves_all, to_list, info, substeps, size_all,
  get_arg, get_port_stream,
}
use bytewax.Worker.Graph
use bytewax.Worker.Compile
use bytewax.Worker.Graph.{start, partitioned_output, flat_map_batch, partitioned_input, stream}
use bytewax.Worker.Compile.{
  ArgClass, callable, source, fixed_source, sink, fixed_sink, Python, Production, write_recovery,
  outputs, build_production_dataflow, finish_built,
}
use bytewax.Worker.Order.{build_all, build_production_dataflow-build_all}
use bytewax.Worker.Valid.{IsValid, build_production_dataflow-IsValid}
use bytewax.Worker.Collected.{ports, snap_port, clock_port, build_production_dataflow-ports}
use bytewax.Worker.Run.{Timely, run, steps, FirstStop, run-first}

-- The object 0 is a function, 1 a source and 2 a sink.
abbrev is_a : ArgClass → ℕ → Bool
is_a callable n = n == 0
is_a source n = n == 1
is_a fixed_source n = n == 1
is_a sink n = n == 2
is_a fixed_sink n = n == 2
is_a _ n = false

abbrev pub python : Python ℕ
python = record { is_instance = is_a; builds = λ n. true }

abbrev one_arg : String → ℕ → String → Option ℕ
one_arg name n key = if str_eq name key then some n else none

abbrev step_info :
    String → String → Bool → (String → Option ℕ) → (String → Option ℕ) → OperatorInfo ℕ ℕ
step_info step_id name is_core arg port = record {
  step_id = step_id;
  name = name;
  is_core = is_core;
  arg = arg;
  port = port;
  multi_port = λ key. none;
}

abbrev up_down : ℕ → ℕ → String → Option ℕ
up_down up down key =
    if str_eq "up" key then some up else if str_eq "down" key then some down else none

abbrev pub flow : Operators ℕ ℕ
flow =
    cons (operator (step_info "flow.inp" "input" true (one_arg "source" 1) (one_arg "down" 10)) nil)
      (cons
        (operator (step_info "flow.map" "map" false (λ key. none) (up_down 10 11)) (
          cons
            (operator
              (step_info "flow.map.flat_map_batch" "flat_map_batch" true (one_arg "mapper" 0)
                (up_down 10 11))
              nil)
            nil))
        (cons
          (operator (step_info "flow.out" "output" true (one_arg "sink" 2) (one_arg "up" 11)) nil)
          nil))

abbrev pub compiled : Production
compiled = record {
  nodes =
      record { kind = partitioned_output; step_id = "flow.out"; ups = stream 1 0 ∷ [] }
      ∷ record { kind = flat_map_batch; step_id = "flow.map.flat_map_batch"; ups = stream 0 0 ∷ [] }
      ∷ record { kind = partitioned_input; step_id = "flow.inp"; ups = [] }
      ∷ [];
  probed = write_recovery (stream 0 1 ∷ stream 2 1 ∷ []);
}

flow_compiles : build_production_dataflow python true flow ≡ some (ok compiled)
unfolding build_production_dataflow Compile.build_steps Compile.extend to_list info substeps
    size_all Compile.build_step Compile.core_of Compile.build_core Compile.build_input
    Compile.build_output Compile.build_fixed_input Compile.build_fixed_output Compile.extract_arg
    finish_built Compile.finish get_arg get_port_stream Graph.insert_downstream Graph.enter
    Graph.get_upstream Graph.push_snap Graph.push_input Graph.push_output Graph.add_node start
    lookup insert
flow_compiles = refl

build_production_dataflow-build_all_example :
    build_production_dataflow python true flow
    ≡ some (finish_built true (build_all python (leaves_all flow) start))
build_production_dataflow-build_all_example = build_production_dataflow-build_all python true flow

build_production_dataflow-IsValid_example : IsValid compiled
build_production_dataflow-IsValid_example =
    build_production_dataflow-IsValid python true flow compiled flow_compiles

build_production_dataflow-ports_example : compiled.probed ≡ (
    if true
    then write_recovery (ports snap_port compiled.nodes)
    else outputs (ports clock_port compiled.nodes))
build_production_dataflow-ports_example =
    build_production_dataflow-ports python true flow compiled flow_compiles

-- The state of timely's worker is the number of its steps; the first dataflow is done at three, the
-- second at five.
abbrev pub timely : Timely ℕ
timely = record {
  Probe = ℕ;
  abort = λ w. false;
  interrupt_callback = λ w. false;
  done = λ probe w. leb probe w;
  step_or_park = λ w. w + 1;
  drop_dataflows = λ w. w;
}

run-first_example :
    (run timely 9 3 0 ≡ some 3)
    ↔ ((n : ℕ) × (n < 9) × FirstStop timely n 3 0 × (3 ≡ steps timely n 0))
run-first_example = run-first timely 9 3 0 3
