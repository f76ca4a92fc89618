-- ===== src/Worker/Graph.antt =====
-- The timely dataflow under construction, and `StreamCache` (src/worker.rs). A stream is an output of
-- a timely operator, the operators numbered in the order in which they are added.
use Prim.Native.String.{String}
use bytewax.Prelude.{ℕ, none, some, List, [], ◌∷◌, ◌++◌, length}
use bytewax.Prelude.Order.Ord.{Ord}
use bytewax.Prelude.Order.Map.{lookup, insert}
use bytewax.Prelude.Results.{Result, ok, err, ok_or, ◌>>=◌}
use bytewax.Worker.Flow.{
  CompileError, unknown_stream, duplicate_stream, OperatorInfo, get_port_stream,
  get_multiport_streams,
}

pub record Stream : Type 0 where
  pub node : ℕ
  pub output : ℕ

pub data NodeKind : Type 0 where
  branch flat_map_batch extract_key stateful_window_unary map_results ok_results : NodeKind
  wrap_window_state_pair partitioned_input dynamic_input inspect_debug concatenate : NodeKind
  partitioned_output dynamic_output exchange unary : NodeKind

pub record Node : Type 0 where
  pub kind : NodeKind
  pub step_id : String
  pub ups : List Stream

-- The operators that are added, the last one first, and what the loop over the steps collects.
pub record Build (K : Type 0) : Type 0 where
  pub nodes : List Node
  pub inputs : List Stream
  pub outputs : List Stream
  pub snaps : List Stream
  pub streams : List (K × Stream)

module _ {K : Type 0} where
  unfoldable pub start : Build K
  start = record { nodes = []; inputs = []; outputs = []; snaps = []; streams = [] }

  -- A timely operator is added; its number is that of the operators before it.
  unfoldable pub add_node : NodeKind → String → List Stream → Build K → ℕ × Build K
  add_node kind step_id ups b = (
    length b.nodes,
    record b { nodes = record { kind = kind; step_id = step_id; ups = ups } ∷ b.nodes },
  )

  unfoldable pub push_input : Stream → Build K → Build K
  push_input s b = record b { inputs = b.inputs ++ s ∷ [] }

  unfoldable pub push_output : Stream → Build K → Build K
  push_output s b = record b { outputs = b.outputs ++ s ∷ [] }

  unfoldable pub push_snap : Stream → Build K → Build K
  push_snap s b = record b { snaps = b.snaps ++ s ∷ [] }

abbrev pub stream : ℕ → ℕ → Stream
stream node output = record { node = node; output = output }

module _ {K : Type 0} ⦃o : Ord K⦄ where
  unfoldable pub collect_streams : List K → Build K → Result (CompileError K) (List Stream)
  collect_streams [] b = ok []
  collect_streams (stream_id ∷ ids) b = do
    s ← ok_or (lookup stream_id b.streams) (unknown_stream stream_id)
    rest ← collect_streams ids b
    ok (s ∷ rest)

  -- `HashMap::insert` yields what stood there before.
  unfoldable pub enter : K → Stream → Build K → Result (CompileError K) (Build K)
  enter stream_id s b = elim (lookup stream_id b.streams) [
    | none ↦ ok (record b { streams = insert stream_id s b.streams })
    | some t ↦ err (duplicate_stream stream_id)
  ]

module _ {K O : Type 0} ⦃o : Ord K⦄ where
  unfoldable pub get_upstream : OperatorInfo K O → String → Build K → Result (CompileError K) Stream
  unfolding get_port_stream
  get_upstream step port_name b = do
    stream_id ← get_port_stream step port_name
    ok_or (lookup stream_id b.streams) (unknown_stream stream_id)

  unfoldable pub get_upmultistream :
      OperatorInfo K O → String → Build K → Result (CompileError K) (List Stream)
  unfolding get_multiport_streams
  get_upmultistream step port_name b = do
    stream_ids ← get_multiport_streams step port_name
    collect_streams stream_ids b

  unfoldable pub insert_downstream :
      OperatorInfo K O → String → Stream → Build K → Result (CompileError K) (Build K)
  unfolding get_port_stream
  insert_downstream step port_name s b = do
    stream_id ← get_port_stream step port_name
    enter stream_id s b
