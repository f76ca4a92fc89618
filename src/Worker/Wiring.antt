-- ===== src/Worker/Wiring.antt =====
-- How the timely operators that a worker adds are wired (src/worker.rs).
use Prim.Native.String.{String}
use bytewax.Prelude.{
  ℕ, ◌<◌, ◌==◌, ltb, ◌≡◌, refl, Bool, true, false, List, [], ◌∷◌, arith, All, All-map, All-append,
  length, if◌then◌else◌, Option-cases, inl, inr,
}
use bytewax.Prelude.Order.Ord.{Ord}
use bytewax.Prelude.Order.Map
use bytewax.Prelude.Order.Map.{lookup, insert, lookup-All}
use bytewax.Prelude.Results.{ok_or, Ensures, Ensures->>=, anything, Ensures-map}
use bytewax.Worker.Flow.{unknown_stream, OperatorInfo, get_port_stream, get_multiport_streams}
use bytewax.Worker.Graph.{
  Stream, stream, NodeKind, branch, stateful_window_unary, partitioned_input, inspect_debug,
  partitioned_output, unary, Node, Build, start, add_node, push_input, push_output, push_snap,
  get_upstream, collect_streams, get_upmultistream, enter, insert_downstream,
}

-- The outputs of an operator of each kind.
unfoldable pub output_count : NodeKind → ℕ
output_count branch = 2
output_count stateful_window_unary = 2
output_count partitioned_input = 2
output_count inspect_debug = 2
output_count partitioned_output = 2
output_count unary = 2
output_count _ = 1

-- Whether a stream is an output of one of the operators.
unfoldable pub has_stream : List Node → Stream → Bool
unfolding output_count
has_stream [] s = false
has_stream (n ∷ nodes) s =
    if s.node == length nodes then ltb s.output (output_count n.kind) else has_stream nodes s

-- Each operator reads outputs of operators that were added before it.
unfoldable pub IsAcyclic : List Node → Type 0
IsAcyclic [] = Unit
IsAcyclic (n ∷ nodes) = All (λ s. has_stream nodes s ≡ true) n.ups × IsAcyclic nodes

pub record IsWired {K : Type 0} (b : Build K) : Type 0 where
  pub acyclic : IsAcyclic b.nodes
  pub inputs : All (λ s. has_stream b.nodes s ≡ true) b.inputs
  pub outputs : All (λ s. has_stream b.nodes s ≡ true) b.outputs
  pub snaps : All (λ s. has_stream b.nodes s ≡ true) b.snaps
  pub streams : All (λ e. has_stream b.nodes e.1 ≡ true) b.streams

has_stream-below :
    (nodes : List Node) (s : Stream) → has_stream nodes s ≡ true → s.node < length nodes
unfolding has_stream
has_stream-below [] s h = ground arith
has_stream-below (n ∷ nodes) s h = ground (arith, has_stream-below nodes s)

has_stream-cons :
    (n : Node) (nodes : List Node) (s : Stream)
    → has_stream nodes s ≡ true
    → has_stream (n ∷ nodes) s ≡ true
unfolding has_stream
has_stream-cons n nodes s h = ground (arith, has_stream-below nodes s h)

module _ {K : Type 0} where
  pub start-IsWired : IsWired {K = K} start
  unfolding start IsAcyclic
  start-IsWired = record { acyclic = tt; inputs = tt; outputs = tt; snaps = tt; streams = tt }

  pub add_node-IsWired :
      (kind : NodeKind) (step_id : String) (ups : List Stream) (b : Build K)
      → All (λ s. has_stream b.nodes s ≡ true) ups
      → IsWired b
      → IsWired (add_node kind step_id ups b).1
  unfolding add_node IsAcyclic
  add_node-IsWired kind step_id ups b there w =
      let n : Node = record { kind = kind; step_id = step_id; ups = ups } in
      let keep = λ (s : Stream). has_stream-cons n b.nodes s in
      record {
        acyclic = (there, w.acyclic);
        inputs = All-map (λ s. has_stream b.nodes s ≡ true) keep b.inputs w.inputs;
        outputs = All-map (λ s. has_stream b.nodes s ≡ true) keep b.outputs w.outputs;
        snaps = All-map (λ s. has_stream b.nodes s ≡ true) keep b.snaps w.snaps;
        streams =
            All-map (λ (e : K × Stream). has_stream b.nodes e.1 ≡ true)
              (λ (e : K × Stream). keep e.1) b.streams w.streams;
      }

  pub add_node-keeps :
      (kind : NodeKind) (step_id : String) (ups : List Stream) (b : Build K) (s : Stream)
      → has_stream b.nodes s ≡ true
      → has_stream (add_node kind step_id ups b).1.nodes s ≡ true
  unfolding add_node
  add_node-keeps kind step_id ups b s h = has_stream-cons _ b.nodes s h

  pub add_node-has_stream :
      (kind : NodeKind) (step_id : String) (ups : List Stream) (b : Build K) (output : ℕ)
      → output < output_count kind
      → let (n, b') = add_node kind step_id ups b in has_stream b'.nodes (stream n output) ≡ true
  unfolding add_node has_stream
  add_node-has_stream kind step_id ups b output h = ground arith

  pub push_input-IsWired :
      (s : Stream) (b : Build K)
      → has_stream b.nodes s ≡ true
      → IsWired b
      → IsWired (push_input s b)
  unfolding push_input
  push_input-IsWired s b h w = record {
    acyclic = w.acyclic;
    inputs = All-append (λ s. has_stream b.nodes s ≡ true) b.inputs (s ∷ []) w.inputs (h, tt);
    outputs = w.outputs;
    snaps = w.snaps;
    streams = w.streams;
  }

  pub push_output-IsWired :
      (s : Stream) (b : Build K)
      → has_stream b.nodes s ≡ true
      → IsWired b
      → IsWired (push_output s b)
  unfolding push_output
  push_output-IsWired s b h w = record {
    acyclic = w.acyclic;
    inputs = w.inputs;
    outputs = All-append (λ s. has_stream b.nodes s ≡ true) b.outputs (s ∷ []) w.outputs (h, tt);
    snaps = w.snaps;
    streams = w.streams;
  }

  pub push_snap-IsWired :
      (s : Stream) (b : Build K) → has_stream b.nodes s ≡ true → IsWired b → IsWired (push_snap s b)
  unfolding push_snap
  push_snap-IsWired s b h w = record {
    acyclic = w.acyclic;
    inputs = w.inputs;
    outputs = w.outputs;
    snaps = All-append (λ s. has_stream b.nodes s ≡ true) b.snaps (s ∷ []) w.snaps (h, tt);
    streams = w.streams;
  }

module _ {K : Type 0} ⦃o : Ord K⦄ where
  found :
      (stream_id : K) (b : Build K)
      → IsWired b
      → Ensures
          (λ s. has_stream b.nodes s ≡ true)
          (ok_or (lookup stream_id b.streams) (unknown_stream stream_id))
  found stream_id b w = elim (Option-cases (lookup stream_id b.streams)) [
    | inl e ↦ rw e tt
    | inr (s, e) ↦ rw e (
        lookup-All (λ (e : K × Stream). has_stream b.nodes e.1 ≡ true) stream_id b.streams w.streams
          s e)
  ]

  collect_streams-has_stream :
      (ids : List K) (b : Build K)
      → IsWired b
      → Ensures (All (λ s. has_stream b.nodes s ≡ true)) (collect_streams ids b)
  unfolding collect_streams
  collect_streams-has_stream [] b w = tt
  collect_streams-has_stream (stream_id ∷ ids) b w =
      Ensures->>= (λ s. has_stream b.nodes s ≡ true) (All (λ s. has_stream b.nodes s ≡ true))
        (ok_or (lookup stream_id b.streams) (unknown_stream stream_id)) _ (found stream_id b w)
        λ s h.
          Ensures->>= (All (λ s. has_stream b.nodes s ≡ true))
            (All (λ s. has_stream b.nodes s ≡ true)) (collect_streams ids b) _
            (collect_streams-has_stream ids b w) (λ rest there. (h, there))

  enter-IsWired :
      (stream_id : K) (s : Stream) (b : Build K)
      → has_stream b.nodes s ≡ true
      → IsWired b
      → Ensures (λ b'. IsWired b' × (b'.nodes ≡ b.nodes)) (enter stream_id s b)
  unfolding enter
  enter-IsWired stream_id s b h w = elim (Option-cases (lookup stream_id b.streams)) [
    | inl e ↦
        rw (e, enter)
          (
            record {
              acyclic = w.acyclic;
              inputs = w.inputs;
              outputs = w.outputs;
              snaps = w.snaps;
              streams =
                  Map.All-insert (λ (e : K × Stream). has_stream b.nodes e.1 ≡ true) stream_id s
                    b.streams h w.streams;
            },
            refl,
          )
    | inr (t, e) ↦ rw (e, enter) tt
  ]

module _ {K O : Type 0} ⦃o : Ord K⦄ (step : OperatorInfo K O) (port_name : String) where
  pub get_upstream-has_stream :
      (b : Build K)
      → IsWired b
      → Ensures (λ s. has_stream b.nodes s ≡ true) (get_upstream step port_name b)
  unfolding get_upstream
  get_upstream-has_stream b w =
      Ensures->>= (λ k. Unit {0}) (λ s. has_stream b.nodes s ≡ true)
        (get_port_stream step port_name) _ (anything (get_port_stream step port_name))
        (λ k u. found k b w)

  pub get_upmultistream-has_stream :
      (b : Build K)
      → IsWired b
      → Ensures (All (λ s. has_stream b.nodes s ≡ true)) (get_upmultistream step port_name b)
  unfolding get_upmultistream
  get_upmultistream-has_stream b w =
      Ensures->>= (λ k. Unit {0}) (All (λ s. has_stream b.nodes s ≡ true))
        (get_multiport_streams step port_name) _ (anything (get_multiport_streams step port_name))
        (λ ids u. collect_streams-has_stream ids b w)

  pub insert_downstream-nodes :
      (s : Stream) (b : Build K)
      → has_stream b.nodes s ≡ true
      → IsWired b
      → Ensures (λ b'. IsWired b' × (b'.nodes ≡ b.nodes)) (insert_downstream step port_name s b)
  unfolding insert_downstream
  insert_downstream-nodes s b h w =
      Ensures->>= (λ k. Unit {0}) (λ b'. IsWired b' × (b'.nodes ≡ b.nodes))
        (get_port_stream step port_name) _ (anything (get_port_stream step port_name))
        (λ k u. enter-IsWired k s b h w)

  pub insert_downstream-IsWired :
      (s : Stream) (b : Build K)
      → has_stream b.nodes s ≡ true
      → IsWired b
      → Ensures IsWired (insert_downstream step port_name s b)
  insert_downstream-IsWired s b h w =
      Ensures-map (λ b'. IsWired b' × (b'.nodes ≡ b.nodes)) IsWired _ (λ b' k. k.0)
        (insert_downstream-nodes s b h w)
