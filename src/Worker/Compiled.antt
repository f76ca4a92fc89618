-- ===== src/Worker/Compiled.antt =====
-- What `build_production_dataflow` (src/worker.rs) yields is a graph that timely can run.
use Prim.Native.String.{String}
use bytewax.Prelude.{ℕ, ◌<◌, ◌≡◌, sym, subst, true, List, [], ◌∷◌, arith, All, Bool-cases, inl, inr}
use bytewax.Prelude.Order.Ord.{Ord}
use bytewax.Prelude.Results.{Result, Ensures, Ensures->>=, Ensures-ensure, anything, ◌>>=◌}
use bytewax.Worker.Flow.{CompileError, OperatorInfo}
use bytewax.Worker.Graph.{
  Stream, stream, NodeKind, Build, add_node, push_input, push_output, push_snap, get_upstream,
  get_upmultistream, insert_downstream,
}
use bytewax.Worker.Wiring.{
  output_count, has_stream, IsWired, add_node-IsWired, add_node-has_stream, add_node-keeps,
  insert_downstream-nodes, get_upstream-has_stream, insert_downstream-IsWired, push_snap-IsWired,
  push_input-IsWired, push_output-IsWired, get_upmultistream-has_stream,
}
use bytewax.Worker.Compile

-- A step that may fail before it goes on, whatever it yields.
after_any :
    {E A B : Type 0} (Q : B → Type 0) (m : Result E A) (f : A → Result E B)
    → ((a : A) → Ensures Q (f a))
    → Ensures Q (m >>= f)
after_any Q m f go = Ensures->>= (λ a. Unit {0}) Q m f (anything m) (λ a u. go a)

module _ {K O : Type 0} ⦃o : Ord K⦄ (step : OperatorInfo K O) where
  from_up :
      (b : Build K) (f : Stream → Result (CompileError K) (Build K))
      → IsWired b
      → ((up : Stream) → has_stream b.nodes up ≡ true → Ensures IsWired (f up))
      → Ensures IsWired (get_upstream step "up" b >>= f)
  from_up b f w go =
      Ensures->>= (λ s. has_stream b.nodes s ≡ true) IsWired (get_upstream step "up" b) f
        (get_upstream-has_stream step "up" b w) go

  -- One operator and one stream of it that the later steps read.
  add_down :
      (kind : NodeKind) (ups : List Stream) (b : Build K) (output : ℕ)
      → All (λ s. has_stream b.nodes s ≡ true) ups
      → output < output_count kind
      → IsWired b
      → let (n, b') = add_node kind step.step_id ups b in
        Ensures IsWired (insert_downstream step "down" (stream n output) b')
  add_down kind ups b output there h w =
      insert_downstream-IsWired step "down" (stream (add_node kind step.step_id ups b).0 output) _
        (add_node-has_stream kind step.step_id ups b output h)
        (add_node-IsWired kind step.step_id ups b there w)

module _ {K O : Type 0} ⦃o : Ord K⦄ (python : Compile.Python O) (step : OperatorInfo K O) where
  after_arg :
      (attr_name : String) (class : Compile.ArgClass) (f : O → Result (CompileError K) (Build K))
      → ((object : O) → Ensures IsWired (f object))
      → Ensures IsWired (Compile.extract_arg python step attr_name class >>= f)
  after_arg attr_name class f go =
      after_any IsWired (Compile.extract_arg python step attr_name class) f go

  build_windowed-IsWired :
      (up : Stream) (b : Build K)
      → has_stream b.nodes up ≡ true
      → IsWired b
      → Ensures IsWired (Compile.build_windowed python up step b)
  unfolding Compile.build_windowed push_snap output_count
  build_windowed-IsWired up b h w =
      let s = step.step_id in
      let (keyed, b₁) = add_node NodeKind.extract_key s (up ∷ []) b in
      let w₁ = add_node-IsWired NodeKind.extract_key s (up ∷ []) b (h, tt) w in
      let h₁ = add_node-has_stream NodeKind.extract_key s (up ∷ []) b 0 (omega arith) in
      let ups₁ = stream keyed 0 ∷ [] in
      let (windowed, b₂) = add_node NodeKind.stateful_window_unary s ups₁ b₁ in
      let w₂ = add_node-IsWired NodeKind.stateful_window_unary s ups₁ b₁ (h₁, tt) w₁ in
      let h₂ = add_node-has_stream NodeKind.stateful_window_unary s ups₁ b₁ 0 (omega arith) in
      let snap₂ = add_node-has_stream NodeKind.stateful_window_unary s ups₁ b₁ 1 (omega arith) in
      let ups₂ = stream windowed 0 ∷ [] in
      let (results, b₃) = add_node NodeKind.map_results s ups₂ b₂ in
      let w₃ = add_node-IsWired NodeKind.map_results s ups₂ b₂ (h₂, tt) w₂ in
      let h₃ = add_node-has_stream NodeKind.map_results s ups₂ b₂ 0 (omega arith) in
      let ups₃ = stream results 0 ∷ [] in
      let (oks, b₄) = add_node NodeKind.ok_results s ups₃ b₃ in
      let w₄ = add_node-IsWired NodeKind.ok_results s ups₃ b₃ (h₃, tt) w₃ in
      let h₄ = add_node-has_stream NodeKind.ok_results s ups₃ b₃ 0 (omega arith) in
      let ups₄ = stream oks 0 ∷ [] in
      let (down, b₅) = add_node NodeKind.wrap_window_state_pair s ups₄ b₄ in
      let w₅ = add_node-IsWired NodeKind.wrap_window_state_pair s ups₄ b₄ (h₄, tt) w₄ in
      let h₅ = add_node-has_stream NodeKind.wrap_window_state_pair s ups₄ b₄ 0 (omega arith) in
      let snap₅ = add_node-keeps NodeKind.wrap_window_state_pair s ups₄ b₄ (stream windowed 1) (
        add_node-keeps NodeKind.ok_results s ups₃ b₃ (stream windowed 1)
          (add_node-keeps NodeKind.map_results s ups₂ b₂ (stream windowed 1) snap₂)) in
      insert_downstream-IsWired step "down" (stream down 0) (push_snap (stream windowed 1) b₅) h₅
        (push_snap-IsWired (stream windowed 1) b₅ snap₅ w₅)

  build_fold_window-IsWired :
      (b : Build K) → IsWired b → Ensures IsWired (Compile.build_fold_window python step b)
  unfolding Compile.build_fold_window
  build_fold_window-IsWired b w = after_arg "clock" Compile.clock _ λ clock.
      after_arg "windower" Compile.windower _ λ windower.
        after_arg "builder" Compile.callable _ λ builder.
          after_arg "folder" Compile.callable _ λ folder. from_up step b _ w λ up h.
            Ensures-ensure IsWired (python.builds clock) _ _ (
              Ensures-ensure IsWired (python.builds windower) _ _ (build_windowed-IsWired up b h w))

  build_fixed_input-IsWired :
      (object : O) (b : Build K)
      → IsWired b
      → Ensures IsWired (Compile.build_fixed_input python object step b)
  unfolding Compile.build_fixed_input push_snap push_input output_count
  build_fixed_input-IsWired object b w = Ensures-ensure IsWired (python.builds object) _ _ (
      let (n, b₁) = add_node NodeKind.partitioned_input step.step_id [] b in
      let at₀ = add_node-has_stream NodeKind.partitioned_input step.step_id [] b 0 (omega arith) in
      insert_downstream-IsWired step "down" (stream n 0)
        (push_snap (stream n 1) (push_input (stream n 0) b₁)) at₀
        (push_snap-IsWired (stream n 1) (push_input (stream n 0) b₁)
          (add_node-has_stream NodeKind.partitioned_input step.step_id [] b 1 (omega arith))
          (push_input-IsWired (stream n 0) b₁ at₀
            (add_node-IsWired NodeKind.partitioned_input step.step_id [] b tt w))))

  build_dynamic_input-IsWired :
      (object : O) (b : Build K)
      → IsWired b
      → Ensures IsWired (Compile.build_dynamic_input python object step b)
  unfolding Compile.build_dynamic_input push_input output_count
  build_dynamic_input-IsWired object b w = Ensures-ensure IsWired (python.builds object) _ _ (
      let (n, b₁) = add_node NodeKind.dynamic_input step.step_id [] b in
      let at₀ = add_node-has_stream NodeKind.dynamic_input step.step_id [] b 0 (omega arith) in
      insert_downstream-IsWired step "down" (stream n 0) (push_input (stream n 0) b₁) at₀ (
        push_input-IsWired (stream n 0) b₁ at₀
          (add_node-IsWired NodeKind.dynamic_input step.step_id [] b tt w)))

  build_input-IsWired :
      (b : Build K) → IsWired b → Ensures IsWired (Compile.build_input python step b)
  unfolding Compile.build_input
  build_input-IsWired b w = after_arg "source" Compile.source _ λ object.
      elim (Bool-cases (python.is_instance Compile.fixed_source object)) [
        | inl fixed ↦ rw (fixed) (build_fixed_input-IsWired object b w)
        | inr other ↦ elim (Bool-cases (python.is_instance Compile.dynamic_source object)) [
          | inl dyn ↦ rw (other, dyn) (build_dynamic_input-IsWired object b w)
          | inr neither ↦ rw (other, neither) tt
        ]
      ]

  build_fixed_output-IsWired :
      (object : O) (up : Stream) (b : Build K)
      → has_stream b.nodes up ≡ true
      → IsWired b
      → Ensures IsWired (Compile.build_fixed_output python object up step b)
  unfolding Compile.build_fixed_output push_output output_count
  build_fixed_output-IsWired object up b h w =
      let kind = NodeKind.partitioned_output in
      let (n, b₁) = add_node kind step.step_id (up ∷ []) b in
      let w₁ = add_node-IsWired kind step.step_id (up ∷ []) b (h, tt) w in
      let clock = add_node-has_stream kind step.step_id (up ∷ []) b 0 (omega arith) in
      let snap = add_node-has_stream kind step.step_id (up ∷ []) b 1 (omega arith) in
      Ensures-ensure IsWired (python.builds object) _ _ (
        push_snap-IsWired (stream n 1) (push_output (stream n 0) b₁) snap
          (push_output-IsWired (stream n 0) b₁ clock w₁))

  build_dynamic_output-IsWired :
      (object : O) (up : Stream) (b : Build K)
      → has_stream b.nodes up ≡ true
      → IsWired b
      → Ensures IsWired (Compile.build_dynamic_output python object up step b)
  unfolding Compile.build_dynamic_output output_count
  build_dynamic_output-IsWired object up b h w =
      let kind = NodeKind.dynamic_output in
      let (n, b₁) = add_node kind step.step_id (up ∷ []) b in
      Ensures-ensure IsWired (python.builds object) _ _ (
        push_output-IsWired (stream n 0) b₁
          (add_node-has_stream kind step.step_id (up ∷ []) b 0 (omega arith))
          (add_node-IsWired kind step.step_id (up ∷ []) b (h, tt) w))

  build_output-IsWired :
      (b : Build K) → IsWired b → Ensures IsWired (Compile.build_output python step b)
  unfolding Compile.build_output
  build_output-IsWired b w = after_arg "sink" Compile.sink _ λ object. from_up step b _ w λ up h.
      elim (Bool-cases (python.is_instance Compile.fixed_sink object)) [
        | inl fixed ↦ rw (fixed) (build_fixed_output-IsWired object up b h w)
        | inr other ↦ elim (Bool-cases (python.is_instance Compile.dynamic_sink object)) [
          | inl dyn ↦ rw (other, dyn) (build_dynamic_output-IsWired object up b h w)
          | inr neither ↦ rw (other, neither) tt
        ]
      ]

  build_branch-IsWired :
      (up : Stream) (b : Build K)
      → has_stream b.nodes up ≡ true
      → IsWired b
      → let (n, b₁) = add_node NodeKind.branch step.step_id (up ∷ []) b in
        Ensures IsWired (do
          b₂ ← insert_downstream step "trues" (stream n 1) b₁
          insert_downstream step "falses" (stream n 0) b₂)
  unfolding output_count
  build_branch-IsWired up b h w =
      let kind = NodeKind.branch in
      let (n, b₁) = add_node kind step.step_id (up ∷ []) b in
      let w₁ = add_node-IsWired kind step.step_id (up ∷ []) b (h, tt) w in
      let falses = add_node-has_stream kind step.step_id (up ∷ []) b 0 (omega arith) in
      let trues = add_node-has_stream kind step.step_id (up ∷ []) b 1 (omega arith) in
      Ensures->>= (λ b₂. IsWired b₂ × (b₂.nodes ≡ b₁.nodes)) IsWired
        (insert_downstream step "trues" (stream n 1) b₁) _
        (insert_downstream-nodes step "trues" (stream n 1) b₁ trues w₁)
        λ b₂ k.
          insert_downstream-IsWired step "falses" (stream n 0) b₂
            (subst (λ nodes. has_stream nodes (stream n 0) ≡ true) (sym k.1) falses) k.0

  pub build_core-IsWired :
      (core : Compile.Core) (b : Build K)
      → IsWired b
      → Ensures IsWired (Compile.build_core python core step b)
  unfolding Compile.build_core push_output push_snap output_count
  build_core-IsWired Compile.noop b w =
      from_up step b _ w λ up h. insert_downstream-IsWired step "down" up b h w
  build_core-IsWired Compile.branch b w =
      after_arg "predicate" Compile.callable _
        λ p. from_up step b _ w λ up h. build_branch-IsWired up b h w
  build_core-IsWired Compile.flat_map_batch b w = after_arg "mapper" Compile.callable _ λ p.
      from_up step b _ w
        λ up h. add_down step NodeKind.flat_map_batch (up ∷ []) b 0 (h, tt) (omega arith) w
  build_core-IsWired Compile.fold_window b w = build_fold_window-IsWired b w
  build_core-IsWired Compile.input b w = build_input-IsWired b w
  build_core-IsWired Compile.inspect_debug b w = after_arg "inspector" Compile.callable _ λ p.
      from_up step b _ w λ up h.
        let kind = NodeKind.inspect_debug in
        let (n, b₁) = add_node kind step.step_id (up ∷ []) b in
        insert_downstream-IsWired step "down" (stream n 0) (push_output (stream n 1) b₁)
          (add_node-has_stream kind step.step_id (up ∷ []) b 0 (omega arith))
          (push_output-IsWired (stream n 1) b₁
            (add_node-has_stream kind step.step_id (up ∷ []) b 1 (omega arith))
            (add_node-IsWired kind step.step_id (up ∷ []) b (h, tt) w))
  build_core-IsWired Compile.merge b w =
      Ensures->>= (All (λ s. has_stream b.nodes s ≡ true)) IsWired (get_upmultistream step "ups" b)
        _ (get_upmultistream-has_stream step "ups" b w)
        λ ups h. add_down step NodeKind.concatenate ups b 0 h (omega arith) w
  build_core-IsWired Compile.output b w = build_output-IsWired b w
  build_core-IsWired Compile.redistribute b w =
      from_up step b _ w
        λ up h. add_down step NodeKind.exchange (up ∷ []) b 0 (h, tt) (omega arith) w
  build_core-IsWired Compile.unary b w = after_arg "builder" Compile.callable _ λ p.
      from_up step b _ w λ up h.
        let kind = NodeKind.unary in
        let (n, b₁) = add_node kind step.step_id (up ∷ []) b in
        insert_downstream-IsWired step "down" (stream n 0) (push_snap (stream n 1) b₁)
          (add_node-has_stream kind step.step_id (up ∷ []) b 0 (omega arith))
          (push_snap-IsWired (stream n 1) b₁
            (add_node-has_stream kind step.step_id (up ∷ []) b 1 (omega arith))
            (add_node-IsWired kind step.step_id (up ∷ []) b (h, tt) w))
