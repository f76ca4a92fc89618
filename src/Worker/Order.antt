-- ===== src/Worker/Order.antt =====
-- The order in which `build_production_dataflow` (src/worker.rs) comes to the core operators.
use mathlib.Core.List.{append-nil, append_assoc, reverse, reverse-reverse, reverse-append}
use bytewax.Prelude.{
  ℕ, zero, suc, ◌+◌, ◌<◌, ◌≡◌, refl, sym, ap, ◌∙◌, Bool, some, List, [], ◌∷◌, ◌++◌, arith,
  Bool-cases, inl, inr,
}
use bytewax.Prelude.Order.Ord.{Ord}
use bytewax.Prelude.Results.{Result, ok, err, ◌>>=◌}
use bytewax.Worker.Flow.{
  CompileError, OperatorInfo, Operator, Operators, operator, nil, cons, info, substeps, to_list,
  leaves, leaves_all, size, size_all,
}
use bytewax.Worker.Graph.{Build, start}
use bytewax.Worker.Compile.{
  Python, extend, build_step, build_steps, build_production_dataflow, finish_built,
}

extend-reverse : {A : Type 0} (xs stack : List A) → extend xs stack ≡ reverse xs ++ stack
unfolding extend
extend-reverse [] stack = refl
extend-reverse (x ∷ xs) stack =
    extend-reverse xs (x ∷ stack)
    ∙ sym (append_assoc (reverse xs) (x ∷ []) stack)
    ∙ ap (λ ys. ys ++ stack) (sym (reverse-append (x ∷ []) xs))

extend-append : {A : Type 0} (xs stack : List A) → extend (reverse xs) stack ≡ xs ++ stack
extend-append xs stack =
    extend-reverse (reverse xs) stack ∙ ap (λ ys. ys ++ stack) (reverse-reverse xs)

module _ {K O : Type 0} where
  leaves_of : List (Operator K O) → List (OperatorInfo K O)
  leaves_of [] = []
  leaves_of (s ∷ ss) = leaves s ++ leaves_of ss

  size_of : List (Operator K O) → ℕ
  size_of [] = 0
  size_of (s ∷ ss) = size s + size_of ss

  leaves_of-append :
      (ss : Operators K O) (stack : List (Operator K O))
      → leaves_of (to_list ss ++ stack) ≡ leaves_all ss ++ leaves_of stack
  unfolding to_list leaves_of leaves_all
  leaves_of-append nil stack = refl
  leaves_of-append (cons s ss) stack =
      ap (λ ls. leaves s ++ ls) (leaves_of-append ss stack)
      ∙ sym (append_assoc (leaves s) (leaves_all ss) (leaves_of stack))

  size_of-append :
      (ss : Operators K O) (stack : List (Operator K O))
      → size_of (to_list ss ++ stack) ≡ size_all ss + size_of stack
  unfolding to_list size_of size_all
  size_of-append nil stack = omega arith
  size_of-append (cons s ss) stack = omega (arith, size_of-append ss stack)

module _ {K O : Type 0} ⦃o : Ord K⦄ (python : Python O) where
  -- The steps, built one after the other.
  unfoldable pub build_all : List (OperatorInfo K O) → Build K → Result (CompileError K) (Build K)
  build_all [] b = ok b
  build_all (step ∷ steps) b = do b' ← build_step python step b; build_all steps b'

  after_step :
      (fuel : ℕ) (stack : List (Operator K O)) (steps : List (OperatorInfo K O))
      → ((b : Build K) → build_steps python fuel stack b ≡ some (build_all steps b))
      → (r : Result (CompileError K) (Build K))
      → elim r [ ok b ↦ build_steps python fuel stack b | err e ↦ some (err e) ]
        ≡ some (r >>= λ b. build_all steps b)
  after_step fuel stack steps next (ok b) = next b
  after_step fuel stack steps next (err e) = refl

  build_steps-build_all :
      (fuel : ℕ) (stack : List (Operator K O)) (b : Build K)
      → size_of stack < fuel
      → build_steps python fuel stack b ≡ some (build_all (leaves_of stack) b)
  unfolding build_steps build_all leaves_of size_of size leaves info substeps
  build_steps-build_all zero stack b h = absurd (omega arith)
  build_steps-build_all (suc fuel) [] b h = refl
  build_steps-build_all (suc fuel) (operator i subs ∷ stack) b h = elim (Bool-cases i.is_core) [
    | inl core ↦
        let less : size_of stack < fuel = omega arith in
        rw core (
          after_step fuel stack (leaves_of stack) (λ b'. build_steps-build_all fuel stack b' less)
            _)
    | inr other ↦
        rw (other, extend-append (to_list subs) stack, ← leaves_of-append subs stack)
          (build_steps-build_all fuel (to_list subs ++ stack) b
            (omega (arith, size_of-append subs stack)))
  ]

  -- However the operators are nested, the loop over the stack ends, and it builds just the core
  -- operators, one after the other in the order in which they stand in the dataflow.
  pub build_production_dataflow-build_all :
      (recovery : Bool) (flow : Operators K O)
      → build_production_dataflow python recovery flow
        ≡ some (finish_built recovery (build_all (leaves_all flow) start))
  unfolding build_production_dataflow leaves_of size_of
  build_production_dataflow-build_all recovery flow =
      let enough : size_of (to_list flow ++ []) < suc (size_all flow) =
        omega (arith, size_of-append flow []) in
      rw
        (
          extend-append (to_list flow) [],
          build_steps-build_all (suc (size_all flow)) (to_list flow ++ []) start enough,
          leaves_of-append flow [],
        )
        (ap (λ ls. some (finish_built recovery (build_all ls start))) all)
    where
      all : leaves_all flow ++ leaves_of [] ≡ leaves_all flow
      all = append-nil _
