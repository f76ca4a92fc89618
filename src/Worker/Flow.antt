-- ===== src/Worker/Flow.antt =====
-- A dataflow as the worker reads it from Python (src/dataflow.rs): a tree of operators. The objects
-- that are arguments of an operator are values of a type `O`, and the identifiers of the streams those
-- of a type `K`.
use Prim.Native.String.{String}
use bytewax.Prelude.{ℕ, suc, ◌+◌, Bool, Option, List, [], ◌∷◌, ◌++◌, if◌then◌else◌}
use bytewax.Prelude.Results.{Result, ok_or}

-- Why the compilation ends: the exceptions by what they are about.
pub data CompileError (K : Type 0) : Type 0 where
  missing_arg missing_port missing_multi_port bad_arg : String → CompileError K
  unknown_stream duplicate_stream : K → CompileError K
  unknown_operator : String → CompileError K
  build_failed : String → CompileError K
  unknown_source unknown_sink no_input no_output : CompileError K

-- The attributes of an operator; `none` is an attribute that is not there.
pub record OperatorInfo (K O : Type 0) : Type 0 where
  pub step_id : String
  pub name : String
  pub is_core : Bool
  pub arg : String → Option O
  pub port : String → Option K
  pub multi_port : String → Option (List K)

mutual
  pub data Operator (K O : Type 0) : Type 0 where
    operator : OperatorInfo K O → Operators K O → Operator K O

  -- `Vec<Operator>`, where a substep stands in it.
  pub data Operators (K O : Type 0) : Type 0 where
    nil : Operators K O
    cons : Operator K O → Operators K O → Operators K O

module _ {K O : Type 0} where
  unfoldable pub to_list : Operators K O → List (Operator K O)
  to_list nil = []
  to_list (cons s ss) = s ∷ to_list ss

  unfoldable pub info : Operator K O → OperatorInfo K O
  info (operator i substeps) = i

  unfoldable pub substeps : Operator K O → List (Operator K O)
  unfolding to_list
  substeps (operator i subs) = to_list subs

  unfoldable pub get_arg : OperatorInfo K O → String → Result (CompileError K) O
  get_arg step attr_name = ok_or (step.arg attr_name) (missing_arg attr_name)

  unfoldable pub get_port_stream : OperatorInfo K O → String → Result (CompileError K) K
  get_port_stream step port_name = ok_or (step.port port_name) (missing_port port_name)

  unfoldable pub get_multiport_streams :
      OperatorInfo K O → String → Result (CompileError K) (List K)
  get_multiport_streams step port_name =
      ok_or (step.multi_port port_name) (missing_multi_port port_name)

-- The core operators of a tree in the order in which they stand, those below a core operator left out.
unfoldable mutual
  pub leaves : {K O : Type 0} → Operator K O → List (OperatorInfo K O)
  leaves (operator i subs) = let below = leaves_all subs in if i.is_core then i ∷ [] else below

  pub leaves_all : {K O : Type 0} → Operators K O → List (OperatorInfo K O)
  leaves_all nil = []
  leaves_all (cons s ss) = leaves s ++ leaves_all ss

unfoldable mutual
  pub size : {K O : Type 0} → Operator K O → ℕ
  size (operator i subs) = suc (size_all subs)

  pub size_all : {K O : Type 0} → Operators K O → ℕ
  size_all nil = 0
  size_all (cons s ss) = size s + size_all ss
