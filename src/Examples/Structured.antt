-- ===== src/Examples/Structured.antt =====
-- lib/AnalysisStructured/PtrAnalysis.cpp at concrete operands: the sum of a splatted pointer and of
-- arange(0, 8) % size, and a dimension that is merged with an unstructured one.
use spine_triton.Prelude.{some, ℤ, Option, arith, false, true, none, [], ◌∷◌, pos, ◌≡◌, refl}
use spine_triton.Ir.{
  Env, Interp, interp_of, Returns, then_do, pure, Value, scalar, tensor, integer, pointer, index,
  block_arg, opaque, splat, make_range, binary, addptr, remsi,
}
use spine_triton.Ofr.{index_attr, value}
use spine_triton.Structured.Sum.{merge_dim, add_state}
use spine_triton.Ptr.State
use spine_triton.Structured.State.{PtrState}
use spine_triton.Structured.Plain.{IsPlain}
use spine_triton.Structured.Plain.Sums.{
  as_memref_state, of_memref_state, add_state_agrees, IsSum, add_state-IsSum,
}
use spine_triton.Structured.Visit.{Context, other_op}
use spine_triton.Structured.Operand.{visit_operand}
use spine_triton.Structured.Ranks.{IsEven, Makes}
use spine_triton.Structured.Ranks.Whole.{KnowsEven, visit_operand-IsEven}
use spine_triton.Structured.Limits.{merge_dim_drops_walk}

abbrev context : Context
context = record {
  is_analysing_unstructured = false;
  enable_gather_scatter = true;
  known_ptrs = λ v. none;
  ptr_map = λ v. none;
  origin = λ v. other_op;
}

context-KnowsEven : KnowsEven context
context-KnowsEven = record { known_even = λ v. tt; loops_even = λ v. tt }

abbrev lanes : Value
lanes = make_range 2 0 8 8

abbrev wrapped_lanes : Value
wrapped_lanes =
    binary 5 remsi lanes
      (splat 4 (tensor (8 ∷ []) (integer 32)) (block_arg 3 (scalar (integer 32))))

abbrev row : Value
row =
    binary 6 addptr (splat 1 (tensor (8 ∷ []) pointer) (block_arg 0 (scalar pointer))) wrapped_lanes

visit_operand-IsEven_example : Makes IsEven (visit_operand context row 7)
visit_operand-IsEven_example = visit_operand-IsEven context context-KnowsEven row 7

abbrev gathered : Value
gathered = opaque 3 (tensor (8 ∷ []) index)

merge_dim_drops_walk_example :
    merge_dim (index_attr (pos 5)) (value gathered) (index_attr (pos 1)) (index_attr (pos 1)) 9
    ≡ merge_dim (index_attr (pos 5)) (value gathered) (index_attr (pos 0)) (index_attr (pos 1)) 9
merge_dim_drops_walk_example = merge_dim_drops_walk (pos 5) gathered 9 refl refl

abbrev thirteens : Env
thirteens i idx = pos 13

abbrev run13 : Interp
run13 = interp_of thirteens

abbrev axis_state : ℤ → ℤ → Option Value → PtrState
axis_state o k p = record {
  offsets = index_attr o ∷ [];
  origi_offsets = [];
  sizes = index_attr (pos 8) ∷ [];
  strides = index_attr k ∷ [];
  shape = index_attr (pos 0) ∷ [];
  order = [];
  source = p;
  scalar = none;
}

abbrev pointers : PtrState
pointers = axis_state (pos 3) (pos 1) (some (block_arg 0 (scalar pointer)))

abbrev moves : PtrState
moves = axis_state (pos 5) (pos 2) none

pointers-IsPlain : IsPlain pointers 1
pointers-IsPlain = record {
  offsets_index = (omega arith, tt);
  strides_index = (omega arith, tt);
  offsets_rank = refl;
  sizes_rank = refl;
  strides_rank = refl;
  shape_zeros = refl;
  no_order = refl;
}

moves-IsPlain : IsPlain moves 1
moves-IsPlain = record {
  offsets_index = (omega arith, tt);
  strides_index = (omega arith, tt);
  offsets_rank = refl;
  sizes_rank = refl;
  strides_rank = refl;
  shape_zeros = refl;
  no_order = refl;
}

add_state_agrees_example :
    add_state true pointers moves 8
    ≡ then_do
        (State.add_state (as_memref_state 1 pointers) (as_memref_state 1 moves) 8)
        (λ s. pure (of_memref_state 1 s))
add_state_agrees_example =
    add_state_agrees true pointers moves 1 8 pointers-IsPlain moves-IsPlain refl

add_state-IsSum_example :
    Returns (λ s m. IsSum run13 pointers moves s 1) (add_state false pointers moves 8)
add_state-IsSum_example =
    add_state-IsSum run13 false pointers moves 1 8 pointers-IsPlain moves-IsPlain tt tt refl
