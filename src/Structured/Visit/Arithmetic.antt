-- ===== src/Structured/Visit/Arithmetic.antt =====
-- lib/AnalysisStructured/PtrAnalysis.cpp: what the visitors read, and visitOperandAdd, visitOperandSub
-- and visitOperandMul.
use spine_triton.Prelude.{
  ℕ, ◌==◌, Bool, true, not, ◌||◌, Option, none, some, List, [], ◌∷◌, pos, if◌then◌else◌,
}
use spine_triton.Ir.{
  Value, subi, Outcome, ok, failed, fault, M, pure, fail, check, ◌>>=◌, ◌>>◌, create_constant,
  create_binary,
}
use spine_triton.Ofr.{Ofr, index_attr, sub_ofrs}
use spine_triton.Structured.State.{
  PtrState, empty_state, both, get_rank, is_structured, has_modulo, get_non_structured_dim,
  rebuild_as_gather_scatter,
}
use spine_triton.Structured.Sum.{add_state}
use spine_triton.Structured.Product.{mul_state}

-- What defines a pointer or a tensor that `Value` does not describe. A view carries whether its
-- types are tensor pointers, a loop result the state that getLoopResultPtrState finds.
pub data Origin : Type 0 where
  int_to_ptr : Origin
  if_result : Origin
  alloc : List ℕ → Origin
  view : Bool → Origin
  loop_result : Option PtrState → Origin
  other_op : Origin

-- The members of PtrAnalysis that the visitors read, and the defining operations.
pub record Context : Type 0 where
  pub is_analysing_unstructured : Bool
  pub enable_gather_scatter : Bool
  pub known_ptrs : Value → Option PtrState
  pub ptr_map : Value → Option Value
  pub origin : Value → Origin

abbrev pub scalar_state : Value → PtrState
scalar_state v = record empty_state { scalar = some v }

abbrev pub source_state : Value → PtrState
source_state v = record empty_state { source = some v }

-- state.origiOffsets = state.offsets
abbrev pub with_origins : PtrState → PtrState
with_origins s = record s { origi_offsets = s.offsets }

-- assert(enableMakeGatherScatterTensorPtr) where the analysis is unstructured
abbrev pub check_mode : Context → M (Unit {0})
check_mode cx = check (not cx.is_analysing_unstructured || cx.enable_gather_scatter)

-- `succeeded(first)`, and the second one where it fails.
abbrev pub or_failing {ℓ} : {A : Type ℓ} → Outcome A → Outcome A → Outcome A
or_failing (ok a n) other = ok a n
or_failing failed other = other
or_failing fault other = fault

unfoldable pub gather_scatter : Context → PtrState → Value → M ℕ → M PtrState
gather_scatter cx s v dim =
    if not cx.enable_gather_scatter then fail else dim >>= λ i. rebuild_as_gather_scatter s v i

-- One state with a modulo, the other one not structured: the former takes its operand as offset.
unfoldable pub clear_modulos :
    Context → Value → Value → PtrState → PtrState → M (PtrState × PtrState)
unfolding gather_scatter
clear_modulos cx vl vr l r = do
  right ← both (pure (not (is_structured l))) (has_modulo r)
  (if right
      then (gather_scatter cx r vr (get_non_structured_dim l) >>= λ r'. pure (l, r'))
      else (both (has_modulo l) (pure (not (is_structured r))) >>= λ left.
          if left
          then (gather_scatter cx l vl (get_non_structured_dim r) >>= λ l'. pure (l', r))
          else pure (l, r)))

line_with_modulo : PtrState → M Bool
line_with_modulo s = get_rank s >>= λ rank. both (pure (rank == 1)) (has_modulo s)

-- A state of rank 1 with a modulo
unfoldable pub either_line : PtrState → PtrState → M Bool
unfolding line_with_modulo
either_line l r = line_with_modulo l >>= λ b. if b then pure true else line_with_modulo r

unfoldable pub visit_add : Context → Value → Value → M PtrState → M PtrState → M PtrState
unfolding either_line clear_modulos
visit_add cx vl vr lhs rhs = do
  l ← lhs
  r ← rhs
  bad ← either_line l r
  (if bad then fail else (do
    c ← clear_modulos cx vl vr l r
    check_mode cx
    s ← add_state cx.is_analysing_unstructured c.0 c.1
    pure (with_origins s)))

unfoldable pub visit_mul : Context → Value → Value → M PtrState → M PtrState → M PtrState
unfolding clear_modulos
visit_mul cx vl vr lhs rhs = do
  l ← lhs
  r ← rhs
  c ← clear_modulos cx vl vr l r
  check_mode cx
  s ← mul_state cx.is_analysing_unstructured c.0 c.1
  pure (with_origins s)

unfoldable pub negate_scalar : Option Value → M (Option Value)
negate_scalar none = pure none
negate_scalar (some v) = do z ← create_constant (pos 0); w ← create_binary subi z v; pure (some w)

-- Offsets and strides, each subtracted from 0.
unfoldable pub negate_dims : List Ofr → List Ofr → M (List Ofr × List Ofr)
negate_dims (o ∷ os) (s ∷ ss) = do
  offset ← sub_ofrs (index_attr (pos 0)) o
  stride ← sub_ofrs (index_attr (pos 0)) s
  rest ← negate_dims os ss
  pure (offset ∷ rest.0, stride ∷ rest.1)
negate_dims _ _ = pure ([], [])

-- The extents of the dimensions, 0 where the state has none.
abbrev pub pad_shape : List Ofr → List Ofr → List Ofr
pad_shape [] es = []
pad_shape (o ∷ os) [] = index_attr (pos 0) ∷ pad_shape os []
pad_shape (o ∷ os) (e ∷ es) = e ∷ pad_shape os es

unfoldable pub negate_state : PtrState → M PtrState
unfolding negate_scalar negate_dims
negate_state r = do
  negated ← negate_scalar r.scalar
  dims ← negate_dims r.offsets r.strides
  pure (record empty_state {
    offsets = dims.0;
    strides = dims.1;
    sizes = r.sizes;
    shape = pad_shape r.offsets r.shape;
    scalar = negated;
  })

unfoldable pub visit_sub : Context → M PtrState → M PtrState → M PtrState
unfolding negate_state
visit_sub cx lhs rhs = do
  l ← lhs
  r ← rhs
  neg ← negate_state r
  s ← add_state cx.is_analysing_unstructured l neg
  pure (with_origins s)
