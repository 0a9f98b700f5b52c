-- ===== src/Structured/Operand.antt =====
-- lib/AnalysisStructured/PtrAnalysis.cpp: visitOperand.
use spine_triton.Prelude.{true, false, not, Option, none, some, if◌then◌else◌}
use spine_triton.Ir.{
  Ty, scalar, tensor, memref, index_ty, integer, index, pointer, floating, Value, type_of, binary,
  addi, subi, muli, remsi, addptr, make_range, broadcast, splat, expand_dims, constant, select,
  block_arg, loop_arg, make_tensor_ptr, ext_si, ext_ui, bitcast, cmpi, opaque, M, pure, fail, crash,
  ◌>>=◌, ◌>>◌, create_index_cast,
}
use spine_triton.Structured.State.{PtrState, empty_state, rebuild_as_unsupported_op}
use spine_triton.Structured.Visit.{
  Origin, int_to_ptr, if_result, alloc, view, loop_result, other_op, Context, scalar_state,
  source_state, check_mode, visit_add, visit_sub, visit_mul, visit_rem, visit_make_range,
  visit_expand_dims, visit_broadcast, visit_splat, visit_addptr, visit_const_splat, visit_bitcast,
  visit_alloc,
}

abbrev pub state_or : M PtrState → Option PtrState → M PtrState
state_or other none = other
state_or other (some s) = pure s

abbrev pub known : Context → Value → Option PtrState
known cx v = if cx.is_analysing_unstructured then none else cx.known_ptrs v

-- Another block argument of a tensor of pointers, which may have been rewritten.
abbrev pub rewritten_or : M PtrState → Option Value → M PtrState
rewritten_or other none = other
rewritten_or other (some w) = pure (source_state w)

unfoldable pub visit_integer : Value → M PtrState
visit_integer v = create_index_cast index_ty v >>= λ c. pure (scalar_state c)

-- By the type of the operand: `as_pointer` for a scalar pointer, `by_operation` for the rest.
unfoldable pub by_type : Ty → Value → M PtrState → M PtrState → M PtrState
unfolding visit_integer
by_type (scalar (integer w)) v as_pointer by_operation = visit_integer v
by_type (scalar index) v as_pointer by_operation = pure (scalar_state v)
by_type (scalar pointer) v as_pointer by_operation = as_pointer
by_type (scalar floating) v as_pointer by_operation = by_operation
by_type (tensor shape e) v as_pointer by_operation = by_operation
by_type (memref shape e) v as_pointer by_operation = by_operation

unfoldable pub dispatch : Context → Value → M PtrState → M PtrState → M PtrState
unfolding by_type
dispatch cx v as_pointer by_operation =
    check_mode cx >> state_or (by_type (type_of v) v as_pointer by_operation) (known cx v)

-- An operation that the analysis does not look into.
unfoldable pub visit_unsupported : Context → Value → M PtrState
visit_unsupported cx v =
    if not cx.enable_gather_scatter then fail else rebuild_as_unsupported_op empty_state v

-- A block argument that is no scalar pointer: a tensor of pointers may be rewritten, else its state
-- must be known.
unfoldable pub visit_argument : Context → Ty → Value → M PtrState
visit_argument cx (tensor shape pointer) v =
    rewritten_or (state_or fail (cx.known_ptrs v)) (cx.ptr_map v)
visit_argument cx ty v = state_or fail (cx.known_ptrs v)

-- A scalar pointer that another operation defines.
unfoldable pub visit_pointer_origin : Origin → Value → M PtrState
visit_pointer_origin int_to_ptr v = pure (source_state v)
visit_pointer_origin if_result v = pure (source_state v)
visit_pointer_origin (alloc dims) v = pure (visit_alloc v dims)
visit_pointer_origin (view true) v = pure empty_state
visit_pointer_origin (view false) v = fail
visit_pointer_origin (loop_result s) v = fail
visit_pointer_origin other_op v = fail

-- A result of another operation that is no scalar pointer.
unfoldable pub visit_origin : Origin → Context → Value → M PtrState
unfolding visit_unsupported
visit_origin (loop_result s) cx v = state_or fail s
visit_origin _ cx v = visit_unsupported cx v

unfoldable pub visit_operand : Context → Value → M PtrState
unfolding dispatch visit_unsupported visit_argument visit_pointer_origin visit_origin
visit_operand cx (binary i addi l r) =
    dispatch cx (binary i addi l r) fail
      (visit_add cx l r (visit_operand cx l) (visit_operand cx r))
visit_operand cx (binary i subi l r) =
    dispatch cx (binary i subi l r) fail (visit_sub cx (visit_operand cx l) (visit_operand cx r))
visit_operand cx (binary i muli l r) =
    dispatch cx (binary i muli l r) fail
      (visit_mul cx l r (visit_operand cx l) (visit_operand cx r))
visit_operand cx (binary i remsi l r) =
    dispatch cx (binary i remsi l r) fail
      (visit_rem cx (binary i remsi l r) (visit_operand cx l) (visit_operand cx r))
visit_operand cx (binary i addptr l r) =
    let sum = visit_addptr cx (visit_operand cx l) (visit_operand cx r) in
    dispatch cx (binary i addptr l r) sum sum
visit_operand cx (make_range i start end n) =
    dispatch cx (make_range i start end n) fail (visit_make_range start end n)
visit_operand cx (broadcast i t v) =
    dispatch cx (broadcast i t v) fail (visit_broadcast (type_of v) t (visit_operand cx v))
visit_operand cx (splat i t v) =
    dispatch cx (splat i t v) fail (visit_splat (type_of v) t (visit_operand cx v))
visit_operand cx (expand_dims i t axis v) =
    dispatch cx (expand_dims i t axis v) fail (visit_expand_dims t axis (visit_operand cx v))
visit_operand cx (constant i t a) = dispatch cx (constant i t a) fail (visit_const_splat t a)
visit_operand cx (ext_si i t v) = dispatch cx (ext_si i t v) fail (visit_operand cx v)
visit_operand cx (ext_ui i t v) = dispatch cx (ext_ui i t v) fail (visit_operand cx v)
visit_operand cx (cmpi i p l r) = dispatch cx (cmpi i p l r) fail (visit_operand cx l)
visit_operand cx (bitcast i t v) =
    dispatch cx (bitcast i t v) (visit_bitcast (bitcast i t v) (type_of v) t (visit_operand cx v))
      (visit_unsupported cx (bitcast i t v))
visit_operand cx (select i c t f) =
    dispatch cx (select i c t f) (pure (source_state (select i c t f)))
      (visit_unsupported cx (select i c t f))
visit_operand cx (make_tensor_ptr i t) =
    dispatch cx (make_tensor_ptr i t) crash (visit_unsupported cx (make_tensor_ptr i t))
visit_operand cx (block_arg i t) =
    dispatch cx (block_arg i t) (pure (source_state (block_arg i t)))
      (visit_argument cx t (block_arg i t))
visit_operand cx (loop_arg i t nested init next) =
    dispatch cx (loop_arg i t nested init next)
      (pure (source_state (loop_arg i t nested init next)))
      (visit_argument cx t (loop_arg i t nested init next))
visit_operand cx (opaque i t) =
    dispatch cx (opaque i t) (visit_pointer_origin (cx.origin (opaque i t)) (opaque i t))
      (visit_origin (cx.origin (opaque i t)) cx (opaque i t))
visit_operand cx v = dispatch cx v fail (visit_unsupported cx v)
